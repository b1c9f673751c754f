-- ===== src/Logging/Standard.antt =====
-- Every log line has the nine keys of the standard.
use relay_scheduler.Base.{
  String, ◌≡◌, refl, sym, ap, subst, ◌∙◌, inl, inr, Bool, true, false, Option, none, some, List, [],
  ◌∷◌, eq_iff, nat_eq, ◌==◌, if◌then◌else◌, Bool-cases, take, All, lookup, insert, lookup-insert,
}
use relay_scheduler.Clock.{Time}
use relay_scheduler.Clock.Rfc3339.{format_millis}
use relay_scheduler.Text.{Text}
use relay_scheduler.Logging.{
  Scalar, Field, plain, clipped, Entries, Handler, LogRecord, LogState, clip, max_log_text,
  is_protected, printed, apply, apply_all, first_entries, flatten, level_name, handle, write,
  set_error,
}
use relay_scheduler.Logging.Clip.{valid_text, clip_valid}
use relay_scheduler.Logging.Line.{fits, Has, IsApplied, same, added, apply-IsApplied}

-- The protected keys keep their values, and the keys of a kind stay of it.
abbrev Keeps : Entries → Entries → Type 0
Keeps m m' =
    ((key : String) → is_protected key ≡ true → lookup key m' ≡ lookup key m)
    × ((key : String) → Has m key → Has m' key)

other_key : (k key : String) → is_protected k ≡ false → is_protected key ≡ true → (k == key) ≡ false
other_key k key h g = elim (Bool-cases (k == key)) [
  | inr e ↦ e
  | inl e ↦ let c : false ≡ true = sym h ∙ ap is_protected ((eq_iff k key).0 e) ∙ g in cc
]

inserted-Has :
    (m : Entries) (k key : String) (f : Field)
    → fits k f ≡ true
    → Has m key
    → Has (insert k f m) key
inserted-Has m k key f fit (old, there, good) = elim (Bool-cases (k == key)) [
  | inl e ↦ (
    f,
    lookup-insert k key f m ∙ rw e refl,
    subst (λ (j : String). fits j f ≡ true) ((eq_iff k key).0 e) fit,
  )
  | inr e ↦ (old, lookup-insert k key f m ∙ rw e there, good)
]

IsApplied-Keeps : (m m' : Entries) → IsApplied m m' → Keeps m m'
IsApplied-Keeps m _ same = (λ key h. refl, λ key h. h)
IsApplied-Keeps m _ (added k f open_key fit) = (
  λ key h. lookup-insert k key f m ∙ rw (other_key k key open_key h) refl,
  λ key h. inserted-Has m k key f fit h,
)

Keeps-trans : (a b c : Entries) → Keeps a b → Keeps b c → Keeps a c
Keeps-trans a b c (p, h) (p', h') = (λ key e. p' key e ∙ p key e, λ key e. h' key (h key e))

-- What fmt prints of the value is UTF-8.
abbrev pub IsWhole : String × Scalar → Type 0
IsWhole (key, v) = (t : Text) × (printed v ≡ valid_text t)

abbrev Gives : Option Entries → Type 0
Gives o = (m : Entries) × (o ≡ some m)

set_error-Gives : (m : Entries) (t : Text) (o : Option Text) → o ≡ some t → Gives (set_error m o)
set_error-Gives m t (some u) e = (_, refl)
set_error-Gives m t none e = cc

if-Gives : (b : Bool) (x y : Option Entries) → Gives x → Gives y → Gives (if b then x else y)
if-Gives true x y p q = p
if-Gives false x y p q = q

apply-Gives :
    (m : Entries) (key : String) (v : Scalar) → IsWhole (key, v) → Gives (apply m (key, v))
unfolding apply
apply-Gives m key v (t, e) =
    if-Gives (is_protected key) _ _ (_, refl)
      (if-Gives (key == "op") _ _ (_, refl)
        (if-Gives (key == "status") _ _ (_, refl)
          (if-Gives (key == "duration_ms") _ _ (_, refl)
            (if-Gives (key == "error") _ _
              (set_error-Gives m (take max_log_text t) _ (ap clip e ∙ clip_valid t)) (_, refl)))))

apply_all-Keeps :
    (m : Entries) (kvs : List (String × Scalar))
    → All IsWhole kvs
    → (m' : Entries) × (apply_all (some m) kvs ≡ some m') × Keeps m m'
unfolding apply_all
apply_all-Keeps m [] h = (m, refl, (λ key h. refl, λ key h. h))
apply_all-Keeps m ((key, v) ∷ kvs) (whole, rest) =
    let (n, e) = apply-Gives m key v whole in
    let (m', f, k) = apply_all-Keeps n kvs rest in
    (
      m',
      ap (λ (o : Option Entries). apply_all o kvs) e ∙ f,
      Keeps-trans m n m' (IsApplied-Keeps m n (apply-IsApplied m n key v e)) k,
    )

-- The line's five protected keys say what they should, and the other four are of their kinds: op
-- and status texts, duration_ms a number, and error a text of 500 characters at most.
pub record IsStandard (service trace : String) (r : LogRecord) (now : Time) (msg : Text)
    (m : Entries) : Type 0 where
  ts : lookup "ts" m ≡ some (plain (format_millis (if nat_eq r.time 0 then now else r.time)))
  level : lookup "level" m ≡ some (plain (level_name r.level))
  message : lookup "msg" m ≡ some (clipped (take max_log_text msg))
  service_id : lookup "service" m ≡ some (plain service)
  trace_id : lookup "trace_id" m ≡ some (plain trace)
  op : Has m "op"
  status : Has m "status"
  duration : Has m "duration_ms"
  error : Has m "error"

first-Keeps-IsStandard :
    (service trace : String) (r : LogRecord) (now : Time) (msg : Text) (m : Entries)
    → Keeps (first_entries service trace r now (take max_log_text msg)) m
    → IsStandard service trace r now msg m
unfolding lookup
first-Keeps-IsStandard service trace r now msg m (p, h) = record {
  ts = p "ts" refl;
  level = p "level" refl;
  message = p "msg" refl;
  service_id = p "service" refl;
  trace_id = p "trace_id" refl;
  op = h "op" (_, refl, refl);
  status = h "status" (_, refl, refl);
  duration = h "duration_ms" (_, refl, refl);
  error = h "error" (_, refl, refl);
}

-- Every record makes a line with the nine keys of the standard, which is written unless
-- encoding/json refuses an attribute: whatever the handler's and the record's attributes are,
-- time, level, message, service and trace id are the record's own, and the other four are of their
-- kinds; the message and what fmt prints of the attributes are UTF-8.
pub handle-IsStandard :
    (h : Handler) (st : LogState) (trace : String) (r : LogRecord) (now : Time) (msg : Text)
    → r.message ≡ valid_text msg
    → All IsWhole h.attrs
    → All IsWhole (flatten h.prefix r.attrs)
    → (m : Entries) × (handle h st trace r now ≡ some (write st m))
      × IsStandard st.service trace r now msg m
unfolding handle
handle-IsStandard h st trace r now msg e whole whole' =
    let first = first_entries st.service trace r now (take max_log_text msg) in
    let (m, f, k) = apply_all-Keeps first h.attrs whole in
    let (m', f', k') = apply_all-Keeps m (flatten h.prefix r.attrs) whole' in
    (
      m',
      rw (e, clip_valid msg, f, f') refl,
      first-Keeps-IsStandard st.service trace r now msg m' (Keeps-trans first m m' k k'),
    )
