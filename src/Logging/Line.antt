-- ===== src/Logging/Line.antt =====
-- The nine keys of a log line, whatever the attributes are.
use relay_scheduler.Base.{
  ◌≤◌, String, ◌≡◌, refl, sym, subst, ◌⊎◌, inl, inr, Bool, true, false, ◌||◌, Option, none, some,
  arith, eq_iff, leb, ◌==◌, if◌then◌else◌, length, lookup, insert,
}
use relay_scheduler.Base.Int.{ℤ}
use Prim.Native.String.{◌++◌ as ◌⧺◌}
use relay_scheduler.Text.{Text}
use relay_scheduler.Logging.{
  Scalar, Field, clipped, raw, number, any, Entries, clip, set_duration, set_error, max_log_text,
  is_protected, is_text, printed, duration_ms, apply,
}
use relay_scheduler.Logging.Clip.{length-clip}

-- What the standard asks of the other four keys.
abbrev pub is_raw : Field → Bool
is_raw (raw s) = true
is_raw _ = false

abbrev pub is_number : Field → Bool
is_number (number n) = true
is_number _ = false

abbrev pub is_short : Field → Bool
is_short (clipped t) = leb (length t) max_log_text
is_short _ = false

abbrev pub fits : String → Field → Bool
fits key f =
    if key == "op" || key == "status"
    then is_raw f
    else if key == "duration_ms"
    then is_number f
    else if key == "error"
    then is_short f
    else true

abbrev pub Has : Entries → String → Type 0
Has m key = (f : Field) × (lookup key m ≡ some f) × (fits key f ≡ true)

-- The entries that `apply` makes of an entry.
pub data IsApplied (m : Entries) : Entries → Type 0 where
  same : IsApplied m m
  added :
      (key : String) (f : Field)
      → is_protected key ≡ false
      → fits key f ≡ true
      → IsApplied m (insert key f m)

or_either : (b c : Bool) → (b || c) ≡ true → (b ≡ true) ⊎ (c ≡ true)
or_either true c h = inl refl
or_either false c h = inr h

-- What holds of the five protected keys holds of a protected key.
protected_key :
    (P : String → Type 0)
    → P "ts"
    → P "level"
    → P "msg"
    → P "service"
    → P "trace_id"
    → (key : String) → is_protected key ≡ true
    → P key
protected_key P a b c d e key h =
    at "trace_id" e _ h
      (λ h. at "service" d _ h (λ h. at "msg" c _ h (λ h. at "level" b _ h first)))
  where
    at :
        (name : String)
        → P name
        → (front : Bool) → (front || (key == name)) ≡ true
        → (front ≡ true → P key)
        → P key
    at name p front h earlier = elim (or_either front (key == name) h) [
      | inl f ↦ earlier f
      | inr f ↦ subst P (sym ((eq_iff key name).0 f)) p
    ]

    first : (key == "ts") ≡ true → P key
    first f = subst P (sym ((eq_iff key "ts").0 f)) a

renamed : (key : String) → is_protected key ≡ true → is_protected ("attr_" ⧺ key) ≡ false
renamed = protected_key (λ key. is_protected ("attr_" ⧺ key) ≡ false) refl refl refl refl refl

renamed_fits : (f : Field) (key : String) → is_protected key ≡ true → fits ("attr_" ⧺ key) f ≡ true
renamed_fits f = protected_key (λ key. fits ("attr_" ⧺ key) f ≡ true) refl refl refl refl refl

-- An entry under a key that is not protected, and that the later tests leave.
free :
    (key : String) (f : Field)
    → (key == "op") ≡ false
    → (key == "status") ≡ false
    → (key == "duration_ms") ≡ false
    → (key == "error") ≡ false
    → fits key f ≡ true
free key f a b c d = rw (a, b, c, d) refl

status-IsApplied :
    (m : Entries) (v : Scalar) (b : Bool)
    → IsApplied m
        (if b then insert "status" (raw (printed v)) m else insert "http_status" (any v) m)
status-IsApplied m v true = added "status" (raw (printed v)) refl refl
status-IsApplied m v false = added "http_status" (any v) refl refl

duration-IsApplied : (m : Entries) (o : Option ℤ) → IsApplied m (set_duration m o)
duration-IsApplied m none = same
duration-IsApplied m (some ms) = added "duration_ms" (number ms) refl refl

error-IsApplied :
    (m m' : Entries) (o : Option Text)
    → ((t : Text) → o ≡ some t → length t ≤ max_log_text)
    → set_error m o ≡ some m'
    → IsApplied m m'
error-IsApplied m m' none short h = cc
error-IsApplied m m' (some t) short h =
    let e : insert "error" (clipped t) m ≡ m' = cc in
    let fit : leb (length t) max_log_text ≡ true = (let le = short t refl in ground arith) in
    subst (IsApplied m) e (added "error" (clipped t) refl fit)

some-IsApplied : (m n m' : Entries) → IsApplied m n → some n ≡ some m' → IsApplied m m'
some-IsApplied m n m' a h = let e : n ≡ m' = cc in subst (IsApplied m) e a

module _ (m m' : Entries) where
  if_IsApplied :
      (b : Bool) (x y : Option Entries)
      → (b ≡ true → x ≡ some m' → IsApplied m m')
      → (b ≡ false → y ≡ some m' → IsApplied m m')
      → (if b then x else y) ≡ some m'
      → IsApplied m m'
  if_IsApplied true x y f g h = f refl h
  if_IsApplied false x y f g h = g refl h

  pub apply-IsApplied : (key : String) (v : Scalar) → apply m (key, v) ≡ some m' → IsApplied m m'
  unfolding apply
  apply-IsApplied key v =
      if_IsApplied (is_protected key) _ _
        (λ e.
          some-IsApplied m _ m'
            (added ("attr_" ⧺ key) (any v) (renamed key e) (renamed_fits (any v) key e)))
        (λ open_key.
          if_IsApplied (key == "op") _ _
            (λ e. some-IsApplied m _ m' (added "op" (raw (printed v)) refl refl))
            (λ a.
              if_IsApplied (key == "status") _ _
                (λ e. some-IsApplied m _ m' (status-IsApplied m v (is_text v)))
                (λ b.
                  if_IsApplied (key == "duration_ms") _ _
                    (λ e. some-IsApplied m _ m' (duration-IsApplied m (duration_ms v)))
                    (λ c.
                      if_IsApplied (key == "error") _ _
                        (λ e. error-IsApplied m m' (clip (printed v)) (length-clip (printed v)))
                        (λ d.
                          some-IsApplied m _ m'
                            (added key (any v) open_key (free key (any v) a b c d)))))))
