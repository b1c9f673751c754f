-- ===== src/Verify/Machine/Marker.antt =====
-- What a machine fulfils that devboxverify accepts.
use relay_scheduler.Base.{
  true_of_not, ℕ, zero, suc, String, ◌≡◌, refl, sym, ap, subst, ◌∙◌, ◌≢◌, inl, inr, Bool, true,
  false, not, Option, none, some, List, [], ◌∷◌, arith, ltb, nat_eq, if◌then◌else◌, Bool-cases, All,
  Result, ok, err, refuse, lookup, >>=-eq_ok,
}
use relay_scheduler.Base.Int.{ℤ, pos, negsuc, ltb_ℤ}
use relay_scheduler.Text.{Text, atoi}
use relay_scheduler.Verify.Machine.{
  Token, string, numeral, structure, Document, invalid, no_object, object, Lstat, absent,
  unreadable, found, MarkerFile, WorldMarker, Refusal, not_a_vm, not_a_file, open_to_others,
  wrong_schema, no_path, others, is_int_token, from_one, positive_int, absolute_path, is_schema,
  required, check_fields, is_present, or_refuse, version_of, read_object, read_document, is_vm,
  read_found, read_marker, marker_unreadable,
}

abbrev pub IsPath : Text → Type 0
IsPath s = (t : Text) × (s ≡ b'/' ∷ t)

-- The object of the marker that was read, field by field.
pub record IsMarker (doc : List (String × Token)) (w : WorldMarker) : Type 0 where
  schema : lookup "schema" doc ≡ some (numeral (b'1' ∷ []))
  checkout : lookup "world_checkout" doc ≡ some (string w.world_checkout)
  root : lookup "world_root" doc ≡ some (string w.world_root)
  checkout_absolute : IsPath w.world_checkout
  root_absolute : IsPath w.world_root
  version :
      (s : Text) × (lookup "world_version" doc ≡ some (numeral s))
      × (is_int_token s ≡ true)
      × (atoi s ≡ some w.world_version)
  version_positive : (n : ℕ) × (w.world_version ≡ pos (suc n))
  written : lookup "written_at" doc ≢ none

refused_not {κ} : {E : Type κ} (b : Bool) (e : E) {u : Unit {0}} → refuse b e ≡ ok u → b ≡ false
refused_not true e h = cc
refused_not false e h = refl

schema_one : (o : Option Token) → is_schema o ≡ true → o ≡ some (numeral (b'1' ∷ []))
schema_one (some (numeral (c ∷ []))) h = let same : c ≡ b'1' = ground arith in rw same refl
schema_one (some (numeral [])) h = cc
schema_one (some (numeral (c ∷ d ∷ s))) h = cc
schema_one (some (string s)) h = cc
schema_one (some structure) h = cc
schema_one none h = cc

IsPath-read :
    (r : Refusal) (o : Option Token) (s : Text)
    → or_refuse r (absolute_path o) ≡ ok s
    → (o ≡ some (string s)) × IsPath s
IsPath-read r (some (string (c ∷ t))) s h = elim (Bool-cases (nat_eq c b'/')) [
  | inl e ↦
      let same : c ∷ t ≡ s = (let k = rw e at h in cc) in
      let slash : c ≡ b'/' = ground arith in
      (ap (λ (x : Text). some (string x)) same, (t, sym same ∙ ap (λ (x : ℕ). x ∷ t) slash))
  | inr e ↦ let k = rw e at h in cc
]
IsPath-read r (some (string [])) s h = cc
IsPath-read r (some (numeral t)) s h = cc
IsPath-read r (some structure) s h = cc
IsPath-read r none s h = cc

one_or_more :
    (o : Option ℤ) (n : ℤ)
    → version_of (from_one o) ≡ ok n
    → (o ≡ some n) × ((k : ℕ) × (n ≡ pos (suc k)))
one_or_more none n h = cc
one_or_more (some (pos zero)) n h = cc
one_or_more (some (pos (suc k))) n h = elim (Bool-cases (ltb_ℤ (pos (suc k)) (pos 1))) [
  | inl e ↦ let c = rw e at h in cc
  | inr e ↦
      let same : pos (suc k) ≡ n = (let c = rw e at h in cc) in
      (ap (λ (x : ℤ). some x) same, (k, sym same))
]
one_or_more (some (negsuc k)) n h = elim (Bool-cases (ltb_ℤ (negsuc k) (pos 1))) [
  | inl e ↦ let c = rw e at h in cc
  | inr e ↦ absurd (ground arith)
]

version_read :
    (o : Option Token) (n : ℤ)
    → version_of (positive_int o) ≡ ok n
    → ((s : Text) × (o ≡ some (numeral s)) × (is_int_token s ≡ true) × (atoi s ≡ some n))
      × ((k : ℕ) × (n ≡ pos (suc k)))
version_read (some (numeral s)) n h = elim (Bool-cases (is_int_token s)) [
  | inl e ↦ let (f, g) = one_or_more (atoi s) n (rw e at h) in ((s, refl, e, f), g)
  | inr e ↦ let c = rw e at h in cc
]
version_read (some (string s)) n h = cc
version_read (some structure) n h = cc
version_read none n h = cc

checked :
    (fs : List String) (doc : List (String × Token)) (u : Unit {0})
    → check_fields fs doc ≡ ok u
    → All (λ (f : String). lookup f doc ≢ none) fs
unfolding check_fields
checked [] doc u h = tt
checked (f ∷ fs) doc u h = elim (Bool-cases (is_present (lookup f doc))) [
  | inl e ↦ (present (lookup f doc) e, checked fs doc u (rw e at h))
  | inr e ↦ let c = rw e at h in cc
]
  where
    present : (o : Option Token) → is_present o ≡ true → o ≢ none
    present (some t) e c = cc
    present none e c = cc

object-IsMarker :
    (doc : List (String × Token)) (w : WorldMarker) → read_object doc ≡ ok w → IsMarker doc w
unfolding read_object
object-IsMarker doc w h =
    let (_, s, h1) = >>=-eq_ok (refuse (not (is_schema (lookup "schema" doc))) wrong_schema) _ h in
    let (u, f, h2) = >>=-eq_ok (check_fields required doc) _ h1 in
    let (c, p, h3) =
      >>=-eq_ok (or_refuse (no_path "world_checkout") (absolute_path (lookup "world_checkout" doc)))
        _ h2 in
    let (r, q, h4) =
      >>=-eq_ok (or_refuse (no_path "world_root") (absolute_path (lookup "world_root" doc))) _ h3 in
    let (n, v, h5) = >>=-eq_ok (version_of (positive_int (lookup "world_version" doc))) _ h4 in
    let same : ◌≡◌ {A = WorldMarker}
        (record { world_checkout = c; world_root = r; world_version = n }) w =
      cc in
    let schema_ok = schema_one _ (true_of_not _ (refused_not _ _ s)) in
    let fields_there = checked required doc u f in
    let (p1, p2) = IsPath-read _ _ c p in
    let (q1, q2) = IsPath-read _ _ r q in
    let (v1, v2) = version_read _ n v in
    subst (IsMarker doc) same (record {
      schema = schema_ok;
      checkout = p1;
      root = q1;
      checkout_absolute = p2;
      root_absolute = q2;
      version = v1;
      version_positive = v2;
      written = fields_there.1.1.1.0;
    })

-- A virtual machine whose marker is a regular file that only its owner can open, and that holds an
-- object with the fields of the marker.
pub record IsTestMachine (m : MarkerFile) (w : WorldMarker) : Type 0 where
  is_virtual : m.virtual_machine ≡ ok true
  mode : ℕ
  is_private : (m.lstat ≡ found true mode) × (others mode ≡ 0)
  doc : List (String × Token)
  content : m.content ≡ ok (object doc)
  marker : IsMarker doc w

-- A marker that is accepted stands on a virtual machine, in a regular file that only its owner can
-- open, with schema 1, two absolute paths, a world version of at least 1 written as an integer, and a
-- time of writing.
pub read_marker-IsTestMachine :
    (m : MarkerFile) (w : WorldMarker) → read_marker m ≡ ok w → IsTestMachine m w
unfolding read_marker
read_marker-IsTestMachine m w h = by_lstat m.lstat refl h
  where
    no_bits : (n : ℕ) → ltb 0 n ≡ false → n ≡ 0
    no_bits n h = ground arith

    vm : (r : Result String Bool) → is_vm r ≡ true → r ≡ ok true
    vm (ok b) e = ap (λ (x : Bool). ok x) e
    vm (err x) e = cc

    by_content :
        (r : Result String Document)
        → m.content ≡ r
        → read_document r ≡ ok w
        → (doc : List (String × Token)) × (m.content ≡ ok (object doc)) × IsMarker doc w
    by_content (ok (object doc)) e h = (doc, e, object-IsMarker doc w h)
    by_content (ok invalid) e h = cc
    by_content (ok no_object) e h = cc
    by_content (err x) e h = cc

    unreadable_fails :
        (b : Bool)
        → ◌≡◌ {A = Result Refusal WorldMarker}
            (if b then err marker_unreadable else err not_a_vm)
            (ok w)
        → ⊥
    unreadable_fails true h = cc
    unreadable_fails false h = cc

    by_lstat : (l : Lstat) → m.lstat ≡ l → read_found m l ≡ ok w → IsTestMachine m w
    by_lstat absent e h = cc
    by_lstat unreadable e h = absurd (unreadable_fails (is_vm m.virtual_machine) h)
    by_lstat (found regular mode) e h =
        let (_, a, h1) = >>=-eq_ok (refuse (not (is_vm m.virtual_machine)) not_a_vm) _ h in
        let (_, b, h2) = >>=-eq_ok (refuse (not regular) not_a_file) _ h1 in
        let (_, c, h3) = >>=-eq_ok (refuse (ltb 0 (others mode)) (open_to_others mode)) _ h2 in
        let (doc, f, marker) = by_content m.content refl h3 in
        let is_regular = true_of_not regular (refused_not _ _ b) in
        record {
          is_virtual = vm m.virtual_machine (true_of_not _ (refused_not _ _ a));
          mode = mode;
          is_private = (
            e ∙ ap (λ (x : Bool). found x mode) is_regular,
            no_bits (others mode) (refused_not _ _ c),
          );
          doc = doc;
          content = f;
          marker = marker;
        }
