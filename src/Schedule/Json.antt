-- ===== src/Schedule/Json.antt =====
-- A task's schedule as encoding/json hands it over (json.RawMessage), and json.Unmarshal of it into
-- a struct. The document around it has been parsed, so it is a JSON value, or absent.
use relay_scheduler.Base.{
  ◌-◌, ◌^◌, String, Bool, true, false, List, [], ◌∷◌, Result, ok, err, leb, nat_eq, if◌then◌else◌,
}
use relay_scheduler.Base.Int.{ℤ, pos, negsuc}
use relay_scheduler.Text.{Text, codes, text_eq, lower}

-- A field's value. `fraction` is a number that is no integer, `nested` an array or an object.
pub data JsonValue : Type 0 where
  null fraction nested : JsonValue
  bool : Bool → JsonValue
  number : ℤ → JsonValue
  text : String → JsonValue

pub data RawSchedule : Type 0 where
  absent null_document scalar_document : RawSchedule
  object : List (String × JsonValue) → RawSchedule

-- len(raw) == 0.
unfoldable pub is_absent : RawSchedule → Bool
is_absent absent = true
is_absent _ = false

-- Keys match without regard to case: U+017F folds to s, U+212A to k (`lower` does the latter).
fold_key : Text → Text
fold_key [] = []
fold_key (c ∷ s) = (if nat_eq c 0x17F then b's' else c) ∷ fold_key s

unfoldable pub same_key : String → String → Bool
unfolding fold_key lower text_eq
same_key a b = text_eq (lower (fold_key (codes a))) (lower (fold_key (codes b)))

abbrev store_text : JsonValue → String → Result (Unit {0}) String
store_text (text t) old = ok t
store_text null old = ok old
store_text _ old = err tt

abbrev fits_int64 : ℤ → Bool
fits_int64 (pos n) = leb n (2 ^ 63 - 1)
fits_int64 (negsuc n) = leb n (2 ^ 63 - 1)

abbrev store_int : JsonValue → ℤ → Result (Unit {0}) ℤ
store_int (number n) old = if fits_int64 n then ok n else err tt
store_int null old = ok old
store_int _ old = err tt

-- The fields in their order: a later one overwrites, a value of the wrong type is an error.
unfoldable pub text_field : String → String → List (String × JsonValue) → Result (Unit {0}) String
unfolding same_key
text_field name old [] = ok old
text_field name old ((k, v) ∷ rest) = elim (if same_key k name then store_text v old else ok old) [
  | ok new ↦ text_field name new rest
  | err e ↦ err e
]

unfoldable pub int_field : String → ℤ → List (String × JsonValue) → Result (Unit {0}) ℤ
unfolding same_key
int_field name old [] = ok old
int_field name old ((k, v) ∷ rest) = elim (if same_key k name then store_int v old else ok old) [
  | ok new ↦ int_field name new rest
  | err e ↦ err e
]

unfoldable pub get_text : String → RawSchedule → Result (Unit {0}) String
unfolding text_field
get_text name (object fs) = text_field name "" fs
get_text name null_document = ok ""
get_text name _ = err tt

unfoldable pub get_int : String → RawSchedule → Result (Unit {0}) ℤ
unfolding int_field
get_int name (object fs) = int_field name (pos 0) fs
get_int name null_document = ok (pos 0)
get_int name _ = err tt
