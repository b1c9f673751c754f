-- ===== src/Verify/Machine.antt =====
-- The machine that devboxverify may run on: its marker file (machine.go), and the credential and the
-- grant that it uses (frontend.go).
pub mod Marker
use relay_scheduler.Base.{
  ℕ, zero, suc, ◌+◌, ◌-◌, ◌*◌, ◌/◌, ◌%◌, ◌^◌, ◌≤◌, ◌<◌, String, ◌≡◌, refl, sym, ap, subst, ◌∙◌, ◌≢◌,
  ◌↔◌, ◌⊎◌, inl, inr, Bool, true, false, not, ◌&&◌, ◌||◌, Option, none, some, List, [], ◌∷◌, ◌++◌,
  map, arith, eq_iff, eq_refl, ltb, leb, nat_eq, ◌==◌, is_empty, if◌then◌else◌, Bool-cases,
  Option-cases, Result-cases, ltb→lt, lt→ltb, leb→le, ltb-false→le, length, take, drop, select,
  length-append, All, Result, ok, err, ◌>>=◌, ◌>>◌, refuse, map_err, lookup, remove, insert,
  lookup-remove, lookup-insert, contains, discard, adjoin, contains-discard, contains-adjoin,
}
use relay_scheduler.Base.Int.{
  ℤ, pos, negsuc, pos_part, neg_part, ltb_ℤ, leb_ℤ, eqb_ℤ, signed64, mul64, offset_by, mul64_fits,
  mul64_range,
}
use relay_scheduler.Base.Int.{
  ℤ, pos, negsuc, pos_part, neg_part, ltb_ℤ, leb_ℤ, eqb_ℤ, signed64, mul64, offset_by, mul64_fits,
  mul64_range,
}
use relay_scheduler.Text.{
  text_eq, Text, codes, has_prefix, atoi, is_digit, trim_space, is_blank, decimal,
}

-- A token of a JSON object: the value of a string, the characters of a number, or anything else.
pub data Token : Type 0 where
  string : Text → Token
  numeral : Text → Token
  structure : Token

-- The content of a file as encoding/json sees it; an object with a key twice has the last one.
pub data Document : Type 0 where
  invalid no_object : Document
  object : List (String × Token) → Document

-- What os.Lstat says of a path, and what reading it gives.
pub data Lstat : Type 0 where
  absent unreadable : Lstat
  found : Bool → ℕ → Lstat

pub record MarkerFile : Type 0 where
  pub lstat : Lstat
  pub virtual_machine : Result String Bool
  pub content : Result String Document

pub record WorldMarker : Type 0 where
  pub world_checkout : Text
  pub world_root : Text
  pub world_version : ℤ

pub data Refusal : Type 0 where
  marker_absent not_a_vm marker_unreadable not_a_file : Refusal
  open_to_others : ℕ → Refusal
  not_json not_an_object wrong_schema no_version : Refusal
  lacks : String → Refusal
  no_path : String → Refusal

-- `mode & 0o077`.
abbrev pub others : ℕ → ℕ
others mode = mode % 64

unfoldable pub all_digits : Text → Bool
unfolding is_digit
all_digits [] = true
all_digits (c ∷ s) = is_digit c && all_digits s

-- intToken, `^-?(0|[1-9][0-9]*)$`.
abbrev pub is_magnitude : Text → Bool
is_magnitude [] = false
is_magnitude (c ∷ []) = is_digit c
is_magnitude (c ∷ d ∷ s) = is_digit c && not (nat_eq c b'0') && all_digits (d ∷ s)

abbrev pub is_int_token : Text → Bool
is_int_token [] = false
is_int_token (c ∷ s) = if nat_eq c b'-' then is_magnitude s else is_magnitude (c ∷ s)

abbrev pub from_one : Option ℤ → Option ℤ
from_one none = none
from_one (some n) = if ltb_ℤ n (pos 1) then none else some n

abbrev pub positive_int : Option Token → Option ℤ
positive_int (some (numeral s)) = if is_int_token s then from_one (atoi s) else none
positive_int _ = none

-- jsonString and filepath.IsAbs.
abbrev pub absolute_path : Option Token → Option Text
absolute_path (some (string (c ∷ s))) = if nat_eq c b'/' then some (c ∷ s) else none
absolute_path _ = none

abbrev pub is_schema : Option Token → Bool
is_schema (some (numeral s)) = is_one s
  where
    is_one : Text → Bool
    is_one (c ∷ []) = nat_eq c b'1'
    is_one _ = false
is_schema _ = false

abbrev pub required : List String
required = "world_checkout" ∷ "world_root" ∷ "world_version" ∷ "written_at" ∷ []

abbrev pub is_present : Option Token → Bool
is_present none = false
is_present (some t) = true

unfoldable pub check_fields : List String → List (String × Token) → Result Refusal (Unit {0})
unfolding lookup
check_fields [] doc = ok tt
check_fields (f ∷ fs) doc = if is_present (lookup f doc) then check_fields fs doc else err (lacks f)

abbrev pub or_refuse : Refusal → Option Text → Result Refusal Text
or_refuse r none = err r
or_refuse r (some s) = ok s

abbrev pub version_of : Option ℤ → Result Refusal ℤ
version_of none = err no_version
version_of (some n) = ok n

-- readMarker, once the file has been decoded.
unfoldable pub read_object : List (String × Token) → Result Refusal WorldMarker
unfolding lookup check_fields
read_object doc = do
  refuse (not (is_schema (lookup "schema" doc))) wrong_schema
  check_fields required doc
  checkout ← or_refuse (no_path "world_checkout") (absolute_path (lookup "world_checkout" doc))
  root ← or_refuse (no_path "world_root") (absolute_path (lookup "world_root" doc))
  version ← version_of (positive_int (lookup "world_version" doc))
  ok (record { world_checkout = checkout; world_root = root; world_version = version })

abbrev pub read_document : Result String Document → Result Refusal WorldMarker
read_document (err e) = err marker_unreadable
read_document (ok invalid) = err not_json
read_document (ok no_object) = err not_an_object
read_document (ok (object doc)) = read_object doc

abbrev pub is_vm : Result String Bool → Bool
is_vm (err e) = false
is_vm (ok b) = b

abbrev pub read_found : MarkerFile → Lstat → Result Refusal WorldMarker
read_found m absent = err marker_absent
read_found m unreadable = if is_vm m.virtual_machine then err marker_unreadable else err not_a_vm
read_found m (found regular mode) = do
  refuse (not (is_vm m.virtual_machine)) not_a_vm
  refuse (not regular) not_a_file
  refuse (ltb 0 (others mode)) (open_to_others mode)
  read_document m.content

unfoldable pub read_marker : MarkerFile → Result Refusal WorldMarker
unfolding read_object
read_marker m = read_found m m.lstat

-- readCredential: what os.Stat says, with the permission bits, and the content.
pub data CredentialError : Type 0 where
  credential_missing credential_unreadable credential_open : CredentialError

abbrev pub token_of : Option Text → Result CredentialError Text
token_of none = err credential_unreadable
token_of (some s) = let t = trim_space s in if is_blank t then err credential_unreadable else ok t

unfoldable pub read_credential : Lstat → Option Text → Result CredentialError Text
unfolding trim_space is_blank
read_credential absent content = err credential_missing
read_credential unreadable content = err credential_unreadable
read_credential (found regular mode) content =
    if ltb 0 (others mode) then err credential_open else token_of content

pub record Project : Type 0 where
  pub key : String
  pub name : Text

-- worldProjectName: the first project of the key that has a name.
unfoldable pub project_name : String → List Project → Option Text
unfolding is_blank
project_name key [] = none
project_name key (p ∷ ps) =
    if (p.key == key) && not (is_blank p.name) then some p.name else project_name key ps

pub record GrantRecord : Type 0 where
  pub id : String
  pub name : Text
  pub kind : String

unfoldable pub find_grant : List GrantRecord → Text → Option GrantRecord
unfolding text_eq
find_grant [] name = none
find_grant (g ∷ gs) name = if text_eq g.name name then some g else find_grant gs name
