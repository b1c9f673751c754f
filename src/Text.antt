-- ===== src/Text.antt =====
-- The functions of Go's strings, strconv and unicode packages that the program uses, over the code
-- points of a text (ASCII characters are bytes, and only those are ever matched).
use Prim.Native.Char.{code}
use Prim.Native.String.{◌++◌ as ◌⧺◌}
use relay_scheduler.Base.{
  ℕ, zero, suc, ◌+◌, ◌-◌, ◌*◌, ◌/◌, ◌%◌, ◌^◌, String, ◌≡◌, refl, Bool, true, false, ◌&&◌, ◌||◌,
  Option, none, some, List, [], ◌∷◌, ◌++◌, ltb, leb, nat_eq, if◌then◌else◌, Bool-cases, inl, arith,
  ap, inr,
}
use relay_scheduler.Base.Int.{ℤ, pos, negsuc}

abbrev pub Text : Type 0
Text = List ℕ

abbrev pub codes : String → Text
codes String.[] = []
codes (String.◌∷◌ c s) = code c ∷ codes s

unfoldable pub text_eq : Text → Text → Bool
text_eq [] [] = true
text_eq (a ∷ s) (b ∷ t) = nat_eq a b && text_eq s t
text_eq _ _ = false

pub text_eq_sound : (s t : Text) → text_eq s t ≡ true → s ≡ t
unfolding text_eq
text_eq_sound [] [] h = refl
text_eq_sound [] (b ∷ t) h = cc
text_eq_sound (a ∷ s) [] h = cc
text_eq_sound (a ∷ s) (b ∷ t) h = elim (Bool-cases (nat_eq a b)) [
  | inl e ↦ let same : a ≡ b = ground arith in rw same (ap (◌∷◌ b) (text_eq_sound s t (rw e at h)))
  | inr e ↦ let c : false ≡ true = rw e at h in cc
]

-- unicode.IsSpace.
unfoldable pub is_space : ℕ → Bool
is_space c =
    (leb 9 c && leb c 13)
    || nat_eq c 32
    || nat_eq c 0x85
    || nat_eq c 0xA0
    || nat_eq c 0x1680
    || (leb 0x2000 c && leb c 0x200a)
    || nat_eq c 0x2028
    || nat_eq c 0x2029
    || nat_eq c 0x202f
    || nat_eq c 0x205f
    || nat_eq c 0x3000

-- strings.TrimSpace(s) == "".
unfoldable pub is_blank : Text → Bool
unfolding is_space
is_blank [] = true
is_blank (c ∷ s) = is_space c && is_blank s

unfoldable pub trim_left : Text → Text
unfolding is_space
trim_left [] = []
trim_left (c ∷ s) = if is_space c then trim_left s else c ∷ s

-- The text up to its last character that is no space.
unfoldable pub trim_right : Text → Text
unfolding is_blank
trim_right [] = []
trim_right (c ∷ s) = if is_blank (c ∷ s) then [] else c ∷ trim_right s

unfoldable pub trim_space : Text → Text
unfolding trim_left trim_right
trim_space s = trim_right (trim_left s)

-- The word being read comes back in front of the words that follow it.
unfoldable pub fields_from : Text → Text → List Text
unfolding is_space
fields_from [] [] = []
fields_from (a ∷ w) [] = (a ∷ w) ∷ []
fields_from [] (c ∷ s) = fields_from (if is_space c then [] else c ∷ []) s
fields_from (a ∷ w) (c ∷ s) = elim (is_space c) [
  | true ↦ (a ∷ w) ∷ fields_from [] s
  | false ↦ fields_from (a ∷ (w ++ c ∷ [])) s
]

-- strings.Fields.
unfoldable pub fields : Text → List Text
unfolding fields_from
fields s = fields_from [] s

-- strings.SplitN(s, sep, 2): `none` when it gives one part.
unfoldable pub split_once : ℕ → Text → Option (Text × Text)
split_once sep [] = none
split_once sep (c ∷ s) =
    if nat_eq c sep
    then some ([], s)
    else elim (split_once sep s) [ none ↦ none | some (a, b) ↦ some (c ∷ a, b) ]

unfoldable pub has_code : ℕ → Text → Bool
has_code c [] = false
has_code c (d ∷ s) = nat_eq c d || has_code c s

-- strings.ContainsAny.
unfoldable pub contains_any : Text → Text → Bool
unfolding has_code
contains_any [] chars = false
contains_any (c ∷ s) chars = has_code c chars || contains_any s chars

unfoldable pub has_prefix : Text → Text → Bool
has_prefix s [] = true
has_prefix [] (p ∷ ps) = false
has_prefix (c ∷ s) (p ∷ ps) = nat_eq c p && has_prefix s ps

unfoldable pub contains_codes : Text → Text → Bool
unfolding has_prefix
contains_codes [] part = has_prefix [] part
contains_codes (c ∷ s) part = has_prefix (c ∷ s) part || contains_codes s part

-- strings.Contains.
unfoldable pub contains_text : String → String → Bool
unfolding contains_codes
contains_text s part = contains_codes (codes s) (codes part)

-- strings.ToLower on the characters whose lower case is an ASCII letter; no other character can
-- become one.
unfoldable pub to_lower : ℕ → ℕ
to_lower c =
    if leb b'A' c && leb c b'Z'
    then c + 32
    else if nat_eq c 0x212A
    then b'k'
    else if nat_eq c 0x130
    then b'i'
    else c

unfoldable pub lower : Text → Text
unfolding to_lower
lower [] = []
lower (c ∷ s) = to_lower c ∷ lower s

unfoldable pub is_digit : ℕ → Bool
is_digit c = leb b'0' c && leb c b'9'

unfoldable pub digits_value : ℕ → Text → Option ℕ
unfolding is_digit
digits_value n [] = some n
digits_value n (c ∷ s) = if is_digit c then digits_value (n * 10 + (c - b'0')) s else none

-- The digits of a number, at least one.
unfoldable pub magnitude : Text → Option ℕ
unfolding digits_value
magnitude [] = none
magnitude (c ∷ s) = digits_value 0 (c ∷ s)

abbrev in_range : ℕ → Option ℕ → Option ℕ
in_range limit none = none
in_range limit (some n) = if leb n limit then some n else none

abbrev as_positive : Option ℕ → Option ℤ
as_positive none = none
as_positive (some n) = some (pos n)

abbrev as_negative : Option ℕ → Option ℤ
as_negative none = none
as_negative (some zero) = some (pos 0)
as_negative (some (suc n)) = some (negsuc n)

-- strconv.Atoi: a sign, digits, and the range of a 64-bit int.
unfoldable pub atoi : Text → Option ℤ
unfolding magnitude
atoi [] = none
atoi (c ∷ s) =
    if nat_eq c b'+'
    then as_positive (in_range (2 ^ 63 - 1) (magnitude s))
    else if nat_eq c b'-'
    then as_negative (in_range (2 ^ 63) (magnitude s))
    else as_positive (in_range (2 ^ 63 - 1) (magnitude (c ∷ s)))

-- The decimal digits of a number, in front of a text.
digits_before : ℕ → ℕ → Text → Text
digits_before zero n s = s
digits_before (suc fuel) n s =
    let more = digits_before fuel (n / 10) ((b'0' + n % 10) ∷ s) in
    if ltb n 10 then (b'0' + n % 10) ∷ s else more

abbrev digit_text : ℕ → String
digit_text c =
    if nat_eq c b'0'
    then "0"
    else if nat_eq c b'1'
    then "1"
    else if nat_eq c b'2'
    then "2"
    else if nat_eq c b'3'
    then "3"
    else if nat_eq c b'4'
    then "4"
    else if nat_eq c b'5'
    then "5"
    else if nat_eq c b'6'
    then "6"
    else if nat_eq c b'7'
    then "7"
    else if nat_eq c b'8'
    then "8"
    else "9"

spelled : Text → String
spelled [] = ""
spelled (c ∷ s) = digit_text c ⧺ spelled s

-- fmt's %d: 20 digits are enough for 64 bits.
unfoldable pub decimal : ℤ → String
unfolding digits_before spelled
decimal (pos n) = spelled (digits_before 20 n [])
decimal (negsuc n) = "-" ⧺ spelled (digits_before 20 (suc n) [])

decimal_example : (decimal (pos 1203) ≡ "1203") × (decimal (negsuc 8) ≡ "-9")
unfolding decimal
decimal_example = (refl, refl)

atoi_signs : atoi (codes "-12") ≡ some (negsuc 11)
unfolding atoi
atoi_signs = refl

atoi_range : atoi (codes "9223372036854775808") ≡ none
unfolding atoi
atoi_range = refl

fields_cron :
    fields (codes " 30  14 * * *")
    ≡ codes "30" ∷ codes "14" ∷ codes "*" ∷ codes "*" ∷ codes "*" ∷ []
unfolding fields
fields_cron = refl

trim_both : trim_space (codes "  a b ") ≡ codes "a b"
unfolding trim_space
trim_both = refl
