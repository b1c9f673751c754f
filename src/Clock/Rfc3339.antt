-- ===== src/Clock/Rfc3339.antt =====
-- Go's time.Parse and Time.Format with the layout time.RFC3339, for UTC output.
use relay_scheduler.Base.{
  ℕ, zero, suc, ◌+◌, ◌-◌, ◌*◌, ◌/◌, ◌%◌, ◌^◌, ◌≡◌, refl, String, Bool, true, false, ◌&&◌, ◌||◌,
  Option, none, some, List, [], ◌∷◌, ltb, leb, nat_eq, if◌then◌else◌,
}
use Prim.Native.String.{◌++◌ as ◌⧺◌}
use relay_scheduler.Text.{Text, codes, is_digit}
use relay_scheduler.Clock.{Time, second}

infixl 5 ◌>>=◌
abbrev ◌>>=◌ {ℓ κ} : {A : Type ℓ} {B : Type κ} → Option A → (A → Option B) → Option B
none >>= f = none
some a >>= f = f a

is_leap : ℕ → Bool
is_leap y = nat_eq (y % 4) 0 && (ltb 0 (y % 100) || nat_eq (y % 400) 0)

month_lengths : ℕ → List ℕ
unfolding is_leap
month_lengths y =
    31 ∷ (if is_leap y then 29 else 28) ∷ 31 ∷ 30 ∷ 31 ∷ 30 ∷ 31 ∷ 31 ∷ 30 ∷ 31 ∷ 30 ∷ 31 ∷ []

-- Days before year y, which counts from 1.
days_before : ℕ → ℕ
days_before y = (y - 1) * 365 + (y - 1) / 4 - (y - 1) / 100 + (y - 1) / 400

-- Month and day of the month, both from 1, of a day of the year from 0.
month_day : List ℕ → ℕ → ℕ → ℕ × ℕ
month_day [] month d = (month, d + 1)
month_day (n ∷ rest) month d =
    let later = month_day rest (month + 1) (d - n) in if ltb d n then (month, d + 1) else later

-- Year from 1, and day of the year from 0.
year_day : ℕ → ℕ × ℕ
unfolding days_before
year_day d =
    let c = d % 146097 in
    let n100 = if nat_eq c 146096 then 3 else c / 36524 in
    let e = c - n100 * 36524 in
    let n4 = e / 1461 in
    let r = e % 1461 in
    let n1 = if nat_eq r 1460 then 3 else r / 365 in
    (d / 146097 * 400 + n100 * 100 + n4 * 4 + n1 + 1, r - n1 * 365)

digit : ℕ → String
digit zero = "0"
digit (suc zero) = "1"
digit (suc (suc zero)) = "2"
digit (suc (suc (suc zero))) = "3"
digit (suc (suc (suc (suc zero)))) = "4"
digit (suc (suc (suc (suc (suc zero))))) = "5"
digit (suc (suc (suc (suc (suc (suc zero)))))) = "6"
digit (suc (suc (suc (suc (suc (suc (suc zero))))))) = "7"
digit (suc (suc (suc (suc (suc (suc (suc (suc zero)))))))) = "8"
digit n = "9"

-- A number in a fixed number of digits.
padded : ℕ → ℕ → String
unfolding digit
padded zero n = ""
padded (suc w) n = padded w (n / 10) ⧺ digit (n % 10)

-- Date and time of day in UTC, for years below 10000.
wall_clock : Time → String
unfolding padded year_day month_day month_lengths
wall_clock t =
    let s = t / second in
    let (year, yday) = year_day (s / 86400) in
    let (month, day) = month_day (month_lengths year) 1 yday in
    let r = s % 86400 in
    padded 4 year
    ⧺ "-"
    ⧺ padded 2 month
    ⧺ "-"
    ⧺ padded 2 day
    ⧺ "T"
    ⧺ padded 2 (r / 3600)
    ⧺ ":"
    ⧺ padded 2 (r % 3600 / 60)
    ⧺ ":"
    ⧺ padded 2 (r % 60)

-- t.UTC().Format(time.RFC3339).
unfoldable pub format : Time → String
unfolding wall_clock
format t = wall_clock t ⧺ "Z"

-- t.UTC().Format("2006-01-02T15:04:05.000Z").
unfoldable pub format_millis : Time → String
unfolding wall_clock padded
format_millis t = wall_clock t ⧺ "." ⧺ padded 3 (t % second / 1_000_000) ⧺ "Z"

-- Exactly w digits.
number : ℕ → ℕ → Text → Option (ℕ × Text)
unfolding is_digit
number zero acc s = some (acc, s)
number (suc w) acc [] = none
number (suc w) acc (c ∷ s) = if is_digit c then number w (acc * 10 + (c - b'0')) s else none

literal : ℕ → Text → Option Text
literal k [] = none
literal k (c ∷ s) = if nat_eq c k then some s else none

-- The hour may have one digit.
clock_hour : Text → Option (ℕ × Text)
unfolding number
clock_hour (a ∷ b ∷ s) = if is_digit b then number 2 0 (a ∷ b ∷ s) else number 1 0 (a ∷ b ∷ s)
clock_hour s = number 1 0 s

-- Nanoseconds of the digits behind a dot, those past the ninth dropped, and the rest.
fraction : ℕ → ℕ → Text → ℕ × Text
unfolding is_digit
fraction w acc [] = (acc * 10 ^ w, [])
fraction w acc (c ∷ s) = elim (is_digit c) [
  | false ↦ (acc * 10 ^ w, c ∷ s)
  | true ↦ fraction (w - 1) (if nat_eq w 0 then acc else acc * 10 + (c - b'0')) s
]

optional_fraction : Text → ℕ × Text
unfolding fraction is_digit
optional_fraction (p ∷ c ∷ s) =
    if (nat_eq p b'.' || nat_eq p b',') && is_digit c then fraction 9 0 (c ∷ s) else (0, p ∷ c ∷ s)
optional_fraction s = (0, s)

-- "Z", or a sign with hours and minutes: the sign (true is east) and the seconds.
shifted : Bool → Text → Option (Bool × ℕ)
unfolding number literal
shifted east s = do
  (h, s) ← number 2 0 s
  s ← literal b':' s
  (m, s) ← number 2 0 s
  elim s [
    | [] ↦ if leb h 24 && leb m 60 then some (east, h * 3600 + m * 60) else none
    | _ ∷ _ ↦ none
  ]

zone_offset : Text → Option (Bool × ℕ)
unfolding shifted
zone_offset [] = none
zone_offset (c ∷ s) =
    if nat_eq c b'Z'
    then elim s [ [] ↦ some (true, 0) | _ ∷ _ ↦ none ]
    else if nat_eq c b'+' || nat_eq c b'-'
    then shifted (nat_eq c b'+') s
    else none

sum_list : List ℕ → ℕ
sum_list [] = 0
sum_list (n ∷ ns) = n + sum_list ns

take_months : ℕ → List ℕ → List ℕ
take_months zero ms = []
take_months (suc n) [] = []
take_months (suc n) (m ∷ ms) = m ∷ take_months n ms

nth_month : ℕ → List ℕ → ℕ
nth_month n [] = 0
nth_month zero (m ∷ ms) = m
nth_month (suc n) (m ∷ ms) = nth_month n ms

valid_date : ℕ → ℕ → ℕ → Bool
unfolding nth_month month_lengths
valid_date y m d = leb 1 m && leb m 12 && leb 1 d && leb d (nth_month (m - 1) (month_lengths y))

-- Days from the start of year 1, for years from 1.
days_of : ℕ → ℕ → ℕ → ℕ
unfolding days_before sum_list take_months month_lengths
days_of y m d = days_before y + sum_list (take_months (m - 1) (month_lengths y)) + (d - 1)

-- time.Parse(time.RFC3339, s), for years from 1.
unfoldable pub parse : String → Option Time
unfolding number literal clock_hour optional_fraction zone_offset valid_date days_of
parse text = do
  (y, s) ← number 4 0 (codes text)
  s ← literal b'-' s
  (mo, s) ← number 2 0 s
  s ← literal b'-' s
  (d, s) ← number 2 0 s
  s ← literal b'T' s
  (h, s) ← clock_hour s
  s ← literal b':' s
  (mi, s) ← number 2 0 s
  s ← literal b':' s
  (sec, s) ← number 2 0 s
  let (frac, s) = optional_fraction s
  (east, off) ← zone_offset s
  let wall = days_of y mo d * 86400 + h * 3600 + mi * 60 + sec
  if valid_date y mo d && ltb h 24 && ltb mi 60 && ltb sec 60
      then some ((if east then wall - off else wall + off) * second + frac)
      else none

parse_example : parse "2026-10-01T09:00:00-07:00" ≡ some 63926467200_000_000_000
unfolding parse
parse_example = refl

format_example : format 63926467200_000_000_000 ≡ "2026-10-01T16:00:00Z"
unfolding format
format_example = refl

bad_day : parse "2026-02-29T09:00:00Z" ≡ none
unfolding parse
bad_day = refl

millis_example : format_millis 63926467200_007_900_000 ≡ "2026-10-01T16:00:00.007Z"
unfolding format_millis
millis_example = refl
