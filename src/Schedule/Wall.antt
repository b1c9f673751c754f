-- ===== src/Schedule/Wall.antt =====
-- schedule.go: parseTime, nextDaily, nextHourly, dayMap, nextWeekly and nextCron.
use relay_scheduler.Base.{
  ℕ, ◌+◌, ◌-◌, String, Bool, false, not, ◌&&◌, ◌||◌, Option, none, some, List, [], ◌∷◌, Result, ok,
  err, ◌>>=◌, ◌>>◌, refuse, ltb, if◌then◌else◌,
}
use relay_scheduler.Base.Int.{ℤ, pos, pos_part, ltb_ℤ}
use relay_scheduler.Text.{Text, codes, text_eq, atoi, split_once, fields, contains_any, lower}
use relay_scheduler.Clock.{Time, Zone, hour, day_of, hour_of, weekday_of, date}

pub data ScheduleError : Type 0 where
  parse_type type_required parse_fields : ScheduleError
  time_format bad_hour bad_minute hour_range minute_range : ScheduleError
  hourly_range interval_not_positive invalid_day : ScheduleError
  cron_field_count cron_syntax cron_constraint cron_wildcard_minute : ScheduleError
  cron_minute cron_hour : ScheduleError
  bad_at once_past not_scheduled : ScheduleError
  unknown_type : String → ScheduleError

abbrev pub Checked : Type 0 → Type 0
Checked A = Result ScheduleError A

-- A number within 0 and a limit, as the range tests of the source read it.
abbrev out_of_range : ℤ → ℕ → Bool
out_of_range n limit = ltb_ℤ n (pos 0) || ltb_ℤ (pos limit) n

abbrev pub or_error {ℓ} : {A : Type ℓ} → ScheduleError → Option A → Result ScheduleError A
or_error e none = err e
or_error e (some a) = ok a

unfoldable pub parse_time : String → Checked (ℕ × ℕ)
parse_time time_text = do
  (before, after) ← or_error time_format (split_once b':' (codes time_text))
  h ← or_error bad_hour (atoi before)
  m ← or_error bad_minute (atoi after)
  refuse (out_of_range h 23) hour_range
  refuse (out_of_range m 59) minute_range
  ok (pos_part h, pos_part m)

unfoldable pub daily_at : Zone → Time → ℕ → ℕ → Time
daily_at zone now h m =
    let next = date zone (day_of zone now) h m in
    if ltb now next then next else date zone (day_of zone now + 1) h m

unfoldable pub next_daily : Zone → Time → String → Checked Time
unfolding daily_at
next_daily zone now time_text = do (h, m) ← parse_time time_text; ok (daily_at zone now h m)

unfoldable pub next_hourly : Zone → Time → ℕ → Time
next_hourly zone now minute =
    let next = date zone (day_of zone now) (hour_of zone now) minute in
    if ltb now next then next else next + hour

unfoldable pub day_map : List (Text × ℕ)
day_map =
    (codes "sunday", 0)
    ∷ (codes "monday", 1)
    ∷ (codes "tuesday", 2)
    ∷ (codes "wednesday", 3)
    ∷ (codes "thursday", 4)
    ∷ (codes "friday", 5)
    ∷ (codes "saturday", 6)
    ∷ []

unfoldable pub find_day : Text → List (Text × ℕ) → Option ℕ
find_day name [] = none
find_day name ((d, n) ∷ rest) = if text_eq d name then some n else find_day name rest

-- The days until the target weekday, today included.
unfoldable pub days_until : ℕ → ℕ → ℕ
days_until target today = if ltb target today then target + 7 - today else target - today

unfoldable pub weekly_at : Zone → Time → ℕ → ℕ → ℕ → Time
unfolding days_until
weekly_at zone now target h m =
    let next = date zone (day_of zone now + days_until target (weekday_of zone now)) h m in
    if ltb now next then next else date zone (day_of zone next + 7) h m

unfoldable pub next_weekly : Zone → Time → String → String → Checked Time
unfolding weekly_at day_map find_day
next_weekly zone now day time_text = do
  target ← or_error invalid_day (find_day (lower (codes day)) day_map)
  (h, m) ← parse_time time_text
  ok (weekly_at zone now target h m)

abbrev pub star : Text
star = codes "*"

pub any_contains : List Text → Text → Bool
any_contains [] chars = false
any_contains (f ∷ fs) chars = contains_any f chars || any_contains fs chars

-- `n, err := strconv.Atoi(field); err != nil || n < 0 || n > limit`.
unfoldable pub cron_number : Text → ℕ → ScheduleError → Checked ℕ
cron_number field limit e = do
  n ← or_error e (atoi field)
  refuse (out_of_range n limit) e
  ok (pos_part n)

unfoldable pub cron_at : Zone → Time → Text → Text → Text → Text → Text → Checked Time
unfolding any_contains daily_at
cron_at zone now minute hour_text dom month dow = do
  refuse (any_contains (minute ∷ hour_text ∷ dom ∷ month ∷ dow ∷ []) (codes "/,-")) cron_syntax
  refuse (not (text_eq dom star && text_eq month star && text_eq dow star)) cron_constraint
  refuse (text_eq minute star) cron_wildcard_minute
  m ← cron_number minute 59 cron_minute
  if text_eq hour_text star
      then ok (next_hourly zone now m)
      else do h ← cron_number hour_text 23 cron_hour; ok (daily_at zone now h m)

unfoldable pub cron_fields : Zone → Time → List Text → Checked Time
unfolding cron_at
cron_fields zone now (minute ∷ hour_text ∷ dom ∷ month ∷ dow ∷ []) =
    cron_at zone now minute hour_text dom month dow
cron_fields zone now _ = err cron_field_count

unfoldable pub next_cron : Zone → Time → String → Checked Time
unfolding cron_fields
next_cron zone now expression = cron_fields zone now (fields (codes expression))
