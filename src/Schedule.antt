-- ===== src/Schedule.antt =====
-- schedule.go: ScheduleType, CalculateNextRun and ValidateSchedule. The machine's time zone and the
-- time of the call are arguments.
pub mod Json
pub mod Wall
pub mod Future
pub mod Overflow
pub mod Stable
use relay_scheduler.Base.{
  ℕ, ◌+◌, ◌≡◌, refl, String, Bool, true, false, not, ◌&&◌, ◌||◌, List, [], ◌∷◌, Result, ok, err,
  ◌>>=◌, ◌>>◌, refuse, map_err, ltb, leb, if◌then◌else◌, ◌==◌, is_empty,
}
use relay_scheduler.Base.Int.{ℤ, pos, negsuc, pos_part, neg_part, ltb_ℤ, leb_ℤ, mul64, offset_by}
use relay_scheduler.Clock.{Time, Zone, minute}
use relay_scheduler.Clock.Rfc3339.{parse}
use Json.{RawSchedule, get_text, get_int}
use Wall.{
  ScheduleError, parse_type, type_required, parse_fields, hourly_range, interval_not_positive,
  bad_at, once_past, not_scheduled, unknown_type, Checked, or_error, next_daily, next_hourly,
  next_weekly, next_cron,
}

-- An unmarshal error, under the caller's own.
abbrev pub parsed {ℓ} : {A : Type ℓ} → ScheduleError → Result (Unit {0}) A → Result ScheduleError A
parsed e = map_err λ _. e

unfoldable pub schedule_type : RawSchedule → Checked String
schedule_type raw = do
  t ← parsed parse_type (get_text "type" raw)
  refuse (is_empty t) type_required
  ok t

-- The cases of the switch on the type, each over the fields of its struct.
unfoldable pub run_daily : Zone → Time → RawSchedule → Checked Time
run_daily zone now raw = do
  time_text ← parsed parse_fields (get_text "time" raw)
  next_daily zone now time_text

unfoldable pub run_hourly : Zone → Time → RawSchedule → Checked Time
run_hourly zone now raw = do
  m ← parsed parse_fields (get_int "minute" raw)
  refuse (ltb_ℤ m (pos 0) || ltb_ℤ (pos 59) m) hourly_range
  ok (next_hourly zone now (pos_part m))

-- `now.Add(time.Duration(s.Minutes) * time.Minute)`, with the int64 product.
unfoldable pub run_interval : Time → RawSchedule → Checked Time
run_interval now raw = do
  n ← parsed parse_fields (get_int "minutes" raw)
  refuse (leb_ℤ n (pos 0)) interval_not_positive
  ok (offset_by now (mul64 n minute))

unfoldable pub run_weekly : Zone → Time → RawSchedule → Checked Time
run_weekly zone now raw = do
  day ← parsed parse_fields (get_text "day" raw)
  time_text ← parsed parse_fields (get_text "time" raw)
  next_weekly zone now day time_text

unfoldable pub run_cron : Zone → Time → RawSchedule → Checked Time
run_cron zone now raw = do
  expression ← parsed parse_fields (get_text "expression" raw)
  next_cron zone now expression

unfoldable pub run_once : RawSchedule → Checked Time
run_once raw = do at_text ← parsed parse_fields (get_text "at" raw); or_error bad_at (parse at_text)

unfoldable pub dispatch : Zone → Time → String → RawSchedule → Checked Time
dispatch zone now st raw =
    if st == "daily"
    then run_daily zone now raw
    else if st == "hourly"
    then run_hourly zone now raw
    else if st == "interval"
    then run_interval now raw
    else if st == "weekly"
    then run_weekly zone now raw
    else if st == "cron"
    then run_cron zone now raw
    else if st == "once"
    then run_once raw
    else if st == "on_demand"
    then err not_scheduled
    else err (unknown_type st)

unfoldable pub calculate_next_run : Zone → Time → RawSchedule → Checked Time
unfolding dispatch
calculate_next_run zone now raw = do st ← schedule_type raw; dispatch zone now st raw

-- `now` is the reading inside CalculateNextRun, `later` the one that the result is compared with.
unfoldable pub validate_schedule : Zone → Time → Time → RawSchedule → Checked (Unit {0})
validate_schedule zone now later raw = do
  st ← schedule_type raw
  if st == "on_demand" then ok tt else do
    next ← calculate_next_run zone now raw
    refuse (st == "once" && not (ltb later next)) once_past
