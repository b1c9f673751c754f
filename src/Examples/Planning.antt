-- ===== src/Examples/Planning.antt =====
-- Schedules: the properties of schedule.go at concrete schedules.
use relay_scheduler.Base.{◌+◌, ◌<◌, ◌≡◌, refl, [], ◌∷◌, arith, ok}
use relay_scheduler.Base.Int.{pos}
use relay_scheduler.Clock.{Time, hour, day_of, hour_of, local_seconds, date, to_utc}
use relay_scheduler.Schedule.Json.{RawSchedule, object, text, number, get_int, get_text}
use relay_scheduler.Schedule.Wall.{next_daily, parse_time}
use relay_scheduler.Text.{split_once, atoi}
use relay_scheduler.Schedule.{
  run_daily, calculate_next_run, schedule_type, validate_schedule, run_interval,
}
use relay_scheduler.Schedule.Future.{IsRegular, calculate_next_run-future}
use relay_scheduler.Schedule.Stable.{validated_can_plan}
use relay_scheduler.Schedule.Overflow.{run_interval_past}
use relay_scheduler.Examples.{utc, noon, every_day}

utc-IsRegular : IsRegular utc
unfolding day_of hour_of local_seconds date to_utc
utc-IsRegular = record {
  days_forward = λ s t h. ground arith;
  dates_exist = λ day h m a b. ground arith;
  hour_ends = λ t. ground arith;
  minutes_forward = λ day h m a. ground arith;
}

calculate_next_run-future_example : noon < noon + 77_400_000_000_000
unfolding get_int schedule_type get_text calculate_next_run run_daily next_daily parse_time
    split_once atoi date day_of
calculate_next_run-future_example =
    calculate_next_run-future utc noon (noon + 77_400_000_000_000) every_day utc-IsRegular
      (λ n e. ground arith) (λ e. cc) refl

validated_can_plan_example : (t : Time) × (calculate_next_run utc (noon + hour) every_day ≡ ok t)
unfolding validate_schedule schedule_type get_text calculate_next_run run_daily next_daily
    parse_time split_once atoi
validated_can_plan_example =
    validated_can_plan utc utc noon noon (noon + hour) every_day refl (λ e. cc)

abbrev centuries : RawSchedule
centuries = object (("type", text "interval") ∷ ("minutes", number (pos 200_000_000)) ∷ [])

run_interval_past_example : (t : Time) × (run_interval noon centuries ≡ ok t) × (t < noon)
unfolding get_int
run_interval_past_example =
    run_interval_past noon 200_000_000 centuries refl (omega arith) (omega arith) (omega arith)
