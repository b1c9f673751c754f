-- ===== src/Clock.antt =====
-- The part of Go's time package that schedule.go uses. A Time is the number of nanoseconds since
-- the start of year 1 (the zero Time is 0); a date is its number of days since then, which is what
-- time.Date makes of a year, a month and a day that may lie past the month's end.
pub mod Rfc3339
use relay_scheduler.Base.{ℕ, suc, ◌+◌, ◌-◌, ◌*◌, ◌/◌, ◌%◌, ◌||◌, ltb, leb, if◌then◌else◌}
use relay_scheduler.Base.Int.{ℤ, pos, negsuc, offset_by, eqb_ℤ}

abbrev pub Time : Type 0
Time = ℕ

abbrev pub second : ℕ
second = 1_000_000_000

abbrev pub minute : ℕ
minute = 60 * second

abbrev pub hour : ℕ
hour = 60 * minute

-- A period of constant offset of a time zone: seconds east of UTC, and the seconds since year 1
-- at which the period starts and ends.
pub record Span : Type 0 where
  pub offset : ℤ
  pub start : ℕ
  pub stop : ℕ

-- The time zone table of the machine, which answers with the period that holds a second.
abbrev pub Zone : Type 0
Zone = ℕ → Span

abbrev pub offset_back : ℕ → ℤ → ℕ
offset_back t (pos n) = t - n
offset_back t (negsuc n) = t + suc n

unfoldable pub local_seconds : Zone → Time → ℕ
local_seconds zone t = offset_by (t / second) (zone (t / second)).offset

-- Year, Month and Day of a time in its zone.
unfoldable pub day_of : Zone → Time → ℕ
unfolding local_seconds
day_of zone t = local_seconds zone t / 86400

unfoldable pub hour_of : Zone → Time → ℕ
unfolding local_seconds
hour_of zone t = local_seconds zone t % 86400 / 3600

-- Sunday is 0; the first day of year 1 was a Monday.
unfoldable pub weekday_of : Zone → Time → ℕ
unfolding day_of
weekday_of zone t = (day_of zone t + 1) % 7

-- time.Date's search for the offset: the local time is looked up as if it were UTC, and again once
-- the result lies outside the period that was found.
unfoldable pub to_utc : Zone → ℕ → ℕ
to_utc zone wall =
    let span = zone wall in
    let utc = offset_back wall span.offset in
    if eqb_ℤ span.offset (pos 0)
    then wall
    else if ltb utc span.start || leb span.stop utc
    then offset_back wall (zone utc).offset
    else utc

-- time.Date(year, month, day, h, m, 0, 0, zone).
unfoldable pub date : Zone → ℕ → ℕ → ℕ → Time
unfolding to_utc
date zone day h m = to_utc zone (day * 86400 + h * 3600 + m * 60) * second
