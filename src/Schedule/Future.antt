-- ===== src/Schedule/Future.antt =====
-- The next run of a schedule lies in the future, in a time zone that skips no midnight or minute of
-- a day and repeats no hour.
use relay_scheduler.Base.{
  ℕ, ◌+◌, ◌≤◌, ◌<◌, String, ◌≡◌, subst, inl, inr, List, arith, ltb, Bool-cases, ltb→lt, ok,
  >>=-eq_ok, refuse, ◌∷◌, [], ◌>>=◌, ◌>>◌, not, ◌&&◌, ◌*◌, ◌^◌, Bool, Result, err, true, ◌≢◌,
  if◌then◌else◌, ◌==◌, false, ◌∙◌, ap, refl, suc, eq_iff, zero,
}
use relay_scheduler.Clock.{Time, Zone, hour, day_of, hour_of, weekday_of, date, minute}
use relay_scheduler.Schedule.Wall.{
  ScheduleError, parse_time, daily_at, next_daily, next_hourly, days_until, weekly_at, cron_number,
  cron_at, cron_fields, next_weekly, or_error, any_contains, invalid_day, find_day, cron_hour,
  cron_syntax, day_map, parse_fields, star, cron_constraint, cron_wildcard_minute, next_cron,
  cron_minute, Checked, interval_not_positive,
}
use relay_scheduler.Schedule.{
  run_daily, run_hourly, run_weekly, parsed, run_cron, run_interval, calculate_next_run,
  schedule_type,
}
use relay_scheduler.Text.{codes, lower, text_eq, fields}
use relay_scheduler.Schedule.Json.{RawSchedule, get_int, get_text}
use relay_scheduler.Base.Int.{pos_part, pos, ℤ, leb_ℤ, negsuc, offset_by, mul64, mul64_fits}

-- A time zone without gaps or repetitions in its local time.
pub record IsRegular (zone : Zone) : Type 0 where
  pub days_forward : (s t : Time) → s ≤ t → day_of zone s ≤ day_of zone t
  pub dates_exist : (day h m : ℕ) → h < 24 → m < 60 → day_of zone (date zone day h m) ≡ day
  pub hour_ends : (t : Time) → t < date zone (day_of zone t) (hour_of zone t) 0 + hour
  pub minutes_forward : (day h m : ℕ) → m < 60 → date zone day h 0 ≤ date zone day h m

parse_time_bounds : (s : String) (h m : ℕ) → parse_time s ≡ ok (h, m) → (h < 24) × (m < 60)
unfolding parse_time
parse_time_bounds s h m e = ground arith

cron_number_bounds :
    (field : List ℕ) (limit n : ℕ) (x : ScheduleError)
    → cron_number field limit x ≡ ok n
    → n ≤ limit
unfolding cron_number
cron_number_bounds field limit n x e = ground arith

module _ (zone : Zone) (r : IsRegular zone) where
  later_day : (s t : Time) → day_of zone s < day_of zone t → s < t
  later_day s t h = ground (arith, r.days_forward t s)

  daily_at-future : (now : Time) (h m : ℕ) → h < 24 → m < 60 → now < daily_at zone now h m
  unfolding daily_at
  daily_at-future now h m hh mm =
      let tomorrow = date zone (day_of zone now + 1) h m in
      ground (arith, later_day now tomorrow, r.dates_exist (day_of zone now + 1) h m hh mm)

  next_hourly-future : (now : Time) (m : ℕ) → m < 60 → now < next_hourly zone now m
  unfolding next_hourly
  next_hourly-future now m mm =
      ground (arith, r.hour_ends now, r.minutes_forward (day_of zone now) (hour_of zone now) m mm)

  weekly_at-future :
      (now : Time) (target h m : ℕ) → h < 24 → m < 60 → now < weekly_at zone now target h m
  unfolding weekly_at
  weekly_at-future now target h m hh mm =
      let k = days_until target (weekday_of zone now) in
      let next = date zone (day_of zone now + k) h m in
      let after = date zone (day_of zone next + 7) h m in
      let landed = r.dates_exist (day_of zone now + k) h m hh mm in
      let passed = r.dates_exist (day_of zone next + 7) h m hh mm in
      elim (Bool-cases (ltb now next)) [
        | inl e ↦ rw e (ltb→lt now next e)
        | inr e ↦ rw e (later_day now after (omega arith))
      ]

  next_daily-future : (now t : Time) (s : String) → next_daily zone now s ≡ ok t → now < t
  unfolding next_daily
  next_daily-future now t s e =
      let ((h, m), p, q) = >>=-eq_ok (parse_time s) _ e in
      let (hh, mm) = parse_time_bounds s h m p in
      let v : daily_at zone now h m ≡ t = cc in
      subst (λ (x : ℕ). now < x) v (daily_at-future now h m hh mm)

  run_daily-future : (now t : Time) (raw : RawSchedule) → run_daily zone now raw ≡ ok t → now < t
  unfolding run_daily
  run_daily-future now t raw e =
      let (s, p, q) = >>=-eq_ok (parsed parse_fields (get_text "time" raw)) _ e in
      next_daily-future now t s q

  run_hourly-future : (now t : Time) (raw : RawSchedule) → run_hourly zone now raw ≡ ok t → now < t
  unfolding run_hourly
  run_hourly-future now t raw e =
      let (n, p, q) = >>=-eq_ok (parsed parse_fields (get_int "minute" raw)) _ e in
      ground (arith, next_hourly-future now (pos_part n))

  next_weekly-future : (now t : Time) (day s : String) → next_weekly zone now day s ≡ ok t → now < t
  unfolding next_weekly
  next_weekly-future now t day s e =
      let (target, p, q) =
        >>=-eq_ok (or_error invalid_day (find_day (lower (codes day)) day_map)) _ e in
      let ((h, m), p', q') = >>=-eq_ok (parse_time s) _ q in
      let (hh, mm) = parse_time_bounds s h m p' in
      let v : weekly_at zone now target h m ≡ t = cc in
      subst (λ (x : ℕ). now < x) v (weekly_at-future now target h m hh mm)

  run_weekly-future : (now t : Time) (raw : RawSchedule) → run_weekly zone now raw ≡ ok t → now < t
  unfolding run_weekly
  run_weekly-future now t raw e =
      let (day, p, q) = >>=-eq_ok (parsed parse_fields (get_text "day" raw)) _ e in
      let (s, p', q') = >>=-eq_ok (parsed parse_fields (get_text "time" raw)) _ q in
      next_weekly-future now t day s q'

  cron_hour-future :
      (now t : Time) (field : List ℕ) (m : ℕ)
      → m < 60
      → (do h ← cron_number field 23 cron_hour; ok (daily_at zone now h m)) ≡ ok t
      → now < t
  cron_hour-future now t field m mm e =
      let (h, p, q) = >>=-eq_ok (cron_number field 23 cron_hour) _ e in
      let hh = cron_number_bounds field 23 h cron_hour p in
      let v : daily_at zone now h m ≡ t = cc in
      subst (λ (x : ℕ). now < x) v (daily_at-future now h m (omega arith) mm)

  cron_at-future : (now t : Time) (a b c d f : List ℕ) → cron_at zone now a b c d f ≡ ok t → now < t
  unfolding cron_at
  cron_at-future now t a b c d f e =
      let (_, p1, e1) =
        >>=-eq_ok (refuse (any_contains (a ∷ b ∷ c ∷ d ∷ f ∷ []) (codes "/,-")) cron_syntax) _ e in
      let (_, p2, e2) =
        >>=-eq_ok
          (refuse (not (text_eq c star && text_eq d star && text_eq f star)) cron_constraint) _
          e1 in
      let (_, p3, e3) = >>=-eq_ok (refuse (text_eq a star) cron_wildcard_minute) _ e2 in
      let (m, p4, e4) = >>=-eq_ok (cron_number a 59 cron_minute) _ e3 in
      let mm = cron_number_bounds a 59 m cron_minute p4 in
      elim (Bool-cases (text_eq b star)) [
        | inl h ↦
            let done : ok (next_hourly zone now m) ≡ ok t = rw h at e4 in
            let v : next_hourly zone now m ≡ t = cc in
            subst (λ (x : ℕ). now < x) v (next_hourly-future now m (omega arith))
        | inr h ↦ cron_hour-future now t b m (omega arith) (rw h at e4)
      ]

  cron_fields-future :
      (now t : Time) (fs : List (List ℕ)) → cron_fields zone now fs ≡ ok t → now < t
  unfolding cron_fields
  cron_fields-future now t (a ∷ b ∷ c ∷ d ∷ f ∷ []) e = cron_at-future now t a b c d f e
  cron_fields-future now t _ e = cc

  run_cron-future : (now t : Time) (raw : RawSchedule) → run_cron zone now raw ≡ ok t → now < t
  unfolding run_cron next_cron
  run_cron-future now t raw e =
      let (s, p, q) = >>=-eq_ok (parsed parse_fields (get_text "expression" raw)) _ e in
      cron_fields-future now t (fields (codes s)) q

-- The minutes of an interval schedule, as nanoseconds, fit in 63 bits.
abbrev pub IntervalFits : RawSchedule → Type 0
IntervalFits raw = (n : ℕ) → get_int "minutes" raw ≡ ok (pos n) → n * minute < 2 ^ 63

parsed-ok {ℓ} :
    {A : Type ℓ} (x : ScheduleError) (r : Result (Unit {0}) A) (a : A)
    → parsed x r ≡ ok a
    → r ≡ ok a
parsed-ok x (ok b) a e = cc
parsed-ok x (err u) a e = cc

interval-future :
    (now t : Time) (n : ℤ)
    → pos_part n * minute < 2 ^ 63
    → (refuse (leb_ℤ n (pos 0)) interval_not_positive >> ok (offset_by now (mul64 n minute))) ≡ ok t
    → now < t
interval-future now t (pos zero) h e = ground arith
interval-future now t (pos (suc k)) h e = ground (arith, mul64_fits (suc k) minute h (omega arith))
interval-future now t (negsuc k) h e = ground arith

fits_part :
    (raw : RawSchedule) (n : ℤ)
    → IntervalFits raw
    → get_int "minutes" raw ≡ ok n
    → pos_part n * minute < 2 ^ 63
fits_part raw (pos k) fits e = fits k e
fits_part raw (negsuc k) fits e = omega arith

run_interval-future :
    (now t : Time) (raw : RawSchedule) → IntervalFits raw → run_interval now raw ≡ ok t → now < t
unfolding run_interval
run_interval-future now t raw fits e =
    let (n, p, q) = >>=-eq_ok (parsed parse_fields (get_int "minutes" raw)) _ e in
    interval-future now t n
      (fits_part raw n fits (parsed-ok parse_fields (get_int "minutes" raw) n p)) q

-- One test of the switch.
if-ok {κ} :
    {G : Type κ} (b : Bool) (x y : Checked Time) (t : Time)
    → (b ≡ true → x ≡ ok t → G)
    → (y ≡ ok t → G)
    → (if b then x else y) ≡ ok t
    → G
if-ok true x y t h k e = h refl e
if-ok false x y t h k e = k e

-- In a regular time zone the next run of any schedule but a one-shot one lies after the time of the
-- call, for an interval as long as its minutes fit in 63 bits of nanoseconds.
pub calculate_next_run-future :
    (zone : Zone) (now t : Time) (raw : RawSchedule)
    → IsRegular zone
    → IntervalFits raw
    → schedule_type raw ≢ ok "once"
    → calculate_next_run zone now raw ≡ ok t
    → now < t
unfolding calculate_next_run
calculate_next_run-future zone now t raw r fits other e =
    let (st, p, q) = >>=-eq_ok (schedule_type raw) _ e in
    if-ok (st == "daily") _ _ t (λ _. run_daily-future zone r now t raw)
      (if-ok (st == "hourly") _ _ t (λ _. run_hourly-future zone r now t raw)
        (if-ok (st == "interval") _ _ t (λ _. run_interval-future now t raw fits)
          (if-ok (st == "weekly") _ _ t (λ _. run_weekly-future zone r now t raw)
            (if-ok (st == "cron") _ _ t (λ _. run_cron-future zone r now t raw)
              (if-ok (st == "once") _ _ t
                (λ s _. absurd (other (p ∙ ap ok ((eq_iff st "once").0 s))))
                (if-ok (st == "on_demand") _ _ t (λ _ w. cc) (λ w. cc)))))))
      q
