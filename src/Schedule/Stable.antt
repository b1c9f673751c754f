-- ===== src/Schedule/Stable.antt =====
-- Whether a schedule can be planned does not depend on the time or on the time zone.
use relay_scheduler.Base.{
  ℕ, String, ◌≡◌, refl, ap, ◌∙◌, ◌≢◌, inl, inr, Bool, true, false, not, ◌&&◌, ◌||◌, List, [], ◌∷◌,
  eq_iff, ◌==◌, if◌then◌else◌, Bool-cases, Result, ok, err, ◌>>=◌, refuse, >>=-eq_ok,
}
use relay_scheduler.Base.Int.{pos, ltb_ℤ, leb_ℤ}
use relay_scheduler.Clock.{Time, Zone}
use relay_scheduler.Schedule.Json.{RawSchedule, get_text, get_int}
use relay_scheduler.Schedule.Wall.{
  ScheduleError, Checked, parse_time, next_daily, next_weekly, cron_number, cron_at, cron_fields,
  next_cron, any_contains, or_error, invalid_day, cron_syntax, find_day, day_map, star,
  cron_constraint, cron_wildcard_minute, parse_fields, cron_minute, hourly_range, cron_hour,
  interval_not_positive,
}
use relay_scheduler.Schedule.{
  parsed, schedule_type, run_daily, run_hourly, run_interval, run_weekly, run_cron, run_once,
  dispatch, calculate_next_run, validate_schedule,
}
use relay_scheduler.Text.{codes, lower, text_eq, fields}

-- Both fail alike, or both succeed.
abbrev pub Alike {ℓ} : {A : Type ℓ} → Result ScheduleError A → Result ScheduleError A → Type 0
Alike (ok a) (ok b) = Unit {0}
Alike (err e) (err f) = e ≡ f
Alike _ _ = ⊥

Alike-bind {ℓ κ} :
    {A : Type ℓ} {B : Type κ} (r : Result ScheduleError A) (f g : A → Result ScheduleError B)
    → ((a : A) → Alike (f a) (g a))
    → Alike (r >>= f) (r >>= g)
Alike-bind (ok a) f g h = h a
Alike-bind (err e) f g h = refl

Alike-refl {ℓ} : {A : Type ℓ} (r : Result ScheduleError A) → Alike r r
Alike-refl (ok a) = tt
Alike-refl (err e) = refl

Alike-if {ℓ} :
    {A : Type ℓ} (b : Bool) (x y x' y' : Result ScheduleError A)
    → Alike x x'
    → Alike y y'
    → Alike (if b then x else y) (if b then x' else y')
Alike-if true x y x' y' h k = h
Alike-if false x y x' y' h k = k

module _ (z z' : Zone) (now now' : Time) where
  next_daily-Alike : (s : String) → Alike (next_daily z now s) (next_daily z' now' s)
  unfolding next_daily
  next_daily-Alike s = Alike-bind (parse_time s) _ _ (λ p. tt)

  next_weekly-Alike : (d s : String) → Alike (next_weekly z now d s) (next_weekly z' now' d s)
  unfolding next_weekly
  next_weekly-Alike d s =
      Alike-bind (or_error invalid_day (find_day (lower (codes d)) day_map)) _ _
        (λ t. Alike-bind (parse_time s) _ _ (λ p. tt))

  cron_at-Alike : (a b c d f : List ℕ) → Alike (cron_at z now a b c d f) (cron_at z' now' a b c d f)
  unfolding cron_at
  cron_at-Alike a b c d f =
      Alike-bind (refuse (any_contains (a ∷ b ∷ c ∷ d ∷ f ∷ []) (codes "/,-")) cron_syntax) _ _
        (λ _.
          Alike-bind
            (refuse (not (text_eq c star && text_eq d star && text_eq f star)) cron_constraint) _ _
            (λ _. Alike-bind (refuse (text_eq a star) cron_wildcard_minute) _ _ (λ _.
              Alike-bind (cron_number a 59 cron_minute) _ _ (λ m.
                Alike-if (text_eq b star) _ _ _ _ tt
                  (Alike-bind (cron_number b 23 cron_hour) _ _ (λ h. tt))))))

  cron_fields-Alike : (fs : List (List ℕ)) → Alike (cron_fields z now fs) (cron_fields z' now' fs)
  unfolding cron_fields
  cron_fields-Alike [] = refl
  cron_fields-Alike (a ∷ []) = refl
  cron_fields-Alike (a ∷ b ∷ []) = refl
  cron_fields-Alike (a ∷ b ∷ c ∷ []) = refl
  cron_fields-Alike (a ∷ b ∷ c ∷ d ∷ []) = refl
  cron_fields-Alike (a ∷ b ∷ c ∷ d ∷ f ∷ []) = cron_at-Alike a b c d f
  cron_fields-Alike (a ∷ b ∷ c ∷ d ∷ f ∷ g ∷ r) = refl

  dispatch-Alike :
      (st : String) (raw : RawSchedule) → Alike (dispatch z now st raw) (dispatch z' now' st raw)
  unfolding dispatch run_daily run_hourly run_interval run_weekly run_cron next_cron
  dispatch-Alike st raw =
      Alike-if (st == "daily") _ _ _ _
        (Alike-bind (parsed parse_fields (get_text "time" raw)) _ _ next_daily-Alike)
        (Alike-if (st == "hourly") _ _ _ _
          (Alike-bind (parsed parse_fields (get_int "minute" raw)) _ _ (λ m.
            Alike-bind (refuse (ltb_ℤ m (pos 0) || ltb_ℤ (pos 59) m) hourly_range) _ _ (λ _. tt)))
          (Alike-if (st == "interval") _ _ _ _
            (Alike-bind (parsed parse_fields (get_int "minutes" raw)) _ _
              (λ n. Alike-bind (refuse (leb_ℤ n (pos 0)) interval_not_positive) _ _ (λ _. tt)))
            (Alike-if (st == "weekly") _ _ _ _
              (Alike-bind (parsed parse_fields (get_text "day" raw)) _ _ (λ d.
                Alike-bind (parsed parse_fields (get_text "time" raw)) _ _ (next_weekly-Alike d)))
              (Alike-if (st == "cron") _ _ _ _
                (Alike-bind (parsed parse_fields (get_text "expression" raw)) _ _
                  (λ s. cron_fields-Alike (fields (codes s))))
                (Alike-if (st == "once") _ _ _ _ (Alike-refl (run_once raw))
                  (Alike-if (st == "on_demand") _ _ _ _ refl refl))))))

  -- Two calls of CalculateNextRun on one schedule, at any times and in any time zones, fail with the
  -- same error or both succeed.
  pub calculate_next_run-Alike :
      (raw : RawSchedule) → Alike (calculate_next_run z now raw) (calculate_next_run z' now' raw)
  unfolding calculate_next_run
  calculate_next_run-Alike raw = Alike-bind (schedule_type raw) _ _ (λ st. dispatch-Alike st raw)

pub Alike-ok : (r r' : Checked Time) (t : Time) → Alike r r' → r ≡ ok t → (u : Time) × (r' ≡ ok u)
Alike-ok (ok a) (ok b) t h e = (b, refl)
Alike-ok (ok a) (err x) t h e = absurd h
Alike-ok (err x) (ok b) t h e = absurd h
Alike-ok (err x) (err y) t h e = cc

-- A schedule that validation accepted, and that is not on_demand, can be planned at any time and in
-- any time zone.
pub validated_can_plan :
    (z z' : Zone) (now later now' : Time) (raw : RawSchedule)
    → validate_schedule z now later raw ≡ ok tt
    → schedule_type raw ≢ ok "on_demand"
    → (t : Time) × (calculate_next_run z' now' raw ≡ ok t)
unfolding validate_schedule
validated_can_plan z z' now later now' raw e other =
    let (st, p, q) = >>=-eq_ok (schedule_type raw) _ e in
    elim (Bool-cases (st == "on_demand")) [
      | inl h ↦ absurd (other (p ∙ ap ok ((eq_iff st "on_demand").0 h)))
      | inr h ↦
          let (t, u, v) = >>=-eq_ok (calculate_next_run z now raw) _ (rw h at q) in
          Alike-ok _ _ t (calculate_next_run-Alike z z' now now' raw) u
    ]
