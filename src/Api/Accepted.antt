-- ===== src/Api/Accepted.antt =====
-- What becomes of a task that POST accepts.
use relay_scheduler.Base.{
  ℕ, String, ◌≡◌, refl, ap, subst, ◌∙◌, ◌≢◌, inl, inr, Bool, true, false, ◌||◌, some, [], ◌∷◌,
  arith, eq_iff, eq_refl, ◌==◌, is_empty, if◌then◌else◌, Bool-cases, Result-cases, Result, ok, err,
  refuse, map_err, lookup, remove, lookup-insert, >>=-eq_ok,
}
use relay_scheduler.Schedule.Json.{RawSchedule, is_absent}
use relay_scheduler.Clock.{Time, Zone}
use relay_scheduler.Task.{Task}
use relay_scheduler.Text.{Text, codes, text_eq, has_code, contains_any}
use relay_scheduler.Schedule.{validate_schedule, calculate_next_run, schedule_type}
use relay_scheduler.Schedule.Stable.{validated_can_plan}
use relay_scheduler.Store.{Disk, StoreError, create}
use relay_scheduler.Store.Calls.{stamp}
use relay_scheduler.Store.Refinement.{IsSound}
use relay_scheduler.Store.Answers.{create_answers}
use relay_scheduler.Scheduler.State.{World, with_disk, with_tasks}
use relay_scheduler.Scheduler.Plan.{schedule_task, schedule_task_locked, type_of}
use relay_scheduler.Api.Validate.{
  validate_task, invalid_schedule, name_required, project_required, schedule_required, is_path,
  base_name, strip_slashes, last_part,
}
use relay_scheduler.Api.Routes.{Response, one_task, decode_task, post_task, create_answer}

text_eq_refl : (s : Text) → text_eq s s ≡ true
unfolding text_eq
text_eq_refl [] = refl
text_eq_refl (c ∷ s) = ground (arith, text_eq_refl s)

strip_slashes_lem : (s : Text) → has_code 0x2f s ≡ false → strip_slashes s ≡ s
unfolding strip_slashes has_code
strip_slashes_lem [] h = refl
strip_slashes_lem (c ∷ s) h = ground (arith, strip_slashes_lem s)

last_part_lem : (s : Text) → has_code 0x2f s ≡ false → last_part s ≡ s
unfolding last_part has_code
last_part_lem [] h = refl
last_part_lem (c ∷ s) h = ground (arith, last_part_lem s)

has_code-contains_any :
    (c : ℕ) (s cs : Text) → has_code c s ≡ true → has_code c cs ≡ true → contains_any s cs ≡ true
unfolding has_code contains_any
has_code-contains_any c [] cs h k = cc
has_code-contains_any c (d ∷ s) cs h k = ground (arith, has_code-contains_any c s cs)

-- For a name that is not empty, the test with filepath.Base adds nothing to the other three.
pub is_path_lem :
    (c : ℕ) (s : Text)
    → is_path (c ∷ s) ≡ (
        text_eq (c ∷ s) (codes ".")
        || text_eq (c ∷ s) (codes "..")
        || contains_any (c ∷ s) (0x2f ∷ 0x5c ∷ 0 ∷ []))
unfolding is_path base_name has_code
is_path_lem c s = elim (Bool-cases (has_code 0x2f (c ∷ s))) [
  | inl e ↦ rw (has_code-contains_any 0x2f (c ∷ s) (0x2f ∷ 0x5c ∷ 0 ∷ []) e refl) (ground arith)
  | inr e ↦ rw (strip_slashes_lem (c ∷ s) e, last_part_lem (c ∷ s) e, text_eq_refl (c ∷ s)) refl
]

map_err-ok {ℓ κ μ} :
    {E : Type κ} {F : Type μ} {A : Type ℓ} (f : E → F) (r : Result E A) (a : A)
    → map_err f r ≡ ok a
    → r ≡ ok a
map_err-ok f (ok b) a e = cc
map_err-ok f (err x) a e = cc

pub validated_schedule :
    (z : Zone) (now later : Time) (task : Task)
    → validate_task z now later task ≡ ok tt
    → validate_schedule z now later task.schedule ≡ ok tt
unfolding validate_task
validated_schedule z now later task e =
    let (_, _, e1) = >>=-eq_ok (refuse (is_empty task.name) name_required) _ e in
    let (_, _, e2) = >>=-eq_ok (refuse (is_empty task.project_id) project_required) _ e1 in
    let (_, _, e3) = >>=-eq_ok (refuse (is_absent task.schedule) schedule_required) _ e2 in
    let (u, p, _) =
      >>=-eq_ok (map_err invalid_schedule (validate_schedule z now later task.schedule)) _ e3 in
    map_err-ok invalid_schedule (validate_schedule z now later task.schedule) u p

pub not_on_demand :
    (raw : RawSchedule) → schedule_type raw ≢ ok "on_demand" → (type_of raw == "on_demand") ≡ false
not_on_demand raw other = elim (Result-cases (schedule_type raw)) [
  | inr (x, p) ↦ rw p
  | inl (st, p) ↦ rw p (elim (Bool-cases (st == "on_demand")) [
    | inl h ↦ absurd (other (p ∙ ap ok ((eq_iff st "on_demand").0 h)))
    | inr h ↦ h
  ])
]

pub planned :
    (w : World) (task : Task) (b : Bool) (t : Time)
    → b ≡ true
    → schedule_type task.schedule ≢ ok "on_demand"
    → calculate_next_run w.zone w.now task.schedule ≡ ok t
    → lookup task.id (if b then schedule_task_locked w task else w).scheduler.tasks
      ≡ some (record { task = task; next_run = t })
unfolding schedule_task_locked
planned w task true t h other e =
    rw (not_on_demand task.schedule other, e, lookup-insert, eq_refl task.id)
planned w task false t h other e = cc

pub schedules :
    (w : World) (task : Task) (t : Time)
    → task.enabled ≡ true
    → schedule_type task.schedule ≢ ok "on_demand"
    → calculate_next_run w.zone w.now task.schedule ≡ ok t
    → lookup task.id (schedule_task w task).scheduler.tasks
      ≡ some (record { task = task; next_run = t })
unfolding schedule_task
schedules w task t on other e =
    planned (with_tasks w (remove task.id w.scheduler.tasks)) task task.enabled t on other e

-- What POST answers, and what it leaves in the schedule.
abbrev pub IsPlanned : World × Response → Task → Type 0
IsPlanned (v, r) task =
    (r ≡ (201, one_task task))
    × (t : Time) × (lookup task.id v.scheduler.tasks ≡ some (record { task = task; next_run = t }))

answered-IsPlanned :
    (w : World) (between : World → World) (d : Disk) (r : Result StoreError Task) (task : Task)
    → r ≡ ok task
    → ((v : World)
        → (t : Time) × (lookup task.id (schedule_task v task).scheduler.tasks
            ≡ some (record { task = task; next_run = t })))
    → IsPlanned (create_answer w between (d, r)) task
answered-IsPlanned w between d (ok x) task e plans =
    let same : task ≡ x = cc in
    subst (λ (y : Task). IsPlanned (create_answer w between (d, ok y)) task) same
      (let (t, p) = plans (between (with_disk w d)) in (refl, t, p))
answered-IsPlanned w between d (err x) task e plans = cc

-- A valid, enabled task whose schedule is not on_demand is created by POST in a sound store with
-- status 201, and is then in the schedule with a next run, whatever other goroutines do between the
-- store's step and the scheduler's.
pub post_task_plans :
    (w : World) (later : Time) (new_id : String) (between : World → World) (task : Task)
    → IsSound w.disk
    → validate_task w.zone w.now later task ≡ ok tt
    → task.enabled ≡ true
    → schedule_type task.schedule ≢ ok "on_demand"
    → IsPlanned (post_task w later new_id between (ok task)) (stamp w.now new_id task)
unfolding post_task decode_task
post_task_plans w later new_id between task s valid on other =
    rw (valid, post_task, decode_task)
      (answered-IsPlanned w between (create w.disk w.now new_id task).0 _ (stamp w.now new_id task)
        (create_answers w.disk w.now new_id task s)
        (λ v.
          let (t, e) =
            validated_can_plan w.zone v.zone w.now later v.now task.schedule
              (validated_schedule w.zone w.now later task valid) other in
          (t, schedules v (stamp w.now new_id task) t on other e)))
