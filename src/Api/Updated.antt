-- ===== src/Api/Updated.antt =====
-- What PUT does to the schedule, and what the end of its run does to a one-shot task.
use relay_scheduler.Base.{
  String, ◌≡◌, refl, subst, ◌∙◌, ◌≢◌, ◌⊎◌, inl, inr, Bool, true, false, Option, none, some, eq_refl,
  ◌==◌, if◌then◌else◌, Bool-cases, Result, ok, err, lookup, remove, lookup-remove,
}
use relay_scheduler.Clock.{Time}
use relay_scheduler.Task.{Task}
use relay_scheduler.Schedule.{calculate_next_run, schedule_type}
use relay_scheduler.Schedule.Stable.{validated_can_plan}
use relay_scheduler.Store.{Disk, StoreError, update, merge, set_enabled}
use relay_scheduler.Store.Calls.{view, changed, changing, enabled}
use relay_scheduler.Store.Refinement.{IsSound, view-call}
use relay_scheduler.Store.Answers.{update_answers, get-view}
use relay_scheduler.Scheduler.State.{World, with_disk, with_tasks}
use relay_scheduler.Scheduler.Plan.{schedule_task, reschedule_or_disable, reschedule, type_of}
use relay_scheduler.Scheduler.Overlap.{get_id}
use relay_scheduler.Api.Validate.{validate_task}
use relay_scheduler.Api.Routes.{one_task, put_task, update_answer, decode_task}
use relay_scheduler.Api.Accepted.{schedules, validated_schedule}

-- An enabled task is in the schedule with a next run, a disabled one is not in the schedule.
abbrev pub IsPlaced : World → Task → Type 0
IsPlaced v task =
    ((task.enabled ≡ true)
      × (t : Time) × (lookup task.id v.scheduler.tasks
          ≡ some (record { task = task; next_run = t })))
    ⊎ ((task.enabled ≡ false) × (lookup task.id v.scheduler.tasks ≡ none))

cleared_stays :
    (id : String) (w u : World) (b : Bool)
    → b ≡ false
    → lookup id w.scheduler.tasks ≡ none
    → lookup id (if b then u else w).scheduler.tasks ≡ none
cleared_stays id w u true e h = cc
cleared_stays id w u false e h = h

schedule_task-IsPlaced :
    (w : World) (task : Task)
    → schedule_type task.schedule ≢ ok "on_demand"
    → (t : Time) × (calculate_next_run w.zone w.now task.schedule ≡ ok t)
    → IsPlaced (schedule_task w task) task
unfolding schedule_task
schedule_task-IsPlaced w task other (t, e) = elim (Bool-cases task.enabled) [
  | inl on ↦ inl (on, t, schedules w task t on other e)
  | inr off ↦ inr (
    off,
    cleared_stays task.id (with_tasks w (remove task.id w.scheduler.tasks)) _ task.enabled off
        (lookup-remove task.id task.id w.scheduler.tasks ∙ rw (eq_refl task.id) refl),
  )
]

updated-IsPlaced :
    (w : World) (between : World → World) (d : Disk) (r : Result StoreError (Option Task))
    (task : Task)
    → r ≡ ok (some task)
    → ((v : World) → IsPlaced (schedule_task v task) task)
    → ((update_answer w between (d, r)).1 ≡ (200, one_task task))
      × IsPlaced (update_answer w between (d, r)).0 task
updated-IsPlaced w between d (ok (some x)) task e places =
    let same : task ≡ x = cc in
    subst
      (λ (y : Task).
        ((update_answer w between (d, ok (some y))).1 ≡ (200, one_task task))
        × IsPlaced (update_answer w between (d, ok (some y))).0 task)
      same (refl, places (between (with_disk w d)))
updated-IsPlaced w between d (ok none) task e places = cc
updated-IsPlaced w between d (err x) task e places = cc

-- A valid definition whose schedule is not on_demand, PUT to a task of a sound store, is answered
-- with status 200 and the merged task; if that is enabled, it is then in the schedule with a next
-- run, else not in the schedule, whatever other goroutines do between the handler's two steps.
pub put_task_places :
    (w : World) (later : Time) (id : String) (between : World → World) (new t : Task)
    → IsSound w.disk
    → view w.disk id ≡ some t
    → validate_task w.zone w.now later new ≡ ok tt
    → schedule_type new.schedule ≢ ok "on_demand"
    → let v = put_task w later id between (ok new) in
      (v.1 ≡ (200, one_task (merge w.now id new t))) × IsPlaced v.0 (merge w.now id new t)
unfolding put_task decode_task merge
put_task_places w later id between new t s known valid other =
    rw (valid, put_task, decode_task)
      (updated-IsPlaced w between (update w.disk w.now id new).0 _ (merge w.now id new t)
        (update_answers w.disk w.now id new s ∙ rw known refl)
        (λ v. schedule_task-IsPlaced v (merge w.now id new t) other (
          validated_can_plan w.zone v.zone w.now later v.now new.schedule
            (validated_schedule w.zone w.now later new valid) other)))

abbrev pub IsFinished : World → String → Task → World → Type 0
IsFinished w id current v =
    (view v.disk id ≡ some (changed w.now (enabled false) current))
    × (lookup id v.scheduler.tasks ≡ none)

disabled-IsFinished :
    (w : World) (k id : String) (current : Task)
    → k ≡ id
    → IsSound w.disk
    → view w.disk id ≡ some current
    → IsFinished w id current
        (with_tasks (with_disk w (set_enabled w.disk w.now k false)) (remove k w.scheduler.tasks))
disabled-IsFinished w k id current same s known = rw same (
  view-call w.disk (changing w.now id (enabled false)) id s tt ∙ rw (eq_refl id, known) refl,
  lookup-remove id id w.scheduler.tasks ∙ rw (eq_refl id) refl,
)

once_branch :
    (w : World) (on once : Bool) (x y : World)
    → on ≡ true
    → once ≡ true
    → x ≡ (if on then (if once then x else y) else w)
once_branch w on once x y a b = rw (a, b)

-- The end of a run takes an enabled one-shot task of a sound store out of the schedule, and disables
-- it in the store.
pub once_task_ends :
    (w : World) (task current : Task)
    → IsSound w.disk
    → view w.disk task.id ≡ some current
    → current.enabled ≡ true
    → (type_of current.schedule == "once") ≡ true
    → IsFinished w task.id current (reschedule_or_disable w task)
unfolding reschedule_or_disable reschedule
once_task_ends w task current s known on once =
    let found = get-view w.disk task.id s in
    rw (found, known, reschedule_or_disable)
      (subst (IsFinished w task.id current)
        (once_branch w current.enabled (type_of current.schedule == "once") _ _ on once)
        (disabled-IsFinished w current.id task.id current
          (get_id w.disk task.id (some current) (found ∙ rw known refl) current refl) s known))
