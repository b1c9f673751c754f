-- ===== src/Api/Removed.antt =====
-- What DELETE leaves of a task, in the store and in the schedule.
use relay_scheduler.Base.{
  ◌≢◌, subst, String, ◌≡◌, refl, ◌∙◌, inl, inr, Bool, true, false, Option, none, some, arith,
  eq_refl, Option-cases, Result, ok, err, ◌==◌, if◌then◌else◌, Bool-cases, lookup, Result-cases,
  sym,
}
use relay_scheduler.Task.{Task}
use relay_scheduler.Store.{Disk, StoreError, delete, find_task}
use relay_scheduler.Store.Calls.{view, deleting}
use relay_scheduler.Store.Refinement.{IsSound, view-call}
use relay_scheduler.Store.Answers.{commit_answers, get-view}
use relay_scheduler.Scheduler.State.{World}
use relay_scheduler.Scheduler.Plan.{
  unschedule_task, reschedule_or_disable, reschedule, type_of, schedule_task_locked,
}
use relay_scheduler.Api.Routes.{Response, deleted, not_found, delete_task, delete_answer}
use relay_scheduler.Clock.{Time}
use relay_scheduler.Schedule.{schedule_type, calculate_next_run}
use relay_scheduler.Api.Accepted.{not_on_demand, planned}

abbrev pub is_known : Option Task → Bool
is_known none = false
is_known (some t) = true

delete_answers : (d : Disk) (id : String) → IsSound d → (delete d id).1 ≡ ok (is_known (view d id))
unfolding delete
delete_answers d id s = elim (Option-cases (find_task id s.tasks)) [
  | inl n ↦ rw (s.readable, delete) (rw (n, delete))
  | inr (t, f) ↦ rw (s.readable, delete) (rw (f, delete) (commit_answers d _ _ s.writable))
]

abbrev pub told : Bool → Response
told true = (200, deleted)
told false = (404, not_found)

-- The handler's answer and the world that it leaves, by the store's answer.
answer_tells :
    (w : World) (d : Disk) (r : Result StoreError Bool) (b : Bool)
    → r ≡ ok b
    → (delete_answer w (d, r)).1 ≡ told b
answer_tells w d (ok true) b e = ground arith
answer_tells w d (ok false) b e = ground arith
answer_tells w d (err x) b e = cc

pub answer_leaves :
    (w : World) (x : Disk × Result StoreError Bool)
    → ((delete_answer w x).0.disk ≡ x.0)
      × ((delete_answer w x).0.scheduler.tasks ≡ w.scheduler.tasks)
answer_leaves w (d, ok true) = (refl, refl)
answer_leaves w (d, ok false) = (refl, refl)
answer_leaves w (d, err e) = (refl, refl)

-- DELETE takes a task out of a sound store, and answers 200 where the store had it, else 404; the
-- schedule is what the other goroutines left between its two steps.
pub delete_task_lem :
    (w : World) (between : World → World) (id : String)
    → let u = between (unschedule_task w id) in
      let v = delete_task w between id in
      IsSound u.disk
      → (view v.0.disk id ≡ none)
        × (v.0.scheduler.tasks ≡ u.scheduler.tasks)
        × (v.1 ≡ told (is_known (view u.disk id)))
unfolding delete_task
delete_task_lem w between id s =
    let u = between (unschedule_task w id) in
    let (left, kept) = answer_leaves u (delete u.disk id) in
    (
      rw left (view-call u.disk (deleting id) id s tt ∙ rw (eq_refl id) refl),
      kept,
      answer_tells u (delete u.disk id).0 _ _ (delete_answers u.disk id s),
    )

pub schedule_task_locked-disk :
    (w : World) (task : Task) → (schedule_task_locked w task).disk ≡ w.disk
unfolding schedule_task_locked
schedule_task_locked-disk w task = elim (Bool-cases (type_of task.schedule == "on_demand")) [
  | inl h ↦ rw h
  | inr h ↦ elim (Result-cases (calculate_next_run w.zone w.now task.schedule)) [
    | inl (t, e) ↦ rw (h, e)
    | inr (x, e) ↦ rw (h, e)
  ]
]

recurring_branch :
    (on once demand stopped : Bool) (x y z : World)
    → on ≡ true
    → once ≡ false
    → demand ≡ false
    → stopped ≡ false
    → z ≡ (if on then (if once then x else if demand then y else if stopped then y else z) else y)
recurring_branch on once demand stopped x y z a b c d = rw (a, b, c, d)

-- A run that ends plans the next run of its task, as the store still has it.
run_end_plans :
    (w : World) (task : Task) (t : Time)
    → view w.disk task.id ≡ some task
    → IsSound w.disk
    → task.enabled ≡ true
    → w.scheduler.stopped ≡ false
    → (type_of task.schedule == "once") ≡ false
    → schedule_type task.schedule ≢ ok "on_demand"
    → calculate_next_run w.zone w.now task.schedule ≡ ok t
    → (lookup task.id (reschedule_or_disable w task).scheduler.tasks
        ≡ some (record { task = task; next_run = t }))
      × ((reschedule_or_disable w task).disk ≡ w.disk)
unfolding reschedule_or_disable reschedule
run_end_plans w task t v s on going recurs other e =
    rw (get-view w.disk task.id s, v, reschedule_or_disable)
      (subst
        (λ (u : World).
          (lookup task.id u.scheduler.tasks ≡ some (record { task = task; next_run = t }))
          × (u.disk ≡ w.disk))
        (recurring_branch task.enabled _ _ w.scheduler.stopped _ w (schedule_task_locked w task) on
          recurs (not_on_demand task.schedule other) going)
        (planned w task true t refl other e, schedule_task_locked-disk w task))

-- Where a run of a recurring task ends between the two steps of DELETE, the task is deleted with
-- status 200, and is still in the schedule with a next run: it fires once more.
pub delete_task_leaves_scheduled :
    (w : World) (task : Task) (t : Time)
    → view w.disk task.id ≡ some task
    → IsSound w.disk
    → task.enabled ≡ true
    → w.scheduler.stopped ≡ false
    → (type_of task.schedule == "once") ≡ false
    → schedule_type task.schedule ≢ ok "on_demand"
    → calculate_next_run w.zone w.now task.schedule ≡ ok t
    → let v = delete_task w (λ u. reschedule_or_disable u task) task.id in
      (v.1 ≡ (200, deleted))
      × (view v.0.disk task.id ≡ none)
      × (lookup task.id v.0.scheduler.tasks ≡ some (record { task = task; next_run = t }))
unfolding unschedule_task
delete_task_leaves_scheduled w task t v s on going recurs other e =
    let cleared = unschedule_task w task.id in
    let (planned_again, same) = run_end_plans cleared task t v s on going recurs other e in
    let (gone, kept, answer) =
      delete_task_lem w (λ u. reschedule_or_disable u task) task.id (subst IsSound (sym same) s) in
    (answer ∙ rw (same, v) refl, gone, rw kept planned_again)
