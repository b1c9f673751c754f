-- ===== src/Api/Ended.antt =====
-- What a PUT does that comes between the two steps of the end of a run.
use relay_scheduler.Store.Calls.{view, changed, changing, updating, enabled}
use relay_scheduler.Store.Refinement.{IsSound, view-call, call-IsSound}
use relay_scheduler.Store.Answers.{get-view}
use relay_scheduler.Scheduler.Overlap.{get_id}
use relay_scheduler.Api.Updated.{put_task_places}
use relay_scheduler.Scheduler.State.{with_disk, with_tasks, with_running}
use relay_scheduler.Base.{
  String, ◌≡◌, refl, sym, ap, subst, ◌∙◌, ◌≢◌, inl, inr, Bool, true, false, Option, none, some,
  eq_refl, ◌==◌, if◌then◌else◌, Result-cases, Result, ok, err, lookup, remove, lookup-remove,
  contains, discard, contains-discard,
}
use relay_scheduler.Scheduler.Plan.{schedule_task, schedule_task_locked, type_of}
use relay_scheduler.Api.Routes.{Response, put_task, update_answer, decode_task}
use relay_scheduler.Api.Removed.{schedule_task_locked-disk}
use relay_scheduler.Store.{StoreError}
use relay_scheduler.Base.{◌≡◌, refl, inl, inr, none, some, Result-cases}
use relay_scheduler.Task.{Task}
use relay_scheduler.Store
use relay_scheduler.Store.{Disk, update, merge, set_enabled}
use relay_scheduler.Scheduler.State.{World, with_running, with_tasks, with_disk}
use relay_scheduler.Scheduler.Plan.{interrupted_end, reschedule_or_disable, reschedule}
use relay_scheduler.Clock.{Time}
use relay_scheduler.Store.Refinement.{IsSound}
use relay_scheduler.Api.Validate.{validate_task}
use relay_scheduler.Schedule.{schedule_type}

-- Where nothing comes in, both models of the end of a run agree.
interrupted_end-alone :
    (w : World) (task : Task)
    → interrupted_end (λ u. u) (λ u. u) w task ≡ reschedule_or_disable w task
unfolding interrupted_end reschedule_or_disable reschedule
interrupted_end-alone w task = elim (Result-cases (Store.get w.disk task.id)) [
  | inl (none, e) ↦ rw (e, interrupted_end, reschedule_or_disable) refl
  | inl (some t, e) ↦ rw (e, interrupted_end, reschedule_or_disable) refl
  | inr (x, e) ↦ rw (e, interrupted_end, reschedule_or_disable) refl
]

schedule_task-disk : (w : World) (task : Task) → (schedule_task w task).disk ≡ w.disk
unfolding schedule_task
schedule_task-disk w task = by_test task.enabled
  where
    by_test :
        (b : Bool)
        → let cleared = with_tasks w (remove task.id w.scheduler.tasks) in
          (if b then schedule_task_locked cleared task else cleared).disk ≡ w.disk
    by_test true = schedule_task_locked-disk _ task
    by_test false = refl

update_answer-disk :
    (w : World) (d : Disk) (r : Result StoreError (Option Task))
    → (update_answer w (λ u. u) (d, r)).0.disk ≡ d
update_answer-disk w d (err e) = refl
update_answer-disk w d (ok none) = refl
update_answer-disk w d (ok (some t)) = schedule_task-disk (with_disk w d) t

-- An undisturbed PUT of a definition, to a world that it leaves.
abbrev pub replaced : Time → String → Task → World → World
replaced later id new w = (put_task w later id (λ u. u) (ok new)).0

replaced-view :
    (w : World) (later : Time) (id : String) (new t : Task)
    → IsSound w.disk
    → view w.disk id ≡ some t
    → validate_task w.zone w.now later new ≡ ok tt
    → view (replaced later id new w).disk id ≡ some (merge w.now id new t)
unfolding put_task decode_task
replaced-view w later id new t s known valid =
    let same : (put_task w later id (λ u. u) (ok new)).0.disk ≡ (update w.disk w.now id new).0 =
      rw (valid, put_task, decode_task)
        (update_answer-disk w (update w.disk w.now id new).0 (update w.disk w.now id new).1) in
    rw same (view-call w.disk (updating w.now id new) id s tt ∙ rw (eq_refl id, known) refl)

-- The end of the run of a one-shot task, with what comes in before it takes the lock.
once_end :
    (w : World) (task current : Task) (between : World → World)
    → Store.get w.disk task.id ≡ ok (some current)
    → current.enabled ≡ true
    → (type_of current.schedule == "once") ≡ true
    → current.id ≡ task.id
    → let v = between (with_disk w (set_enabled w.disk w.now task.id false)) in
      interrupted_end (λ u. u) between w task ≡ with_tasks v (remove task.id v.scheduler.tasks)
unfolding interrupted_end
once_end w task current between e on once same = rw (e, interrupted_end) (rw (on, once, same) refl)

abbrev pub left_running : World → String → World
left_running w id = with_running w (discard id w.scheduler.running)

-- A task that is forgotten: stored and to be run automatically, but not in the schedule, and not
-- running.
pub record IsForgotten (w : World) (id : String) : Type 0 where
  pub task : Task
  pub stored : view w.disk id ≡ some task
  pub on : task.enabled ≡ true
  pub automatic : schedule_type task.schedule ≢ ok "on_demand"
  pub unscheduled : lookup id w.scheduler.tasks ≡ none
  pub idle : contains id w.scheduler.running ≡ false

-- A PUT that replaces an enabled one-shot task of a sound store by a valid, enabled definition that is
-- not on_demand, and comes between the two steps of the end of its run, is answered with status 200;
-- once the run has left the running set, the task is stored as enabled, but neither scheduled nor
-- running.
pub once_end_forgets :
    (w : World) (later : Time) (task current new : Task)
    → IsSound w.disk
    → view w.disk task.id ≡ some current
    → current.enabled ≡ true
    → (type_of current.schedule == "once") ≡ true
    → validate_task w.zone w.now later new ≡ ok tt
    → new.enabled ≡ true
    → schedule_type new.schedule ≢ ok "on_demand"
    → let disabled = with_disk w (set_enabled w.disk w.now task.id false) in
      let v = interrupted_end (λ u. u) (replaced later task.id new) w task in
      ((put_task disabled later task.id (λ u. u) (ok new)).1.0 ≡ 200)
      × IsForgotten (left_running v task.id) task.id
unfolding merge
once_end_forgets w later task current new s known on once valid new_on other =
    let id = task.id in
    let found = get-view w.disk id s ∙ rw known refl in
    let disabled = with_disk w (set_enabled w.disk w.now id false) in
    let off = changed w.now (enabled false) current in
    let sound = call-IsSound w.disk (changing w.now id (enabled false)) s tt in
    let seen : view disabled.disk id ≡ some off =
      view-call w.disk (changing w.now id (enabled false)) id s tt ∙ rw (eq_refl id, known) refl in
    let (answered, _) = put_task_places disabled later id (λ u. u) new off sound seen valid other in
    let v = replaced later id new disabled in
    let ended =
      once_end w task current (replaced later id new) found on once
        (get_id w.disk id (some current) found current refl) in
    (
      ap (λ (r : Response). r.0) answered,
      subst (λ (u : World). IsForgotten (left_running u id) id) (sym ended)
          (record {
            task = merge w.now id new off;
            stored = replaced-view disabled later id new off sound seen valid;
            on = new_on;
            automatic = other;
            unscheduled = lookup-remove id id v.scheduler.tasks ∙ rw (eq_refl id) refl;
            idle = contains-discard id id v.scheduler.running ∙ rw (eq_refl id) refl;
          }),
    )
