-- ===== src/Scheduler/Run/Footprint.antt =====
-- What a run leaves behind for its task: the job lines of its run id, the events of its task, and
-- the task's history; and how each step of a run changes that.
use relay_scheduler.Base.{
  String, ◌≡◌, refl, inl, inr, Bool, true, false, not, Option, none, some, List, ◌∷◌, eq_refl, ◌==◌,
  if◌then◌else◌, Bool-cases, Result-cases, take, select,
}
use relay_scheduler.Schedule.{calculate_next_run}
use relay_scheduler.Store
use relay_scheduler.Task.{Task, Execution}
use relay_scheduler.Store.{WriteFault, no_fault, Disk}
use relay_scheduler.History
use relay_scheduler.History.{max_log_entries}
use relay_scheduler.History.Newest.{load-log, fault-log}
use relay_scheduler.Hub.{Event}
use relay_scheduler.Scheduler.State.{World, Extra, lifecycle, broadcast_task_event, JobLine}
use relay_scheduler.Scheduler.Plan.{
  reschedule_or_disable, schedule_task_locked, type_of, reschedule, reschedule_found,
}
use relay_scheduler.Scheduler.Run.{RunCtx, finish, record_run}

pub record Footprint : Type 0 where
  pub lines : List JobLine
  pub events : List Event
  pub history : List Execution
  pub fault : WriteFault

abbrev of_run : RunCtx → JobLine → Bool
of_run rc l = l.run_id == rc.run_id

abbrev of_task : Task → Event → Bool
of_task task e = e.task_id == task.id

abbrev pub footprint : RunCtx → Task → World → Footprint
footprint rc task w = record {
  lines = select (of_run rc) w.lines;
  events = select (of_task task) w.events;
  history = History.load w.logs task.project_id task.id;
  fault = w.logs.fault;
}

-- Nothing logged, announced or recorded.
abbrev pub SameTrace : World → World → Type 0
SameTrace w v = (v.lines ≡ w.lines) × (v.events ≡ w.events) × (v.logs ≡ w.logs)

schedule-SameTrace : (w : World) (t : Task) → SameTrace w (schedule_task_locked w t)
unfolding schedule_task_locked
schedule-SameTrace w t = elim (Bool-cases (type_of t.schedule == "on_demand")) [
  | inl e ↦ rw (e) (refl, refl, refl)
  | inr e ↦ elim (Result-cases (calculate_next_run w.zone w.now t.schedule)) [
    | inl (n, f) ↦ rw (e, f) (refl, refl, refl)
    | inr (x, f) ↦ rw (e, f) (refl, refl, refl)
  ]
]

if-SameTrace :
    (w x y : World) (b : Bool) → SameTrace w x → SameTrace w y → SameTrace w (if b then x else y)
if-SameTrace w x y true h k = h
if-SameTrace w x y false h k = k

reschedule-SameTrace : (w : World) (t : Task) → SameTrace w (reschedule w t)
unfolding reschedule
reschedule-SameTrace w t =
    if-SameTrace w _ _ (type_of t.schedule == "once") (refl, refl, refl)
      (if-SameTrace w _ _ (type_of t.schedule == "on_demand") (refl, refl, refl)
        (if-SameTrace w _ _ w.scheduler.stopped (refl, refl, refl) (schedule-SameTrace w t)))

found-SameTrace : (w : World) (o : Option Task) → SameTrace w (reschedule_found w o)
found-SameTrace w none = (refl, refl, refl)
found-SameTrace w (some c) =
    if-SameTrace w _ _ c.enabled (reschedule-SameTrace w c) (refl, refl, refl)

reschedule_or_disable-SameTrace : (w : World) (t : Task) → SameTrace w (reschedule_or_disable w t)
unfolding reschedule_or_disable
reschedule_or_disable-SameTrace w t = elim (Result-cases (Store.get w.disk t.id)) [
  | inr (x, e) ↦ rw (e, reschedule_or_disable) (refl, refl, refl)
  | inl (o, e) ↦ rw (e, reschedule_or_disable) (found-SameTrace w o)
]

module _ (rc : RunCtx) (task : Task) where
  footprint-SameTrace : (w v : World) → SameTrace w v → footprint rc task v ≡ footprint rc task w
  footprint-SameTrace w v h = rw (h.0, h.1, h.2)

  pub footprint-reschedule :
      (w : World) (t : Task) → footprint rc task (reschedule_or_disable w t) ≡ footprint rc task w
  footprint-reschedule w t =
      footprint-SameTrace w (reschedule_or_disable w t) (reschedule_or_disable-SameTrace w t)

  pub footprint-finish :
      (w : World) (good : Bool) (phrase : String)
      → footprint rc task (finish w rc task good phrase) ≡ record (footprint rc task w) {
        lines =
            record {
              job_id = task.id;
              run_id = rc.run_id;
              trigger = rc.trigger;
              failed = not good;
              error = if good then "" else phrase;
            }
            ∷ (footprint rc task w).lines;
      }
  unfolding finish
  footprint-finish w good phrase = rw (eq_refl rc.run_id)

  pub footprint-event :
      (w : World) (kind run : String) (extra : Extra)
      → footprint rc task (broadcast_task_event w kind task run extra)
        ≡ record (footprint rc task w) {
          events = lifecycle kind task run extra ∷ (footprint rc task w).events;
        }
  unfolding broadcast_task_event
  footprint-event w kind run extra = rw (eq_refl task.id)

  pub footprint-record :
      (w : World) (exec : Execution)
      → w.logs.fault ≡ no_fault
      → footprint rc task (record_run w task exec) ≡ record (footprint rc task w) {
        history = take max_log_entries (exec ∷ (footprint rc task w).history);
      }
  unfolding record_run
  footprint-record w exec h = rw (
    load-log w.logs task.project_id task.id exec h,
    fault-log w.logs task.project_id task.id exec h,
    h,
  )
