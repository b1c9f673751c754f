-- ===== src/Service/Plans.antt =====
-- What planning and removing do to the schedule, task by task.
use relay_scheduler.Base.{
  ◌⊎◌, Result-cases, String, ◌≡◌, refl, ◌≢◌, ◌⊎◌, inl, inr, Bool, true, false, none, List, [], ◌∷◌,
  arith, ◌==◌, if◌then◌else◌, Bool-cases, Result-cases, ok, lookup, remove, insert, lookup-remove,
  lookup-insert, contains,
}
use relay_scheduler.Base.Int.{pos}
use relay_scheduler.Clock.{Time, Zone}
use relay_scheduler.Task.{Task}
use relay_scheduler.Schedule.Json.{RawSchedule}
use relay_scheduler.Schedule.{calculate_next_run, schedule_type, dispatch}
use relay_scheduler.Schedule.Stable
use relay_scheduler.Schedule.Stable.{Alike-ok}
use relay_scheduler.Scheduler.State.{ScheduledTask, World}
use relay_scheduler.Scheduler.Plan.{schedule_task_locked, remove_tasks, type_of, to_skip}
use relay_scheduler.Scheduler.Keyed.{Schedule}
use relay_scheduler.Scheduler.Overlap.{ids}
use relay_scheduler.Api.Accepted.{planned}

-- The schedule has a next run at any time, in any time zone.
abbrev pub CanPlan : RawSchedule → Type 0
CanPlan raw = (z : Zone) (now : Time) → (t : Time) × (calculate_next_run z now raw ≡ ok t)

pub CanPlan-other : (raw : RawSchedule) → CanPlan raw → schedule_type raw ≢ ok "on_demand"
unfolding calculate_next_run dispatch
CanPlan-other raw can e =
    let (t, p) = can (λ n. record { offset = pos 0; start = 0; stop = 0 }) 0 in
    let q = rw e at p in cc

abbrev pub AllPlan : Schedule → Type 0
AllPlan [] = Unit {0}
AllPlan ((id, st) ∷ m) = CanPlan st.task.schedule × AllPlan m

abbrev pub TasksPlan : List Task → Type 0
TasksPlan [] = Unit {0}
TasksPlan (t ∷ ts) = CanPlan t.schedule × TasksPlan ts

pub remove-AllPlan : (k : String) (m : Schedule) → AllPlan m → AllPlan (remove k m)
unfolding remove
remove-AllPlan k [] h = tt
remove-AllPlan k ((id, st) ∷ m) h = elim (Bool-cases (id == k)) [
  | inl e ↦ rw e (remove-AllPlan k m h.1)
  | inr e ↦ rw e (h.0, remove-AllPlan k m h.1)
]

pub remove_tasks-AllPlan : (ts : List Task) (m : Schedule) → AllPlan m → AllPlan (remove_tasks ts m)
unfolding remove_tasks
remove_tasks-AllPlan [] m h = h
remove_tasks-AllPlan (t ∷ ts) m h =
    remove_tasks-AllPlan ts (remove t.id m) (remove-AllPlan t.id m h)

pub to_skip-TasksPlan :
    (now : Time) (running : List String) (m : Schedule)
    → AllPlan m
    → TasksPlan (to_skip now running m)
unfolding to_skip
to_skip-TasksPlan now running [] h = tt
to_skip-TasksPlan now running ((id, st) ∷ m) h =
    if_added _ st.task (to_skip now running m) h.0 (to_skip-TasksPlan now running m h.1)
  where
    if_added :
        (b : Bool) (t : Task) (ts : List Task)
        → CanPlan t.schedule
        → TasksPlan ts
        → TasksPlan (if b then t ∷ ts else ts)
    if_added true t ts p q = (p, q)
    if_added false t ts p q = q

pub lookup-remove_tasks :
    (k : String) (ts : List Task) (m : Schedule)
    → contains k (ids ts) ≡ false
    → lookup k (remove_tasks ts m) ≡ lookup k m
unfolding contains remove_tasks
lookup-remove_tasks k [] m h = refl
lookup-remove_tasks k (t ∷ ts) m h =
    ground (arith, lookup-remove_tasks k ts (remove t.id m), lookup-remove t.id k m)

-- A schedule that was planned once can be planned at any time.
pub CanPlan-once :
    (z : Zone) (now t : Time) (raw : RawSchedule)
    → calculate_next_run z now raw ≡ ok t
    → CanPlan raw
CanPlan-once z now t raw e z' now' =
    Alike-ok _ _ t (Stable.calculate_next_run-Alike z z' now now' raw) e

-- Planning leaves the schedule alone, or gives the task an entry.
locked-cases :
    (w : World) (task : Task)
    → ((schedule_task_locked w task).scheduler.tasks ≡ w.scheduler.tasks)
      ⊎ ((t : Time) × ((schedule_task_locked w task).scheduler.tasks
            ≡ insert task.id (record { task = task; next_run = t }) w.scheduler.tasks)
          × (calculate_next_run w.zone w.now task.schedule ≡ ok t))
unfolding schedule_task_locked
locked-cases w task = elim (Bool-cases (type_of task.schedule == "on_demand")) [
  | inl e ↦ inl (rw e)
  | inr e ↦ elim (Result-cases (calculate_next_run w.zone w.now task.schedule)) [
    | inl (t, f) ↦ inr (t, rw (e, f), f)
    | inr (x, f) ↦ inl (rw (e, f))
  ]
]

pub locked_plans :
    (w : World) (task : Task)
    → CanPlan task.schedule
    → lookup task.id (schedule_task_locked w task).scheduler.tasks ≢ none
locked_plans w task can e =
    let (t, p) = can w.zone w.now in
    let q = planned w task true t refl (CanPlan-other task.schedule can) p in cc

insert_keeps :
    (k j : String) (st : ScheduledTask) (m : Schedule)
    → lookup j m ≢ none
    → lookup j (insert k st m) ≢ none
insert_keeps k j st m h = rw (lookup-insert k j st m) (ground arith)

pub locked_keeps :
    (w : World) (task : Task) (j : String)
    → lookup j w.scheduler.tasks ≢ none
    → lookup j (schedule_task_locked w task).scheduler.tasks ≢ none
locked_keeps w task j h = elim (locked-cases w task) [
  | inl e ↦ rw e h
  | inr (t, e, f) ↦ rw e (insert_keeps task.id j _ w.scheduler.tasks h)
]

pub locked-AllPlan :
    (w : World) (task : Task)
    → AllPlan w.scheduler.tasks
    → AllPlan (schedule_task_locked w task).scheduler.tasks
unfolding insert
locked-AllPlan w task h = elim (locked-cases w task) [
  | inl e ↦ rw e h
  | inr (t, e, f) ↦
      rw e (CanPlan-once w.zone w.now t task.schedule f, remove-AllPlan task.id w.scheduler.tasks h)
]
