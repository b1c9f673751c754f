-- ===== src/Scheduler/Keyed.antt =====
-- The schedule holds each task once, under its own id, and planning leaves the running set alone.
use relay_scheduler.Base.{
  String, ◌≡◌, refl, ◌∙◌, inl, inr, Bool, true, false, Option, none, some, List, [], ◌∷◌, arith,
  eq_refl, ◌==◌, if◌then◌else◌, Bool-cases, Result-cases, select, lookup, remove, insert,
  lookup-remove,
}
use relay_scheduler.Clock.{Time}
use relay_scheduler.Task.{Task}
use relay_scheduler.Store
use relay_scheduler.Schedule.{calculate_next_run}
use relay_scheduler.Scheduler.State.{ScheduledTask, World, with_tasks}
use relay_scheduler.Scheduler.Plan.{
  schedule_task_locked, schedule_task, unschedule_task, unschedule_by_project, type_of, skip_task,
  skip_tasks, remove_tasks, reschedule, reschedule_found, reschedule_or_disable,
}

abbrev pub Schedule : Type 0
Schedule = List (String × ScheduledTask)

abbrev pub Keyed : Schedule → Type 0
Keyed [] = Unit {0}
Keyed ((id, st) ∷ m) = (st.task.id ≡ id) × (lookup id m ≡ none) × Keyed m

remove-Keyed : (k : String) (m : Schedule) → Keyed m → Keyed (remove k m)
unfolding remove
remove-Keyed k [] h = tt
remove-Keyed k ((id, st) ∷ m) h = ground (arith, lookup-remove k id m, remove-Keyed k m h.2)

insert-Keyed :
    (task : Task) (t : Time) (m : Schedule)
    → Keyed m
    → Keyed (insert task.id (record { task = task; next_run = t }) m)
unfolding insert
insert-Keyed task t m h =
    (refl, lookup-remove task.id task.id m ∙ rw (eq_refl task.id), remove-Keyed task.id m h)

lookup_none-select :
    (k : String) (keep : String × ScheduledTask → Bool) (m : Schedule)
    → lookup k m ≡ none
    → lookup k (select keep m) ≡ none
unfolding lookup
lookup_none-select k keep [] h = refl
lookup_none-select k keep ((id, st) ∷ m) h = ground (arith, lookup_none-select k keep m)

select-Keyed :
    (keep : String × ScheduledTask → Bool) (m : Schedule) → Keyed m → Keyed (select keep m)
select-Keyed keep [] h = tt
select-Keyed keep ((id, st) ∷ m) h =
    ground (arith, lookup_none-select id keep m, select-Keyed keep m h.2)

-- The running set is as before, and the schedule is still keyed.
abbrev pub Plans : World → World → Type 0
Plans w v =
    (v.scheduler.running ≡ w.scheduler.running)
    × (Keyed w.scheduler.tasks → Keyed v.scheduler.tasks)

pub schedule-Plans : (w : World) (t : Task) → Plans w (schedule_task_locked w t)
unfolding schedule_task_locked
schedule-Plans w t = elim (Bool-cases (type_of t.schedule == "on_demand")) [
  | inl e ↦ rw e (refl, λ h. h)
  | inr e ↦ elim (Result-cases (calculate_next_run w.zone w.now t.schedule)) [
    | inl (n, f) ↦ rw (e, f) (refl, insert-Keyed t n w.scheduler.tasks)
    | inr (x, f) ↦ rw (e, f) (refl, λ h. h)
  ]
]

if-Plans : (w x y : World) (b : Bool) → Plans w x → Plans w y → Plans w (if b then x else y)
if-Plans w x y true h k = h
if-Plans w x y false h k = k

pub schedule_task-Plans : (w : World) (t : Task) → Plans w (schedule_task w t)
unfolding schedule_task
schedule_task-Plans w t =
    let cleared = with_tasks w (remove t.id w.scheduler.tasks) in
    let p = schedule-Plans cleared t in
    if-Plans w (schedule_task_locked cleared t) cleared t.enabled
      (p.0, λ h. p.1 (remove-Keyed t.id w.scheduler.tasks h))
      (refl, remove-Keyed t.id w.scheduler.tasks)

pub unschedule_task-Plans : (w : World) (id : String) → Plans w (unschedule_task w id)
unfolding unschedule_task
unschedule_task-Plans w id = (refl, remove-Keyed id w.scheduler.tasks)

pub unschedule_by_project-Plans :
    (w : World) (project : String) → Plans w (unschedule_by_project w project)
unfolding unschedule_by_project
unschedule_by_project-Plans w project = (refl, select-Keyed _ w.scheduler.tasks)

reschedule-Plans : (w : World) (t : Task) → Plans w (reschedule w t)
unfolding reschedule
reschedule-Plans w t =
    if-Plans w _ _ (type_of t.schedule == "once") (refl, remove-Keyed t.id w.scheduler.tasks)
      (if-Plans w _ _ (type_of t.schedule == "on_demand") (refl, λ h. h)
        (if-Plans w _ _ w.scheduler.stopped (refl, λ h. h) (schedule-Plans w t)))

found-Plans : (w : World) (o : Option Task) → Plans w (reschedule_found w o)
found-Plans w none = (refl, λ h. h)
found-Plans w (some c) = if-Plans w _ _ c.enabled (reschedule-Plans w c) (refl, λ h. h)

pub reschedule_or_disable-Plans : (w : World) (t : Task) → Plans w (reschedule_or_disable w t)
unfolding reschedule_or_disable
reschedule_or_disable-Plans w t = elim (Result-cases (Store.get w.disk t.id)) [
  | inr (x, e) ↦ rw (e, reschedule_or_disable) (refl, λ h. h)
  | inl (o, e) ↦ rw (e, reschedule_or_disable) (found-Plans w o)
]

skip_task-Plans : (w : World) (t : Task) → Plans w (skip_task w t)
unfolding skip_task
skip_task-Plans w t =
    if-Plans w _ _ (type_of t.schedule == "once") (refl, λ h. h) (schedule-Plans w t)

pub skip_tasks-Plans : (w : World) (ts : List Task) → Plans w (skip_tasks w ts)
unfolding skip_tasks
skip_tasks-Plans w [] = (refl, λ h. h)
skip_tasks-Plans w (t ∷ ts) =
    let first = skip_task-Plans w t in
    let rest = skip_tasks-Plans (skip_task w t) ts in (rest.0 ∙ first.0, λ h. rest.1 (first.1 h))

pub remove_tasks-Keyed : (ts : List Task) (m : Schedule) → Keyed m → Keyed (remove_tasks ts m)
unfolding remove_tasks
remove_tasks-Keyed [] m h = h
remove_tasks-Keyed (t ∷ ts) m h = remove_tasks-Keyed ts (remove t.id m) (remove-Keyed t.id m h)
