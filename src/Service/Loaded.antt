-- ===== src/Service/Loaded.antt =====
-- Process start: LoadAllTasks, from a store of valid tasks, gives the daemon's invariant.
use relay_scheduler.Base.{
  String, ◌≡◌, refl, sym, subst, ◌∙◌, ◌≢◌, inl, inr, true, false, none, some, List, [], ◌∷◌, ◌==◌,
  if◌then◌else◌, Bool-cases, All, lookup, contains,
}
use relay_scheduler.Task.{Task}
use relay_scheduler.Store
use relay_scheduler.Store.{Disk, StoreError, find_task, set_last_run}
use relay_scheduler.Store.Lists.{find_task_id}
use relay_scheduler.Store.Calls.{view, last_run, changing}
use relay_scheduler.Store.Refinement.{IsSound, call-IsSound}
use relay_scheduler.Scheduler.State.{World, with_tasks, with_disk}
use relay_scheduler.Scheduler.Plan.{load_task, load_tasks, load_all_tasks, schedule_task_locked}
use relay_scheduler.Scheduler.Keyed.{Keyed, schedule-Plans}
use relay_scheduler.Api.Removed.{schedule_task_locked-disk}
use relay_scheduler.Service.{State, Reach}
use relay_scheduler.Service.Plans.{AllPlan, locked_plans, locked_keeps, locked-AllPlan}
use relay_scheduler.Service.Skipped.{locked-stopped}
use relay_scheduler.Service.Held.{
  change-Descends, IsHeld, IsAutomatic, IsKept, Descends, Plannable, IsAutomatic-before,
}
use relay_scheduler.Service.Settled.{if_holds}
use relay_scheduler.Service.Kept.{Reach-IsKept}

-- What loading tasks leaves.
record IsLoaded (w v : World) : Type 0 where
  sound : IsSound v.disk
  old : Descends w.disk v.disk
  keeps : (j : String) → lookup j w.scheduler.tasks ≢ none → lookup j v.scheduler.tasks ≢ none
  plans : AllPlan v.scheduler.tasks
  keyed : Keyed v.scheduler.tasks
  running : v.scheduler.running ≡ w.scheduler.running
  stopped : v.scheduler.stopped ≡ w.scheduler.stopped

IsLoaded-trans : (u v w : World) → IsLoaded u v → IsLoaded v w → IsLoaded u w
IsLoaded-trans u v w f g = record {
  sound = g.sound;
  old = λ id t h.
      let (y, e, same, on) = g.old id t h in
      let (x, e', same', on') = f.old id y e in (x, e', same' ∙ same, λ a. on' (on a));
  keeps = λ j h. g.keeps j (f.keeps j h);
  plans = g.plans;
  keyed = g.keyed;
  running = g.running ∙ f.running;
  stopped = g.stopped ∙ f.stopped;
}

same-IsLoaded :
    (w : World)
    → IsSound w.disk
    → AllPlan w.scheduler.tasks
    → Keyed w.scheduler.tasks
    → IsLoaded w w
same-IsLoaded w s p q = record {
  sound = s;
  old = λ j t h. (t, h, refl, λ on. on);
  keeps = λ j h. h;
  plans = p;
  keyed = q;
  running = refl;
  stopped = refl;
}

reset-IsLoaded :
    (w : World) (id : String)
    → IsSound w.disk
    → AllPlan w.scheduler.tasks
    → Keyed w.scheduler.tasks
    → IsLoaded w (with_disk w (set_last_run w.disk w.now id "error"))
reset-IsLoaded w id s p q = record {
  sound = call-IsSound w.disk (changing w.now id (last_run "error")) s tt;
  old = change-Descends w.disk w.now id (last_run "error") refl s;
  keeps = λ j h. h;
  plans = p;
  keyed = q;
  running = refl;
  stopped = refl;
}

locked-IsLoaded :
    (w : World) (task : Task)
    → IsSound w.disk
    → AllPlan w.scheduler.tasks
    → Keyed w.scheduler.tasks
    → IsLoaded w (schedule_task_locked w task)
locked-IsLoaded w task s p q = record {
  sound = subst IsSound (sym (schedule_task_locked-disk w task)) s;
  old = λ j t h. (t, rw (schedule_task_locked-disk w task) at h, refl, λ on. on);
  keeps = λ j h. locked_keeps w task j h;
  plans = locked-AllPlan w task p;
  keyed = (schedule-Plans w task).1 q;
  running = (schedule-Plans w task).0;
  stopped = locked-stopped w task;
}

-- The task has an entry, unless it is not to be run automatically.
abbrev Placed : World → Task → Type 0
Placed v t = IsAutomatic t → lookup t.id v.scheduler.tasks ≢ none

abbrev Loads : World → Task → World → Type 0
Loads w t v = IsLoaded w v × Placed v t

reset-Loads :
    (w u : World) (task : Task)
    → Plannable task.schedule
    → IsLoaded w u
    → Loads w task (if task.enabled then schedule_task_locked u task else u)
reset-Loads w u task can l =
    if_holds (Loads w task) task.enabled (schedule_task_locked u task) u
      (λ on. (
        IsLoaded-trans w u _ l (locked-IsLoaded u task l.sound l.plans l.keyed),
        λ auto. locked_plans u task (can auto.1),
      ))
      (λ off. (l, λ auto none_left. let c : true ≡ false = sym auto.0 ∙ off in cc))

load_task-Loads :
    (w : World) (task : Task)
    → IsSound w.disk
    → AllPlan w.scheduler.tasks
    → Keyed w.scheduler.tasks
    → Plannable task.schedule
    → Loads w task (load_task w task)
unfolding load_task
load_task-Loads w task s p q can = reset-Loads w _ task can (
    if_holds (IsLoaded w) (task.last_status == "running") _ w (λ _. reset-IsLoaded w task.id s p q)
      (λ _. same-IsLoaded w s p q))

load_tasks-IsLoaded :
    (w : World) (ts : List Task)
    → IsSound w.disk
    → AllPlan w.scheduler.tasks
    → Keyed w.scheduler.tasks
    → All (λ (t : Task). Plannable t.schedule) ts
    → IsLoaded w (load_tasks w ts) × All (Placed (load_tasks w ts)) ts
unfolding load_tasks
load_tasks-IsLoaded w [] s p q can = (same-IsLoaded w s p q, tt)
load_tasks-IsLoaded w (t ∷ ts) s p q (can, cans) =
    let (l, own) = load_task-Loads w t s p q can in
    let (rest, others) = load_tasks-IsLoaded (load_task w t) ts l.sound l.plans l.keyed cans in
    (IsLoaded-trans w (load_task w t) _ l rest, (λ auto. rest.keeps t.id (own auto), others))

all_found :
    (P : Task → Type 0) (id : String) (ts : List Task) (t : Task)
    → All P ts
    → find_task id ts ≡ some t
    → P t
unfolding find_task
all_found P id [] t h e = cc
all_found P id (x ∷ ts) t (h, hs) e = elim (Bool-cases (x.id == id)) [
  | inl f ↦ let same : x ≡ t = (let c = rw f at e in cc) in subst P same h
  | inr f ↦ all_found P id ts t hs (rw f at e)
]

-- The store and the scheduler of a process that has loaded its tasks.
abbrev pub started : World → State
started w = record { world = (load_all_tasks w).0; settled = [] }

-- A process before it has loaded the tasks: a sound store of tasks whose schedules have a next run
-- unless they are on demand, and a scheduler that has not been stopped.
pub record IsReady (w : World) : Type 0 where
  pub sound : IsSound w.disk
  pub going : w.scheduler.stopped ≡ false
  pub valid : All (λ (t : Task). Plannable t.schedule) sound.tasks

loaded-IsKept : (w : World) → IsReady w → IsKept (started w)
unfolding load_all_tasks Store.load contains
loaded-IsKept w r =
    let (l, own) = load_tasks-IsLoaded (with_tasks w []) r.sound.tasks r.sound tt tt r.valid in
    rw (r.sound.readable, load_all_tasks)
      (record {
        sound = l.sound;
        going = l.stopped ∙ r.going;
        keyed = l.keyed;
        plans = l.plans;
        stored = λ id t h.
            let (x, e, same, on) = l.old id t h in
            subst Plannable same (
              all_found (λ (y : Task). Plannable y.schedule) id r.sound.tasks x r.valid
                (rw (r.sound.readable) at e));
        settled_runs = λ id h. cc;
        held = λ id t h auto.
            let (x, e, same, on) = l.old id t h in
            let found : find_task id r.sound.tasks ≡ some x = rw (r.sound.readable) at e in
            inl (
              subst
                (λ (j : String).
                  lookup j (load_tasks (with_tasks w []) r.sound.tasks).scheduler.tasks ≢ none)
                (find_task_id id r.sound.tasks x found)
                (all_found _ id r.sound.tasks x own found (IsAutomatic-before x t same on auto)));
      })

-- No task is forgotten where calls do not overlap: after a start that loads the tasks of a sound
-- store, whose schedules have a next run unless they are on demand, with a scheduler that has not been
-- stopped, and in every state that ticks, runs, their writes and ends, POST, PUT, DELETE and the
-- passage of time then lead to, in any order but one after the other, each as a whole, each stored
-- task that is enabled and not on demand is in the schedule, or a run of it is going on that has yet to
-- reschedule it.
pub no_task_is_forgotten :
    (w : World) (s : State)
    → IsReady w
    → Reach (started w) s
    → (id : String) (t : Task) → view s.world.disk id ≡ some t
    → IsAutomatic t
    → IsHeld s id
no_task_is_forgotten w s r steps = (Reach-IsKept (started w) s steps (loaded-IsKept w r)).held
