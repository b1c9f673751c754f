-- ===== src/Scheduler/Overlap.antt =====
-- No task runs twice at once: the scheduler and the goroutines that execute runs, under any
-- interleaving of ticks, manual runs, ends of runs, API calls and changes of the store.
use relay_scheduler.Base.{
  String, ◌≡◌, refl, ◌∙◌, ◌≢◌, true, false, ◌||◌, none, List, [], ◌∷◌, ◌++◌, arith, eq_iff, eq_refl,
  Result, ok, err, lookup, contains, discard, adjoin, contains-discard, contains-adjoin, Bool-cases,
  Option, some, sym, inl, inr, subst, Result-cases,
}
use relay_scheduler.Clock.{Time}
use relay_scheduler.Task.{Task}
use relay_scheduler.Store
use relay_scheduler.Store.{StoreError, Disk}
use relay_scheduler.Scheduler.State.{World, with_running, with_tasks}
use relay_scheduler.Scheduler.Plan.{
  schedule_task, unschedule_task, unschedule_by_project, reschedule_or_disable, run_task_now,
  check_and_fire, start_run, run_found, to_fire, mark_running, RunError, classify, to_skip,
  remove_tasks,
}
use relay_scheduler.Scheduler.Keyed.{
  Schedule, Keyed, Plans, skip_tasks-Plans, remove_tasks-Keyed, unschedule_task-Plans,
  unschedule_by_project-Plans, schedule_task-Plans, reschedule_or_disable-Plans,
}
use relay_scheduler.Store.Lists.{find_task_id}

-- The ids of the tasks that goroutines are running, beside the scheduler's world.
pub record System : Type 0 where
  pub world : World
  pub active : List String

-- The deferred call of executeTask stands for the end of a run.
pub data Move : Type 0 where
  ticks : Move
  runs_now ends unschedules unschedules_project : String → Move
  schedules reschedules : Task → Move
  changes : Time → Disk → Move

abbrev pub ids : List Task → List String
ids [] = []
ids (t ∷ ts) = t.id ∷ ids ts

abbrev launched : World → List String → World × List Task → System
launched w active (w', fired) = record { world = w'; active = ids fired ++ active }

abbrev launched_now : List String → World × Result RunError Task → System
launched_now active (w', ok task) = record { world = w'; active = task.id ∷ active }
launched_now active (w', err e) = record { world = w'; active = active }

unfoldable pub move : System → Move → System
move s ticks = launched s.world s.active (check_and_fire s.world)
move s (runs_now id) = launched_now s.active (run_task_now s.world id)
move s (ends id) = record {
  world = with_running s.world (discard id s.world.scheduler.running);
  active = discard id s.active;
}
move s (unschedules id) = record s { world = unschedule_task s.world id }
move s (unschedules_project p) = record s { world = unschedule_by_project s.world p }
move s (schedules task) = record s { world = schedule_task s.world task }
move s (reschedules task) = record s { world = reschedule_or_disable s.world task }
move s (changes now disk) = record s { world = record (s.world) { now = now; disk = disk } }

unfoldable pub moves : System → List Move → System
moves s [] = s
moves s (m ∷ ms) = moves (move s m) ms

-- Each text at most once.
abbrev pub Once : List String → Type 0
Once [] = Unit {0}
Once (k ∷ ks) = (contains k ks ≡ false) × Once ks

contains-append :
    (k : String) (xs ys : List String) → contains k (xs ++ ys) ≡ (contains k xs || contains k ys)
unfolding contains
contains-append k [] ys = refl
contains-append k (x ∷ xs) ys = ground (arith, contains-append k xs ys)

append-Once :
    (xs ys : List String)
    → Once xs
    → Once ys
    → ((k : String) → contains k xs ≡ true → contains k ys ≡ false)
    → Once (xs ++ ys)
unfolding contains
append-Once [] ys o p apart = p
append-Once (x ∷ xs) ys o p apart = ground (
  arith,
  eq_refl x,
  apart x,
  contains-append x xs ys,
  append-Once xs ys o.1 p (λ k h. apart k (ground arith)),
)

discard-Once : (k : String) (xs : List String) → Once xs → Once (discard k xs)
unfolding discard
discard-Once k [] o = tt
discard-Once k (x ∷ xs) o = ground (arith, contains-discard k x xs, discard-Once k xs o.1)

pub contains-mark_running :
    (k : String) (fired : List Task) (running : List String)
    → contains k (mark_running fired running) ≡ (contains k (ids fired) || contains k running)
unfolding contains mark_running
contains-mark_running k [] running = refl
contains-mark_running k (t ∷ ts) running =
    contains-mark_running k ts (adjoin t.id running)
    ∙ ground (arith, contains-adjoin t.id k running)

-- A task that fires is scheduled, and not running.
pub to_fire_scheduled :
    (now : Time) (running : List String) (k : String) (m : Schedule)
    → Keyed m
    → contains k (ids (to_fire now running m)) ≡ true
    → lookup k m ≢ none
unfolding to_fire contains lookup
to_fire_scheduled now running k [] h e = cc
to_fire_scheduled now running k ((id, st) ∷ m) h e =
    ground (arith, eq_iff id k, eq_iff st.task.id k, to_fire_scheduled now running k m h.2)

pub to_fire_idle :
    (now : Time) (running : List String) (k : String) (m : Schedule)
    → contains k (ids (to_fire now running m)) ≡ true
    → contains k running ≡ false
unfolding to_fire contains classify
to_fire_idle now running k [] e = cc
to_fire_idle now running k ((id, st) ∷ m) e =
    ground (arith, eq_iff st.task.id k, to_fire_idle now running k m)

to_fire-Once :
    (now : Time) (running : List String) (m : Schedule)
    → Keyed m
    → Once (ids (to_fire now running m))
unfolding to_fire lookup
to_fire-Once now running [] h = tt
to_fire-Once now running ((id, st) ∷ m) h = ground (
  arith,
  to_fire_scheduled now running st.task.id m h.2,
  to_fire-Once now running m h.2,
  Bool-cases (contains st.task.id (ids (to_fire now running m))),
)

-- The goroutines run each task at most once, the running set is theirs, and the schedule is keyed.
pub record IsTracked (s : System) : Type 0 where
  pub once : Once s.active
  pub same : (k : String) → contains k s.world.scheduler.running ≡ contains k s.active
  pub keyed : Keyed s.world.scheduler.tasks

planned :
    (s : System) (w : World) → Plans s.world w → IsTracked s → IsTracked (record s { world = w })
planned s w p h = record { once = h.once; same = λ k. rw p.0 (h.same k); keyed = p.1 h.keyed }

fires : (s : System) → IsTracked s → IsTracked (launched s.world s.active (check_and_fire s.world))
unfolding check_and_fire
fires s h =
    let sch = s.world.scheduler in
    let fired = to_fire s.world.now sch.running sch.tasks in
    let skipped = to_skip s.world.now sch.running sch.tasks in
    let left = remove_tasks skipped (remove_tasks fired sch.tasks) in
    let p = skip_tasks-Plans (with_tasks s.world left) skipped in
    record {
      once =
          append-Once (ids fired) s.active (to_fire-Once s.world.now sch.running sch.tasks h.keyed)
            h.once (λ k e. sym (h.same k) ∙ to_fire_idle s.world.now sch.running k sch.tasks e);
      same = λ k.
          contains-mark_running k fired _
          ∙ rw (p.0, h.same k, contains-append k (ids fired) s.active) refl;
      keyed = p.1 (remove_tasks-Keyed skipped _ (remove_tasks-Keyed fired sch.tasks h.keyed));
    }

ends_run : (s : System) (id : String) → IsTracked s → IsTracked (move s (ends id))
unfolding move
ends_run s id h = record {
  once = discard-Once id s.active h.once;
  same = λ k.
      contains-discard id k s.world.scheduler.running
      ∙ rw (h.same k, contains-discard id k s.active) refl;
  keyed = h.keyed;
}

starts :
    (s : System) (id : String) (o : Option Task)
    → ((t : Task) → o ≡ some t → t.id ≡ id)
    → IsTracked s
    → IsTracked (launched_now s.active (start_run s.world id o))
unfolding contains
starts s id none named h = record { once = h.once; same = h.same; keyed = h.keyed }
starts s id (some t) named h = elim (Bool-cases (contains id s.world.scheduler.running)) [
  | inl e ↦ rw e (record { once = h.once; same = h.same; keyed = h.keyed })
  | inr e ↦ rw e (record {
    once = (
      subst (λ k. contains k s.active ≡ false) (sym (named t refl)) (sym (h.same id) ∙ e),
      h.once,
    );
    same = λ k.
        contains-adjoin id k s.world.scheduler.running ∙ rw (h.same k, named t refl) (ground arith);
    keyed = h.keyed;
  })
]

pub get_id :
    (d : Disk) (id : String) (o : Option Task)
    → Store.get d id ≡ ok o
    → (t : Task) → o ≡ some t
    → t.id ≡ id
unfolding Store.get
get_id d id o e t f = elim (Result-cases (Store.read_locked d)) [
  | inl (ts, r) ↦ find_task_id id ts t (ground arith)
  | inr (x, r) ↦ ground arith
]

found_starts :
    (s : System) (id : String) (r : Result StoreError (Option Task))
    → ((o : Option Task) → r ≡ ok o → (t : Task) → o ≡ some t → t.id ≡ id)
    → IsTracked s
    → IsTracked (launched_now s.active (run_found s.world id r))
found_starts s id (err e) named h = record { once = h.once; same = h.same; keyed = h.keyed }
found_starts s id (ok o) named h = starts s id o (named o refl) h

runs_task :
    (s : System) (id : String)
    → IsTracked s
    → IsTracked (launched_now s.active (run_task_now s.world id))
unfolding run_task_now
runs_task s id h = found_starts s id (Store.get s.world.disk id) (get_id s.world.disk id) h

move-IsTracked : (s : System) (m : Move) → IsTracked s → IsTracked (move s m)
unfolding move
move-IsTracked s ticks h = fires s h
move-IsTracked s (runs_now id) h = runs_task s id h
move-IsTracked s (ends id) h = ends_run s id h
move-IsTracked s (unschedules id) h = planned s _ (unschedule_task-Plans s.world id) h
move-IsTracked s (unschedules_project p) h = planned s _ (unschedule_by_project-Plans s.world p) h
move-IsTracked s (schedules t) h = planned s _ (schedule_task-Plans s.world t) h
move-IsTracked s (reschedules t) h = planned s _ (reschedule_or_disable-Plans s.world t) h
move-IsTracked s (changes now disk) h = planned s _ (refl, λ k. k) h

moves-IsTracked : (s : System) (ms : List Move) → IsTracked s → IsTracked (moves s ms)
unfolding moves
moves-IsTracked s [] h = h
moves-IsTracked s (m ∷ ms) h = moves-IsTracked (move s m) ms (move-IsTracked s m h)

-- After any sequence of ticks, manual runs, ends of runs, schedule calls and changes of the clock
-- and the store, from a scheduler that runs nothing and whose schedule is keyed by task id, no task
-- has two runs at a time, and the running set holds exactly the tasks that have one.
pub moves-Once :
    (w : World) (ms : List Move)
    → w.scheduler.running ≡ []
    → Keyed w.scheduler.tasks
    → Once (moves (record { world = w; active = [] }) ms).active
      × ((k : String)
          → contains k (moves (record { world = w; active = [] }) ms).world.scheduler.running
            ≡ contains k (moves (record { world = w; active = [] }) ms).active)
moves-Once w ms none_running keyed =
    let h =
      moves-IsTracked (record { world = w; active = [] }) ms
        (record { once = tt; same = λ k. rw none_running refl; keyed = keyed }) in
    (h.once, h.same)
