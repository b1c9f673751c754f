-- ===== src/Service/Held.antt =====
-- The invariant of the daemon, and that a tick keeps it.
use relay_scheduler.Base.{
  String, ◌≡◌, refl, ◌∙◌, ◌≢◌, ◌⊎◌, inl, inr, true, false, ◌||◌, none, some, List, Bool-cases, ok,
  lookup, contains, subst, Bool, sym,
}
use relay_scheduler.Clock.{Time}
use relay_scheduler.Store.Calls.{Change, change}
use relay_scheduler.Service.{is_note}
use relay_scheduler.Service.Skipped.{change_keeps}
use relay_scheduler.Task.{Task}
use relay_scheduler.Schedule.Json.{RawSchedule}
use relay_scheduler.Schedule.{schedule_type}
use relay_scheduler.Store.Calls.{view}
use relay_scheduler.Store.Refinement.{IsSound}
use relay_scheduler.Scheduler.State.{World, with_tasks, with_disk}
use relay_scheduler.Scheduler.Plan.{
  check_and_fire, to_fire, to_skip, mark_running, skip_tasks, remove_tasks,
}
use relay_scheduler.Scheduler.Keyed.{Keyed, skip_tasks-Plans, remove_tasks-Keyed}
use relay_scheduler.Scheduler.Overlap.{ids, to_fire_idle, contains-mark_running}
use relay_scheduler.Service.{State, ticked}
use relay_scheduler.Service.Plans.{
  CanPlan, AllPlan, remove_tasks-AllPlan, to_skip-TasksPlan, lookup-remove_tasks,
}
use relay_scheduler.Service.Skipped.{skip_tasks-IsSkipped, skip_tasks-InOrOff, IsSkipped}
use relay_scheduler.Store.{Disk}

-- A task is in the schedule, or a run of it has yet to reschedule it.
abbrev pub IsHeld : State → String → Type 0
IsHeld s id =
    (lookup id s.world.scheduler.tasks ≢ none)
    ⊎ ((contains id s.world.scheduler.running ≡ true) × (contains id s.settled ≡ false))

-- The tasks that the scheduler has to run by itself.
abbrev pub IsAutomatic : Task → Type 0
IsAutomatic t = (t.enabled ≡ true) × (schedule_type t.schedule ≢ ok "on_demand")

abbrev pub Plannable : RawSchedule → Type 0
Plannable raw = schedule_type raw ≢ ok "on_demand" → CanPlan raw

pub record IsKept (s : State) : Type 0 where
  pub sound : IsSound s.world.disk
  pub going : s.world.scheduler.stopped ≡ false
  pub keyed : Keyed s.world.scheduler.tasks
  pub plans : AllPlan s.world.scheduler.tasks
  pub stored : (id : String) (t : Task) → view s.world.disk id ≡ some t → Plannable t.schedule
  pub settled_runs :
      (id : String) → contains id s.settled ≡ true → contains id s.world.scheduler.running ≡ true
  pub held : (id : String) (t : Task) → view s.world.disk id ≡ some t → IsAutomatic t → IsHeld s id

module _ (s : State) (k : IsKept s) where
  abbrev fired : List Task
  fired = to_fire s.world.now s.world.scheduler.running s.world.scheduler.tasks

  abbrev skipped : List Task
  skipped = to_skip s.world.now s.world.scheduler.running s.world.scheduler.tasks

  -- The world without the entries of the tasks that are due.
  abbrev cleared : World
  cleared = with_tasks s.world (remove_tasks skipped (remove_tasks fired s.world.scheduler.tasks))

  abbrev after : World
  after = skip_tasks cleared skipped

  cleared-AllPlan : AllPlan cleared.scheduler.tasks
  cleared-AllPlan =
      remove_tasks-AllPlan skipped _ (remove_tasks-AllPlan fired s.world.scheduler.tasks k.plans)

  after-IsSkipped : IsSkipped cleared after
  after-IsSkipped = skip_tasks-IsSkipped cleared skipped k.sound cleared-AllPlan

  -- The running set after the tick.
  runs_after :
      (id : String)
      → contains id (mark_running fired after.scheduler.running)
        ≡ (contains id (ids fired) || contains id s.world.scheduler.running)
  runs_after id =
      contains-mark_running id fired after.scheduler.running
      ∙ rw ((skip_tasks-Plans cleared skipped).0) refl

  fired_unsettled : (id : String) → contains id (ids fired) ≡ true → contains id s.settled ≡ false
  fired_unsettled id h = elim (Bool-cases (contains id s.settled)) [
    | inr e ↦ e
    | inl e ↦
        let runs = k.settled_runs id e in
        let idle =
          to_fire_idle s.world.now s.world.scheduler.running id s.world.scheduler.tasks h in
        cc
  ]

  ticked-IsHeld :
      (id : String) (t : Task)
      → view (ticked s).world.disk id ≡ some t
      → IsAutomatic t
      → IsHeld (ticked s) id
  unfolding check_and_fire
  ticked-IsHeld id t h auto = elim (Bool-cases (contains id (ids fired))) [
    | inl f ↦ inr (runs_after id ∙ rw f refl, fired_unsettled id f)
    | inr f ↦ elim (Bool-cases (contains id (ids skipped))) [
      | inl e ↦ inl (
          skip_tasks-InOrOff cleared skipped id k.sound cleared-AllPlan
            (to_skip-TasksPlan s.world.now s.world.scheduler.running s.world.scheduler.tasks
              k.plans)
            e t h auto.0)
      | inr e ↦ elim (k.held id t (after-IsSkipped.disables id t h auto.0) auto) [
        | inl there ↦ inl (
            after-IsSkipped.keeps id (
              rw
                (
                  lookup-remove_tasks id skipped (remove_tasks fired s.world.scheduler.tasks) e,
                  lookup-remove_tasks id fired s.world.scheduler.tasks f,
                )
                there))
        | inr (runs, unsettled) ↦ inr (runs_after id ∙ rw (f, runs) refl, unsettled)
      ]
    ]
  ]

or_true : (b : Bool) → (b || true) ≡ true
or_true true = refl
or_true false = refl

pub ticked-IsKept : (s : State) → IsKept s → IsKept (ticked s)
unfolding check_and_fire
ticked-IsKept s k =
    let v = after-IsSkipped s k in
    let plan = skip_tasks-Plans (cleared s k) (skipped s k) in
    record {
      sound = v.sound;
      going = v.stopped ∙ k.going;
      keyed =
          plan.1 (remove_tasks-Keyed (skipped s k) _ (remove_tasks-Keyed (fired s k) _ k.keyed));
      plans = v.plans;
      stored =
          λ id t h. let (x, e, same) = v.schedules id t h in subst Plannable same (k.stored id x e);
      settled_runs = λ id h. runs_after s k id ∙ rw (k.settled_runs id h) (or_true _);
      held = ticked-IsHeld s k;
    }

-- Every stored task comes from one with its schedule, that was enabled if it is.
abbrev pub Descends : Disk → Disk → Type 0
Descends d e =
    (id : String) (t : Task)
    → view e id ≡ some t
    → (x : Task) × (view d id ≡ some x)
      × (x.schedule ≡ t.schedule)
      × (t.enabled ≡ true → x.enabled ≡ true)

pub IsAutomatic-before :
    (x t : Task)
    → x.schedule ≡ t.schedule
    → (t.enabled ≡ true → x.enabled ≡ true)
    → IsAutomatic t
    → IsAutomatic x
IsAutomatic-before x t same on auto =
    (on auto.0, subst (λ (raw : RawSchedule). schedule_type raw ≢ ok "on_demand") (sym same) auto.1)

-- A write to the store that only changes run fields, or switches tasks off.
pub with_disk-IsKept :
    (s : State) (d : Disk)
    → IsKept s
    → IsSound d
    → Descends s.world.disk d
    → IsKept (record s { world = with_disk s.world d })
with_disk-IsKept s d k sound old = record {
  sound = sound;
  going = k.going;
  keyed = k.keyed;
  plans = k.plans;
  stored = λ id t h. let (x, e, same, on) = old id t h in subst Plannable same (k.stored id x e);
  settled_runs = k.settled_runs;
  held = λ id t h auto.
      let (x, e, same, on) = old id t h in k.held id x e (IsAutomatic-before x t same on auto);
}

-- What a run writes to the store neither changes schedules nor switches tasks on or off.
pub change-Descends :
    (d : Disk) (now : Time) (id : String) (c : Change)
    → is_note c ≡ true
    → IsSound d
    → Descends d (change d now id c)
change-Descends d now id c note s j t h =
    let (x, e, same, on) = change_keeps d now id c s j t h in
    (x, e, same, λ enabled. as_before x t on enabled)
  where
    as_before :
        (x t : Task)
        → (is_note c ≡ false) ⊎ (x.enabled ≡ t.enabled)
        → t.enabled ≡ true
        → x.enabled ≡ true
    as_before x t (inl other) enabled = cc
    as_before x t (inr same) enabled = same ∙ enabled
