-- ===== src/Service/Skipped.antt =====
-- What disabling and skipping tasks do to the store and the schedule, task by task.
use relay_scheduler.Base.{
  ◌⊎◌, sym, ◌∙◌, Result-cases, String, ◌≡◌, refl, sym, ap, subst, ◌∙◌, ◌≢◌, ◌⊎◌, inl, inr, Bool,
  true, false, Option, none, some, List, [], ◌∷◌, eq_refl, ◌==◌, if◌then◌else◌, Bool-cases,
  Result-cases, lookup, contains, eq_iff,
}
use relay_scheduler.Clock.{Time}
use relay_scheduler.Task.{Task}
use relay_scheduler.Schedule.{calculate_next_run}
use relay_scheduler.Store.{Disk, set_enabled}
use relay_scheduler.Service.{is_note}
use relay_scheduler.Store.Calls.{
  Change, change, last_run, session, terminal, view, changing, enabled, changed, on_task,
}
use relay_scheduler.Store.Refinement.{IsSound, view-call, call-IsSound}
use relay_scheduler.Scheduler.State.{World}
use relay_scheduler.Scheduler.Plan.{schedule_task_locked, skip_task, type_of, skip_tasks}
use relay_scheduler.Scheduler.Overlap.{ids}
use relay_scheduler.Api.Removed.{schedule_task_locked-disk}
use relay_scheduler.Service.Plans.{
  CanPlan, AllPlan, TasksPlan, locked_plans, locked_keeps, locked-AllPlan,
}

-- Every stored task has the schedule that it had before.
abbrev pub KeepsSchedules : Disk → Disk → Type 0
KeepsSchedules d e =
    (id : String) (t : Task)
    → view e id ≡ some t
    → (x : Task) × (view d id ≡ some x) × (x.schedule ≡ t.schedule)

from_change :
    (now : Time) (c : Change) (o : Option Task) (t : Task)
    → on_task (changed now c) o ≡ some t
    → (x : Task) × (o ≡ some x)
      × (x.schedule ≡ t.schedule)
      × ((is_note c ≡ false) ⊎ (x.enabled ≡ t.enabled))
from_change now c none t h = cc
from_change now (last_run a) (some x) t h =
    let same : changed now (last_run a) x ≡ t = cc in
    (x, refl, ap (λ (y : Task). y.schedule) same, inr (ap (λ (y : Task). y.enabled) same))
from_change now (session a) (some x) t h =
    let same : changed now (session a) x ≡ t = cc in
    (x, refl, ap (λ (y : Task). y.schedule) same, inr (ap (λ (y : Task). y.enabled) same))
from_change now (terminal a) (some x) t h =
    let same : changed now (terminal a) x ≡ t = cc in
    (x, refl, ap (λ (y : Task). y.schedule) same, inr (ap (λ (y : Task). y.enabled) same))
from_change now (enabled a) (some x) t h =
    let same : changed now (enabled a) x ≡ t = cc in
    (x, refl, ap (λ (y : Task). y.schedule) same, inl refl)

-- A changed store has each task with its old schedule, and enabled as before if the change was a note.
pub change_keeps :
    (d : Disk) (now : Time) (id : String) (c : Change)
    → IsSound d
    → (j : String) (t : Task) → view (change d now id c) j ≡ some t
    → (x : Task) × (view d j ≡ some x)
      × (x.schedule ≡ t.schedule)
      × ((is_note c ≡ false) ⊎ (x.enabled ≡ t.enabled))
change_keeps d now id c s j t h =
    let e = sym (view-call d (changing now id c) j s tt) ∙ h in
    elim (Bool-cases (id == j)) [
      | inl same ↦
          subst
            (λ (y : String).
              (x : Task) × (view d y ≡ some x)
              × (x.schedule ≡ t.schedule)
              × ((is_note c ≡ false) ⊎ (x.enabled ≡ t.enabled)))
            ((eq_iff id j).0 same) (from_change now c (view d id) t (rw same at e))
      | inr other ↦ (t, rw other at e, refl, inr refl)
    ]

pub set_enabled-KeepsSchedules :
    (d : Disk) (now : Time) (id : String)
    → IsSound d
    → KeepsSchedules d (set_enabled d now id false)
set_enabled-KeepsSchedules d now id s j t h =
    let (x, e, same, on) = change_keeps d now id (enabled false) s j t h in (x, e, same)

KeepsSchedules-refl : (d : Disk) → KeepsSchedules d d
KeepsSchedules-refl d id t h = (t, h, refl)

-- Every stored task that says it is enabled is one of the old ones: a change only switches off.
abbrev pub OnlyDisables : Disk → Disk → Type 0
OnlyDisables d e =
    (id : String) (t : Task) → view e id ≡ some t → t.enabled ≡ true → view d id ≡ some t

disable_changed :
    (b : Bool) (now : Time) (o o' : Option Task) (t : Task)
    → (if b then on_task (changed now (enabled false)) o else o') ≡ some t
    → t.enabled ≡ true
    → (o' ≡ some t) × (b ≡ false)
disable_changed true now none o' t h on = cc
disable_changed true now (some x) o' t h on =
    let same : changed now (enabled false) x ≡ t = cc in
    let off : false ≡ true = ap (λ (y : Task). y.enabled) same ∙ on in (cc, sym off)
disable_changed false now o o' t h on = (h, refl)

pub set_enabled-OnlyDisables :
    (d : Disk) (now : Time) (id : String) → IsSound d → OnlyDisables d (set_enabled d now id false)
set_enabled-OnlyDisables d now id s j t h on =
    (disable_changed (id == j) now (view d id) (view d j) t
      (sym (view-call d (changing now id (enabled false)) j s tt) ∙ h) on).0

pub set_enabled-IsSound :
    (d : Disk) (now : Time) (id : String) → IsSound d → IsSound (set_enabled d now id false)
set_enabled-IsSound d now id s = call-IsSound d (changing now id (enabled false)) s tt

OnlyDisables-refl : (d : Disk) → OnlyDisables d d
OnlyDisables-refl d id t h on = h

-- What skipping tasks leaves: a sound store that differs by disabled tasks only, a schedule that
-- lost nothing and can be planned, and an entry for each skipped task that the store still enables.
pub record IsSkipped (w v : World) : Type 0 where
  pub sound : IsSound v.disk
  pub disables : OnlyDisables w.disk v.disk
  pub schedules : KeepsSchedules w.disk v.disk
  pub keeps : (j : String) → lookup j w.scheduler.tasks ≢ none → lookup j v.scheduler.tasks ≢ none
  pub plans : AllPlan v.scheduler.tasks
  pub stopped : v.scheduler.stopped ≡ w.scheduler.stopped

-- The task is in the schedule, or the store does not enable it.
abbrev pub InOrOff : World → String → Type 0
InOrOff v id =
    (t : Task) → view v.disk id ≡ some t → t.enabled ≡ true → lookup id v.scheduler.tasks ≢ none

pub locked-stopped :
    (w : World) (task : Task)
    → (schedule_task_locked w task).scheduler.stopped ≡ w.scheduler.stopped
unfolding schedule_task_locked
locked-stopped w task = elim (Bool-cases (type_of task.schedule == "on_demand")) [
  | inl h ↦ rw h
  | inr h ↦ elim (Result-cases (calculate_next_run w.zone w.now task.schedule)) [
    | inl (t, e) ↦ rw (h, e)
    | inr (x, e) ↦ rw (h, e)
  ]
]

skip_task-IsSkipped :
    (w : World) (task : Task)
    → IsSound w.disk
    → AllPlan w.scheduler.tasks
    → IsSkipped w (skip_task w task)
unfolding skip_task
skip_task-IsSkipped w task s p = elim (Bool-cases (type_of task.schedule == "once")) [
  | inl e ↦
      rw (e, skip_task)
        (record {
          sound = set_enabled-IsSound w.disk w.now task.id s;
          disables = set_enabled-OnlyDisables w.disk w.now task.id s;
          schedules = set_enabled-KeepsSchedules w.disk w.now task.id s;
          keeps = λ j h. h;
          plans = p;
          stopped = refl;
        })
  | inr e ↦
      rw (e, skip_task)
        (record {
          sound = subst IsSound (sym (schedule_task_locked-disk w task)) s;
          disables =
              subst (OnlyDisables w.disk) (sym (schedule_task_locked-disk w task))
                (OnlyDisables-refl w.disk);
          schedules =
              subst (KeepsSchedules w.disk) (sym (schedule_task_locked-disk w task))
                (KeepsSchedules-refl w.disk);
          keeps = λ j h. locked_keeps w task j h;
          plans = locked-AllPlan w task p;
          stopped = locked-stopped w task;
        })
]

pub disabled_off :
    (d : Disk) (now : Time) (id : String) (t : Task)
    → IsSound d
    → view (set_enabled d now id false) id ≡ some t
    → t.enabled ≡ false
disabled_off d now id t s h = elim (Bool-cases t.enabled) [
  | inr off ↦ off
  | inl on ↦
      let (_, e) =
        disable_changed (id == id) now (view d id) (view d id) t
          (sym (view-call d (changing now id (enabled false)) id s tt) ∙ h) on in
      let c : true ≡ false = sym (eq_refl id) ∙ e in cc
]

skip_task-InOrOff :
    (w : World) (task : Task)
    → IsSound w.disk
    → CanPlan task.schedule
    → InOrOff (skip_task w task) task.id
unfolding skip_task
skip_task-InOrOff w task s can = elim (Bool-cases (type_of task.schedule == "once")) [
  | inl e ↦
      rw (e, skip_task)
        (λ t h on none_left.
          let c : true ≡ false = sym on ∙ disabled_off w.disk w.now task.id t s h in cc)
  | inr e ↦ rw (e, skip_task) (λ t h on. locked_plans w task can)
]

pub skip_tasks-IsSkipped :
    (w : World) (ts : List Task)
    → IsSound w.disk
    → AllPlan w.scheduler.tasks
    → IsSkipped w (skip_tasks w ts)
unfolding skip_tasks
skip_tasks-IsSkipped w [] s p = record {
  sound = s;
  disables = OnlyDisables-refl w.disk;
  schedules = KeepsSchedules-refl w.disk;
  keeps = λ j h. h;
  plans = p;
  stopped = refl;
}
skip_tasks-IsSkipped w (t ∷ ts) s p =
    let first = skip_task-IsSkipped w t s p in
    let rest = skip_tasks-IsSkipped (skip_task w t) ts first.sound first.plans in
    record {
      sound = rest.sound;
      disables = λ id x h on. first.disables id x (rest.disables id x h on) on;
      schedules = λ id x h.
          let (y, e, same) = rest.schedules id x h in
          let (z, f, same') = first.schedules id y e in (z, f, same' ∙ same);
      keeps = λ j h. rest.keeps j (first.keeps j h);
      plans = rest.plans;
      stopped = rest.stopped ∙ first.stopped;
    }

IsSkipped-InOrOff : (u v : World) (id : String) → IsSkipped u v → InOrOff u id → InOrOff v id
IsSkipped-InOrOff u v id k h t e on = k.keeps id (h t (k.disables id t e on) on)

pub skip_tasks-InOrOff :
    (w : World) (ts : List Task) (id : String)
    → IsSound w.disk
    → AllPlan w.scheduler.tasks
    → TasksPlan ts
    → contains id (ids ts) ≡ true
    → InOrOff (skip_tasks w ts) id
unfolding skip_tasks contains
skip_tasks-InOrOff w [] id s p can h = cc
skip_tasks-InOrOff w (t ∷ ts) id s p can h =
    let first = skip_task-IsSkipped w t s p in
    elim (Bool-cases (t.id == id)) [
      | inl e ↦
          IsSkipped-InOrOff (skip_task w t) (skip_tasks (skip_task w t) ts) id
            (skip_tasks-IsSkipped (skip_task w t) ts first.sound first.plans)
            (subst (InOrOff (skip_task w t)) ((eq_iff t.id id).0 e) (skip_task-InOrOff w t s can.0))
      | inr e ↦ skip_tasks-InOrOff (skip_task w t) ts id first.sound first.plans can.1 (rw e at h)
    ]
