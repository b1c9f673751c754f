-- ===== src/Service/Settled.antt =====
-- The end of a run, which plans its task again or disables it, keeps the daemon's invariant.
use relay_scheduler.Base.{
  String, ◌≡◌, refl, sym, ap, subst, ◌∙◌, ◌≢◌, inl, inr, Bool, true, false, Option, none, some,
  eq_iff, ◌==◌, if◌then◌else◌, Bool-cases, Result-cases, ok, lookup, remove, contains,
  contains-adjoin,
}
use relay_scheduler.Clock.{Time}
use relay_scheduler.Task.{Task}
use relay_scheduler.Schedule.Json.{RawSchedule}
use relay_scheduler.Schedule.{schedule_type}
use relay_scheduler.Store.{Disk, set_enabled}
use relay_scheduler.Store.Calls.{view}
use relay_scheduler.Store.Refinement.{IsSound}
use relay_scheduler.Store.Answers.{get-view}
use relay_scheduler.Scheduler.State.{World, with_tasks, with_disk}
use relay_scheduler.Scheduler.Plan.{
  schedule_task_locked, reschedule, reschedule_or_disable, reschedule_found, type_of,
}
use relay_scheduler.Scheduler.Keyed.{reschedule_or_disable-Plans}
use relay_scheduler.Scheduler.Overlap.{get_id}
use relay_scheduler.Api.Removed.{schedule_task_locked-disk}
use relay_scheduler.Service.{State, settles_run}
use relay_scheduler.Service.Plans.{
  CanPlan, AllPlan, remove-AllPlan, locked_plans, locked_keeps, locked-AllPlan,
}
use relay_scheduler.Service.Skipped.{
  locked-stopped, disabled_off, set_enabled-KeepsSchedules, set_enabled-OnlyDisables,
  set_enabled-IsSound,
}
use relay_scheduler.Service.Held.{IsAutomatic, Plannable, IsKept, Descends, IsAutomatic-before}
use relay_scheduler.Service.Placed.{kept_by_remove}

-- What the end of a run of the id leaves: the schedule of the others, and an entry of its own if the
-- stored task is to be run automatically.
record IsSettled (w : World) (id : String) (v : World) : Type 0 where
  sound : IsSound v.disk
  stopped : v.scheduler.stopped ≡ w.scheduler.stopped
  plans : AllPlan v.scheduler.tasks
  old : Descends w.disk v.disk
  others :
      (j : String)
      → (id == j) ≡ false
      → lookup j w.scheduler.tasks ≢ none
      → lookup j v.scheduler.tasks ≢ none
  own : (t : Task) → view v.disk id ≡ some t → IsAutomatic t → lookup id v.scheduler.tasks ≢ none

unchanged :
    (w : World) (id : String)
    → IsSound w.disk
    → AllPlan w.scheduler.tasks
    → ((t : Task) → view w.disk id ≡ some t → IsAutomatic t → lookup id w.scheduler.tasks ≢ none)
    → IsSettled w id w
unchanged w id s p own = record {
  sound = s;
  stopped = refl;
  plans = p;
  old = λ j t h. (t, h, refl, λ on. on);
  others = λ j e h. h;
  own = own;
}

set_enabled-Descends :
    (d : Disk) (now : Time) (id : String) → IsSound d → Descends d (set_enabled d now id false)
set_enabled-Descends d now id s j t h =
    let (x, e, same) = set_enabled-KeepsSchedules d now id s j t h in
    (
      x,
      e,
      same,
      λ on.
          let old = set_enabled-OnlyDisables d now id s j t h on in
          let both : x ≡ t = cc in ap (λ (y : Task). y.enabled) both ∙ on,
    )

type_of_demand :
    (raw : RawSchedule) → (type_of raw == "on_demand") ≡ true → schedule_type raw ≡ ok "on_demand"
type_of_demand raw h = elim (Result-cases (schedule_type raw)) [
  | inl (t, e) ↦ e ∙ ap (λ (x : String). ok x) ((eq_iff t "on_demand").0 (rw e at h))
  | inr (x, e) ↦ let c = rw e at h in cc
]

once-IsSettled :
    (w : World) (task : Task)
    → IsSound w.disk
    → AllPlan w.scheduler.tasks
    → let disabled = with_disk w (set_enabled w.disk w.now task.id false) in
      IsSettled w task.id (with_tasks disabled (remove task.id w.scheduler.tasks))
once-IsSettled w task s p = record {
  sound = set_enabled-IsSound w.disk w.now task.id s;
  stopped = refl;
  plans = remove-AllPlan task.id w.scheduler.tasks p;
  old = set_enabled-Descends w.disk w.now task.id s;
  others = λ j e h. kept_by_remove w task j e h;
  own = λ t h auto none_left.
      let c : true ≡ false = sym auto.0 ∙ disabled_off w.disk w.now task.id t s h in cc;
}

locked-IsSettled :
    (w : World) (task : Task)
    → IsSound w.disk
    → AllPlan w.scheduler.tasks
    → CanPlan task.schedule
    → IsSettled w task.id (schedule_task_locked w task)
locked-IsSettled w task s p can = record {
  sound = subst IsSound (sym (schedule_task_locked-disk w task)) s;
  stopped = locked-stopped w task;
  plans = locked-AllPlan w task p;
  old = λ j t h. (t, rw (schedule_task_locked-disk w task) at h, refl, λ on. on);
  others = λ j e h. locked_keeps w task j h;
  own = λ t h auto. locked_plans w task can;
}

pub if_holds :
    (P : World → Type 0) (b : Bool) (x y : World)
    → (b ≡ true → P x)
    → (b ≡ false → P y)
    → P (if b then x else y)
if_holds P true x y f g = f refl
if_holds P false x y f g = g refl

reschedule-IsSettled :
    (w : World) (task : Task)
    → IsSound w.disk
    → AllPlan w.scheduler.tasks
    → w.scheduler.stopped ≡ false
    → view w.disk task.id ≡ some task
    → Plannable task.schedule
    → IsSettled w task.id (reschedule w task)
unfolding reschedule
reschedule-IsSettled w task s p going v can = elim (Bool-cases (type_of task.schedule == "once")) [
  | inl e ↦ rw (e, reschedule) (once-IsSettled w task s p)
  | inr e ↦
      rw (e, reschedule)
        (if_holds (IsSettled w task.id) (type_of task.schedule == "on_demand") w _
          (λ f. unchanged w task.id s p (λ t h auto none_left.
            let same : task ≡ t = cc in
            let demand = type_of_demand task.schedule f in
            auto.1 (subst (λ (y : Task). schedule_type y.schedule ≡ ok "on_demand") same demand)))
          (λ f.
            if_holds (IsSettled w task.id) w.scheduler.stopped w (schedule_task_locked w task)
              (λ over. let c : true ≡ false = sym over ∙ going in cc)
              (λ _. locked-IsSettled w task s p (can (λ demand. let c = rw demand at f in cc)))))
]

found-IsSettled :
    (w : World) (id : String) (o : Option Task)
    → IsSound w.disk
    → AllPlan w.scheduler.tasks
    → w.scheduler.stopped ≡ false
    → view w.disk id ≡ o
    → ((t : Task) → o ≡ some t → t.id ≡ id)
    → ((t : Task) → o ≡ some t → Plannable t.schedule)
    → IsSettled w id (reschedule_found w o)
found-IsSettled w id none s p going v own can =
    unchanged w id s p (λ t h auto none_left. let c : none ≡ some t = sym v ∙ h in cc)
found-IsSettled w id (some t) s p going v own can =
    let same = own t refl in
    if_holds (IsSettled w id) t.enabled (reschedule w t) w
      (λ on.
        subst (λ (j : String). IsSettled w j (reschedule w t)) same
          (reschedule-IsSettled w t s p going (ap (view w.disk) same ∙ v) (can t refl)))
      (λ off. unchanged w id s p (λ x h auto none_left.
        let eq : t ≡ x = cc in
        let c : false ≡ true = sym off ∙ ap (λ (y : Task). y.enabled) eq ∙ auto.0 in cc))

reschedule_or_disable-IsSettled :
    (s : State) (task : Task)
    → IsKept s
    → IsSettled s.world task.id (reschedule_or_disable s.world task)
unfolding reschedule_or_disable
reschedule_or_disable-IsSettled s task k =
    let w = s.world in
    let e = get-view w.disk task.id k.sound in
    rw (e, reschedule_or_disable)
      (found-IsSettled w task.id (view w.disk task.id) k.sound k.plans k.going refl
        (get_id w.disk task.id (view w.disk task.id) e) (λ t h. k.stored task.id t h))

if_true_other : (b c : Bool) → (if b then true else c) ≡ false → (b ≡ false) × (c ≡ false)
if_true_other true c h = cc
if_true_other false c h = (refl, h)

if_true_in :
    (b c d : Bool)
    → (if b then true else c) ≡ true
    → ((b ≡ true) → d ≡ true)
    → (c ≡ true → d ≡ true)
    → d ≡ true
if_true_in true c d h in_case out_case = in_case refl
if_true_in false c d h in_case out_case = out_case h

pub settles-IsKept :
    (s : State) (task : Task)
    → contains task.id s.world.scheduler.running ≡ true
    → IsKept s
    → IsKept (settles_run s task)
settles-IsKept s task runs k =
    let v = reschedule_or_disable-IsSettled s task k in
    let plan = reschedule_or_disable-Plans s.world task in
    record {
      sound = v.sound;
      going = v.stopped ∙ k.going;
      keyed = plan.1 k.keyed;
      plans = v.plans;
      stored =
          λ id t h. let (x, e, same, on) = v.old id t h in subst Plannable same (k.stored id x e);
      settled_runs = λ id h.
          ap (contains id) (plan.0)
          ∙ if_true_in (task.id == id) (contains id s.settled)
              (contains id s.world.scheduler.running)
              (sym (contains-adjoin task.id id s.settled) ∙ h)
              (λ e.
                subst (λ (j : String). contains j s.world.scheduler.running ≡ true)
                  ((eq_iff task.id id).0 e) runs)
              (k.settled_runs id);
      held = λ id t h auto. elim (Bool-cases (task.id == id)) [
        | inl e ↦
            let same = (eq_iff task.id id).0 e in
            inl (
              subst
                (λ (j : String).
                  lookup j (reschedule_or_disable s.world task).scheduler.tasks ≢ none)
                same (v.own t (ap (view (reschedule_or_disable s.world task).disk) same ∙ h) auto))
        | inr e ↦
            let (x, f, alike, on) = v.old id t h in
            elim (k.held id x f (IsAutomatic-before x t alike on auto)) [
              | inl there ↦ inl (v.others id e there)
              | inr (runs', unsettled) ↦ inr (
                ap (contains id) (plan.0) ∙ runs',
                contains-adjoin task.id id s.settled ∙ rw (e, unsettled) refl,
              )
            ]
      ];
    }
