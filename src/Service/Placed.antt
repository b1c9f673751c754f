-- ===== src/Service/Placed.antt =====
-- A task that POST or PUT stores and schedules keeps the daemon's invariant.
use relay_scheduler.Base.{
  String, ◌≡◌, refl, sym, subst, ◌∙◌, ◌≢◌, ◌⊎◌, inl, inr, Bool, true, false, Option, none, some,
  eq_iff, ◌==◌, if◌then◌else◌, Option-cases, Result-cases, Result, ok, err, lookup, remove,
  lookup-remove,
}
use relay_scheduler.Clock.{Time}
use relay_scheduler.Task.{Task}
use relay_scheduler.Store.{Disk, StoreError, create, update, merge}
use relay_scheduler.Store.Calls.{view, stamp, creating, updating, on_task}
use relay_scheduler.Store.Refinement.{IsSound, view-call, call-IsSound}
use relay_scheduler.Store.Answers.{create_answers, update_answers}
use relay_scheduler.Scheduler.State.{World, with_tasks, with_disk}
use relay_scheduler.Scheduler.Plan.{schedule_task, schedule_task_locked}
use relay_scheduler.Scheduler.Keyed.{schedule_task-Plans}
use relay_scheduler.Schedule.Stable.{validated_can_plan}
use relay_scheduler.Api.Validate.{validate_task}
use relay_scheduler.Api.Routes.{decode_task, post_task, put_task, create_answer, update_answer}
use relay_scheduler.Api.Accepted.{validated_schedule}
use relay_scheduler.Api.Removed.{schedule_task_locked-disk}
use relay_scheduler.Service.{State, posted, updated, undisturbed}
use relay_scheduler.Service.Plans.{
  CanPlan, AllPlan, remove-AllPlan, locked_plans, locked_keeps, locked-AllPlan,
}
use relay_scheduler.Service.Skipped.{locked-stopped}
use relay_scheduler.Service.Held.{with_disk-IsKept, IsAutomatic, Plannable, IsKept}

-- What scheduling a task leaves.
record IsScheduled (w : World) (task : Task) (v : World) : Type 0 where
  disk : v.disk ≡ w.disk
  stopped : v.scheduler.stopped ≡ w.scheduler.stopped
  plans : AllPlan w.scheduler.tasks → AllPlan v.scheduler.tasks
  others :
      (j : String)
      → (task.id == j) ≡ false
      → lookup j w.scheduler.tasks ≢ none
      → lookup j v.scheduler.tasks ≢ none
  own : task.enabled ≡ true → CanPlan task.schedule → lookup task.id v.scheduler.tasks ≢ none

pub kept_by_remove :
    (w : World) (task : Task) (j : String)
    → (task.id == j) ≡ false
    → lookup j w.scheduler.tasks ≢ none
    → lookup j (remove task.id w.scheduler.tasks) ≢ none
kept_by_remove w task j e h = rw (lookup-remove task.id j w.scheduler.tasks, e) h

if-IsScheduled :
    (w : World) (task : Task) (b : Bool)
    → task.enabled ≡ b
    → let cleared = with_tasks w (remove task.id w.scheduler.tasks) in
      IsScheduled w task (if b then schedule_task_locked cleared task else cleared)
if-IsScheduled w task true on =
    let cleared = with_tasks w (remove task.id w.scheduler.tasks) in
    record {
      disk = schedule_task_locked-disk cleared task;
      stopped = locked-stopped cleared task;
      plans = λ p. locked-AllPlan cleared task (remove-AllPlan task.id w.scheduler.tasks p);
      others = λ j e h. locked_keeps cleared task j (kept_by_remove w task j e h);
      own = λ _ can. locked_plans cleared task can;
    }
if-IsScheduled w task false off = record {
  disk = refl;
  stopped = refl;
  plans = λ p. remove-AllPlan task.id w.scheduler.tasks p;
  others = λ j e h. kept_by_remove w task j e h;
  own = λ on can none_left. let c : true ≡ false = sym on ∙ off in cc;
}

schedule_task-IsScheduled : (w : World) (task : Task) → IsScheduled w task (schedule_task w task)
unfolding schedule_task
schedule_task-IsScheduled w task = if-IsScheduled w task task.enabled refl

-- The state after a task has been written to the disk and scheduled.
abbrev placed : State → Disk → Task → State
placed s d task = record s { world = schedule_task (with_disk s.world d) task }

placed-view :
    (b : Bool) (task t : Task) (o : Option Task)
    → (if b then some task else o) ≡ some t
    → ((b ≡ true) × (task ≡ t)) ⊎ ((b ≡ false) × (o ≡ some t))
placed-view true task t o h = inl (refl, cc)
placed-view false task t o h = inr (refl, h)

placed-IsKept :
    (s : State) (d : Disk) (task : Task)
    → IsKept s
    → IsSound d
    → ((j : String) → view d j ≡ (if task.id == j then some task else view s.world.disk j))
    → Plannable task.schedule
    → IsKept (placed s d task)
placed-IsKept s d task k sound seen can =
    let w = with_disk s.world d in
    let v = schedule_task-IsScheduled w task in
    let plan = schedule_task-Plans w task in
    record {
      sound = subst IsSound (sym v.disk) sound;
      going = v.stopped ∙ k.going;
      keyed = plan.1 k.keyed;
      plans = v.plans k.plans;
      stored = λ id t h.
          elim (placed-view (task.id == id) task t (view s.world.disk id)
            (sym (seen id) ∙ (rw (v.disk) at h))) [
              | inl (e, same) ↦ subst (λ (x : Task). Plannable x.schedule) same can
              | inr (e, old) ↦ k.stored id t old
            ];
      settled_runs = λ id h. rw (plan.0) (k.settled_runs id h);
      held = λ id t h auto.
          elim (placed-view (task.id == id) task t (view s.world.disk id)
            (sym (seen id) ∙ (rw (v.disk) at h))) [
              | inl (e, same) ↦
                  let own : IsAutomatic task = subst IsAutomatic (sym same) auto in
                  inl (
                    subst (λ (j : String). lookup j (schedule_task w task).scheduler.tasks ≢ none)
                      ((eq_iff task.id id).0 e) (v.own own.0 (can own.1)))
              | inr (e, old) ↦ elim (k.held id t old auto) [
                | inl there ↦ inl (v.others id e there)
                | inr (runs, unsettled) ↦ inr (rw (plan.0) runs, unsettled)
              ]
            ];
    }

decoded_valid :
    (w : World) (later : Time) (body : Result String Task) (task : Task)
    → decode_task w later body ≡ ok task
    → validate_task w.zone w.now later task ≡ ok tt
unfolding decode_task
decoded_valid w later (err e) task h = cc
decoded_valid w later (ok x) task h = elim (Result-cases (validate_task w.zone w.now later x)) [
  | inl (u, e) ↦
      let same : x ≡ task = (let k = rw (e, decode_task) at h in cc) in
      subst (λ (y : Task). validate_task w.zone w.now later y ≡ ok tt) same e
  | inr (r, e) ↦ let k = rw (e, decode_task) at h in cc
]

pub valid-Plannable :
    (w : World) (later : Time) (task : Task)
    → validate_task w.zone w.now later task ≡ ok tt
    → Plannable task.schedule
valid-Plannable w later task e other z now =
    validated_can_plan w.zone z w.now later now task.schedule
      (validated_schedule w.zone w.now later task e) other

created_placed :
    (s : State) (d : Disk) (r : Result StoreError Task) (task : Task)
    → r ≡ ok task
    → IsKept (placed s d task)
    → IsKept (record s { world = (create_answer s.world undisturbed (d, r)).0 })
created_placed s d (ok x) task e k =
    let same : task ≡ x = cc in subst (λ (y : Task). IsKept (placed s d y)) same k
created_placed s d (err x) task e k = cc

updated_placed :
    (s : State) (d : Disk) (r : Result StoreError (Option Task)) (o : Option Task)
    → r ≡ ok o
    → ((task : Task) → o ≡ some task → IsKept (placed s d task))
    → (o ≡ none → IsKept (record s { world = with_disk s.world d }))
    → IsKept (record s { world = (update_answer s.world undisturbed (d, r)).0 })
updated_placed s d (ok none) o e found missing = missing (sym (cc))
updated_placed s d (ok (some x)) o e found missing = found x (sym (cc))
updated_placed s d (err x) o e found missing = cc

pub posted-IsKept :
    (s : State) (later : Time) (id : String) (body : Result String Task)
    → view s.world.disk id ≡ none
    → IsKept s
    → IsKept (posted s later id body)
unfolding post_task
posted-IsKept s later id body fresh k = elim (Result-cases (decode_task s.world later body)) [
  | inr (r, e) ↦ rw (e, post_task) k
  | inl (task, e) ↦
      let w = s.world in
      let new = stamp w.now id task in
      let can = valid-Plannable w later task (decoded_valid w later body task e) in
      rw (e, post_task)
        (created_placed s (create w.disk w.now id task).0 _ new
          (create_answers w.disk w.now id task k.sound)
          (placed-IsKept s (create w.disk w.now id task).0 new k
            (call-IsSound w.disk (creating w.now id task) k.sound fresh)
            (λ j. view-call w.disk (creating w.now id task) j k.sound fresh) can))
]

updated_found :
    (s : State) (now : Time) (id : String) (task new : Task)
    → IsKept s
    → Plannable task.schedule
    → on_task (merge now id task) (view s.world.disk id) ≡ some new
    → IsKept (placed s (update s.world.disk now id task).0 new)
unfolding merge
updated_found s now id task new k can h = elim (Option-cases (view s.world.disk id)) [
  | inl e ↦ let c = rw e at h in cc
  | inr (t, e) ↦
      let d = s.world.disk in
      let same : merge now id task t ≡ new = (let c = rw e at h in cc) in
      subst (λ (y : Task). IsKept (placed s (update d now id task).0 y)) same
        (placed-IsKept s (update d now id task).0 (merge now id task t) k
          (call-IsSound d (updating now id task) k.sound tt)
          (λ j. view-call d (updating now id task) j k.sound tt ∙ rw e refl) can)
]

unknown : (f : Task → Task) (o : Option Task) → on_task f o ≡ none → o ≡ none
unknown f none h = refl
unknown f (some t) h = cc

same_seen :
    (b : Bool) (f : Task → Task) (o o' : Option Task) (t : Task)
    → o ≡ none
    → (if b then on_task f o else o') ≡ some t
    → o' ≡ some t
same_seen true f o o' t e h = let c = rw e at h in cc
same_seen false f o o' t e h = h

updated_missing :
    (s : State) (now : Time) (id : String) (task : Task)
    → IsKept s
    → on_task (merge now id task) (view s.world.disk id) ≡ none
    → IsKept (record s { world = with_disk s.world (update s.world.disk now id task).0 })
updated_missing s now id task k h =
    let d = s.world.disk in
    with_disk-IsKept s (update d now id task).0 k (call-IsSound d (updating now id task) k.sound tt)
      (λ j t seen. (
        t,
        same_seen (id == j) (merge now id task) (view d id) (view d j) t
            (unknown (merge now id task) (view d id) h)
            (sym (view-call d (updating now id task) j k.sound tt) ∙ seen),
        refl,
        λ on. on,
      ))

pub updated-IsKept :
    (s : State) (later : Time) (id : String) (body : Result String Task)
    → IsKept s
    → IsKept (updated s later id body)
unfolding put_task
updated-IsKept s later id body k = elim (Result-cases (decode_task s.world later body)) [
  | inr (r, e) ↦ rw (e, put_task) k
  | inl (task, e) ↦
      rw (e, put_task)
        (let w = s.world in
          let can = valid-Plannable w later task (decoded_valid w later body task e) in
          updated_placed s (update w.disk w.now id task).0 _
            (on_task (merge w.now id task) (view w.disk id))
            (update_answers w.disk w.now id task k.sound)
            (λ new f. updated_found s w.now id task new k can f)
            (λ f. updated_missing s w.now id task k f))
]
