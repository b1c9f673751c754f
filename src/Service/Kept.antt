-- ===== src/Service/Kept.antt =====
-- No task is forgotten: the daemon's invariant along every sequence of steps.
use relay_scheduler.Base.{
  String, ◌≡◌, refl, sym, ap, subst, ◌∙◌, inl, inr, Bool, true, false, Option, none, some, eq_iff,
  ◌==◌, if◌then◌else◌, Bool-cases, Result, ok, err, lookup-remove, contains, adjoin,
  contains-discard, contains-adjoin,
}
use relay_scheduler.Clock.{Time}
use relay_scheduler.Task.{Task}
use relay_scheduler.Store.{Disk, StoreError, delete}
use relay_scheduler.Store.Calls.{view, Change, change, changing, deleting}
use relay_scheduler.Store.Refinement.{view-call, call-IsSound}
use relay_scheduler.Store.Answers.{get-view}
use relay_scheduler.Scheduler.State.{World, with_disk, with_running}
use relay_scheduler.Scheduler.Plan.{run_task_now, start_run, unschedule_task}
use relay_scheduler.Scheduler.Keyed.{unschedule_task-Plans}
use relay_scheduler.Api.Routes.{delete_task, delete_answer}
use relay_scheduler.Service.{
  State, Step, ticks, runs_now, notes, settles, leaves, posts, puts, deletes, waits, Reach, here,
  next, is_note, ran_now, noted, left_run, deleted_task,
}
use relay_scheduler.Service.Plans.{remove-AllPlan}
use relay_scheduler.Service.Held.{change-Descends, IsKept, with_disk-IsKept, ticked-IsKept}
use relay_scheduler.Service.Placed.{posted-IsKept, updated-IsKept}
use relay_scheduler.Service.Settled.{settles-IsKept}

started-IsKept :
    (s : State) (id : String)
    → IsKept s
    → IsKept (record s { world = with_running s.world (adjoin id s.world.scheduler.running) })
started-IsKept s id k =
    let more : (j : String)
        → contains j s.world.scheduler.running ≡ true
        → contains j (adjoin id s.world.scheduler.running) ≡ true =
      λ j h. contains-adjoin id j s.world.scheduler.running ∙ rw h (true_either (id == j)) in
    record {
      sound = k.sound;
      going = k.going;
      keyed = k.keyed;
      plans = k.plans;
      stored = k.stored;
      settled_runs = λ j h. more j (k.settled_runs j h);
      held = λ j t h auto. elim (k.held j t h auto) [
        | inl there ↦ inl there
        | inr (runs, unsettled) ↦ inr (more j runs, unsettled)
      ];
    }
  where
    true_either : (b : Bool) → (if b then true else true) ≡ true
    true_either true = refl
    true_either false = refl

start-IsKept :
    (s : State) (id : String) (o : Option Task)
    → IsKept s
    → IsKept (record s { world = (start_run s.world id o).0 })
start-IsKept s id none k = k
start-IsKept s id (some t) k = elim (Bool-cases (contains id s.world.scheduler.running)) [
  | inl e ↦ rw e k
  | inr e ↦ rw e (started-IsKept s id k)
]

ran_now-IsKept : (s : State) (id : String) → IsKept s → IsKept (ran_now s id)
unfolding run_task_now
ran_now-IsKept s id k =
    rw (get-view s.world.disk id k.sound, run_task_now) (start-IsKept s id (view s.world.disk id) k)

noted-IsKept :
    (s : State) (now : Time) (id : String) (c : Change)
    → is_note c ≡ true
    → IsKept s
    → IsKept (noted s now id c)
noted-IsKept s now id c note k =
    let d = s.world.disk in
    with_disk-IsKept s (change d now id c) k (call-IsSound d (changing now id c) k.sound tt)
      (change-Descends d now id c note k.sound)

outside : (b c : Bool) → (if b then false else c) ≡ true → (b ≡ false) × (c ≡ true)
outside true c h = cc
outside false c h = (refl, h)

left_run-IsKept :
    (s : State) (id : String) → contains id s.settled ≡ true → IsKept s → IsKept (left_run s id)
left_run-IsKept s id done k =
    let running = s.world.scheduler.running in
    record {
      sound = k.sound;
      going = k.going;
      keyed = k.keyed;
      plans = k.plans;
      stored = k.stored;
      settled_runs = λ j h.
          let (other, old) =
            outside (id == j) (contains j s.settled) (sym (contains-discard id j s.settled) ∙ h) in
          contains-discard id j running ∙ rw other (k.settled_runs j old);
      held = λ j t h auto. elim (k.held j t h auto) [
        | inl there ↦ inl there
        | inr (runs, unsettled) ↦ elim (Bool-cases (id == j)) [
          | inl e ↦
              let c : true ≡ false =
                sym done
                ∙ ap (λ (i : String). contains i s.settled) ((eq_iff id j).0 e)
                ∙ unsettled in
              cc
          | inr e ↦ inr (
            contains-discard id j running ∙ rw e runs,
            contains-discard id j s.settled ∙ rw e unsettled,
          )
        ]
      ];
    }

answer_stores :
    (w : World) (d : Disk) (r : Result StoreError Bool) → (delete_answer w (d, r)).0 ≡ with_disk w d
answer_stores w d (ok true) = refl
answer_stores w d (ok false) = refl
answer_stores w d (err e) = refl

out_of_reach :
    (b : Bool) (o : Option Task) (t : Task)
    → (if b then none else o) ≡ some t
    → (b ≡ false) × (o ≡ some t)
out_of_reach true o t h = cc
out_of_reach false o t h = (refl, h)

removed-IsKept :
    (s : State) (id : String)
    → IsKept s
    → IsKept
        (record s { world = with_disk (unschedule_task s.world id) (delete s.world.disk id).0 })
unfolding unschedule_task
removed-IsKept s id k =
    let d = s.world.disk in
    let old : (j : String) (t : Task)
        → view (delete d id).0 j ≡ some t
        → ((id == j) ≡ false) × (view d j ≡ some t) =
      λ j t h.
        out_of_reach (id == j) (view d j) t (sym (view-call d (deleting id) j k.sound tt) ∙ h) in
    record {
      sound = call-IsSound d (deleting id) k.sound tt;
      going = k.going;
      keyed = (unschedule_task-Plans s.world id).1 k.keyed;
      plans = remove-AllPlan id s.world.scheduler.tasks k.plans;
      stored = λ j t h. k.stored j t (old j t h).1;
      settled_runs = k.settled_runs;
      held = λ j t h auto.
          let (other, before) = old j t h in
          elim (k.held j t before auto) [
            | inl there ↦ inl (rw (lookup-remove id j s.world.scheduler.tasks, other) there)
            | inr runs ↦ inr runs
          ];
    }

deleted_task-IsKept : (s : State) (id : String) → IsKept s → IsKept (deleted_task s id)
unfolding delete_task unschedule_task
deleted_task-IsKept s id k =
    subst (λ (w : World). IsKept (record s { world = w }))
      (sym (answer_stores (unschedule_task s.world id) (delete s.world.disk id).0 _))
      (removed-IsKept s id k)

Step-IsKept : (s t : State) → Step s t → IsKept s → IsKept t
Step-IsKept _ _ (ticks s) k = ticked-IsKept s k
Step-IsKept _ _ (runs_now s id) k = ran_now-IsKept s id k
Step-IsKept _ _ (notes s now id c note) k = noted-IsKept s now id c note k
Step-IsKept _ _ (settles s task runs) k = settles-IsKept s task runs k
Step-IsKept _ _ (leaves s id done) k = left_run-IsKept s id done k
Step-IsKept _ _ (posts s later id body fresh) k = posted-IsKept s later id body fresh k
Step-IsKept _ _ (puts s later id body) k = updated-IsKept s later id body k
Step-IsKept _ _ (deletes s id) k = deleted_task-IsKept s id k
Step-IsKept _ _ (waits s now) k = record {
  sound = k.sound;
  going = k.going;
  keyed = k.keyed;
  plans = k.plans;
  stored = k.stored;
  settled_runs = k.settled_runs;
  held = k.held;
}

pub Reach-IsKept : (s t : State) → Reach s t → IsKept s → IsKept t
Reach-IsKept _ _ here k = k
Reach-IsKept s u (next {t} r st) k = Step-IsKept t u st (Reach-IsKept s t r k)
