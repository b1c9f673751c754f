-- ===== src/Scheduler/Tick.antt =====
-- What a tick fires.
use relay_scheduler.Base.{
  subst, ◌-◌, String, ◌≡◌, refl, subst, ◌∙◌, inl, inr, Bool, true, false, not, ◌&&◌, ◌||◌, Option,
  none, some, List, [], ◌∷◌, arith, eq_iff, eq_refl, leb, ◌==◌, if◌then◌else◌, Bool-cases, lookup,
  contains,
}
use relay_scheduler.Clock.{Time}
use relay_scheduler.Task.{Task}
use relay_scheduler.Scheduler.State.{ScheduledTask, World}
use relay_scheduler.Scheduler.Plan.{check_and_fire, to_fire, classify, is_fire, missed_threshold}
use relay_scheduler.Scheduler.Keyed.{Schedule, Keyed}
use relay_scheduler.Scheduler.Overlap.{ids, to_fire_scheduled}

-- A scheduled task is due, is not running, and is at most 10 minutes late unless it catches up.
abbrev pub is_firing : Time → List String → String → Option ScheduledTask → Bool
is_firing now running k none = false
is_firing now running k (some st) =
    leb st.next_run now
    && not (contains k running)
    && (st.task.catch_up || leb (now - st.next_run) missed_threshold)

fires_by_classify :
    (now : Time) (running : List String) (st : ScheduledTask)
    → is_fire (classify now running st) ≡ is_firing now running st.task.id (some st)
unfolding classify
fires_by_classify now running st = ground arith

contains-fired :
    (b : Bool) (k : String) (t : Task) (rest : List Task)
    → contains k (ids (if b then t ∷ rest else rest))
      ≡ ((b && (t.id == k)) || contains k (ids rest))
unfolding contains
contains-fired true k t rest = ground arith
contains-fired false k t rest = refl

unscheduled_rest :
    (now : Time) (running : List String) (k : String) (m : Schedule)
    → Keyed m
    → lookup k m ≡ none
    → contains k (ids (to_fire now running m)) ≡ false
unscheduled_rest now running k m h n =
    elim (Bool-cases (contains k (ids (to_fire now running m)))) [
      | inl e ↦ absurd (to_fire_scheduled now running k m h e n)
      | inr e ↦ e
    ]

and_true : (b : Bool) → ((b && true) || false) ≡ b
and_true true = refl
and_true false = refl

and_false : (b c : Bool) → ((b && false) || c) ≡ c
and_false true c = refl
and_false false c = refl

to_fire_exact :
    (now : Time) (running : List String) (k : String) (m : Schedule)
    → Keyed m
    → contains k (ids (to_fire now running m)) ≡ is_firing now running k (lookup k m)
unfolding to_fire contains lookup
to_fire_exact now running k [] h = refl
to_fire_exact now running k ((id, st) ∷ m) h =
    contains-fired (is_fire (classify now running st)) k st.task (to_fire now running m)
    ∙ rw (fires_by_classify now running st) (elim (Bool-cases (id == k)) [
      | inl e ↦
          let same : id ≡ k = (eq_iff id k).0 e in
          let rest =
            unscheduled_rest now running k m h.2
              (subst (λ (x : String). lookup x m ≡ none) same h.1) in
          rw (e, rest, h.0 ∙ same, eq_refl k) (and_true _)
      | inr e ↦ rw (h.0, e) (rw (to_fire_exact now running k m h.2) (and_false _ _))
    ])

-- In a schedule that holds each task once, under its own id, a tick fires a task exactly if it is
-- scheduled and due, is not running, and is at most 10 minutes late unless it catches up.
pub check_and_fire_lem :
    (w : World) (k : String)
    → Keyed w.scheduler.tasks
    → contains k (ids (check_and_fire w).1)
      ≡ is_firing w.now w.scheduler.running k (lookup k w.scheduler.tasks)
unfolding check_and_fire
check_and_fire_lem w k h = to_fire_exact w.now w.scheduler.running k w.scheduler.tasks h
