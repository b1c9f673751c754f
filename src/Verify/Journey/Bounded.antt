-- ===== src/Verify/Journey/Bounded.antt =====
-- The journey ends: its polls are bounded by its deadline.
use relay_scheduler.Base.{
  ℕ, zero, suc, ◌+◌, ◌*◌, ◌≤◌, ◌<◌, ◌≡◌, refl, ◌⊎◌, inl, inr, Bool, true, false, not, ◌||◌, Option,
  none, some, [], ◌∷◌, arith, ltb, if◌then◌else◌,
}
use relay_scheduler.Clock.{Time}
use relay_scheduler.Text.{Text}
use relay_scheduler.Verify.{Verdict}
use relay_scheduler.Verify.Journey.{
  Frontdoor, Request, Env, HistoryEntry, poll, poll_every, run_deadline, get_history, step_refusal,
  run_task, create_task,
}
use relay_scheduler.Verify.Journey.Drive.{
  round, Visit, Waited, late, ended, ask, wait_for_history, polls, run_created, run_shell_routine,
  after_wait, after_run, with_routine, routine_name, unless_refused,
}

-- Time does not go back, and a sleep that is not cancelled takes its second.
pub record IsClock {ℓ} {S : Type ℓ} (door : Frontdoor S) : Type ℓ where
  pub send_later : (s : S) (q : Request) → door.clock s ≤ door.clock (door.send s q).0
  pub sleep_later :
      (s : S)
      → door.cancelled (door.sleep s) ≡ false
      → door.clock s + poll_every ≤ door.clock (door.sleep s)

abbrev pub Ends {ℓ} : {A : Type ℓ} → Option A → Type ℓ
Ends {A = A} o = (a : A) × (o ≡ some a)

if_Ends {ℓ} :
    {A : Type ℓ} (b : Bool) (x y : Option A)
    → Ends x
    → (b ≡ false → Ends y)
    → Ends (if b then x else y)
if_Ends true x y f g = f
if_Ends false x y f g = g refl

or_false : (b c : Bool) → (b || c) ≡ false → (b ≡ false) × (c ≡ false)
or_false true c h = cc
or_false false c h = (refl, h)

early_lt : (a b : ℕ) → not (ltb a b) ≡ false → a < b
early_lt a b h = ground arith

module _ {ℓ} {S : Type ℓ} (door : Frontdoor S) (k : IsClock door) where
  round-Ends :
      (u : Visit S) (deadline : Time) (rest : Option (Visit S × Waited)) (o : Text ⊎ HistoryEntry)
      → (door.clock u.world + poll_every < deadline
          → door.cancelled (door.sleep u.world) ≡ false
          → Ends rest)
      → Ends (round door u deadline rest o)
  round-Ends u deadline rest (inr h) f = (_, refl)
  round-Ends u deadline rest (inl note) f =
      if_Ends _ _ _ (_, refl)
        (λ going.
          if_Ends _ _ _ (_, refl)
            (λ awake.
              let early : not (ltb (door.clock u.world + poll_every) deadline) ≡ false =
                (or_false (door.cancelled u.world) _ going).1 in
              f (early_lt (door.clock u.world + poll_every) deadline early) awake))

  wait-Ends :
      (fuel : ℕ) (v : Visit S) (id : Text) (deadline : Time)
      → 1 ≤ fuel
      → deadline ≤ door.clock v.world + fuel * poll_every
      → Ends (wait_for_history door fuel v id deadline)
  unfolding wait_for_history
  wait-Ends zero v id deadline h g = absurd (omega arith)
  wait-Ends (suc fuel) v id deadline h g =
      let u = (ask door v (get_history id)).0 in
      let slept = record u { world = door.sleep u.world } in
      round-Ends u deadline (wait_for_history door fuel slept id deadline)
        (poll (ask door v (get_history id)).1)
        (λ early awake.
          let before = k.send_later v.world (get_history id) in
          let after = k.sleep_later u.world awake in
          wait-Ends fuel slept id deadline (omega arith) (omega arith))

  after_wait-Ends :
      (e : Env) (began : Time) (o : Option (Visit S × Waited))
      → Ends o
      → Ends (after_wait door e began o)
  after_wait-Ends e began (some (v, late note)) h = (_, refl)
  after_wait-Ends e began (some (v, ended x)) h = (_, refl)
  after_wait-Ends e began none (x, h) = cc

  unless_refused-Ends :
      (u : Visit S) (refused : Option Verdict) (later : Option (Visit S × Verdict))
      → Ends later
      → Ends (unless_refused door u refused later)
  unless_refused-Ends u (some r) later h = (_, refl)
  unless_refused-Ends u none later h = h

  run_created-Ends : (v : Visit S) (e : Env) (id : Text) → Ends (run_created door v e id)
  unfolding run_created
  run_created-Ends v e id =
      let u = (ask door v (run_task id)).0 in
      let began = door.clock v.world in
      let passed = k.send_later v.world (run_task id) in
      unless_refused-Ends u (step_refusal "run" (ask door v (run_task id)).1 200) _ (
        after_wait-Ends e began _
          (wait-Ends polls u id (began + run_deadline) (omega arith) (omega arith)))

  after_run-Ends :
      (name id : Text) (o : Option (Visit S × Verdict)) → Ends o → Ends (after_run door name id o)
  after_run-Ends name id (some (v, r)) h = (_, refl)
  after_run-Ends name id none (x, h) = cc

  with_routine-Ends : (v : Visit S) (e : Env) (o : Option Text) → Ends (with_routine door v e o)
  with_routine-Ends v e none = (_, refl)
  with_routine-Ends v e (some []) = (_, refl)
  with_routine-Ends v e (some (c ∷ id)) =
      after_run-Ends (routine_name e) (c ∷ id) _ (run_created-Ends v e (c ∷ id))

  -- The journey ends with a verdict after 60 polls at most, whatever the front door answers, where
  -- time does not go back and a sleep takes its second unless it is cancelled.
  pub run_shell_routine-Ends : (v : Visit S) (e : Env) → Ends (run_shell_routine door v e)
  unfolding run_shell_routine
  run_shell_routine-Ends v e =
      let (u, create) = ask door v (create_task (routine_name e) e.project_id e.nonce) in
      unless_refused-Ends u (step_refusal "create" create 201) _
        (with_routine-Ends u e create.created)
