-- ===== src/Verify/Journey/Passed.antt =====
-- The whole journey: what one that passes has asked and been answered.
use relay_scheduler.Base.{
  ℕ, ◌+◌, ◌-◌, String, ◌≡◌, refl, sym, ap, subst, ◌∙◌, inl, inr, Bool, true, false, Option, none,
  some, [], ◌∷◌, nat_eq, if◌then◌else◌,
}
use relay_scheduler.Clock.{Time}
use relay_scheduler.Text.{Text, codes}
use relay_scheduler.Verify.{fail, pass, Verdict}
use relay_scheduler.Verify.Journey.{
  Frontdoor, Answer, Env, HistoryEntry, run_deadline, create_task, run_task, get_history, get_task,
  delete_task, step_refusal, classify_shell_run, marker_for, verdict,
}
use relay_scheduler.Verify.Journey.Drive.{
  Exchanges, Visit, Waited, late, ended, ask, wait_for_history, polls, run_created,
  run_shell_routine, cleanup_routine, after_wait, after_run, with_routine, routine_name,
  unless_refused, close_last, cleaned, judged, rounded_seconds, late_verdict,
}
use relay_scheduler.Verify.Journey.Passing.{
  Sent, Grows, Grows-trans, Answers, Succeeded, Newest, fail_not_pass, classified,
}
use relay_scheduler.Verify.Journey.Seen.{accepted, refused_fails, judged_state, cleaned_passes}
use relay_scheduler.Verify.Journey.Polled.{ask-Grows, Polled, wait-Polled}

-- A run of the routine that was asked for, recorded, and succeeded.
abbrev pub Ran : Exchanges → Env → Text → Type 0
Ran xs e id =
    Sent xs (run_task id) (Answers 200)
    × ((h : HistoryEntry) × Sent xs (get_history id) (Newest h) × Succeeded (marker_for e.nonce) h)

-- The routine deleted at last, and no longer there.
abbrev pub Gone : Exchanges → Text → Type 0
Gone [] id = ⊥
Gone (x ∷ []) id = ⊥
Gone ((q, after) ∷ (q', del) ∷ rest) id =
    (q ≡ get_task id) × (after.status ≡ 404) × (q' ≡ delete_task id) × (del.status ≡ 200)

abbrev pub Created : Exchanges → Env → Text → Type 0
Created xs e id =
    Sent xs (create_task (routine_name e) e.project_id e.nonce)
      (λ a. (a.status ≡ 201) × (a.created ≡ some id))

Grows-Ran : (xs ys : Exchanges) (e : Env) (id : Text) → Grows xs ys → Ran xs e id → Ran ys e id
Grows-Ran xs ys e id g (ran, (h, seen, good)) = (g _ _ ran, (h, g _ _ seen, good))

module _ {ℓ} {S : Type ℓ} (door : Frontdoor S) where
  abbrev Outcome : Type ℓ
  Outcome = Visit S × Verdict

  waited-Ran :
      (v : Visit S) (e : Env) (id : Text) (began : Time) (o : Option (Visit S × Waited))
      → ((y : Visit S × Waited) → o ≡ some y → Polled door v id y)
      → Sent v.exchanges (run_task id) (Answers 200)
      → (u : Visit S) (r : Verdict) → after_wait door e began o ≡ some (u, r)
      → r.state ≡ pass
      → Grows v.exchanges u.exchanges × Ran u.exchanges e id
  unfolding Polled
  waited-Ran v e id began none polled_before sent u r h p = cc
  waited-Ran v e id began (some (w, late note)) polled_before sent u r h p =
      let same : late_verdict note ≡ r = cc in
      absurd (fail_not_pass (ap (λ (x : Verdict). x.state) same ∙ p))
  waited-Ran v e id began (some (w, ended x)) polled_before sent u r h p =
      let (grown, seen) = polled_before (w, ended x) refl in
      let took = rounded_seconds (door.clock w.world - began) in
      let judgement = classify_shell_run x (marker_for e.nonce) in
      let same : judged e judgement took ≡ r = cc in
      let there : w ≡ u = cc in
      let passes = sym (judged_state e judgement took) ∙ ap (λ (y : Verdict). y.state) same ∙ p in
      subst (λ (y : Visit S). Grows v.exchanges y.exchanges × Ran y.exchanges e id) there
        (grown, (grown _ _ sent, (x, seen, classified x (marker_for e.nonce) passes)))

  unless_refused-none :
      (u : Visit S) (step : String) (a : Answer) (want : ℕ) (later : Option Outcome) (w : Visit S)
      (r : Verdict)
      → unless_refused door u (step_refusal step a want) later ≡ some (w, r)
      → r.state ≡ pass
      → (a.status ≡ want) × (later ≡ some (w, r))
  unless_refused-none u step a want later w r h p = go (step_refusal step a want) refl h
    where
      go :
          (o : Option Verdict)
          → step_refusal step a want ≡ o
          → unless_refused door u o later ≡ some (w, r)
          → (a.status ≡ want) × (later ≡ some (w, r))
      go none e h = (accepted step a want e, h)
      go (some x) e h =
          let same : x ≡ r = cc in
          absurd (refused_fails step a want x e (ap (λ (y : Verdict). y.state) same ∙ p))

  run_created-Ran :
      (v : Visit S) (e : Env) (id : Text) (u : Visit S) (r : Verdict)
      → run_created door v e id ≡ some (u, r)
      → r.state ≡ pass
      → Grows v.exchanges u.exchanges × Ran u.exchanges e id
  unfolding run_created
  run_created-Ran v e id u r h p =
      let (w, a) = ask door v (run_task id) in
      let began = door.clock v.world in
      let (good, later) = unless_refused-none w "run" a 200 _ u r h p in
      let (grown, ran) =
        waited-Ran w e id began (wait_for_history door polls w id (began + run_deadline))
          (λ y f. wait-Polled door polls w id (began + run_deadline) y f) (inl (refl, good)) u r
          later p in
      (Grows-trans v.exchanges w.exchanges u.exchanges (ask-Grows door v (run_task id)) grown, ran)

  close_last-Grows :
      (v : Visit S) (b : Bool) (o : Option Text)
      → Grows v.exchanges (if b then close_last door v o else v).exchanges
  close_last-Grows v true none q P h = h
  close_last-Grows v true (some []) q P h = h
  close_last-Grows v true (some (c ∷ t)) q P h = inr h
  close_last-Grows v false o q P h = h

  cleanup-Gone :
      (v : Visit S) (name id : Text) (r r' : Verdict) (u : Visit S)
      → ◌≡◌ {A = Outcome} (cleanup_routine door v name id r) (u, r')
      → r'.state ≡ pass
      → (r.state ≡ pass) × Gone u.exchanges id × Grows v.exchanges u.exchanges
  unfolding cleanup_routine
  cleanup-Gone v name id r r' u h p =
      let (v1, g) = ask door v (get_task id) in
      let v2 = if nat_eq g.status 200 then close_last door v1 g.last_terminal else v1 in
      let (v3, del) = ask door v2 (delete_task id) in
      let (v4, after) = ask door v3 (get_task id) in
      let same : cleaned r name del after ≡ r' = ap (λ (y : Outcome). y.1) h in
      let there : v4 ≡ u = ap (λ (y : Outcome). y.0) h in
      let (gone, missing, passed) =
        cleaned_passes r name del after (ap (λ (y : Verdict). y.state) same ∙ p) in
      (
        passed,
        subst (λ (y : Visit S). Gone y.exchanges id) there (refl, missing, refl, gone),
        subst (λ (y : Visit S). Grows v.exchanges y.exchanges) there
            (λ q P sent.
              inr (inr (close_last-Grows v1 (nat_eq g.status 200) g.last_terminal q P (inr sent)))),
      )

  -- A journey that passes created a routine, was told that it runs, read a history whose newest entry
  -- succeeded with exit code 0 and the marker on a line of its output, and then deleted the routine
  -- and found it gone.
  pub run_shell_routine_passes :
      (v : Visit S) (e : Env) (u : Visit S) (r : Verdict)
      → run_shell_routine door v e ≡ some (u, r)
      → r.state ≡ pass
      → (id : Text) × Created u.exchanges e id × Ran u.exchanges e id × Gone u.exchanges id
  unfolding run_shell_routine
  run_shell_routine_passes v e u r h p =
      let (w, a) = ask door v (create_task (routine_name e) e.project_id e.nonce) in
      let (good, later) = unless_refused-none w "create" a 201 _ u r h p in
      created a.created refl good later
    where
      start : Visit S
      start = (ask door v (create_task (routine_name e) e.project_id e.nonce)).0

      reply : Answer
      reply = (ask door v (create_task (routine_name e) e.project_id e.nonce)).1

      created :
          (o : Option Text)
          → reply.created ≡ o
          → reply.status ≡ 201
          → with_routine door start e o ≡ some (u, r)
          → (id : Text) × Created u.exchanges e id × Ran u.exchanges e id × Gone u.exchanges id
      created none f good h =
          let same : verdict fail (codes "create: status 201 but no task id") ≡ r = cc in
          absurd (fail_not_pass (ap (λ (y : Verdict). y.state) same ∙ p))
      created (some []) f good h =
          let same : verdict fail (codes "create: status 201 but no task id") ≡ r = cc in
          absurd (fail_not_pass (ap (λ (y : Verdict). y.state) same ∙ p))
      created (some (c ∷ id)) f good h = ended_run (run_created door start e (c ∷ id)) refl h
        where
          ended_run :
              (o : Option Outcome)
              → run_created door start e (c ∷ id) ≡ o
              → after_run door (routine_name e) (c ∷ id) o ≡ some (u, r)
              → (id : Text) × Created u.exchanges e id × Ran u.exchanges e id × Gone u.exchanges id
          ended_run none g k = cc
          ended_run (some (x, s)) g k =
              let same : ◌≡◌ {A = Outcome} (cleanup_routine door x (routine_name e) (c ∷ id) s)
                  (u, r) =
                cc in
              let (passed, gone, grown) = cleanup-Gone x (routine_name e) (c ∷ id) s r u same p in
              let (earlier, ran) = run_created-Ran start e (c ∷ id) x s g passed in
              (
                c ∷ id,
                grown _ _ (earlier _ _ (inl (refl, (good, f)))),
                Grows-Ran x.exchanges u.exchanges e (c ∷ id) grown ran,
                gone,
              )
