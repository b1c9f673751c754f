-- ===== src/Verify/Journey/Drive.antt =====
-- The steps of the journey against a front door, each answer kept with its request.
use relay_scheduler.Base.{
  ℕ, zero, suc, ◌+◌, ◌-◌, ◌/◌, inl, inr, not, ◌&&◌, ◌||◌, Option, none, some, List, [], ◌∷◌, ◌++◌,
  ltb, nat_eq, if◌then◌else◌, ◌⊎◌,
}
use relay_scheduler.Clock.{Time, second}
use relay_scheduler.Text.{Text, codes}
use relay_scheduler.Verify.{pass, fail, blocked, not_run, Verdict, replace_all}
use relay_scheduler.Verify.Journey.{
  Frontdoor, Request, create_task, run_task, get_history, get_task, delete_task, delete_terminal,
  Answer, Env, HistoryEntry, poll, poll_every, run_deadline, late_note, verdict, number, marker_for,
  step_refusal, classify_shell_run,
}

abbrev pub Exchanges : Type 0
Exchanges = List (Request × Answer)

-- The world, and what was asked of it, newest first.
pub record Visit {ℓ} (S : Type ℓ) : Type ℓ where
  pub world : S
  pub exchanges : Exchanges

pub data Waited : Type 0 where
  ended : HistoryEntry → Waited
  late : Text → Waited

-- One poll a second in 60 seconds.
abbrev pub polls : ℕ
polls = 60

-- Seconds, to the nearest.
abbrev pub rounded_seconds : ℕ → ℕ
rounded_seconds d = (d + 500_000_000) / second

abbrev pub judged : Env → Verdict → ℕ → Verdict
judged e r took = elim r.state [
  | pass ↦ record r { detail = r.detail ++ codes ", " ++ number took ++ codes "s" }
  | blocked ↦ record r { detail = replace_all r.detail (codes "<project>") e.project_name }
  | fail ↦ r
  | not_run ↦ r
]

abbrev pub late_verdict : Text → Verdict
late_verdict note = verdict fail (codes "run did not end within 60s" ++ late_note note)

-- The result of a journey whose routine is still there.
abbrev pub with_leftover : Verdict → Text → Verdict
with_leftover r left = elim r.state [
  | pass ↦ record { id = r.id; state = fail; detail = left }
  | fail ↦ record r { detail = r.detail ++ codes "; " ++ left }
  | blocked ↦ record r { detail = r.detail ++ codes "; " ++ left }
  | not_run ↦ record r { detail = r.detail ++ codes "; " ++ left }
]

abbrev pub cleaned : Verdict → Text → Answer → Answer → Verdict
cleaned r name del after =
    if nat_eq del.status 200 && nat_eq after.status 404
    then r
    else (let status = if nat_eq del.status 200 then after.status else del.status in
        with_leftover r (codes "left routine " ++ name ++ codes ": " ++ number status))

abbrev pub routine_name : Env → Text
routine_name e = codes "verify-" ++ e.nonce ++ codes "-shell"

module _ {ℓ} {S : Type ℓ} (door : Frontdoor S) where
  abbrev pub ask : Visit S → Request → Visit S × Answer
  ask v q =
      let (s, a) = door.send v.world q in
      (record { world = s; exchanges = (q, a) ∷ v.exchanges }, a)

  -- A refused step ends the part that it stands in.
  abbrev pub unless_refused :
      Visit S → Option Verdict → Option (Visit S × Verdict) → Option (Visit S × Verdict)
  unless_refused u (some r) later = some (u, r)
  unless_refused u none later = later

  -- One round of the loop, by what the poll says and what the rounds after the sleep give.
  abbrev pub round :
      Visit S → Time → Option (Visit S × Waited) → Text ⊎ HistoryEntry → Option (Visit S × Waited)
  round u deadline rest (inr h) = some (u, ended h)
  round u deadline rest (inl note) =
      let slept = record u { world = door.sleep u.world } in
      if door.cancelled u.world || not (ltb (door.clock u.world + poll_every) deadline)
      then some (u, late note)
      else if door.cancelled slept.world
      then some (slept, late note)
      else rest

  -- `none` is the fuel's end.
  unfoldable pub wait_for_history : ℕ → Visit S → Text → Time → Option (Visit S × Waited)
  wait_for_history zero v id deadline = none
  wait_for_history (suc fuel) v id deadline =
      let (u, r) = ask v (get_history id) in
      let slept = record u { world = door.sleep u.world } in
      round u deadline (wait_for_history fuel slept id deadline) (poll r)

  abbrev pub after_wait : Env → Time → Option (Visit S × Waited) → Option (Visit S × Verdict)
  after_wait e began none = none
  after_wait e began (some (v, late note)) = some (v, late_verdict note)
  after_wait e began (some (v, ended h)) =
      let r = classify_shell_run h (marker_for e.nonce) in
      some (v, judged e r (rounded_seconds (door.clock v.world - began)))

  -- The part between the creation of the routine and its deletion.
  unfoldable pub run_created : Visit S → Env → Text → Option (Visit S × Verdict)
  unfolding wait_for_history
  run_created v e id =
      let began = door.clock v.world in
      let (u, run) = ask v (run_task id) in
      unless_refused u (step_refusal "run" run 200)
        (after_wait e began (wait_for_history polls u id (began + run_deadline)))

  abbrev pub close_last : Visit S → Option Text → Visit S
  close_last v none = v
  close_last v (some []) = v
  close_last v (some (c ∷ t)) = (ask v (delete_terminal (c ∷ t))).0

  unfoldable pub cleanup_routine : Visit S → Text → Text → Verdict → Visit S × Verdict
  cleanup_routine v name id r =
      let (v1, g) = ask v (get_task id) in
      let v2 = if nat_eq g.status 200 then close_last v1 g.last_terminal else v1 in
      let (v3, del) = ask v2 (delete_task id) in
      let (v4, after) = ask v3 (get_task id) in (v4, cleaned r name del after)

  abbrev pub after_run : Text → Text → Option (Visit S × Verdict) → Option (Visit S × Verdict)
  after_run name id none = none
  after_run name id (some (v, r)) = some (cleanup_routine v name id r)

  abbrev pub with_routine : Visit S → Env → Option Text → Option (Visit S × Verdict)
  with_routine v e none = some (v, verdict fail (codes "create: status 201 but no task id"))
  with_routine v e (some []) = some (v, verdict fail (codes "create: status 201 but no task id"))
  with_routine v e (some (c ∷ id)) = after_run (routine_name e) (c ∷ id) (run_created v e (c ∷ id))

  unfoldable pub run_shell_routine : Visit S → Env → Option (Visit S × Verdict)
  unfolding run_created cleanup_routine
  run_shell_routine v e =
      let (u, create) = ask v (create_task (routine_name e) e.project_id e.nonce) in
      unless_refused u (step_refusal "create" create 201) (with_routine u e create.created)
