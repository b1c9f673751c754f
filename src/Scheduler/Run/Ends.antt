-- ===== src/Scheduler/Run/Ends.antt =====
-- The ends of a run: each leaves one history entry, one job line and one last event, which agree.
use relay_scheduler.Base.{
  ℕ, String, ◌≡◌, refl, sym, ap, subst, ◌∙◌, ◌⊎◌, inl, inr, Bool, true, false, not, none, some,
  List, ◌∷◌, is_empty, if◌then◌else◌, Bool-cases, take, Result, ok, err,
}
use relay_scheduler.Base.Int.{pos, ltb_ℤ, eqb_ℤ}
use relay_scheduler.Task.{Task, Execution}
use relay_scheduler.Store.{no_fault}
use relay_scheduler.History.{max_log_entries}
use relay_scheduler.Hub.{Event}
use relay_scheduler.Output.{read_output_file}
use relay_scheduler.Scheduler.State.{Request}
use relay_scheduler.History.{LogStore}
use relay_scheduler.Client.Chat.{ChatOutcome, completed, chat_timeout, chat_failed}
use relay_scheduler.Scheduler.State.{World, JobLine, Extra, lifecycle, broadcast_task_event, ask}
use relay_scheduler.Scheduler.Plan.{reschedule_or_disable}
use relay_scheduler.Scheduler.Run.{
  RunCtx, finish, record_run, fail_run, end_chat, succeeded, failed_exec, chat_exec,
  stop_generation, end_pty, pty_status, Exit, Outside, Time, exited_zero, exit_code_timeout,
  close_terminal, read_log, now_text, preview, get_terminal_log, pty_phrase,
}
use relay_scheduler.Scheduler.Run.Footprint.{
  Footprint, footprint, footprint-reschedule, footprint-finish, footprint-event, footprint-record,
}

abbrev pub IsFinal : String → Type 0
IsFinal s = (s ≡ "success") ⊎ ((s ≡ "error") ⊎ (s ≡ "timeout"))

-- One history entry with a final status, one job line and one last event, which agree.
pub record Concluded (rc : RunCtx) (task : Task) (old new : Footprint) : Type 0 where
  pub entry : Execution
  pub line : JobLine
  pub final : Event
  pub history : new.history ≡ take max_log_entries (entry ∷ old.history)
  pub lines : new.lines ≡ line ∷ old.lines
  pub events : new.events ≡ final ∷ old.events
  pub entry_task : entry.task_id ≡ task.id
  pub line_job : line.job_id ≡ task.id
  pub line_run : line.run_id ≡ rc.run_id
  pub final_task : final.task_id ≡ task.id
  pub status : IsFinal entry.status
  pub line_agrees : line.failed ≡ not (succeeded entry)
  pub event_agrees : final.kind ≡ (if succeeded entry then "task_completed" else "task_error")

-- Nothing yet, or a task_started event.
abbrev pub Begun : Task → Footprint → Footprint → Type 0
Begun task old mid =
    (mid ≡ old)
    ⊎ ((e : Event) × (e.kind ≡ "task_started")
        × (e.task_id ≡ task.id)
        × (mid ≡ record old { events = e ∷ old.events }))

pub record IsAccounted (rc : RunCtx) (task : Task) (old new : Footprint) : Type 0 where
  pub mid : Footprint
  pub begun : Begun task old mid
  pub concluded : Concluded rc task mid new

abbrev add_event : Event → Footprint → Footprint
add_event e f = record f { events = e ∷ f.events }

abbrev add_entry : Execution → Footprint → Footprint
add_entry e f = record f { history = take max_log_entries (e ∷ f.history) }

abbrev add_line : JobLine → Footprint → Footprint
add_line l f = record f { lines = l ∷ f.lines }

abbrev line_of : RunCtx → Task → Bool → String → JobLine
line_of rc task good phrase = record {
  job_id = task.id;
  run_id = rc.run_id;
  trigger = rc.trigger;
  failed = not good;
  error = if good then "" else phrase;
}

abbrev IsEnded : Task → Execution → Execution → Type 0
IsEnded task before after = (after.task_id ≡ before.task_id) × IsFinal after.status

zero-IsEnded :
    (task : Task) (e : Execution) (file : Result String (List ℕ))
    → IsEnded task e (exited_zero task e file)
zero-IsEnded task e (ok out) = elim (Bool-cases (is_empty task.output_file)) [
  | inl h ↦ rw h (refl, inl refl)
  | inr h ↦ rw h (refl, inl refl)
]
zero-IsEnded task e (err x) = elim (Bool-cases (is_empty task.output_file)) [
  | inl h ↦ rw h (refl, inl refl)
  | inr h ↦ rw h (refl, inr (inl refl))
]

pty_status-IsEnded :
    (task : Task) (e : Execution) (exit : Exit) (file : Result String (List ℕ))
    → IsEnded task e (pty_status task e exit file)
unfolding pty_status
pty_status-IsEnded task e (code, error) file = elim (Bool-cases (eqb_ℤ code exit_code_timeout)) [
  | inl a ↦ rw a (refl, inr (inr refl))
  | inr a ↦ elim (Bool-cases (ltb_ℤ code (pos 0))) [
    | inl b ↦ rw (a, b) (refl, inr (inl refl))
    | inr b ↦ elim (Bool-cases (eqb_ℤ code (pos 0))) [
      | inl c ↦ rw (a, b, c) (zero-IsEnded task e file)
      | inr c ↦ rw (a, b, c) (refl, inr (inl refl))
    ]
  ]
]

-- The last steps that all ends of a run share.
abbrev ended : World → RunCtx → Task → Bool → String → Execution → String → String → Extra → World
ended w rc task good phrase exec kind run extra =
    reschedule_or_disable
      (broadcast_task_event (record_run (finish w rc task good phrase) task exec) kind task run
        extra)
      task

module _ (rc : RunCtx) (task : Task) where
  footprint-ended :
      (w : World) (good : Bool) (phrase : String) (exec : Execution) (kind run : String)
      (extra : Extra)
      → w.logs.fault ≡ no_fault
      → footprint rc task (ended w rc task good phrase exec kind run extra)
        ≡ add_event
            (lifecycle kind task run extra)
            (add_entry exec (add_line (line_of rc task good phrase) (footprint rc task w)))
  footprint-ended w good phrase exec kind run extra writes =
      let finished = finish w rc task good phrase in
      let recorded = record_run finished task exec in
      footprint-reschedule rc task (broadcast_task_event recorded kind task run extra) task
      ∙ footprint-event rc task recorded kind run extra
      ∙ ap (add_event (lifecycle kind task run extra)) (
          footprint-record rc task finished exec (unfold finish in writes)
          ∙ ap (add_entry exec) (footprint-finish rc task w good phrase))

  conclusion :
      (w : World) (good : Bool) (phrase : String) (exec : Execution) (kind run : String)
      (extra : Extra)
      → w.logs.fault ≡ no_fault
      → exec.task_id ≡ task.id
      → IsFinal exec.status
      → good ≡ succeeded exec
      → kind ≡ (if succeeded exec then "task_completed" else "task_error")
      → Concluded rc task
          (footprint rc task w)
          (footprint rc task (ended w rc task good phrase exec kind run extra))
  conclusion w good phrase exec kind run extra writes same final agree kinds =
      subst (Concluded rc task (footprint rc task w))
        (sym (footprint-ended w good phrase exec kind run extra writes))
        (record {
          entry = exec;
          line = line_of rc task good phrase;
          final = lifecycle kind task run extra;
          history = refl;
          lines = refl;
          events = refl;
          entry_task = same;
          line_job = refl;
          line_run = refl;
          final_task = refl;
          status = final;
          line_agrees = ap not agree;
          event_agrees = kinds;
        })

  pub fail_run-Concluded :
      (w : World) (exec : Execution) (error phrase : String)
      → w.logs.fault ≡ no_fault
      → exec.task_id ≡ task.id
      → Concluded rc task
          (footprint rc task w)
          (footprint rc task (fail_run w rc task exec error phrase))
  unfolding fail_run
  fail_run-Concluded w exec error phrase writes same =
      conclusion w false phrase (failed_exec w task exec error) "task_error" "" _ writes same
        (inr (inl refl)) refl refl

  pub end_chat-Concluded :
      (w : World) (exec : Execution) (session : String) (outcome : ChatOutcome)
      → w.logs.fault ≡ no_fault
      → exec.task_id ≡ task.id
      → Concluded rc task
          (footprint rc task w)
          (footprint rc task (end_chat w rc task exec session outcome))
  unfolding end_chat
  end_chat-Concluded w exec session (completed reply stats) writes same =
      conclusion w true "" (chat_exec w exec (completed reply stats)) "task_completed" session _
        writes same (inl refl) refl refl
  end_chat-Concluded w exec session chat_timeout writes same =
      conclusion (ask w (stop_generation session)) false "timeout" (chat_exec w exec chat_timeout)
        "task_error" session _ writes same (inr (inr refl)) refl refl
  end_chat-Concluded w exec session (chat_failed e) writes same =
      conclusion w false "chat run failed" (chat_exec w exec (chat_failed e)) "task_error" session _
        writes same (inr (inl refl)) refl refl

  -- The end that reads its own success.
  either :
      (w : World) (good : Bool) (phrase : String) (exec : Execution) (run : String)
      (won lost : Extra)
      → w.logs.fault ≡ no_fault
      → exec.task_id ≡ task.id
      → IsFinal exec.status
      → good ≡ succeeded exec
      → Concluded rc task (footprint rc task w) (
          footprint rc task (
            reschedule_or_disable
              (if good
                then broadcast_task_event
                    (record_run (finish w rc task good phrase) task exec)
                    "task_completed"
                    task
                    run
                    won
                else broadcast_task_event
                    (record_run (finish w rc task good phrase) task exec)
                    "task_error"
                    task
                    run
                    lost)
              task))
  either w true phrase exec run won lost writes same final agree =
      conclusion w true phrase exec "task_completed" run won writes same final agree (rw (← agree))
  either w false phrase exec run won lost writes same final agree =
      conclusion w false phrase exec "task_error" run lost writes same final agree (rw (← agree))

  -- A request, and one more where a test holds, leave no trace.
  footprint-asked :
      (w : World) (b : Bool) (r q : Request)
      → (footprint rc task (ask (if b then ask w r else w) q) ≡ footprint rc task w)
        × ((ask (if b then ask w r else w) q).logs ≡ w.logs)
  footprint-asked w true r q = (refl, refl)
  footprint-asked w false r q = (refl, refl)

  pub end_pty-Concluded :
      (w : World) (exec : Execution) (o : Outside) (terminal : String) (run_start : Time)
      (exit : Exit)
      → w.logs.fault ≡ no_fault
      → exec.task_id ≡ task.id
      → Concluded rc task
          (footprint rc task w)
          (footprint rc task (end_pty w rc task exec o terminal run_start exit))
  unfolding end_pty
  end_pty-Concluded w exec o terminal run_start exit writes same =
      let code = exit.0 in
      let closed = if eqb_ℤ code exit_code_timeout then ask w (close_terminal terminal) else w in
      let logged = ask closed (read_log terminal) in
      let seen = record exec {
        exit_code = some code;
        completed_at = now_text w;
        response = preview (get_terminal_log o.log) exec.response;
      } in
      let done = pty_status task seen exit (read_output_file o.file run_start) in
      let fine = pty_status-IsEnded task seen exit (read_output_file o.file run_start) in
      let asked =
        footprint-asked w (eqb_ℤ code exit_code_timeout) (close_terminal terminal)
          (read_log terminal) in
      subst
        (λ (f : Footprint).
          Concluded rc task f
            (footprint rc task (end_pty w rc task exec o terminal run_start exit)))
        asked.0
        (either logged (succeeded done) (pty_phrase done code) done terminal
          (some done.status, none, some code) (some done.status, some done.error, some code)
          (ap (λ (l : LogStore). l.fault) asked.1 ∙ writes) (fine.0 ∙ same) fine.1 refl)
