-- ===== src/Scheduler/Run/Accounted.antt =====
-- Every run is accounted for once, and alike, in the job lines, the history and the events.
use relay_scheduler.Base.{
  String, ◌≡◌, refl, ap, subst, ◌∙◌, inl, inr, none, is_empty, Bool-cases, Result-cases, Option,
  some, Bool, if◌then◌else◌, false, true,
}
use relay_scheduler.Scheduler.Run.Ends.{
  Concluded, IsAccounted, fail_run-Concluded, end_chat-Concluded, end_pty-Concluded,
}
use relay_scheduler.Store
use relay_scheduler.Store.{Disk}
use relay_scheduler.Scheduler.Run.{ask_if, previous_request, set_last_run}
use relay_scheduler.History.{LogStore}
use relay_scheduler.Task.{Task, Execution}
use relay_scheduler.Store.{no_fault, WriteFault}
use relay_scheduler.Scheduler.State.{Request}
use relay_scheduler.Client.Chat.{run_chat_and_wait}
use relay_scheduler.Scheduler.State.{World, lifecycle, broadcast_task_event, ask}
use relay_scheduler.Scheduler.Run.{
  RunCtx, fail_run, Outside, Time, run_chat, run_timeout, with_disk, set_last_session_id,
  send_prompt, run_chat_task, run_pty, run_pty_task, Project, set_last_terminal_id, attach,
  session_request, terminal_request, attach_terminal_and_wait, create_session, in_directory,
  create_terminal, begin_run, execute_task, run_body, look_up_project, new_exec, lacks_model,
  get_project, is_pty,
}
use relay_scheduler.Scheduler.Run.Footprint.{Footprint, footprint, footprint-event}

-- What other goroutines do during the run adds nothing to the job lines of this run, nor to the
-- events and the history of this task, and the history can be written.
pub record LeavesAlone (rc : RunCtx) (task : Task) (o : Outside) : Type 0 where
  pub lookup : (w : World) → footprint rc task (o.during_lookup w) ≡ footprint rc task w
  pub creation : (w : World) → footprint rc task (o.during_create w) ≡ footprint rc task w
  pub wait : (w : World) → footprint rc task (o.during_wait w) ≡ footprint rc task w

module _ (rc : RunCtx) (task : Task) (o : Outside) (alone : LeavesAlone rc task o) where
  abbrev fault_of : Footprint → WriteFault
  fault_of f = f.fault

  at_once : {old new : Footprint} → Concluded rc task old new → IsAccounted rc task old new
  at_once {old = old} c = record { mid = old; begun = inl refl; concluded = c }

  -- A run that has announced its start, and waits.
  started :
      (w v : World) (new : Footprint) (run : String)
      → footprint rc task v
        ≡ footprint rc task (broadcast_task_event w "task_started" task run (none, none, none))
      → Concluded rc task (footprint rc task v) new
      → IsAccounted rc task (footprint rc task w) new
  started w v new run same c = record {
    mid = footprint rc task v;
    begun = inr (
      lifecycle "task_started" task run (none, none, none),
      refl,
      refl,
      same ∙ footprint-event rc task w "task_started" run (none, none, none),
    );
    concluded = c;
  }

  run_chat-IsAccounted :
      (w : World) (exec : Execution) (session : String)
      → w.logs.fault ≡ no_fault
      → exec.task_id ≡ task.id
      → IsAccounted rc task
          (footprint rc task w)
          (footprint rc task (run_chat w rc task exec o session))
  unfolding run_chat broadcast_task_event
  run_chat-IsAccounted w exec session writes same =
      let timeout = run_timeout task.max_duration_seconds in
      let stored = with_disk w (set_last_session_id w.disk w.now task.id session) in
      let begun = broadcast_task_event stored "task_started" task session (none, none, none) in
      let asked = ask begun (send_prompt session task.prompt timeout) in
      started stored (o.during_wait asked) _ session (alone.wait asked) (
        end_chat-Concluded rc task (o.during_wait asked) (record exec { session_id = session })
          session (run_chat_and_wait o.turn session timeout o.chat)
          (ap fault_of (alone.wait asked) ∙ writes) same)

  run_pty-IsAccounted :
      (w : World) (exec : Execution) (run_start : Time) (terminal : String)
      → w.logs.fault ≡ no_fault
      → exec.task_id ≡ task.id
      → IsAccounted rc task
          (footprint rc task w)
          (footprint rc task (run_pty w rc task exec o run_start terminal))
  unfolding run_pty broadcast_task_event
  run_pty-IsAccounted w exec run_start terminal writes same =
      let timeout = run_timeout task.max_duration_seconds in
      let stored = with_disk w (set_last_terminal_id w.disk w.now task.id terminal) in
      let begun = broadcast_task_event stored "task_started" task terminal (none, none, none) in
      let asked = ask begun (attach terminal timeout) in
      started stored (o.during_wait asked) _ terminal (alone.wait asked) (
        end_pty-Concluded rc task (o.during_wait asked) (record exec { terminal_id = terminal }) o
          terminal run_start (attach_terminal_and_wait o.joined timeout o.arrivals)
          (ap fault_of (alone.wait asked) ∙ writes) same)

  failed :
      (w : World) (exec : Execution) (error phrase : String)
      → w.logs.fault ≡ no_fault
      → exec.task_id ≡ task.id
      → IsAccounted rc task
          (footprint rc task w)
          (footprint rc task (fail_run w rc task exec error phrase))
  failed w exec error phrase writes same =
      at_once (fail_run-Concluded rc task w exec error phrase writes same)

  -- What follows an answer of relay that leaves no trace.
  after :
      (w v : World) {new : Footprint}
      → footprint rc task v ≡ footprint rc task w
      → IsAccounted rc task (footprint rc task v) new
      → IsAccounted rc task (footprint rc task w) new
  after w v {new = new} same a = subst (λ (f : Footprint). IsAccounted rc task f new) same a

  run_chat_task-IsAccounted :
      (w : World) (project : Project) (exec : Execution)
      → w.logs.fault ≡ no_fault
      → exec.task_id ≡ task.id
      → IsAccounted rc task
          (footprint rc task w)
          (footprint rc task (run_chat_task w rc task project exec o))
  unfolding run_chat_task
  run_chat_task-IsAccounted w project exec writes same =
      let asked = ask w (
        Request.create_session
          (session_request project task.model task.name task.use_relay_tools)) in
      let v = o.during_create asked in
      let ready = ap fault_of (alone.creation asked) ∙ writes in
      elim (Result-cases (create_session o.session)) [
        | inl (session, e) ↦
            rw (e, run_chat_task)
              (after w v (alone.creation asked) (run_chat-IsAccounted v exec session ready same))
        | inr (x, e) ↦
            rw (e, run_chat_task) (after w v (alone.creation asked) (failed v exec x _ ready same))
      ]

  run_pty_task-IsAccounted :
      (w : World) (project : Project) (exec : Execution)
      → w.logs.fault ≡ no_fault
      → exec.task_id ≡ task.id
      → IsAccounted rc task
          (footprint rc task w)
          (footprint rc task (run_pty_task w rc task project exec o))
  unfolding run_pty_task
  run_pty_task-IsAccounted w project exec writes same =
      let asked = ask w (
        Request.create_terminal (
          terminal_request (in_directory project task) task.template_id task.name
            task.extra_args)) in
      let v = o.during_create asked in
      let ready = ap fault_of (alone.creation asked) ∙ writes in
      elim (Bool-cases (is_empty task.template_id)) [
        | inl h ↦ rw h (failed w exec _ _ writes same)
        | inr h ↦ elim (Result-cases (create_terminal o.terminal)) [
          | inl (terminal, e) ↦
              rw (h, e, run_pty_task)
                (after w v (alone.creation asked)
                  (run_pty-IsAccounted v exec w.now terminal ready same))
          | inr (x, e) ↦
              rw (h, e, run_pty_task)
                (after w v (alone.creation asked) (failed v exec x _ ready same))
        ]
      ]

  -- The two kinds of tasks.
  dispatched :
      (pty : Bool) (w : World) (project : Project) (exec : Execution)
      → w.logs.fault ≡ no_fault
      → exec.task_id ≡ task.id
      → IsAccounted rc task (footprint rc task w) (
          footprint rc task (
            if pty
            then run_pty_task w rc task project exec o
            else run_chat_task w rc task project exec o))
  dispatched true w project exec writes same = run_pty_task-IsAccounted w project exec writes same
  dispatched false w project exec writes same = run_chat_task-IsAccounted w project exec writes same

  run_body-IsAccounted :
      (w : World) (exec : Execution)
      → w.logs.fault ≡ no_fault
      → exec.task_id ≡ task.id
      → IsAccounted rc task (footprint rc task w) (footprint rc task (run_body w rc task exec o))
  unfolding run_body
  run_body-IsAccounted w exec writes same =
      let asked = ask w (look_up_project task.project_id) in
      let v = o.during_lookup asked in
      let ready = ap fault_of (alone.lookup asked) ∙ writes in
      elim (Bool-cases (lacks_model task)) [
        | inl h ↦ rw h (failed w exec _ _ writes same)
        | inr h ↦ elim (Result-cases (get_project o.project)) [
          | inr (x, e) ↦
              rw (h, e, run_body) (after w v (alone.lookup asked) (failed v exec x _ ready same))
          | inl (project, e) ↦
              rw (h, e, run_body)
                (after w v (alone.lookup asked)
                  (dispatched (is_pty task) v project exec ready same))
        ]
      ]

asked_if-same :
    (rc : RunCtx) (w : World) (task : Task) (d : Disk) (r : Option Request)
    → (footprint rc task (with_disk (ask_if w r) d) ≡ footprint rc task w)
      × ((with_disk (ask_if w r) d).logs ≡ w.logs)
asked_if-same rc w task d none = (refl, refl)
asked_if-same rc w task d (some r) = (refl, refl)

begin_run-same :
    (rc : RunCtx) (w : World) (task : Task)
    → (footprint rc task (begin_run w task) ≡ footprint rc task w)
      × ((begin_run w task).logs ≡ w.logs)
unfolding begin_run
begin_run-same rc w task =
    asked_if-same rc w task (set_last_run w.disk w.now task.id "running")
      (previous_request (Store.get w.disk task.id))

-- Whatever relay and the file system answer, one run of a task leaves at most a task_started event
-- and then exactly one history entry with a final status, one job.fire line and one task_completed
-- or task_error event for its task, all three telling alike whether the run succeeded. The history
-- file can be written, and the other goroutines touch neither it nor this run's lines and events.
pub execute_task-IsAccounted :
    (w : World) (rc : RunCtx) (task : Task) (o : Outside)
    → LeavesAlone rc task o
    → w.logs.fault ≡ no_fault
    → IsAccounted rc task (footprint rc task w) (footprint rc task (execute_task w rc task o))
unfolding execute_task
execute_task-IsAccounted w rc task o alone writes =
    subst (λ (f : Footprint). IsAccounted rc task f (footprint rc task (execute_task w rc task o)))
      (begin_run-same rc w task).0
      (run_body-IsAccounted rc task o alone (begin_run w task) (new_exec w task)
        (ap (λ (l : LogStore). l.fault) (begin_run-same rc w task).1 ∙ writes) refl)
