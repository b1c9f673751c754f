-- ===== src/Scheduler/Run.antt =====
-- scheduler.go: one run of a task (executeTask, runPtyTask, failRun, runCtx.finish). What relay and
-- the file system answer is an argument, and so is what the other goroutines do to the world while
-- the run waits for an answer.
pub mod Footprint
pub mod Ends
pub mod Accounted
pub mod Timeout
use relay_scheduler.Base.{
  ℕ, ◌-◌, ◌*◌, String, Bool, true, false, not, ◌&&◌, Option, none, some, List, [], ◌∷◌, ltb, ◌==◌,
  is_empty, if◌then◌else◌, length, drop, Result, ok, err, discard,
}
use relay_scheduler.Base.Int.{ℤ, pos, ltb_ℤ, leb_ℤ, eqb_ℤ, mul64}
use Prim.Native.String.{◌++◌ as ◌⧺◌}
use relay_scheduler.Text.{codes, is_blank, decimal}
use relay_scheduler.Clock.{Time, second}
use relay_scheduler.Clock.Rfc3339.{format}
use relay_scheduler.Task.{Task, Execution, Payload, text, bytes, is_pty}
use relay_scheduler.Store
use relay_scheduler.Store.{StoreError, set_last_run, set_last_session_id, set_last_terminal_id}
use relay_scheduler.History
use relay_scheduler.Output.{OpenError, OpenedFile, read_output_file}
use relay_scheduler.Client.{Arrival}
use relay_scheduler.Client.Request.{
  HttpReply, Project, create_terminal, get_project, session_request, create_session,
  terminal_request, get_terminal_log,
}
use relay_scheduler.Client.Chat.{
  Turn, ChatFrame, ChatOutcome, completed, chat_timeout, chat_failed, run_chat_and_wait,
}
use relay_scheduler.Client.Terminal.{
  TerminalFrame, Joined, Exit, exit_code_timeout, exit_code_create_failed, attach_terminal_and_wait,
}
use relay_scheduler.Scheduler.State.{
  World, with_running, with_disk, ask, broadcast_task_event, Request, close_terminal,
  delete_session, stop_generation, look_up_project, read_log, send_prompt, attach,
}
use relay_scheduler.Scheduler.Plan.{reschedule_or_disable}

-- runCtx, without its logging context and client.
pub record RunCtx : Type 0 where
  pub run_id : String
  pub trigger : String

-- What comes from outside during one run.
pub record Outside : Type 0 where
  pub project : HttpReply Project
  pub session : HttpReply String
  pub turn : Turn
  pub chat : List (Time × Arrival ChatFrame)
  pub terminal : HttpReply String
  pub joined : Joined
  pub arrivals : List (Time × Arrival TerminalFrame)
  pub log : HttpReply (List ℕ)
  pub file : Result OpenError OpenedFile
  pub during_lookup : World → World
  pub during_create : World → World
  pub during_wait : World → World

abbrev pub now_text : World → String
now_text w = format w.now

-- The job.fire line.
unfoldable pub finish : World → RunCtx → Task → Bool → String → World
finish w rc task good phrase = record w {
  lines =
      record {
        job_id = task.id;
        run_id = rc.run_id;
        trigger = rc.trigger;
        failed = not good;
        error = if good then "" else phrase;
      }
      ∷ w.lines;
}

-- The history entry and the task's last status.
unfoldable pub record_run : World → Task → Execution → World
record_run w task exec = record w {
  logs = History.log w.logs task.project_id task.id exec;
  disk = set_last_run w.disk w.now task.id exec.status;
}

abbrev failed_exit : Task → Option ℤ → Option ℤ
failed_exit task old = if is_pty task then some exit_code_create_failed else old

abbrev pub failed_exec : World → Task → Execution → String → Execution
failed_exec w task exec error = record exec {
  status = "error";
  error = error;
  completed_at = now_text w;
  exit_code = failed_exit task exec.exit_code;
}

unfoldable pub fail_run : World → RunCtx → Task → Execution → String → String → World
unfolding finish record_run broadcast_task_event reschedule_or_disable
fail_run w rc task exec error phrase =
    let failed = failed_exec w task exec error in
    let logged = record_run (finish w rc task false phrase) task failed in
    let exit_code = if is_pty task then some exit_code_create_failed else none in
    reschedule_or_disable
      (broadcast_task_event logged "task_error" task "" (none, some error, exit_code)) task

-- `time.Duration(task.MaxDurationSeconds) * time.Second`, or 30 minutes where that is not positive.
unfoldable pub run_timeout : ℤ → ℤ
run_timeout seconds =
    let timeout = mul64 seconds second in
    if leb_ℤ timeout (pos 0) then pos (1800 * second) else timeout

abbrev pub previous_of : Task → Option Request
previous_of t =
    if is_pty t
    then (if is_empty t.last_terminal_id then none else some (close_terminal t.last_terminal_id))
    else if is_empty t.last_session_id
    then none
    else some (delete_session t.last_session_id)

abbrev pub ask_if : World → Option Request → World
ask_if w none = w
ask_if w (some r) = ask w r

abbrev pub previous_request : Result StoreError (Option Task) → Option Request
previous_request (ok (some current)) = previous_of current
previous_request _ = none

-- One live run per task: the session or terminal of the task's last run goes first. Then the task is
-- marked as running.
unfoldable pub begin_run : World → Task → World
begin_run w task =
    let cleaned = ask_if w (previous_request (Store.get w.disk task.id)) in
    with_disk cleaned (set_last_run w.disk w.now task.id "running")

abbrev pub new_exec : World → Task → Execution
new_exec w task = record {
  task_id = task.id;
  task_name = task.name;
  project_id = task.project_id;
  session_id = "";
  started_at = now_text w;
  completed_at = "";
  status = "running";
  response = text "";
  error = "";
  stats = none;
  terminal_id = "";
  exit_code = none;
  output = [];
}

-- The record of a chat run by its outcome, and the fixed phrase of its job line.
unfoldable pub chat_exec : World → Execution → ChatOutcome → Execution
chat_exec w exec chat_timeout = record exec {
  completed_at = now_text w;
  status = "timeout";
  error = "task exceeded maxDurationSeconds";
}
chat_exec w exec (chat_failed e) = record exec {
  completed_at = now_text w;
  status = "error";
  error = e;
}
chat_exec w exec (completed reply stats) = record exec {
  completed_at = now_text w;
  status = "success";
  response = text reply;
  stats = some stats;
}

abbrev chat_finish : World → RunCtx → Task → String → ChatOutcome → World
chat_finish w rc task session chat_timeout =
    finish (ask w (stop_generation session)) rc task false "timeout"
chat_finish w rc task session (chat_failed e) = finish w rc task false "chat run failed"
chat_finish w rc task session (completed reply stats) = finish w rc task true ""

abbrev pub succeeded : Execution → Bool
succeeded exec = exec.status == "success"

-- The end of a chat run: its line, its record, its event and the next run.
unfoldable pub end_chat : World → RunCtx → Task → Execution → String → ChatOutcome → World
unfolding finish record_run broadcast_task_event reschedule_or_disable chat_exec
end_chat w rc task exec session outcome =
    let done = chat_exec w exec outcome in
    let logged = record_run (chat_finish w rc task session outcome) task done in
    let announced =
      if succeeded done
      then broadcast_task_event logged "task_completed" task session (some done.status, none, none)
      else broadcast_task_event logged "task_error" task session
          (some done.status, some done.error, none) in
    reschedule_or_disable announced task

unfoldable pub run_chat : World → RunCtx → Task → Execution → Outside → String → World
unfolding end_chat broadcast_task_event run_timeout run_chat_and_wait
run_chat w rc task exec o session =
    let timeout = run_timeout task.max_duration_seconds in
    let stored = with_disk w (set_last_session_id w.disk w.now task.id session) in
    let begun = broadcast_task_event stored "task_started" task session (none, none, none) in
    let waited = o.during_wait (ask begun (send_prompt session task.prompt timeout)) in
    end_chat waited rc task (record exec { session_id = session }) session
      (run_chat_and_wait o.turn session timeout o.chat)

abbrev chat_created : World → RunCtx → Task → Execution → Outside → Result String String → World
chat_created w rc task exec o (err e) = fail_run w rc task exec e "session create failed"
chat_created w rc task exec o (ok session) = run_chat w rc task exec o session

unfoldable pub run_chat_task : World → RunCtx → Task → Project → Execution → Outside → World
unfolding fail_run run_chat create_session
run_chat_task w rc task project exec o =
    let request = session_request project task.model task.name task.use_relay_tools in
    chat_created (o.during_create (ask w (Request.create_session request))) rc task exec o
      (create_session o.session)

abbrev pub max_preview : ℕ
max_preview = 16 * 1024

-- The last 16 KB of the log, if it could be read.
unfoldable pub preview : Result String (List ℕ) → Payload → Payload
preview (err e) old = old
preview (ok log) old =
    bytes (if ltb max_preview (length log) then drop (length log - max_preview) log else log)

abbrev or_nothing : Option String → String
or_nothing none = ""
or_nothing (some e) = e

-- Exit 0: success, but for an output file that cannot be taken.
abbrev pub exited_zero : Task → Execution → Result String (List ℕ) → Execution
exited_zero task exec (err e) =
    if is_empty task.output_file
    then record exec { status = "success" }
    else record exec { status = "error"; error = e }
exited_zero task exec (ok out) =
    if is_empty task.output_file
    then record exec { status = "success" }
    else record exec { status = "success"; output = out }

-- The record of a terminal run by its exit.
unfoldable pub pty_status : Task → Execution → Exit → Result String (List ℕ) → Execution
pty_status task exec (code, attach_error) file =
    if eqb_ℤ code exit_code_timeout
    then record exec { status = "timeout"; error = "task exceeded maxDurationSeconds" }
    else if ltb_ℤ code (pos 0)
    then record exec { status = "error"; error = or_nothing attach_error }
    else if eqb_ℤ code (pos 0)
    then exited_zero task exec file
    else record exec { status = "error"; error = "process exited with code " ⧺ decimal code }

unfoldable pub pty_phrase : Execution → ℤ → String
pty_phrase exec code =
    if succeeded exec
    then ""
    else if eqb_ℤ code exit_code_timeout
    then "timeout"
    else if ltb_ℤ code (pos 0)
    then "terminal attach failed"
    else if ltb_ℤ (pos 0) code
    then "process exited nonzero"
    else "output file failed"

-- The end of a terminal run. A run that timed out has its terminal closed before the log is read.
unfoldable pub end_pty : World → RunCtx → Task → Execution → Outside → String → Time → Exit → World
unfolding finish record_run broadcast_task_event reschedule_or_disable pty_status pty_phrase
end_pty w rc task exec o terminal run_start exit =
    let code = exit.0 in
    let closed = if eqb_ℤ code exit_code_timeout then ask w (close_terminal terminal) else w in
    let logged = ask closed (read_log terminal) in
    let seen = record exec {
      exit_code = some code;
      completed_at = now_text w;
      response = preview (get_terminal_log o.log) exec.response;
    } in
    let done = pty_status task seen exit (read_output_file o.file run_start) in
    let finished = finish logged rc task (succeeded done) (pty_phrase done code) in
    let recorded = record_run finished task done in
    let announced =
      if succeeded done
      then broadcast_task_event recorded "task_completed" task terminal
          (some done.status, none, some code)
      else broadcast_task_event recorded "task_error" task terminal
          (some done.status, some done.error, some code) in
    reschedule_or_disable announced task

unfoldable pub run_pty : World → RunCtx → Task → Execution → Outside → Time → String → World
unfolding end_pty broadcast_task_event run_timeout attach_terminal_and_wait
run_pty w rc task exec o run_start terminal =
    let timeout = run_timeout task.max_duration_seconds in
    let stored = with_disk w (set_last_terminal_id w.disk w.now task.id terminal) in
    let begun = broadcast_task_event stored "task_started" task terminal (none, none, none) in
    let waited = o.during_wait (ask begun (attach terminal timeout)) in
    end_pty waited rc task (record exec { terminal_id = terminal }) o terminal run_start
      (attach_terminal_and_wait o.joined timeout o.arrivals)

abbrev pty_created :
    World → RunCtx → Task → Execution → Outside → Time → Result String String → World
pty_created w rc task exec o run_start (err e) = fail_run w rc task exec e "terminal create failed"
pty_created w rc task exec o run_start (ok terminal) = run_pty w rc task exec o run_start terminal

-- The directory of the project, or the task's own.
abbrev pub in_directory : Project → Task → Project
in_directory project task = record project {
  path = if is_empty task.directory then project.path else task.directory;
}

unfoldable pub run_pty_task : World → RunCtx → Task → Project → Execution → Outside → World
unfolding fail_run run_pty
run_pty_task w rc task project exec o =
    if is_empty task.template_id
    then fail_run w rc task exec "PTY task missing templateId" "template missing"
    else (let request =
          terminal_request (in_directory project task) task.template_id task.name task.extra_args in
        pty_created (o.during_create (ask w (Request.create_terminal request))) rc task exec o w.now
          (create_terminal o.terminal))

abbrev looked_up : World → RunCtx → Task → Execution → Outside → Result String Project → World
looked_up w rc task exec o (err e) = fail_run w rc task exec e "project lookup failed"
looked_up w rc task exec o (ok project) =
    if is_pty task
    then run_pty_task w rc task project exec o
    else run_chat_task w rc task project exec o

-- A chat task without a model fails at once; %q escapes nothing in its name.
abbrev pub lacks_model : Task → Bool
lacks_model task = not (is_pty task) && is_blank (codes task.model)

unfoldable pub run_body : World → RunCtx → Task → Execution → Outside → World
run_body w rc task exec o =
    if lacks_model task
    then fail_run w rc task exec
        ("task \"" ⧺ task.name ⧺ "\" has no model; edit the task and choose one") "model missing"
    else looked_up (o.during_lookup (ask w (look_up_project task.project_id))) rc task exec o
        (get_project o.project)

-- executeTask; the deferred call takes the task out of the running set on every path.
unfoldable pub execute_task : World → RunCtx → Task → Outside → World
execute_task w rc task o =
    let ended = run_body (begin_run w task) rc task (new_exec w task) o in
    with_running ended (discard task.id ended.scheduler.running)
