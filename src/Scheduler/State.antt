-- ===== src/Scheduler/State.antt =====
-- scheduler.go: the Scheduler's state, in the world that it acts on.
use relay_scheduler.Base.{ℕ, String, Bool, Option, List, ◌∷◌}
use relay_scheduler.Base.Int.{ℤ}
use relay_scheduler.Clock.{Time, Zone}
use relay_scheduler.Task.{Task, task_view}
use relay_scheduler.Store.{Disk}
use relay_scheduler.History.{LogStore}
use relay_scheduler.Hub.{Event, event, broadcast}
use relay_scheduler.Client.Request.{SessionRequest, TerminalRequest}

pub record ScheduledTask : Type 0 where
  pub task : Task
  pub next_run : Time

-- `tasks` and `running` are maps; `stopped` tells whether `done` is closed.
pub record Scheduler : Type 0 where
  pub tasks : List (String × ScheduledTask)
  pub running : List String
  pub stopped : Bool

-- What the scheduler asks of relay.
pub data Request : Type 0 where
  close_terminal delete_session stop_generation look_up_project read_log : String → Request
  create_session : SessionRequest → Request
  create_terminal : TerminalRequest → Request
  send_prompt : String → String → ℤ → Request
  attach : String → ℤ → Request

-- The one job.fire line of a run.
pub record JobLine : Type 0 where
  pub job_id : String
  pub run_id : String
  pub trigger : String
  pub failed : Bool
  pub error : String

-- The disk, the scheduler, the history, the hub's clients and which of them take a write; what has
-- been broadcast, asked of relay and logged, newest first; the clock and the time zone.
pub record World : Type 0 where
  pub disk : Disk
  pub scheduler : Scheduler
  pub logs : LogStore
  pub clients : List ℕ
  pub writes : ℕ → Bool
  pub events : List Event
  pub requests : List Request
  pub lines : List JobLine
  pub now : Time
  pub zone : Zone

abbrev pub with_tasks : World → List (String × ScheduledTask) → World
with_tasks w ts = record w { scheduler = record (w.scheduler) { tasks = ts } }

abbrev pub with_running : World → List String → World
with_running w rs = record w { scheduler = record (w.scheduler) { running = rs } }

abbrev pub with_disk : World → Disk → World
with_disk w d = record w { disk = d }

abbrev pub ask : World → Request → World
ask w r = record w { requests = r ∷ w.requests }

-- Status, error and exit code of an event.
abbrev pub Extra : Type 0
Extra = Option String × Option String × Option ℤ

abbrev pub lifecycle : String → Task → String → Extra → Event
lifecycle kind task run (status, error, exit_code) = record {
  kind = kind;
  task_id = task.id;
  project_id = task.project_id;
  task_name = task.name;
  view = task_view task run;
  status = status;
  error = error;
  exit_code = exit_code;
}

unfoldable pub broadcast_task_event : World → String → Task → String → Extra → World
broadcast_task_event w kind task run extra =
    let e = lifecycle kind task run extra in
    record w { events = e ∷ w.events; clients = (broadcast w.writes (event e) w.clients).clients }
