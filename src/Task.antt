-- ===== src/Task.antt =====
-- task.go: the task and execution records and the view descriptor. A float64 is its bit pattern.
use relay_scheduler.Base.{ℕ, String, Bool, false, not, Option, List, if◌then◌else◌, ◌==◌, is_empty}
use relay_scheduler.Base.Int.{ℤ}
use relay_scheduler.Schedule.Json.{RawSchedule}

abbrev pub session_type_chat : String
session_type_chat = "headless"

abbrev pub session_type_pty : String
session_type_pty = "pty"

pub record Task : Type 0 where
  pub id : String
  pub name : String
  pub prompt : String
  pub schedule : RawSchedule
  pub enabled : Bool
  pub model : String
  pub project_id : String
  pub created_at : String
  pub updated_at : String
  pub last_run : String
  pub last_status : String
  pub last_session_id : String
  pub use_relay_tools : Bool
  pub catch_up : Bool
  pub session_type : String
  pub template_id : String
  pub extra_args : List String
  pub directory : String
  pub max_duration_seconds : ℤ
  pub last_terminal_id : String
  pub output_file : String

pub record SessionStats : Type 0 where
  pub input_tokens : ℤ
  pub output_tokens : ℤ
  pub cache_read_tokens : ℤ
  pub cache_creation_tokens : ℤ
  pub cost_usd : ℕ

-- A Go string, from text or from bytes that need not be text.
pub data Payload : Type 0 where
  text : String → Payload
  bytes : List ℕ → Payload

pub record Execution : Type 0 where
  pub task_id : String
  pub task_name : String
  pub project_id : String
  pub session_id : String
  pub started_at : String
  pub completed_at : String
  pub status : String
  pub response : Payload
  pub error : String
  pub stats : Option SessionStats
  pub terminal_id : String
  pub exit_code : Option ℤ
  pub output : List ℕ

pub data ViewKind : Type 0 where
  interactive readonly : ViewKind

pub record TaskView : Type 0 where
  pub kind : ViewKind
  pub run_id : String
  pub has_last_run : Bool

abbrev pub is_pty : Task → Bool
is_pty t = t.session_type == session_type_pty

abbrev stored_id : Task → String
stored_id t = if is_pty t then t.last_terminal_id else t.last_session_id

-- An empty run id asks for the last run that the task stores.
unfoldable pub task_view : Task → String → TaskView
task_view t run =
    let kind = if is_pty t then readonly else interactive in
    if not (is_empty run)
    then record { kind = kind; run_id = run; has_last_run = false }
    else record { kind = kind; run_id = stored_id t; has_last_run = not (is_empty (stored_id t)) }
