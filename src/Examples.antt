-- ===== src/Examples.antt =====
-- The properties at concrete inputs, on the values of this file.
pub mod Planning
pub mod Storing
pub mod Running
pub mod Serving
pub mod Service
pub mod Logging
pub mod Verifying
pub mod Starting
use relay_scheduler.Base.{
  ℕ, zero, suc, ◌+◌, ◌-◌, ◌*◌, ◌/◌, ◌%◌, ◌^◌, ◌≤◌, ◌<◌, String, ◌≡◌, refl, sym, ap, subst, ◌∙◌, ◌≢◌,
  ◌↔◌, ◌⊎◌, inl, inr, Bool, true, false, not, ◌&&◌, ◌||◌, Option, none, some, List, [], ◌∷◌, ◌++◌,
  map, arith, eq_iff, eq_refl, ltb, leb, nat_eq, ◌==◌, is_empty, if◌then◌else◌, Bool-cases,
  Option-cases, Result-cases, ltb→lt, lt→ltb, leb→le, ltb-false→le, length, take, drop, select,
  length-append, All, Result, ok, err, ◌>>=◌, ◌>>◌, refuse, map_err, lookup, remove, insert,
  lookup-remove, lookup-insert, contains, discard, adjoin, contains-discard, contains-adjoin,
}
use relay_scheduler.Base.Int.{
  ℤ, pos, negsuc, pos_part, neg_part, ltb_ℤ, leb_ℤ, eqb_ℤ, signed64, mul64, offset_by, mul64_fits,
  mul64_range,
}
use relay_scheduler.Clock.{Time, Zone}
use relay_scheduler.Schedule.Json.{RawSchedule, object, text, number}
use relay_scheduler.Task.{Task, Execution, Payload}
use relay_scheduler.Store.{Disk, holds, missing, no_fault}
use relay_scheduler.Scheduler.State.{World}

abbrev pub utc : Zone
utc n = record { offset = pos 0; start = 0; stop = 2 ^ 70 }

-- 10 October 2025, 12:00 UTC.
abbrev pub noon : Time
noon = 63_895_694_400_000_000_000

abbrev pub every_day : RawSchedule
every_day = object (("type", text "daily") ∷ ("time", text "09:30") ∷ [])

abbrev pub digest : Task
digest = record {
  id = "a1";
  name = "digest";
  prompt = "Summarise the mail.";
  schedule = every_day;
  enabled = true;
  model = "sonnet";
  project_id = "p1";
  created_at = "2025-10-01T00:00:00Z";
  updated_at = "2025-10-01T00:00:00Z";
  last_run = "";
  last_status = "";
  last_session_id = "";
  use_relay_tools = false;
  catch_up = false;
  session_type = "";
  template_id = "";
  extra_args = [];
  directory = "";
  max_duration_seconds = pos 0;
  last_terminal_id = "";
  output_file = "";
}

abbrev pub disk : Disk
disk = record { tasks_file = holds (digest ∷ []); tmp_file = missing; fault = no_fault }

abbrev pub finished : Execution
finished = record {
  task_id = "a1";
  task_name = "digest";
  project_id = "p1";
  session_id = "s1";
  started_at = "2025-10-10T12:00:00Z";
  completed_at = "2025-10-10T12:01:00Z";
  status = "success";
  response = Payload.text "Two letters.";
  error = "";
  stats = none;
  terminal_id = "";
  exit_code = none;
  output = [];
}

-- The task is due, and one client listens.
abbrev pub world : World
world = record {
  disk = disk;
  scheduler = record {
    tasks = ("a1", record { task = digest; next_run = noon }) ∷ [];
    running = [];
    stopped = false;
  };
  logs = record { files = []; fault = no_fault };
  clients = 1 ∷ [];
  writes = λ k. true;
  events = [];
  requests = [];
  lines = [];
  now = noon;
  zone = utc;
}
