-- ===== src/History.antt =====
-- logstore.go: LogStore, one file of executions for each task, newest first.
pub mod Newest
use relay_scheduler.Base.{
  ℕ, String, Option, some, List, [], ◌∷◌, ltb, take, length, if◌then◌else◌, lookup, insert,
}
use Prim.Native.String.{◌++◌ as ◌⧺◌}
use relay_scheduler.Task.{Execution}
use relay_scheduler.Store.{WriteFault, no_fault}

pub data LogFile : Type 0 where
  unreadable malformed : LogFile
  history : List Execution → LogFile

pub record LogStore : Type 0 where
  pub files : List (String × LogFile)
  pub fault : WriteFault

abbrev pub max_log_entries : ℕ
max_log_entries = 100

-- The file's name in the log directory.
unfoldable pub log_path : String → String → String
log_path project task = project ⧺ "-" ⧺ task ⧺ ".json"

abbrev entries : Option LogFile → List Execution
entries (some (history es)) = es
entries _ = []

unfoldable pub load : LogStore → String → String → List Execution
load s project task = entries (lookup (log_path project task) s.files)

abbrev keep : WriteFault → String → List Execution → LogStore → LogStore
keep no_fault path es s = record s { files = insert path (history es) s.files }
keep _ path es s = s

abbrev capped : List Execution → List Execution
capped es = if ltb max_log_entries (length es) then take max_log_entries es else es

unfoldable pub log : LogStore → String → String → Execution → LogStore
unfolding load
log s project task exec =
    keep s.fault (log_path project task) (capped (exec ∷ load s project task)) s
