-- ===== src/Store.antt =====
-- store.go: TaskStore. The mutex makes each operation one step on the disk; the clock reading and
-- the random id of an operation are arguments. JSON encoding and decoding of tasks are inverse to
-- each other, so the file holds tasks.
pub mod Lists
pub mod Calls
pub mod Refinement
pub mod Faults
pub mod Answers
use relay_scheduler.Base.{
  ℕ, String, Bool, true, false, not, Option, none, some, List, [], ◌∷◌, ◌++◌, Result, ok, err,
  ◌>>=◌, if◌then◌else◌, ◌==◌, is_empty, select, length, nat_eq,
}
use relay_scheduler.Clock.{Time}
use relay_scheduler.Clock.Rfc3339.{format}
use relay_scheduler.Task.{Task}

pub data FileState : Type 0 where
  missing unreadable malformed : FileState
  holds : List Task → FileState

-- What goes wrong in a write: the directory, the temporary file or the rename.
pub data WriteFault : Type 0 where
  no_fault mkdir_fault tmp_fault rename_fault : WriteFault

pub record Disk : Type 0 where
  pub tasks_file : FileState
  pub tmp_file : FileState
  pub fault : WriteFault

pub data StoreError : Type 0 where
  read_failed parse_failed mkdir_failed tmp_failed rename_failed : StoreError

abbrev read_file : FileState → Result StoreError (List Task)
read_file missing = ok []
read_file unreadable = err read_failed
read_file malformed = err parse_failed
read_file (holds ts) = ok ts

unfoldable pub read_locked : Disk → Result StoreError (List Task)
read_locked d = read_file d.tasks_file

-- A failed write of the temporary file leaves part of it behind.
abbrev write_steps : WriteFault → List Task → Disk → Disk × Option StoreError
write_steps mkdir_fault ts d = (d, some mkdir_failed)
write_steps tmp_fault ts d = (record d { tmp_file = malformed }, some tmp_failed)
write_steps rename_fault ts d = (record d { tmp_file = holds ts }, some rename_failed)
write_steps no_fault ts d = (record d { tasks_file = holds ts; tmp_file = missing }, none)

unfoldable pub write_locked : Disk → List Task → Disk × Option StoreError
write_locked d ts = write_steps d.fault ts d

abbrev answer {ℓ} : {A : Type ℓ} → A → Disk × Option StoreError → Disk × Result StoreError A
answer a (d, none) = (d, ok a)
answer a (d, some e) = (d, err e)

-- `if err := s.writeLocked(tasks); err != nil { return err }; return a`.
unfoldable pub commit {ℓ} : {A : Type ℓ} → Disk → List Task → A → Disk × Result StoreError A
unfolding write_locked
commit d ts a = answer a (write_locked d ts)

-- The loops over the tasks: the first one with an id, that one replaced, that one left out.
unfoldable pub find_task : String → List Task → Option Task
find_task id [] = none
find_task id (t ∷ ts) = if t.id == id then some t else find_task id ts

unfoldable pub replace_task : String → Task → List Task → List Task
replace_task id new [] = []
replace_task id new (t ∷ ts) = if t.id == id then new ∷ ts else t ∷ replace_task id new ts

unfoldable pub drop_task : String → List Task → List Task
drop_task id [] = []
drop_task id (t ∷ ts) = if t.id == id then ts else t ∷ drop_task id ts

abbrev pub in_project : String → Task → Bool
in_project project t = t.project_id == project

unfoldable pub load : Disk → Result StoreError (List Task)
unfolding read_locked
load d = read_locked d

unfoldable pub list_by_project : Disk → String → Result StoreError (List Task)
unfolding read_locked
list_by_project d project = do all ← read_locked d; ok (select (in_project project) all)

unfoldable pub get : Disk → String → Result StoreError (Option Task)
unfolding read_locked
get d id = do tasks ← read_locked d; ok (find_task id tasks)

unfoldable pub create : Disk → Time → String → Task → Disk × Result StoreError Task
unfolding read_locked
create d now new_id task = elim (read_locked d) [
  | err e ↦ (d, err e)
  | ok tasks ↦
      let stamped = record task { id = new_id; created_at = format now; updated_at = format now } in
      commit d (tasks ++ stamped ∷ []) stamped
]

abbrev kept : String → String → String
kept new old = if is_empty new then old else new

-- The update as it is stored: the id and creation time stay, and run state that it leaves empty.
unfoldable pub merge : Time → String → Task → Task → Task
merge now id updated t = record updated {
  id = id;
  created_at = t.created_at;
  updated_at = format now;
  last_run = kept updated.last_run t.last_run;
  last_status = kept updated.last_status t.last_status;
  last_session_id = kept updated.last_session_id t.last_session_id;
  last_terminal_id = kept updated.last_terminal_id t.last_terminal_id;
}

abbrev update_found :
    Disk → Time → String → Task → List Task → Option Task → Disk × Result StoreError (Option Task)
update_found d now id updated tasks none = (d, ok none)
update_found d now id updated tasks (some t) =
    let new = merge now id updated t in commit d (replace_task id new tasks) (some new)

unfoldable pub update : Disk → Time → String → Task → Disk × Result StoreError (Option Task)
unfolding read_locked
update d now id updated = elim (read_locked d) [
  | err e ↦ (d, err e)
  | ok tasks ↦ update_found d now id updated tasks (find_task id tasks)
]

abbrev delete_found : Disk → String → List Task → Option Task → Disk × Result StoreError Bool
delete_found d id tasks none = (d, ok false)
delete_found d id tasks (some t) = commit d (drop_task id tasks) true

unfoldable pub delete : Disk → String → Disk × Result StoreError Bool
unfolding read_locked
delete d id = elim (read_locked d) [
  | err e ↦ (d, err e)
  | ok tasks ↦ delete_found d id tasks (find_task id tasks)
]

abbrev drop_project : Disk → String → List Task → Disk × Result StoreError ℕ
drop_project d project tasks =
    let deleted = length (select (in_project project) tasks) in
    if nat_eq deleted 0
    then (d, ok 0)
    else commit d (select (λ t. not (in_project project t)) tasks) deleted

unfoldable pub delete_by_project : Disk → String → Disk × Result StoreError ℕ
unfolding read_locked
delete_by_project d project = elim (read_locked d) [
  | err e ↦ (d, err e)
  | ok tasks ↦ drop_project d project tasks
]

abbrev change_found : Disk → Time → String → (Task → Task) → List Task → Option Task → Disk
change_found d now id f tasks none = d
change_found d now id f tasks (some t) =
    let changed = f t in
    (write_locked d (replace_task id (record changed { updated_at = format now }) tasks)).0

-- A failed read or write is logged and otherwise ignored.
unfoldable pub update_task : Disk → Time → String → (Task → Task) → Disk
unfolding read_locked
update_task d now id f = elim (read_locked d) [
  | err e ↦ d
  | ok tasks ↦ change_found d now id f tasks (find_task id tasks)
]

unfoldable pub set_last_run : Disk → Time → String → String → Disk
set_last_run d now id status =
    update_task d now id λ t. record t { last_run = format now; last_status = status }

unfoldable pub set_last_session_id : Disk → Time → String → String → Disk
set_last_session_id d now id session =
    update_task d now id λ t. record t { last_session_id = session }

unfoldable pub set_last_terminal_id : Disk → Time → String → String → Disk
set_last_terminal_id d now id terminal =
    update_task d now id λ t. record t { last_terminal_id = terminal }

unfoldable pub set_enabled : Disk → Time → String → Bool → Disk
set_enabled d now id on = update_task d now id λ t. record t { enabled = on }
