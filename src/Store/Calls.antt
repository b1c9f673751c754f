-- ===== src/Store/Calls.antt =====
-- The calls that change the store, as data, and the map from ids to tasks that they promise.
use relay_scheduler.Base.{
  ◌≡◌, String, Bool, Option, none, some, List, Result, ok, err, if◌then◌else◌, ◌==◌,
}
use relay_scheduler.Clock.{Time}
use relay_scheduler.Clock.Rfc3339.{format}
use relay_scheduler.Task.{Task}
use relay_scheduler.Store.{
  Disk, StoreError, read_locked, find_task, create, update, delete, delete_by_project, merge,
  set_last_run, set_last_session_id, set_last_terminal_id, set_enabled,
}
use relay_scheduler.Store.Lists.{outside}

pub data Change : Type 0 where
  last_run session terminal : String → Change
  enabled : Bool → Change

pub data StoreCall : Type 0 where
  creating : Time → String → Task → StoreCall
  updating : Time → String → Task → StoreCall
  deleting purging : String → StoreCall
  changing : Time → String → Change → StoreCall

abbrev pub change : Disk → Time → String → Change → Disk
change d now id (last_run status) = set_last_run d now id status
change d now id (session s) = set_last_session_id d now id s
change d now id (terminal t) = set_last_terminal_id d now id t
change d now id (enabled on) = set_enabled d now id on

abbrev pub call : Disk → StoreCall → Disk
call d (creating now id task) = (create d now id task).0
call d (updating now id task) = (update d now id task).0
call d (deleting id) = (delete d id).0
call d (purging project) = (delete_by_project d project).0
call d (changing now id c) = change d now id c

abbrev pub View : Type 0
View = String → Option Task

abbrev view_of : Result StoreError (List Task) → View
view_of (ok ts) j = find_task j ts
view_of (err e) j = none

-- What the file says of an id.
abbrev pub view : Disk → View
view d = view_of (read_locked d)

abbrev pub stamp : Time → String → Task → Task
stamp now id t = record t { id = id; created_at = format now; updated_at = format now }

abbrev pub changed : Time → Change → Task → Task
changed now (last_run status) t = record t {
  last_run = format now;
  last_status = status;
  updated_at = format now;
}
changed now (session s) t = record t { last_session_id = s; updated_at = format now }
changed now (terminal x) t = record t { last_terminal_id = x; updated_at = format now }
changed now (enabled on) t = record t { enabled = on; updated_at = format now }

abbrev pub on_task : (Task → Task) → Option Task → Option Task
on_task f none = none
on_task f (some t) = some (f t)

-- The effect that a call promises on the map.
abbrev pub promised : View → StoreCall → View
promised v (creating now id task) j = if id == j then some (stamp now id task) else v j
promised v (updating now id task) j = if id == j then on_task (merge now id task) (v id) else v j
promised v (deleting id) j = if id == j then none else v j
promised v (purging project) j = outside project (v j)
promised v (changing now id c) j = if id == j then on_task (changed now c) (v id) else v j

-- A new task's id is not in use (crypto/rand gives 128 random bits).
abbrev pub IsFresh : View → StoreCall → Type 0
IsFresh v (creating now id task) = v id ≡ none
IsFresh v _ = Unit {0}
