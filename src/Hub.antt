-- ===== src/Hub.antt =====
-- hub.go and wshandler.go: Hub and the life of a WebSocket client. A connection is a number; which
-- connections take a write is the network's choice.
pub mod Delivery
use relay_scheduler.Base.{
  ℕ, ◌≡◌, String, Bool, true, false, not, Option, none, some, List, [], ◌∷◌, Result, ok, err,
  if◌then◌else◌, ◌==◌, nat_eq, select,
}
use relay_scheduler.Base.Int.{ℤ}
use relay_scheduler.Task.{Task, TaskView, task_view}
use relay_scheduler.Store.{StoreError}

-- A lifecycle event: the envelope and the extras.
pub record Event : Type 0 where
  pub kind : String
  pub task_id : String
  pub project_id : String
  pub task_name : String
  pub view : TaskView
  pub status : Option String
  pub error : Option String
  pub exit_code : Option ℤ

pub record RunningTask : Type 0 where
  pub task_id : String
  pub project_id : String
  pub task_name : String
  pub view : TaskView

pub data Message : Type 0 where
  event : Event → Message
  task_status : List RunningTask → Message

unfoldable pub is_client : ℕ → List ℕ → Bool
is_client c [] = false
is_client c (k ∷ ks) = if nat_eq k c then true else is_client c ks

unfoldable pub register : ℕ → List ℕ → List ℕ
unfolding is_client
register c clients = if is_client c clients then clients else c ∷ clients

unfoldable pub unregister : ℕ → List ℕ → List ℕ
unregister c [] = []
unregister c (k ∷ ks) = if nat_eq k c then unregister c ks else k ∷ unregister c ks

pub record Sent : Type 0 where
  pub clients : List ℕ
  pub delivered : List (ℕ × Message)
  pub closed : List ℕ

-- The loop over the clients: a failed write closes the connection and drops the client.
unfoldable pub broadcast : (ℕ → Bool) → Message → List ℕ → Sent
broadcast writes m [] = record { clients = []; delivered = []; closed = [] }
broadcast writes m (c ∷ cs) =
    let rest = broadcast writes m cs in
    if writes c
    then record rest { clients = c ∷ rest.clients; delivered = (c, m) ∷ rest.delivered }
    else record rest { closed = c ∷ rest.closed }

abbrev pub is_running : Task → Bool
is_running t = t.last_status == "running"

unfoldable pub running_tasks : List Task → List RunningTask
running_tasks [] = []
running_tasks (t ∷ ts) =
    if is_running t
    then record {
      task_id = t.id;
      project_id = t.project_id;
      task_name = t.name;
      view = task_view t "";
    }
      ∷ running_tasks ts
    else running_tasks ts

-- The message that a new client gets; none when the store cannot be read.
unfoldable pub send_status : Result StoreError (List Task) → Option Message
unfolding running_tasks
send_status (err e) = none
send_status (ok tasks) = some (task_status (running_tasks tasks))

-- What happens to the hub: HandleWS connects a client, its read pump ends, an event is sent.
pub data HubCall : Type 0 where
  connects disconnects : ℕ → HubCall
  broadcasts : (ℕ → Bool) → Message → HubCall

unfoldable pub hub_step : List ℕ → HubCall → List ℕ
unfolding register unregister broadcast
hub_step clients (connects c) = register c clients
hub_step clients (disconnects c) = unregister c clients
hub_step clients (broadcasts writes m) = (broadcast writes m clients).clients
