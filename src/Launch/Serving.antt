-- ===== src/Launch/Serving.antt =====
-- What a process that serves has told relay.
use relay_scheduler.Base.{
  String, ◌≡◌, refl, sym, ap, subst, inl, inr, true, false, ◌&&◌, Option, none, some, List, [], ◌∷◌,
  is_empty, if◌then◌else◌, Bool-cases, Result-cases, Result, ok, err,
}
use relay_scheduler.Base.{
  String, ◌≡◌, refl, sym, ap, subst, inl, inr, true, false, ◌&&◌, Option, none, some, List, [], ◌∷◌,
  is_empty, if◌then◌else◌, Bool-cases, Result-cases, Result, ok, err,
}
use relay_scheduler.Text.{Text}
use relay_scheduler.Launch.{Launched, LaunchIdentity}
use relay_scheduler.Launch.Identity.{IsConfirmed}
use relay_scheduler.Launch.Register.{BridgeRequest}
use relay_scheduler.Launch.Start.{
  Surroundings, Act, load_all, start_ticks, listen, send, serve, internal_token, under, data_dir,
}

-- A setting: its flag, if that is given and not empty; without the flag its environment variable, if
-- that is not empty; and else a fallback.
pub data Chosen (flag : Option String) (env fallback value : String) : Type 0 where
  by_flag : flag ≡ some value → is_empty value ≡ false → Chosen flag env fallback value
  by_env : flag ≡ none → value ≡ env → is_empty env ≡ false → Chosen flag env fallback value
  by_empty_flag : flag ≡ some "" → value ≡ fallback → Chosen flag env fallback value
  by_default : flag ≡ none → env ≡ "" → value ≡ fallback → Chosen flag env fallback value

-- The request registers the routes of the task API, with a socket and a token, for a service.
pub record Registers (q : BridgeRequest) (id own_socket own_token : String) : Type 0 where
  pub kind : q.kind ≡ "RegisterManifest"
  pub service : q.arguments.service_id ≡ id
  pub routes : q.arguments.routes ≡ "/api/tasks" ∷ "/api/tasks/" ∷ "/ws/tasks" ∷ []
  pub socket : q.arguments.internal_socket ≡ own_socket
  pub token : q.arguments.internal_token ≡ own_token

-- All that a process that serves does, by whether relay launched it.
abbrev pub Serves : Launched → List Act → String → String → Option Text → Type 0
Serves l acts socket token none = acts ≡ load_all ∷ start_ticks ∷ listen socket ∷ serve token ∷ []
Serves l acts socket token (some raw_fd) =
    (i : LaunchIdentity) × (q : BridgeRequest) × IsConfirmed l i
    × Registers q i.service_id socket token
    × (acts ≡ load_all ∷ start_ticks ∷ listen socket ∷ send i.bridge_socket q ∷ serve token ∷ [])

-- The socket and the token of a process that serves.
pub record IsServing (l : Launched) (s : Surroundings) (acts : List Act) : Type 0 where
  pub socket : String
  pub token : String
  pub has_token : is_empty token ≡ false
  pub socket_chosen :
      Chosen s.flags.socket
        (s.env "RELAY_SCHEDULER_SOCKET")
        (under (data_dir s) "relayscheduler.sock")
        socket
  pub token_chosen : Chosen s.flags.token (s.env "RELAY_SCHEDULER_TOKEN") s.random_token token
  pub serves : Serves l acts socket token l.raw_fd
