-- ===== src/Launch/Start.antt =====
-- Process start: main.go, from the launch identity to the listener.
use relay_scheduler.Base.{
  String, Bool, true, false, ◌&&◌, Option, none, some, List, [], ◌∷◌, ◌++◌, is_empty, if◌then◌else◌,
  Result, ok, err,
}
use Prim.Native.String.{◌++◌ as ◌⧺◌}
use relay_scheduler.Launch.{
  Launched, LaunchIdentity, FrontendClient, bootstrap, new_frontend_client,
}
use relay_scheduler.Launch.Register.{BridgeRequest, Exchange, maybe_register_manifest}

-- The values of the flags that were given.
pub record Flags : Type 0 where
  pub relay_url : Option String
  pub relay_socket : Option String
  pub relay_token : Option String
  pub data_dir : Option String
  pub socket : Option String
  pub token : Option String

-- The program's surroundings: its environment (a missing variable is empty), the user's configuration
-- directory, which of its system calls succeed, the random token, and relay's side of the bridge.
pub record Surroundings : Type 0 where
  pub flags : Flags
  pub env : String → String
  pub config_dir : String
  pub makes_data_dir : Bool
  pub makes_socket_dir : Bool
  pub listens : Bool
  pub random_token : String
  pub relay : String → BridgeRequest → Exchange

abbrev pub env_or_default : Surroundings → String → String → String
env_or_default s key fallback = if is_empty (s.env key) then fallback else s.env key

abbrev pub flag_or : Option String → String → String
flag_or none fallback = fallback
flag_or (some v) fallback = v

-- filepath.Join, of clean paths.
abbrev pub under : String → String → String
under dir name = dir ⧺ "/" ⧺ name

abbrev pub data_dir : Surroundings → String
data_dir s =
    let given = flag_or s.flags.data_dir (env_or_default s "RELAY_SCHEDULER_DATA" "") in
    if is_empty given then under s.config_dir "relayScheduler" else given

abbrev pub socket_path : Surroundings → String
socket_path s =
    let given = flag_or s.flags.socket (env_or_default s "RELAY_SCHEDULER_SOCKET" "") in
    if is_empty given then under (data_dir s) "relayscheduler.sock" else given

abbrev pub internal_token : Surroundings → String
internal_token s =
    let given = flag_or s.flags.token (env_or_default s "RELAY_SCHEDULER_TOKEN" "") in
    if is_empty given then s.random_token else given

abbrev pub frontend : Surroundings → Option LaunchIdentity → Result String FrontendClient
frontend s identity =
    new_frontend_client identity
      (flag_or s.flags.relay_url (env_or_default s "RELAY_FRONTEND_URL" "http://localhost:3000"))
      (flag_or s.flags.relay_socket (env_or_default s "RELAY_FRONTEND_SOCKET" ""))
      (flag_or s.flags.relay_token (env_or_default s "RELAY_FRONTEND_TOKEN" ""))

-- What the program does: it loads the tasks, starts the ticks, listens on a socket, sends a request
-- on a bridge socket, and serves requests that carry a token.
pub data Act : Type 0 where
  load_all start_ticks : Act
  listen : String → Act
  send : String → BridgeRequest → Act
  serve : String → Act

abbrev pub sends : List (String × BridgeRequest) → List Act
sends [] = []
sends ((socket, q) ∷ rest) = send socket q ∷ sends rest

abbrev pub listening : Surroundings → Option LaunchIdentity → List Act
listening s identity =
    let requests =
      (maybe_register_manifest identity (socket_path s) (internal_token s) s.relay).0 in
    listen (socket_path s) ∷ (sends requests ++ serve (internal_token s) ∷ [])

abbrev pub with_client :
    Surroundings → Option LaunchIdentity → Result String FrontendClient → List Act × Bool
with_client s identity (err e) = ([], false)
with_client s identity (ok client) =
    if s.makes_socket_dir && s.listens
    then (load_all ∷ start_ticks ∷ listening s identity, true)
    else (load_all ∷ start_ticks ∷ [], false)

-- main, up to its signal: what it does, and whether it serves or exits with status 1.
unfoldable pub start : Launched → Surroundings → List Act × Bool
start l s = elim (bootstrap l) [
  | err e ↦ ([], false)
  | ok identity ↦
      if s.makes_data_dir then with_client s identity (frontend s identity) else ([], false)
]
