-- ===== src/Client/Request.antt =====
-- client.go: the HTTP calls to relay. A reply is what http.Client.Do and the JSON decoder give.
use relay_scheduler.Base.{
  ℕ, String, Bool, true, List, [], ◌∷◌, nat_eq, is_empty, if◌then◌else◌, Result, ok, err, ◌>>=◌,
  ◌>>◌, refuse,
}
use relay_scheduler.Base.Int.{pos}
use Prim.Native.String.{◌++◌ as ◌⧺◌}
use relay_scheduler.Text.{decimal}

-- No request, no response, or a status with the body as text and as decoded.
pub data HttpReply (A : Type 0) : Type 0 where
  unbuilt unsent : String → HttpReply A
  answered : ℕ → String → Result String A → HttpReply A

pub record Project : Type 0 where
  pub id : String
  pub path : String

abbrev status_error : String → ℕ → String → String
status_error what status body = what ⧺ " failed (" ⧺ decimal (pos status) ⧺ "): " ⧺ body

-- The error paths that the calls share: the expected status, and the name of the call.
unfoldable pub read_reply : {A : Type 0} → String → ℕ → HttpReply A → Result String A
read_reply what wanted (unbuilt e) = err e
read_reply what wanted (unsent e) = err (what ⧺ ": " ⧺ e)
read_reply what wanted (answered status body decoded) =
    if nat_eq status wanted then decoded else err (status_error what status body)

unfoldable pub get_project : HttpReply Project → Result String Project
unfolding read_reply
get_project reply = read_reply "get project" 200 reply

-- The body of POST /api/sessions.
pub record SessionRequest : Type 0 where
  pub project_id : String
  pub directory : String
  pub model : String
  pub name : String
  pub settings : List (String × Bool)

unfoldable pub session_request : Project → String → String → Bool → SessionRequest
session_request project model name use_relay_tools = record {
  project_id = project.id;
  directory = project.path;
  model = model;
  name = name;
  settings = ("headless", true) ∷ (if use_relay_tools then ("useRelayTools", true) ∷ [] else []);
}

unfoldable pub create_session : HttpReply String → Result String String
unfolding read_reply
create_session reply = read_reply "create session" 201 reply

-- The body of POST /api/terminals.
pub record TerminalRequest : Type 0 where
  pub template_id : String
  pub name : String
  pub directory : String
  pub project_id : String
  pub cols : ℕ
  pub rows : ℕ
  pub extra_args : List String

unfoldable pub terminal_request : Project → String → String → List String → TerminalRequest
terminal_request project template_id name extra_args = record {
  template_id = template_id;
  name = name;
  directory = project.path;
  project_id = project.id;
  cols = 120;
  rows = 30;
  extra_args = extra_args;
}

unfoldable pub create_terminal : HttpReply String → Result String String
unfolding read_reply
create_terminal reply = do
  id ← read_reply "create terminal" 201 reply
  refuse (is_empty id) "create terminal: response has no terminalId"
  ok id

-- The bytes of the log.
unfoldable pub get_terminal_log : HttpReply (List ℕ) → Result String (List ℕ)
unfolding read_reply
get_terminal_log reply = read_reply "get terminal log" 200 reply
