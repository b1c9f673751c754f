-- ===== src/Launch.antt =====
-- auth.go, launch.go and newFrontendClient of main.go: who may call the API, and as whom the program
-- calls relay.
pub mod Identity
pub mod Register
pub mod Start
pub mod Serving
use relay_scheduler.Base.{
  ℕ, zero, suc, ◌+◌, ◌-◌, ◌*◌, ◌/◌, ◌%◌, ◌^◌, ◌≤◌, ◌<◌, String, ◌≡◌, refl, sym, ap, subst, ◌∙◌, ◌≢◌,
  ◌↔◌, ◌⊎◌, inl, inr, Bool, true, false, not, ◌&&◌, ◌||◌, Option, none, some, List, [], ◌∷◌, ◌++◌,
  map, arith, eq_iff, eq_refl, ltb, leb, nat_eq, ◌==◌, is_empty, if◌then◌else◌, Bool-cases,
  Option-cases, Result-cases, ltb→lt, lt→ltb, leb→le, ltb-false→le, length, take, drop, select,
  length-append, All, Result, ok, err, ◌>>=◌, ◌>>◌, refuse, map_err, lookup, remove, insert,
  lookup-remove, lookup-insert, contains, discard, adjoin, contains-discard, contains-adjoin,
}
use relay_scheduler.Base.Int.{
  ℤ, pos, negsuc, pos_part, neg_part, ltb_ℤ, leb_ℤ, eqb_ℤ, signed64, mul64, offset_by, mul64_fits,
  mul64_range,
}
use Prim.Native.String.{◌++◌ as ◌⧺◌}
use relay_scheduler.Text.{Text, codes, text_eq, has_prefix, trim_space, atoi}

abbrev pub bearer_prefix : Text
bearer_prefix = codes "Bearer "

-- bearerAuth: whether a request with this Authorization header (empty when it has none) gets through
-- to the handlers, or is answered with 401.
unfoldable pub is_authorized : Text → Text → Bool
is_authorized token header =
    has_prefix header bearer_prefix
    && text_eq (trim_space (drop (length bearer_prefix) header)) token

abbrev pub launch_secret_len : ℕ
launch_secret_len = 64

abbrev pub is_hex : ℕ → Bool
is_hex c = (leb b'0' c && leb c b'9') || (leb b'a' c && leb c b'f')

unfoldable pub all_hex : List ℕ → Bool
all_hex [] = true
all_hex (c ∷ cs) = is_hex c && all_hex cs

unfoldable pub is_launch_secret : List ℕ → Bool
unfolding all_hex
is_launch_secret b = nat_eq (length b) launch_secret_len && all_hex b

-- The bytes in the pipe, or an error of reading or of closing it.
pub data LaunchPipe : Type 0 where
  not_open read_error close_error : LaunchPipe
  pipe : List ℕ → LaunchPipe

pub data LaunchError : Type 0 where
  bad_fd fd_not_open read_failed close_failed bad_secret missing_env : LaunchError
  dial_failed write_failed no_answer bad_answer : LaunchError
  refused_by_relay unexpected_type other_service bad_pid : LaunchError

-- A LimitReader of one byte more than a secret.
unfoldable pub read_launch_secret : LaunchPipe → Result LaunchError (List ℕ)
unfolding is_launch_secret
read_launch_secret not_open = err fd_not_open
read_launch_secret read_error = err read_failed
read_launch_secret close_error = err close_failed
read_launch_secret (pipe bytes) =
    let buf = take (launch_secret_len + 1) bytes in
    if is_launch_secret buf then ok buf else err bad_secret

-- Relay's answer to Hello.
pub record HelloResponse : Type 0 where
  pub kind : String
  pub service_id : String
  pub relay_pid : ℤ

-- What the exchange on the bridge socket gives.
abbrev pub Hello : Type 0
Hello = Result LaunchError HelloResponse

unfoldable pub check_hello : String → HelloResponse → Result LaunchError ℤ
check_hello name resp =
    if resp.kind == "Error"
    then err refused_by_relay
    else if not (resp.kind == "OK")
    then err unexpected_type
    else if not (resp.service_id == name)
    then err other_service
    else if leb_ℤ resp.relay_pid (pos 0)
    then err bad_pid
    else ok resp.relay_pid

pub record LaunchIdentity : Type 0 where
  pub service_id : String
  pub bridge_socket : String
  pub relay_pid : ℤ

-- RELAY_LAUNCH_FD where it is set, the pipe, and the two variables that name the service. What relay
-- answers depends on the name and the secret that it gets.
pub record Launched : Type 0 where
  pub raw_fd : Option Text
  pub launch_pipe : LaunchPipe
  pub bridge_socket : String
  pub service_id : String
  pub hello : String → List ℕ → Hello

abbrev pub is_launch_fd : Option ℤ → Bool
is_launch_fd none = false
is_launch_fd (some n) = eqb_ℤ n (pos 3)

unfoldable pub identify : Launched → Text → Result LaunchError LaunchIdentity
unfolding read_launch_secret check_hello
identify l raw_fd = do
  refuse (not (is_launch_fd (atoi raw_fd))) bad_fd
  secret ← read_launch_secret l.launch_pipe
  refuse (is_empty l.bridge_socket || is_empty l.service_id) missing_env
  resp ← l.hello l.service_id secret
  relay_pid ← check_hello l.service_id resp
  ok (record { service_id = l.service_id; bridge_socket = l.bridge_socket; relay_pid = relay_pid })

-- bootstrapLaunchIdentity; without RELAY_LAUNCH_FD the program stands alone.
unfoldable pub bootstrap : Launched → Result LaunchError (Option LaunchIdentity)
bootstrap l = elim l.raw_fd [
  | none ↦ ok none
  | some raw_fd ↦ do identity ← identify l raw_fd; ok (some identity)
]

-- The client's way to relay: an address, a socket that replaces it, and a bearer token.
pub record FrontendClient : Type 0 where
  pub relay_url : String
  pub relay_socket : String
  pub relay_token : String

-- NewRelayClient: under a socket the address is a synthetic host.
unfoldable pub new_relay_client : String → String → String → FrontendClient
new_relay_client url socket token = record {
  relay_url = if is_empty socket then url else "http://relay-frontend.localsocket";
  relay_socket = socket;
  relay_token = token;
}

-- The Authorization header that newRequest sets.
unfoldable pub authorization : FrontendClient → Option String
authorization c = if is_empty c.relay_token then none else some ("Bearer " ⧺ c.relay_token)

-- newFrontendClient; %q escapes nothing in the service's id.
unfoldable pub new_frontend_client :
    Option LaunchIdentity → String → String → String → Result String FrontendClient
unfolding new_relay_client
new_frontend_client none url socket token = ok (new_relay_client url socket token)
new_frontend_client (some identity) url socket token =
    if is_empty socket
    then err (
        "launched by relay without RELAY_FRONTEND_SOCKET: service \"" ⧺ identity.service_id
        ⧺ "\" is not registered with the frontend capability")
    else ok (new_relay_client url socket "")
