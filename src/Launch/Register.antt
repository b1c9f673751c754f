-- ===== src/Launch/Register.antt =====
-- Registration with relay: bridge.go and manifest.go.
use relay_scheduler.Base.{
  String, Option, none, some, List, [], ◌∷◌, ◌==◌, if◌then◌else◌, Result, ok, err,
}
use relay_scheduler.Base.Int.{ℤ}
use relay_scheduler.Launch.{LaunchIdentity}

abbrev pub manifest_routes : List String
manifest_routes = "/api/tasks" ∷ "/api/tasks/" ∷ "/ws/tasks" ∷ []

-- The arguments of RegisterManifest.
pub record Registration : Type 0 where
  pub service_id : String
  pub routes : List String
  pub internal_socket : String
  pub internal_token : String

-- A request on the bridge socket has no token field.
pub record BridgeRequest : Type 0 where
  pub kind : String
  pub arguments : Registration

-- What becomes of a request: errors of the connection, or relay's reply.
pub data Exchange : Type 0 where
  dial_failed write_failed read_failed closed unparsable : Exchange
  reply : String → ℤ → String → Exchange

pub data BridgeError : Type 0 where
  connection : Exchange → BridgeError
  refused : ℤ → String → BridgeError

unfoldable pub send_bridge_request : Exchange → Result BridgeError (Unit {0})
send_bridge_request (reply kind code message) =
    if kind == "Error" then err (refused code message) else ok tt
send_bridge_request failed = err (connection failed)

abbrev pub registration_of : LaunchIdentity → String → String → BridgeRequest
registration_of i socket token = record {
  kind = "RegisterManifest";
  arguments = record {
    service_id = i.service_id;
    routes = manifest_routes;
    internal_socket = socket;
    internal_token = token;
  };
}

pub data Registered : Type 0 where
  standalone registered : Registered
  register_failed : BridgeError → Registered

abbrev pub told : Result BridgeError (Unit {0}) → Registered
told (ok u) = registered
told (err e) = register_failed e

-- maybeRegisterManifest: the requests sent, each with its socket, and what it logs; relay's side is
-- an argument.
unfoldable pub maybe_register_manifest :
    Option LaunchIdentity
    → String
    → String
    → (String → BridgeRequest → Exchange)
    → List (String × BridgeRequest) × Registered
unfolding send_bridge_request
maybe_register_manifest none socket token relay = ([], standalone)
maybe_register_manifest (some i) socket token relay =
    let q = registration_of i socket token in
    ((i.bridge_socket, q) ∷ [], told (send_bridge_request (relay i.bridge_socket q)))
