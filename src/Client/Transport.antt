-- ===== src/Client/Transport.antt =====
-- client.go: where the client's requests go, and the headers that they carry (newRequest, dialWS,
-- traceOnBox).
use relay_scheduler.Base.{
  ℕ, ◌+◌, String, ◌≡◌, refl, sym, subst, ◌≢◌, inl, inr, Bool, true, false, not, ◌&&◌, ◌||◌, none,
  List, [], ◌∷◌, ◌++◌, map, arith, leb, nat_eq, is_empty, if◌then◌else◌, Bool-cases, lookup, Option,
  some,
}
use relay_scheduler.Text.{Text, codes, text_eq, text_eq_sound}
use relay_scheduler.Launch.{FrontendClient, authorization}

-- The host of a URL, as net/url and net.ParseIP read it; an IPv6 address that embeds an IPv4 address
-- is that.
pub data Host : Type 0 where
  unparsable : Host
  named : Text → Host
  ipv4 : ℕ → ℕ → ℕ → ℕ → Host
  ipv6 : List ℕ → Host

-- Unicode's simple case folding, on the characters that fold to a letter of ASCII.
unfoldable pub fold : ℕ → ℕ
fold c =
    if leb b'A' c && leb c b'Z'
    then c + 32
    else if nat_eq c 0x17F
    then b's'
    else if nat_eq c 0x212A
    then b'k'
    else c

-- strings.EqualFold(s, "localhost").
abbrev pub is_localhost : Text → Bool
is_localhost s = text_eq (map fold s) (codes "localhost")

abbrev pub loopback_v6 : List ℕ
loopback_v6 = 0 ∷ 0 ∷ 0 ∷ 0 ∷ 0 ∷ 0 ∷ 0 ∷ 1 ∷ []

unfoldable pub is_local : Host → Bool
unfolding fold
is_local unparsable = false
is_local (named s) = is_localhost s
is_local (ipv4 a b c d) = nat_eq a 127
is_local (ipv6 groups) = text_eq groups loopback_v6

-- How the URL of the client is read.
abbrev pub Reading : Type 0
Reading = String → Host

unfoldable pub trace_on_box : Reading → FrontendClient → Bool
unfolding is_local
trace_on_box read c = not (is_empty c.relay_socket) || is_local (read c.relay_url)

abbrev pub Headers : Type 0
Headers = List (String × String)

abbrev pub bearer_header : FrontendClient → Headers
bearer_header c = elim (authorization c) [ none ↦ [] | some value ↦ ("Authorization", value) ∷ [] ]

abbrev pub trace_header : Reading → FrontendClient → String → Headers
trace_header read c trace =
    if not (is_empty trace) && trace_on_box read c then ("X-Trace-Id", trace) ∷ [] else []

-- newRequest.
unfoldable pub request_headers : Reading → FrontendClient → String → Headers
unfolding trace_on_box
request_headers read c trace =
    ("Content-Type", "application/json") ∷ (bearer_header c ++ trace_header read c trace)

-- dialWS.
unfoldable pub ws_headers : Reading → FrontendClient → String → Headers
unfolding trace_on_box
ws_headers read c trace = bearer_header c ++ trace_header read c trace

-- The other end of the connections of the client: its Unix socket, or the host of its URL.
pub data Peer : Type 0 where
  unix_socket : String → Peer
  over_tcp : Host → Peer

unfoldable pub peer : Reading → FrontendClient → Peer
peer read c =
    if is_empty c.relay_socket then over_tcp (read c.relay_url) else unix_socket c.relay_socket

-- Peers on this machine.
pub data OnBox : Peer → Type 0 where
  by_socket : (s : String) → OnBox (unix_socket s)
  by_name : (s : Text) → map fold s ≡ codes "localhost" → OnBox (over_tcp (named s))
  by_v4 : (b c d : ℕ) → OnBox (over_tcp (ipv4 127 b c d))
  by_v6 : OnBox (over_tcp (ipv6 loopback_v6))

is_local-OnBox : (h : Host) → is_local h ≡ true → OnBox (over_tcp h)
unfolding is_local
is_local-OnBox (named s) e = by_name s (text_eq_sound (map fold s) (codes "localhost") e)
is_local-OnBox (ipv4 a b c d) e =
    let same : a ≡ 127 = ground arith in
    subst (λ (x : ℕ). OnBox (over_tcp (ipv4 x b c d))) (sym same) (by_v4 b c d)
is_local-OnBox (ipv6 groups) e =
    subst (λ (x : List ℕ). OnBox (over_tcp (ipv6 x))) (sym (text_eq_sound groups loopback_v6 e))
      by_v6
is_local-OnBox unparsable e = cc

trace_on_box-OnBox :
    (read : Reading) (c : FrontendClient) → trace_on_box read c ≡ true → OnBox (peer read c)
unfolding trace_on_box peer
trace_on_box-OnBox read c h = elim (Bool-cases (is_empty c.relay_socket)) [
  | inl e ↦ rw e (is_local-OnBox (read c.relay_url) (rw e at h))
  | inr e ↦ rw e (by_socket c.relay_socket)
]

no_trace : (c : FrontendClient) → lookup "X-Trace-Id" (bearer_header c ++ []) ≡ none
unfolding lookup
no_trace c = by_value (authorization c)
  where
    by_value :
        (o : Option String)
        → lookup "X-Trace-Id"
            ((elim o [ none ↦ [] | some value ↦ ("Authorization", value) ∷ [] ]) ++ [])
          ≡ none
    by_value none = refl
    by_value (some value) = refl

ws-OnBox :
    (read : Reading) (c : FrontendClient) (trace : String)
    → lookup "X-Trace-Id" (ws_headers read c trace) ≢ none
    → OnBox (peer read c)
unfolding ws_headers
ws-OnBox read c trace h = by_test (not (is_empty trace) && trace_on_box read c) refl h
  where
    second_true : (a b : Bool) → (a && b) ≡ true → b ≡ true
    second_true true b e = e
    second_true false b e = cc

    by_test :
        (b : Bool)
        → not (is_empty trace) && trace_on_box read c ≡ b
        → lookup "X-Trace-Id" (bearer_header c ++ (if b then ("X-Trace-Id", trace) ∷ [] else []))
          ≢ none
        → OnBox (peer read c)
    by_test true e h = trace_on_box-OnBox read c (second_true _ _ e)
    by_test false e h = absurd (h (no_trace c))

-- Trace ids stay on this machine: a request or a WebSocket handshake that carries one goes to a Unix
-- socket, to localhost, or to a loopback address.
pub trace_stays-OnBox :
    (read : Reading) (c : FrontendClient) (trace : String)
    → (lookup "X-Trace-Id" (request_headers read c trace) ≢ none → OnBox (peer read c))
      × (lookup "X-Trace-Id" (ws_headers read c trace) ≢ none → OnBox (peer read c))
unfolding request_headers ws_headers lookup
trace_stays-OnBox read c trace = (ws-OnBox read c trace, ws-OnBox read c trace)
