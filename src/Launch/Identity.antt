-- ===== src/Launch/Identity.antt =====
-- What a launch identity stands for, and what the program then presents to relay.
use relay_scheduler.Base.{
  take-length, length-take, ℕ, ◌+◌, String, ◌≡◌, refl, sym, ap, subst, ◌∙◌, ◌≢◌, inl, inr, true,
  false, not, ◌||◌, Option, none, some, List, [], ◌∷◌, ◌++◌, arith, eq_iff, is_empty, Bool-cases,
  Result-cases, length, take, drop, ok, refuse, >>=-eq_ok,
}
use relay_scheduler.Base.Int.{ℤ, pos, negsuc}
use relay_scheduler.Text.{Text, text_eq, has_prefix, trim_space, atoi}
use relay_scheduler.Launch.{
  is_launch_fd, is_authorized, bearer_prefix, Launched, LaunchIdentity, LaunchPipe, pipe,
  is_launch_secret, read_launch_secret, check_hello, identify, bootstrap, FrontendClient,
  new_frontend_client, new_relay_client, authorization, not_open, read_error, close_error,
  launch_secret_len, HelloResponse, bad_fd, missing_env, all_hex,
}

text_eq-eq : (s t : Text) → text_eq s t ≡ true → s ≡ t
unfolding text_eq
text_eq-eq [] [] h = refl
text_eq-eq (a ∷ s) (b ∷ t) h = ground (arith, text_eq-eq s t)
text_eq-eq [] (b ∷ t) h = cc
text_eq-eq (a ∷ s) [] h = cc

has_prefix-split : (s p : Text) → has_prefix s p ≡ true → s ≡ p ++ drop (length p) s
unfolding has_prefix
has_prefix-split s [] h = refl
has_prefix-split [] (p ∷ ps) h = cc
has_prefix-split (c ∷ s) (p ∷ ps) h = ground (arith, has_prefix-split s ps)

-- A request that gets through carries `Bearer ` and then the token, up to space around it.
pub authorized_carries_token :
    (token header : Text)
    → is_authorized token header ≡ true
    → (rest : Text) × (header ≡ bearer_prefix ++ rest) × (trim_space rest ≡ token)
unfolding is_authorized
authorized_carries_token token header h = elim (Bool-cases (has_prefix header bearer_prefix)) [
  | inl p ↦ (
    drop (length bearer_prefix) header,
    has_prefix-split header bearer_prefix p,
    text_eq-eq _ token (rw (p, is_authorized) at h),
  )
  | inr n ↦ let k = rw (n, is_authorized) at h in cc
]

secret_parts :
    (b : List ℕ) → is_launch_secret b ≡ true → (length b ≡ launch_secret_len) × (all_hex b ≡ true)
unfolding is_launch_secret
secret_parts b h = ground arith

whole_secret :
    (p : LaunchPipe) (secret : List ℕ)
    → read_launch_secret p ≡ ok secret
    → (p ≡ pipe secret) × (length secret ≡ launch_secret_len) × (all_hex secret ≡ true)
unfolding read_launch_secret
whole_secret (pipe bytes) secret e =
    let buf = take (launch_secret_len + 1) bytes in
    elim (Bool-cases (is_launch_secret buf)) [
      | inl h ↦
          let same : buf ≡ secret = (let k = rw (h, read_launch_secret) at e in cc) in
          let (a, b) = secret_parts buf h in
          let whole : buf ≡ bytes =
            take-length (launch_secret_len + 1) bytes
              (omega (arith, length-take (launch_secret_len + 1) bytes, a)) in
          (
            ap pipe (sym whole ∙ same),
            subst (λ (x : List ℕ). length x ≡ launch_secret_len) same a,
            subst (λ (x : List ℕ). all_hex x ≡ true) same b,
          )
      | inr h ↦ let k = rw (h, read_launch_secret) at e in cc
    ]
whole_secret not_open secret e = cc
whole_secret read_error secret e = cc
whole_secret close_error secret e = cc

-- What stands behind an identity: descriptor 3, all of a pipe that holds a launch secret, and
-- relay's answer to Hello that it knows this service.
pub record IsConfirmed (l : Launched) (i : LaunchIdentity) : Type 0 where
  pub raw_fd : Text
  pub fd : l.raw_fd ≡ some raw_fd
  pub fd_number : atoi raw_fd ≡ some (pos 3)
  pub secret : List ℕ
  pub held : l.launch_pipe ≡ pipe secret
  pub secret_length : length secret ≡ launch_secret_len
  pub secret_digits : all_hex secret ≡ true
  pub response : HelloResponse
  pub answered : l.hello l.service_id secret ≡ ok response
  pub accepted : response.kind ≡ "OK"
  pub recognised : response.service_id ≡ i.service_id

-- Launched by relay, the program never stands alone: it has an error or an identity.
pub bootstrap_launched :
    (l : Launched) (raw_fd : Text) → l.raw_fd ≡ some raw_fd → bootstrap l ≢ ok none
unfolding bootstrap
bootstrap_launched l raw_fd h e = elim (Result-cases (identify l raw_fd)) [
  | inl (i, p) ↦ let k = rw (h, p, bootstrap) at e in cc
  | inr (x, p) ↦ let k = rw (h, p, bootstrap) at e in cc
]

-- Launched by relay, the client goes through the socket and sends no Authorization header.
pub launched_client_sends_no_bearer :
    (i : LaunchIdentity) (url socket token : String) (c : FrontendClient)
    → new_frontend_client (some i) url socket token ≡ ok c
    → (c.relay_socket ≡ socket) × (is_empty c.relay_socket ≡ false) × (authorization c ≡ none)
unfolding new_frontend_client new_relay_client authorization
launched_client_sends_no_bearer i url socket token c e = elim (Bool-cases (is_empty socket)) [
  | inl h ↦ let k = rw (h, new_frontend_client) at e in cc
  | inr h ↦
      let same : new_relay_client url socket "" ≡ c =
        (let k = rw (h, new_frontend_client) at e in cc) in
      subst
        (λ (x : FrontendClient).
          (x.relay_socket ≡ socket) × (is_empty x.relay_socket ≡ false) × (authorization x ≡ none))
        same (refl, h, refl)
]

fd_is_three :
    (o : Option ℤ) (u : Unit {0}) → refuse (not (is_launch_fd o)) bad_fd ≡ ok u → o ≡ some (pos 3)
fd_is_three none u e = cc
fd_is_three (some (pos n)) u e = ground arith
fd_is_three (some (negsuc n)) u e = ground arith

hello_checked :
    (name kind service : String) (pid n : ℤ)
    → check_hello name (record { kind = kind; service_id = service; relay_pid = pid }) ≡ ok n
    → (kind ≡ "OK") × (service ≡ name)
unfolding check_hello
hello_checked name kind service pid n e = ground (arith, eq_iff kind "OK", eq_iff service name)

-- An identity that the program takes on stands on descriptor 3, a pipe that holds exactly a launch
-- secret, and relay's answer that it knows this service.
pub identify-IsConfirmed :
    (l : Launched) (raw_fd : Text) (i : LaunchIdentity)
    → l.raw_fd ≡ some raw_fd
    → identify l raw_fd ≡ ok i
    → IsConfirmed l i
unfolding identify
identify-IsConfirmed l raw_fd i h e =
    let (_, p1, e1) = >>=-eq_ok (refuse (not (is_launch_fd (atoi raw_fd))) bad_fd) _ e in
    let (secret, p2, e2) = >>=-eq_ok (read_launch_secret l.launch_pipe) _ e1 in
    let (_, p3, e3) =
      >>=-eq_ok (refuse (is_empty l.bridge_socket || is_empty l.service_id) missing_env) _ e2 in
    let (resp, p4, e4) = >>=-eq_ok (l.hello l.service_id secret) _ e3 in
    let (pid, p5, e5) = >>=-eq_ok (check_hello l.service_id resp) _ e4 in
    let (held, size, digits) = whole_secret l.launch_pipe secret p2 in
    let (kind, service) =
      hello_checked l.service_id resp.kind resp.service_id resp.relay_pid pid p5 in
    let identity : LaunchIdentity = record {
      service_id = l.service_id;
      bridge_socket = l.bridge_socket;
      relay_pid = pid;
    } in
    let same : identity ≡ i = cc in
    subst (IsConfirmed l) same (record {
      raw_fd = raw_fd;
      fd = h;
      fd_number = fd_is_three (atoi raw_fd) _ p1;
      secret = secret;
      held = held;
      secret_length = size;
      secret_digits = digits;
      response = resp;
      answered = p4;
      accepted = kind;
      recognised = service;
    })
