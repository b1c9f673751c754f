-- ===== src/Examples/Starting.antt =====
-- Callers, launch and updates: the properties of auth.go, launch.go and of PUT at concrete inputs.
use relay_scheduler.Base.{ℕ, ◌≡◌, refl, false, none, some, List, [], ◌∷◌, ◌++◌, is_empty, ok}
use relay_scheduler.Base.Int.{pos}
use relay_scheduler.Text.{Text, codes, text_eq, has_prefix, trim_space, atoi}
use relay_scheduler.Task.{Task}
use relay_scheduler.Schedule.{schedule_type}
use relay_scheduler.Schedule.Json.{object, text, get_text}
use relay_scheduler.Store.{holds, missing, no_fault, find_task, merge, read_locked}
use relay_scheduler.Store.Refinement.{IsSound}
use relay_scheduler.Scheduler.State.{World}
use relay_scheduler.Scheduler.Plan.{reschedule_or_disable}
use relay_scheduler.Launch.{
  Launched, LaunchIdentity, FrontendClient, pipe, is_authorized, bearer_prefix, identify,
  new_frontend_client, new_relay_client, authorization, read_launch_secret, is_launch_secret,
  all_hex, check_hello,
}
use relay_scheduler.Launch.Register.{reply}
use relay_scheduler.Launch.Start.{Flags, Surroundings}
use relay_scheduler.Base.{true, if◌then◌else◌, ◌==◌}
use relay_scheduler.Launch.Identity.{
  IsConfirmed, authorized_carries_token, launched_client_sends_no_bearer, identify-IsConfirmed,
}
use relay_scheduler.Api.Routes.{one_task, put_task}
use relay_scheduler.Api.Ended.{IsForgotten, left_running, replaced, once_end_forgets}
use relay_scheduler.Scheduler.Plan.{interrupted_end}
use relay_scheduler.Scheduler.State.{with_disk}
use relay_scheduler.Store.{set_enabled}
use relay_scheduler.Api.Updated.{IsPlaced, IsFinished, put_task_places, once_task_ends}
use relay_scheduler.Examples.{noon, digest, world}
use relay_scheduler.Examples.Serving.{world-IsSound, digest_valid, digest_recurs}

put_task_places_example :
    ((put_task world noon "a1" (λ w. w) (ok digest)).1
      ≡ (200, one_task (merge noon "a1" digest digest)))
    × IsPlaced (put_task world noon "a1" (λ w. w) (ok digest)).0 (merge noon "a1" digest digest)
unfolding read_locked find_task
put_task_places_example =
    put_task_places world noon "a1" (λ w. w) digest digest world-IsSound refl digest_valid
      digest_recurs

abbrev reminder : Task
reminder = record digest {
  schedule = object (("type", text "once") ∷ ("at", text "2025-10-10T12:00:00Z") ∷ []);
}

abbrev reminder_world : World
reminder_world = record world {
  disk = record { tasks_file = holds (reminder ∷ []); tmp_file = missing; fault = no_fault };
}

reminder-IsSound : IsSound reminder_world.disk
unfolding read_locked find_task
reminder-IsSound = record {
  tasks = reminder ∷ [];
  readable = refl;
  distinct = (refl, tt);
  writable = refl;
}

once_task_ends_example :
    IsFinished reminder_world "a1" reminder (reschedule_or_disable reminder_world reminder)
unfolding read_locked find_task schedule_type get_text
once_task_ends_example =
    once_task_ends reminder_world reminder reminder reminder-IsSound refl refl refl

once_end_forgets_example :
    let disabled =
      with_disk reminder_world (set_enabled reminder_world.disk reminder_world.now "a1" false) in
    let v = interrupted_end (λ u. u) (replaced noon "a1" digest) reminder_world reminder in
    ((put_task disabled noon "a1" (λ u. u) (ok digest)).1.0 ≡ 200)
    × IsForgotten (left_running v "a1") "a1"
unfolding read_locked find_task schedule_type get_text
once_end_forgets_example =
    once_end_forgets reminder_world noon reminder reminder digest reminder-IsSound refl refl refl
      digest_valid refl digest_recurs

authorized_carries_token_example :
    (rest : Text) × (codes "Bearer  k1" ≡ bearer_prefix ++ rest) × (trim_space rest ≡ codes "k1")
unfolding is_authorized has_prefix trim_space text_eq
authorized_carries_token_example = authorized_carries_token (codes "k1") (codes "Bearer  k1") refl

abbrev quarter : List ℕ
quarter = codes "0123456789abcdef"

abbrev launched : Launched
launched = record {
  raw_fd = some (codes "3");
  launch_pipe = pipe (quarter ++ quarter ++ quarter ++ quarter);
  bridge_socket = "/run/relay.sock";
  service_id = "scheduler";
  hello = λ name secret. ok (record { kind = "OK"; service_id = name; relay_pid = pos 7 });
}

abbrev identity : LaunchIdentity
identity = record { service_id = "scheduler"; bridge_socket = "/run/relay.sock"; relay_pid = pos 7 }

identify-IsConfirmed_example : IsConfirmed launched identity
unfolding identify atoi read_launch_secret is_launch_secret all_hex check_hello
identify-IsConfirmed_example = identify-IsConfirmed launched (codes "3") identity refl refl

abbrev client : FrontendClient
client = record {
  relay_url = "http://relay-frontend.localsocket";
  relay_socket = "/run/front.sock";
  relay_token = "";
}

launched_client_sends_no_bearer_example :
    (client.relay_socket ≡ "/run/front.sock")
    × (is_empty client.relay_socket ≡ false)
    × (authorization client ≡ none)
unfolding new_frontend_client new_relay_client
launched_client_sends_no_bearer_example =
    launched_client_sends_no_bearer identity "http://localhost:8080" "/run/front.sock" "k1" client
      refl

abbrev no_flags : Flags
no_flags = record {
  relay_url = none;
  relay_socket = none;
  relay_token = none;
  data_dir = some "/data";
  socket = none;
  token = none;
}

abbrev surroundings : Surroundings
surroundings = record {
  flags = no_flags;
  env = λ key. if key == "RELAY_FRONTEND_SOCKET" then "/relay.sock" else "";
  config_dir = "/home/config";
  makes_data_dir = true;
  makes_socket_dir = true;
  listens = true;
  random_token = "7f";
  relay = λ socket q. reply "OK" (pos 0) "";
}
