-- ===== src/Examples/Verifying.antt =====
-- The verification tool: the properties of cmd/devboxverify.
use relay_scheduler.Base.{
  ℕ, ◌+◌, ◌≤◌, ◌≡◌, refl, ◌↔◌, Bool, true, false, none, some, List, [], ◌∷◌, arith, if◌then◌else◌,
  length, All, ok, lookup,
}
use relay_scheduler.Base.Int.{pos, eqb_ℤ}
use relay_scheduler.Clock.{Time}
use relay_scheduler.Text.{
  is_blank, is_digit, trim_space, Text, codes, text_eq, trim_space, contains_codes, atoi, is_digit,
  decimal,
}
use relay_scheduler.Verify.{pass, fail, Verdict, exit_code, status_state, count}
use relay_scheduler.Verify.Score.{Passed, exit_code_lem}
use relay_scheduler.Verify.Evidence.{find_app}
use relay_scheduler.Verify.Machine.{
  read_credential, project_name, MarkerFile, WorldMarker, found, object, string, numeral,
  read_marker, check_fields, find_grant,
}
use relay_scheduler.Verify.Machine.Marker.{IsTestMachine, read_marker-IsTestMachine}
use relay_scheduler.Verify.Journey.{
  Frontdoor, Request, create_task, run_task, get_history, get_task, delete_task, delete_terminal,
  Answer, Env, HistoryEntry, poll, step_refusal, classify_shell_run, has_line, lines_of, poll_every,
}
use relay_scheduler.Verify.Journey.Drive.{Visit, run_shell_routine, wait_for_history}
use relay_scheduler.Verify.Journey.Bounded.{IsClock, Ends, run_shell_routine-Ends}
use relay_scheduler.Verify.Journey.Passed.{Created, Ran, Gone, run_shell_routine_passes}
use relay_scheduler.Verify.Run.{Given, run, Service, check_build, build_matches, setting}
use relay_scheduler.Verify.Run.Locked.{well_locked, run-well_locked}
use relay_scheduler.Verify.Run.Outcome.{IsClean, run_zero-IsClean}
use relay_scheduler.Examples.{noon}

abbrev verdicts : List Verdict
verdicts = record { id = "a"; state = pass; detail = codes "exit 0" } ∷ []

exit_code_lem_example :
    ((exit_code verdicts ≡ 0) ↔ ((1 ≤ length verdicts) × All Passed verdicts))
    × ((status_state verdicts ≡ "success") ↔ ((1 ≤ length verdicts) × All Passed verdicts))
    × ((status_state verdicts ≡ "failure") ↔ (1 ≤ count fail verdicts))
exit_code_lem_example = exit_code_lem verdicts

abbrev plain : ℕ → Answer
plain status = record {
  status = status;
  error = [];
  created = none;
  entries = none;
  last_terminal = none;
}

abbrev entry : HistoryEntry
entry = record {
  status = codes "success";
  exit_code = some (pos 0);
  response = codes "$ sh\nrelayscheduler-verify-ab\n";
  error = [];
}

-- A relay that does what it should: each request takes a nanosecond, and it knows whether the
-- routine is deleted.
abbrev answer : Bool → Request → Bool × Answer
answer gone (create_task name project nonce) =
    (false, record (plain 201) { created = some (codes "7") })
answer gone (run_task id) = (gone, plain 200)
answer gone (get_history id) = (gone, record (plain 200) { entries = some (entry ∷ []) })
answer gone (get_task id) =
    (gone, if gone then plain 404 else record (plain 200) { last_terminal = some (codes "t") })
answer gone (delete_task id) = (true, plain 200)
answer gone (delete_terminal id) = (gone, plain 200)

abbrev advanced : Time → Bool × Answer → (Time × Bool) × Answer
advanced now (gone, a) = ((now + 1, gone), a)

abbrev relay : Frontdoor (Time × Bool)
relay = record {
  send = λ s q. advanced s.0 (answer s.1 q);
  sleep = λ s. (s.0 + poll_every, s.1);
  clock = λ s. s.0;
  cancelled = λ s. false;
}

abbrev acme : Env
acme = record { project_id = codes "p1"; project_name = codes "Acme"; nonce = codes "ab" }

abbrev start : Visit (Time × Bool)
start = record { world = (noon, false); exchanges = [] }

relay-IsClock : IsClock relay
relay-IsClock = record { send_later = λ s q. omega arith; sleep_later = λ s e. omega arith }

run_shell_routine-Ends_example : Ends (run_shell_routine relay start acme)
run_shell_routine-Ends_example = run_shell_routine-Ends relay relay-IsClock start acme

abbrev finish : Visit (Time × Bool)
finish = record {
  world = (noon + 7, true);
  exchanges =
      (get_task (codes "7"), plain 404)
      ∷ (delete_task (codes "7"), plain 200)
      ∷ (delete_terminal (codes "t"), plain 200)
      ∷ (get_task (codes "7"), record (plain 200) { last_terminal = some (codes "t") })
      ∷ (get_history (codes "7"), record (plain 200) { entries = some (entry ∷ []) })
      ∷ (run_task (codes "7"), plain 200)
      ∷ (
        create_task (codes "verify-ab-shell") (codes "p1") (codes "ab"),
        record (plain 201) { created = some (codes "7") },
      )
      ∷ [];
}

abbrev passing : Verdict
passing = record {
  id = "scheduled-shell-routine-runs";
  state = pass;
  detail = codes "exit 0, marker in output, 0s";
}

run_shell_routine_passes_example :
    (id : Text) × Created finish.exchanges acme id
    × Ran finish.exchanges acme id
    × Gone finish.exchanges id
unfolding run_shell_routine wait_for_history poll step_refusal classify_shell_run has_line lines_of
    text_eq trim_space contains_codes decimal
run_shell_routine_passes_example =
    run_shell_routine_passes relay start acme finish passing refl refl

abbrev marker_file : MarkerFile
marker_file = record {
  lstat = found true 0o600;
  virtual_machine = ok true;
  content = ok (
      object (
        ("schema", numeral (codes "1"))
        ∷ ("world_checkout", string (codes "/w"))
        ∷ ("world_root", string (codes "/r"))
        ∷ ("world_version", numeral (codes "3"))
        ∷ ("written_at", string (codes "today"))
        ∷ []));
}

abbrev marker : WorldMarker
marker = record { world_checkout = codes "/w"; world_root = codes "/r"; world_version = pos 3 }

read_marker-IsTestMachine_example : IsTestMachine marker_file marker
unfolding read_marker check_fields lookup atoi is_digit
read_marker-IsTestMachine_example = read_marker-IsTestMachine marker_file marker refl

abbrev service : Service
service = record {
  processes = 1;
  path = some "/usr/local/bin/relayscheduler";
  settings = some (("vcs.revision", "c0ffee") ∷ ("vcs.modified", "false") ∷ []);
  started = some 20;
  written = some 10;
}

abbrev given : Given
given = record {
  flags = ok (record { checkout = ""; post = pos 4 });
  tool_root = ok "/src";
  marker_file = marker_file;
  session_id = "";
  head = ok "c0ffee";
  service = service;
  service_later = service;
  sockets = record { path = codes "/relay-frontend-812.sock"; pid = some (pos 812) } ∷ [];
  alive = λ pid. eqb_ℤ pid (pos 812);
  credential_stat = found true 0o600;
  credential_content = some (codes "token\n");
  world_data = λ checkout. some (record { key = "acme"; name = codes "Acme" } ∷ []);
  grants = ok (record { id = "p1"; name = codes "Acme"; kind = "project" } ∷ []);
  pull_head = ok "c0ffee";
  lock = ok tt;
  interrupted = false;
  journeys = verdicts;
  posted = ok "https://example.org/1";
}

run-well_locked_example : well_locked false (run given).0 ≡ true
run-well_locked_example = run-well_locked given

run_zero-IsClean_example : IsClean given
unfolding run check_build build_matches setting find_grant exit_code count find_app read_credential
    project_name read_marker check_fields lookup atoi is_digit trim_space is_blank text_eq
run_zero-IsClean_example = run_zero-IsClean given refl
