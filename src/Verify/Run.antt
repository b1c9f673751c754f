-- ===== src/Verify/Run.antt =====
-- A run of devboxverify, from the flags to the exit code (run in main.go): what it is given by the
-- machine, the checks in their order, and what it does.
pub mod Locked
pub mod Outcome
use relay_scheduler.Base.{
  ℕ, zero, suc, ◌+◌, ◌-◌, ◌*◌, ◌/◌, ◌%◌, ◌^◌, ◌≤◌, ◌<◌, String, ◌≡◌, refl, sym, ap, subst, ◌∙◌, ◌≢◌,
  ◌↔◌, ◌⊎◌, inl, inr, Bool, true, false, not, ◌&&◌, ◌||◌, Option, none, some, List, [], ◌∷◌, ◌++◌,
  map, arith, eq_iff, eq_refl, ltb, leb, nat_eq, ◌==◌, is_empty, if◌then◌else◌, Bool-cases,
  Option-cases, Result-cases, ltb→lt, lt→ltb, leb→le, ltb-false→le, length, take, drop, select,
  length-append, All, Result, ok, err, ◌>>=◌, ◌>>◌, refuse, map_err, lookup, remove, insert,
  lookup-remove, lookup-insert, contains, discard, adjoin, contains-discard, contains-adjoin,
}
use relay_scheduler.Base.Int.{
  ℤ, pos, negsuc, pos_part, neg_part, ltb_ℤ, leb_ℤ, eqb_ℤ, signed64, mul64, offset_by, mul64_fits,
  mul64_range,
}
use relay_scheduler.Base.Int.{
  ℤ, pos, negsuc, pos_part, neg_part, ltb_ℤ, leb_ℤ, eqb_ℤ, signed64, mul64, offset_by, mul64_fits,
  mul64_range,
}
use relay_scheduler.Verify.{State, pass, Verdict, exit_code, status_state}
use relay_scheduler.Verify.Machine.{
  WorldMarker, Refusal, GrantRecord, find_grant, MarkerFile, Lstat, Project, project_name,
  read_marker, read_credential,
}
use relay_scheduler.Verify.Evidence.{SocketFile, find_app}
use relay_scheduler.Text.{Text}

pub record Flags : Type 0 where
  pub checkout : String
  pub post : ℤ

-- parseFlags: what the flag package answers, the number of other arguments, and whether --post was
-- given.
unfoldable pub parse_flags : Result String Flags → ℕ → Bool → Result String Flags
parse_flags (err e) others set_post = err e
parse_flags (ok f) others set_post =
    if ltb 0 others
    then err "unexpected arguments"
    else if set_post && ltb_ℤ f.post (pos 1)
    then err "--post needs a PR number"
    else ok f

-- The last of the settings of a key.
unfoldable pub setting : String → List (String × String) → String → String
setting key [] value = value
setting key ((k, v) ∷ rest) value = setting key rest (if k == key then v else value)

pub data BuildError : Type 0 where
  no_revision other_revision modified_tree : BuildError

-- buildMatches.
unfoldable pub build_matches : List (String × String) → String → Result BuildError (Unit {0})
unfolding setting
build_matches settings head =
    let rev = setting "vcs.revision" settings "" in
    if rev == ""
    then err no_revision
    else if not (rev == head)
    then err other_revision
    else if not (setting "vcs.modified" settings "" == "false")
    then err modified_tree
    else ok tt

-- The running service: how many processes, the path that ps prints, the settings of its build, when
-- it started and when its binary was written, in seconds; each is missing where its command fails.
pub record Service : Type 0 where
  pub processes : ℕ
  pub path : Option String
  pub settings : Option (List (String × String))
  pub started : Option ℕ
  pub written : Option ℕ

pub data ServiceError : Type 0 where
  not_one_process no_path no_build_info no_stat no_start predates : ServiceError
  mismatch : BuildError → ServiceError

abbrev pub since_written : Option ℕ → Option ℕ → Result ServiceError (Unit {0})
since_written none started = err no_stat
since_written (some w) none = err no_start
since_written (some w) (some s) = if ltb s w then err predates else ok tt

abbrev pub with_settings :
    Service → String → Option (List (String × String)) → Result ServiceError (Unit {0})
with_settings s head none = err no_build_info
with_settings s head (some settings) =
    map_err mismatch (build_matches settings head) >> since_written s.written s.started

abbrev pub with_path : Service → String → Option String → Result ServiceError (Unit {0})
with_path s head none = err no_path
with_path s head (some path) =
    if is_empty path then err no_path else with_settings s head s.settings

-- checkBuild.
unfoldable pub check_build : Service → String → Result ServiceError (Unit {0})
unfolding build_matches
check_build s head = if nat_eq s.processes 1 then with_path s head s.path else err not_one_process

-- What the machine gives a run: the service is looked at once in preflight, and again with the lock.
pub record Given : Type 0 where
  pub flags : Result String Flags
  pub tool_root : Result String String
  pub marker_file : MarkerFile
  pub session_id : String
  pub head : Result String String
  pub service : Service
  pub service_later : Service
  pub sockets : List SocketFile
  pub alive : ℤ → Bool
  pub credential_stat : Lstat
  pub credential_content : Option Text
  pub world_data : Text → Option (List Project)
  pub grants : Result String (List GrantRecord)
  pub pull_head : Result String String
  pub lock : Result String (Unit {0})
  pub interrupted : Bool
  pub journeys : List Verdict
  pub posted : Result String String

abbrev pub passes {κ ℓ} : {E : Type κ} {A : Type ℓ} → Result E A → Bool
passes (ok a) = true
passes (err e) = false

-- The project is granted, with an id.
abbrev pub is_granted : Option GrantRecord → Bool
is_granted none = false
is_granted (some g) = not (is_empty g.id)

abbrev pub granted : Result String (List GrantRecord) → Text → Bool
granted (err e) name = false
granted (ok rs) name = is_granted (find_grant rs name)

-- worldProjectKey.
abbrev pub world_project_key : String
world_project_key = "acme"

abbrev pub project_granted : Given → Option (List Project) → Bool
project_granted g none = false
project_granted g (some ps) = elim (project_name world_project_key ps) [
  | none ↦ false
  | some name ↦ granted g.grants name
]

-- The world's data lie in the checkout that the marker names.
abbrev pub world_ready : Given → Result Refusal WorldMarker → Bool
world_ready g (err r) = false
world_ready g (ok m) = project_granted g (g.world_data m.world_checkout)

abbrev pub is_head : Result String String → String → Bool
is_head (err e) head = false
is_head (ok h) head = h == head

abbrev pub text_of : Result String String → String
text_of (err e) = ""
text_of (ok s) = s

-- The checks in their order, with what each finds when it is run.
abbrev pub checks : Given → ℤ → List (String × Bool)
checks g pr =
    ("machine", passes (read_marker g.marker_file))
    ∷ ("session", is_empty g.session_id)
    ∷ ("head", passes g.head)
    ∷ ("build", passes (check_build g.service (text_of g.head)))
    ∷ ("app", passes (find_app g.alive g.sockets))
    ∷ ("credential", passes (read_credential g.credential_stat g.credential_content))
    ∷ ("world", world_ready g (read_marker g.marker_file))
    ∷ (if ltb_ℤ (pos 0) pr then ("pr", is_head g.pull_head (text_of g.head)) ∷ [] else [])

-- What a run does, in order, but for its TIMING lines.
pub data Act : Type 0 where
  usage not_in_checkout take_lock release_lock interrupt summary post_failed : Act
  preflight : String → Bool → Act
  journey : Verdict → Act
  post : String → Act

-- runPreflight stops at the first failure.
unfoldable pub run_preflight : List (String × Bool) → List Act × Bool
run_preflight [] = ([], true)
run_preflight ((name, good) ∷ rest) =
    let (acts, all) = run_preflight rest in
    if good then (preflight name true ∷ acts, all) else (preflight name false ∷ [], false)

abbrev pub posting : Given → ℤ → List Act × ℕ
posting g pr =
    let code = exit_code g.journeys in
    if ltb_ℤ (pos 0) pr
    then elim g.posted [
      | err e ↦ (post_failed ∷ [], 2)
      | ok url ↦ (post (status_state g.journeys) ∷ [], code)
    ]
    else ([], code)

abbrev pub then_acts : List Act → List Act × ℕ → List Act × ℕ
then_acts first (acts, code) = (first ++ acts, code)

-- With the lock held.
abbrev pub run_journeys : Given → ℤ → List Act × ℕ
run_journeys g pr =
    let shown = map journey g.journeys in
    if g.interrupted
    then (shown ++ interrupt ∷ [], 2)
    else then_acts (shown ++ summary ∷ []) (posting g pr)

abbrev pub locked : Given → ℤ → List Act × ℕ
locked g pr =
    if passes (check_build g.service_later (text_of g.head))
    then then_acts (preflight "build" true ∷ []) (run_journeys g pr)
    else (preflight "build" false ∷ [], 2)

-- The release is deferred.
abbrev pub released : List Act × ℕ → List Act × ℕ
released (acts, code) = (take_lock ∷ preflight "lock" true ∷ (acts ++ release_lock ∷ []), code)

abbrev pub with_lock : Given → ℤ → Result String (Unit {0}) → List Act × ℕ
with_lock g pr (err e) = (preflight "lock" false ∷ [], 2)
with_lock g pr (ok u) = released (locked g pr)

abbrev pub after_preflight : Given → ℤ → List Act × Bool → List Act × ℕ
after_preflight g pr (acts, good) =
    if good then then_acts acts (with_lock g pr g.lock) else (acts, 2)

unfoldable pub run : Given → List Act × ℕ
unfolding run_preflight
run g = elim g.flags [
  | err e ↦ (usage ∷ [], 2)
  | ok f ↦ elim g.tool_root [
    | err e ↦ (not_in_checkout ∷ [], 2)
    | ok root ↦ after_preflight g f.post (run_preflight (checks g f.post))
  ]
]
