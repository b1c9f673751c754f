-- ===== src/Verify/Journey.antt =====
-- The journey of cmd/devboxverify: a shell routine is created through relay's front door, run once,
-- waited for, judged and deleted (journey_shell_routine.go).
pub mod Drive
pub mod Passing
pub mod Seen
pub mod Polled
pub mod Passed
pub mod Bounded
use relay_scheduler.Base.{
  ℕ, zero, suc, ◌+◌, ◌-◌, ◌*◌, ◌/◌, ◌%◌, ◌^◌, ◌≤◌, ◌<◌, String, ◌≡◌, refl, sym, ap, subst, ◌∙◌, ◌≢◌,
  ◌↔◌, ◌⊎◌, inl, inr, Bool, true, false, not, ◌&&◌, ◌||◌, Option, none, some, List, [], ◌∷◌, ◌++◌,
  map, arith, eq_iff, eq_refl, ltb, leb, nat_eq, ◌==◌, is_empty, if◌then◌else◌, Bool-cases,
  Option-cases, Result-cases, ltb→lt, lt→ltb, leb→le, ltb-false→le, length, take, drop, select,
  length-append, All, Result, ok, err, ◌>>=◌, ◌>>◌, refuse, map_err, lookup, remove, insert,
  lookup-remove, lookup-insert, contains, discard, adjoin, contains-discard, contains-adjoin,
}
use relay_scheduler.Base.Int.{
  ℤ, pos, negsuc, pos_part, neg_part, ltb_ℤ, leb_ℤ, eqb_ℤ, signed64, mul64, offset_by, mul64_fits,
  mul64_range,
}
use relay_scheduler.Clock.{Time, second}
use relay_scheduler.Text.{Text, codes, contains_codes, trim_space, text_eq, decimal}
use relay_scheduler.Verify.{State, pass, fail, blocked, Verdict, replace_all}

abbrev pub shell_routine_id : String
shell_routine_id = "scheduled-shell-routine-runs"

abbrev pub run_deadline : ℕ
run_deadline = 60 * second

abbrev pub poll_every : ℕ
poll_every = second

pub record HistoryEntry : Type 0 where
  pub status : Text
  pub exit_code : Option ℤ
  pub response : Text
  pub error : Text

-- A frontendResponse, with what its body decodes to: the id of a task, a history, and the last
-- terminal of a task; `none` is a decoding error, and a missing text is empty.
pub record Answer : Type 0 where
  pub status : ℕ
  pub error : Text
  pub created : Option Text
  pub entries : Option (List HistoryEntry)
  pub last_terminal : Option Text

pub data Request : Type 0 where
  create_task : Text → Text → Text → Request
  run_task get_history get_task delete_task delete_terminal : Text → Request

-- `project_id`, `project_name` and `nonce` of env.
pub record Env : Type 0 where
  pub project_id : Text
  pub project_name : Text
  pub nonce : Text

-- What the journey meets: a world that answers requests and in which time passes.
pub record Frontdoor {ℓ} (S : Type ℓ) : Type ℓ where
  pub send : S → Request → S × Answer
  pub sleep : S → S
  pub clock : S → Time
  pub cancelled : S → Bool

abbrev pub verdict : State → Text → Verdict
verdict s detail = record { id = shell_routine_id; state = s; detail = detail }

abbrev pub number : ℕ → Text
number n = codes (decimal (pos n))

abbrev pub marker_for : Text → Text
marker_for nonce = codes "relayscheduler-verify-" ++ nonce

-- A front-door answer that is not the wanted status.
unfoldable pub step_refusal : String → Answer → ℕ → Option Verdict
step_refusal step r want =
    if nat_eq r.status want
    then none
    else if nat_eq r.status 0
    then some (verdict blocked (codes "frontend socket unreachable"))
    else if nat_eq r.status 401
    then some (verdict blocked (codes "credential refused (401)"))
    else if nat_eq r.status 403
    then some (verdict blocked (codes "credential lacks the proxy class (403)"))
    else some
        (verdict fail (codes step ++ codes ": status " ++ number r.status ++ codes ": " ++ r.error))

-- strings.Cut(s, "\n"), its first part.
unfoldable pub first_line : Text → Text
first_line [] = []
first_line (c ∷ s) = if nat_eq c b'\n' then [] else c ∷ first_line s

abbrev starts_line : ℕ → List Text → List Text
starts_line c [] = (c ∷ []) ∷ []
starts_line c (l ∷ ls) = (c ∷ l) ∷ ls

-- strings.Split(s, "\n").
unfoldable pub lines_of : Text → List Text
lines_of [] = [] ∷ []
lines_of (c ∷ s) = if nat_eq c b'\n' then [] ∷ lines_of s else starts_line c (lines_of s)

unfoldable pub has_line : Text → List Text → Bool
has_line marker [] = false
has_line marker (l ∷ ls) = text_eq (trim_space l) marker || has_line marker ls

abbrev pub classify_exit : HistoryEntry → Text → Option ℤ → Verdict
classify_exit h marker none =
    verdict fail (codes "run ended " ++ h.status ++ codes " with no exit code")
classify_exit h marker (some n) =
    if not (eqb_ℤ n (pos 0))
    then verdict fail (
        codes "run ended "
        ++ h.status
        ++ codes ", exit "
        ++ codes (decimal n)
        ++ codes ": "
        ++ first_line h.error)
    else if not (text_eq h.status (codes "success"))
    then verdict fail (codes "run ended " ++ h.status ++ codes ", exit 0")
    else if has_line marker (lines_of h.response)
    then verdict pass (codes "exit 0, marker in output")
    else verdict fail (codes "exit 0 but output lacks the marker")

-- classifyShellRun of a run that ended.
unfoldable pub classify_shell_run : HistoryEntry → Text → Verdict
classify_shell_run h marker =
    if text_eq h.status (codes "error") && contains_codes h.error (codes "template \"world-probe\"")
    then verdict blocked (codes "world-probe not available to <project>; see prerequisites")
    else classify_exit h marker h.exit_code

-- What one poll says: an entry, or the note for a deadline that passes.
abbrev pub poll_entries : Option (List HistoryEntry) → Text ⊎ HistoryEntry
poll_entries none = inl (codes "history unreadable")
poll_entries (some []) = inl []
poll_entries (some (h ∷ hs)) = inr h

unfoldable pub poll : Answer → Text ⊎ HistoryEntry
poll r =
    if nat_eq r.status 200
    then poll_entries r.entries
    else inl (codes "last history poll: status " ++ number r.status)

abbrev pub late_note : Text → Text
late_note [] = []
late_note (c ∷ note) = codes "; " ++ c ∷ note
