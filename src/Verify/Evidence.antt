-- ===== src/Verify/Evidence.antt =====
-- The evidence of a run of devboxverify: relay's socket (findApp), the comment on the pull request,
-- and the commit status (post.go).
use relay_scheduler.Base.{
  ℕ, ◌+◌, ◌/◌, String, ◌≡◌, refl, ap, subst, Bool, true, false, ◌&&◌, Option, none, some, List, [],
  ◌∷◌, ◌++◌, nat_eq, if◌then◌else◌, length, select, Result, ok, err,
}
use relay_scheduler.Base.Int.{ℤ, pos, ltb_ℤ}
use relay_scheduler.Text.{Text, codes, decimal, has_prefix, trim_space}
use relay_scheduler.Verify.{
  State, pass, fail, blocked, not_run, Verdict, count, status_state, replace_all, scrub,
}
use relay_scheduler.Verify.Journey.{lines_of}

-- A file relay-frontend-*.sock, with the number that Sscanf finds in its name.
pub record SocketFile : Type 0 where
  pub path : Text
  pub pid : Option ℤ

abbrev pub is_live : (ℤ → Bool) → SocketFile → Bool
is_live alive f = elim f.pid [ none ↦ false | some p ↦ ltb_ℤ (pos 0) p && alive p ]

abbrev pub last_of : List SocketFile → Option SocketFile
last_of [] = none
last_of (f ∷ []) = some f
last_of (f ∷ g ∷ rest) = last_of (g ∷ rest)

-- findApp: the socket, or how many are live.
unfoldable pub find_app : (ℤ → Bool) → List SocketFile → Result ℕ (Option SocketFile)
find_app alive files =
    let live = select (is_live alive) files in
    if nat_eq (length live) 1 then ok (last_of live) else err (length live)

-- Run time in nanoseconds.
pub record Evidence : Type 0 where
  pub pull_request : ℕ
  pub commit : Text
  pub tool_commit : Text
  pub home : Text
  pub run_time : ℕ
  pub results : List Verdict

abbrev number : ℕ → Text
number n = codes (decimal (pos n))

abbrev pub state_text : State → Text
state_text pass = codes "PASS"
state_text fail = codes "FAIL"
state_text blocked = codes "BLOCKED"
state_text not_run = codes "NOTRUN"

abbrev pub row : Verdict → Text
row r =
    codes "| `"
    ++ codes r.id
    ++ codes "` | "
    ++ state_text r.state
    ++ codes " | "
    ++ replace_all r.detail (codes "|") (codes "\\|")
    ++ codes " |\n"

unfoldable pub rows : List Verdict → Text
rows [] = []
rows (r ∷ rs) = row r ++ rows rs

unfoldable pub render_comment : Evidence → Text
unfolding rows
render_comment ev =
    scrub
      (codes "### devbox/verify: "
        ++ codes (status_state ev.results)
        ++ codes "\n\n| | |\n|---|---|\n| Scheduler commit | `"
        ++ ev.commit
        ++ codes "` |\n| Tool commit | `"
        ++ ev.tool_commit
        ++ codes "` |\n| Run time | "
        ++ number ((ev.run_time / 1_000_000 + 500) / 1000)
        ++ codes " s |\n\n| Journey | Result | Detail |\n|---|---|---|\n"
        ++ rows ev.results)
      ev.home

abbrev pub description : List Verdict → Text
description rs =
    codes "pass="
    ++ number (count pass rs)
    ++ codes " fail="
    ++ number (count fail rs)
    ++ codes " blocked="
    ++ number (count blocked rs)
    ++ codes " notrun="
    ++ number (count not_run rs)

-- A call of gh: a comment on a pull request, or the status of a commit with its link.
pub data Call : Type 0 where
  comment : ℕ → Text → Call
  commit_status : Text → String → Text → Text → Call

pub data PostError : Type 0 where
  gh_failed no_url : PostError

abbrev pub last_line : List Text → Text
last_line [] = []
last_line (l ∷ []) = l
last_line (l ∷ m ∷ rest) = last_line (m ∷ rest)

abbrev pub status_call : Evidence → Text → Call
status_call ev url = commit_status ev.commit (status_state ev.results) url (description ev.results)

abbrev pub with_status : Evidence → Text → Bool → List Call × Result PostError Text
with_status ev url done = (
  comment ev.pull_request (render_comment ev) ∷ status_call ev url ∷ [],
  if done then ok url else err gh_failed,
)

-- What the comment's call prints, trimmed, and whether the status' call succeeds.
unfoldable pub post : Evidence → Option Text → Bool → List Call × Result PostError Text
unfolding has_prefix lines_of trim_space
post ev none done = (comment ev.pull_request (render_comment ev) ∷ [], err gh_failed)
post ev (some out) done =
    let url = trim_space (last_line (lines_of out)) in
    if has_prefix url (codes "https://")
    then with_status ev url done
    else (comment ev.pull_request (render_comment ev) ∷ [], err no_url)

abbrev Posts : Evidence → Text → List Call × Result PostError Text → Type 0
Posts ev url x =
    x.1 ≡ ok url
    → (x.0 ≡ comment ev.pull_request (render_comment ev) ∷ status_call ev url ∷ [])
      × (has_prefix url (codes "https://") ≡ true)

-- A post that succeeds has commented, and has then set the status of the commit to that of the
-- results, with a link to the comment.
pub post_sets_status :
    (ev : Evidence) (out : Option Text) (done : Bool) (url : Text)
    → (post ev out done).1 ≡ ok url
    → ((post ev out done).0 ≡ comment ev.pull_request (render_comment ev) ∷ status_call ev url ∷ [])
      × (has_prefix url (codes "https://") ≡ true)
unfolding post
post_sets_status ev none done url h = cc
post_sets_status ev (some out) done url h =
    let u = trim_space (last_line (lines_of out)) in
    by_prefix u (has_prefix u (codes "https://")) done refl h
  where
    by_prefix :
        (u : Text) (b done : Bool)
        → has_prefix u (codes "https://") ≡ b
        → Posts ev url (
            if b
            then with_status ev u done
            else (comment ev.pull_request (render_comment ev) ∷ [], err no_url))
    by_prefix u true true e h =
        let same : u ≡ url = cc in
        (
          ap (λ (x : Text). comment ev.pull_request (render_comment ev) ∷ status_call ev x ∷ [])
              same,
          subst (λ (x : Text). has_prefix x (codes "https://") ≡ true) same e,
        )
    by_prefix u true false e h = cc
    by_prefix u false done e h = cc
