-- ===== src/Verify.antt =====
-- cmd/devboxverify, the tool that drives an installed scheduler and judges it: its results, and the
-- lines that it prints (main.go and post.go).
pub mod Score
pub mod Machine
pub mod Journey
pub mod Run
pub mod Evidence
use relay_scheduler.Base.{
  ℕ, zero, suc, ◌+◌, ◌-◌, ◌*◌, ◌/◌, ◌%◌, ◌^◌, ◌≤◌, ◌<◌, String, ◌≡◌, refl, sym, ap, subst, ◌∙◌, ◌≢◌,
  ◌↔◌, ◌⊎◌, inl, inr, Bool, true, false, not, ◌&&◌, ◌||◌, Option, none, some, List, [], ◌∷◌, ◌++◌,
  map, arith, eq_iff, eq_refl, ltb, leb, nat_eq, ◌==◌, is_empty, if◌then◌else◌, Bool-cases,
  Option-cases, Result-cases, ltb→lt, lt→ltb, leb→le, ltb-false→le, length, take, drop, select,
  length-append, All, Result, ok, err, ◌>>=◌, ◌>>◌, refuse, map_err, lookup, remove, insert,
  lookup-remove, lookup-insert, contains, discard, adjoin, contains-discard, contains-adjoin,
}
use relay_scheduler.Base.Int.{
  ℤ, pos, negsuc, pos_part, neg_part, ltb_ℤ, leb_ℤ, eqb_ℤ, signed64, mul64, offset_by, mul64_fits,
  mul64_range,
}
use relay_scheduler.Text.{Text, codes, fields, has_prefix, decimal}

pub data State : Type 0 where
  pass fail blocked not_run : State

abbrev pub state_eq : State → State → Bool
state_eq pass pass = true
state_eq fail fail = true
state_eq blocked blocked = true
state_eq not_run not_run = true
state_eq _ _ = false

pub record Verdict : Type 0 where
  pub id : String
  pub state : State
  pub detail : Text

-- `counts[s]` of tally.
unfoldable pub count : State → List Verdict → ℕ
count s [] = 0
count s (r ∷ rs) = if state_eq r.state s then suc (count s rs) else count s rs

abbrev pub positive : ℕ → Bool
positive n = ltb 0 n

-- tally's exit code.
unfoldable pub exit_code : List Verdict → ℕ
unfolding count
exit_code rs =
    if positive (count fail rs)
      || positive (count blocked rs)
      || positive (count not_run rs)
      || nat_eq (count pass rs) 0
    then 1
    else 0

unfoldable pub status_state : List Verdict → String
unfolding count
status_state rs =
    if positive (count fail rs)
    then "failure"
    else if positive (count blocked rs) || positive (count not_run rs) || nat_eq (count pass rs) 0
    then "error"
    else "success"

-- The first number is how many characters of a match are still to be left out.
unfoldable pub replace_from : ℕ → Text → Text → Text → Text
unfolding has_prefix
replace_from skip old new [] = []
replace_from (suc skip) old new (c ∷ s) = replace_from skip old new s
replace_from zero old new (c ∷ s) =
    let behind = replace_from (length old - 1) old new s in
    let later = replace_from 0 old new s in
    if has_prefix (c ∷ s) old then new ++ behind else c ∷ later

-- strings.ReplaceAll, of a text that is not empty.
abbrev pub replace_all : Text → Text → Text → Text
replace_all s old new = replace_from 0 old new s

abbrev pub home_is_empty : Text → Bool
home_is_empty [] = true
home_is_empty (c ∷ s) = false

abbrev pub scrub : Text → Text → Text
scrub s home = if home_is_empty home then s else replace_all s home (codes "~")

-- strings.Join.
unfoldable pub join : ℕ → List Text → Text
join sep [] = []
join sep (s ∷ []) = s
join sep (s ∷ t ∷ rest) = s ++ sep ∷ join sep (t ∷ rest)

unfoldable pub format_field : Text → Text → Text
unfolding replace_from fields join
format_field home f = join b' ' (fields (scrub f home))

-- One line of output, without its end.
unfoldable pub format_line : Text → List Text → Text
unfolding format_field join
format_line home fs = join b'\t' (map (format_field home) fs)
