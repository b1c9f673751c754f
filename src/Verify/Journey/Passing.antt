-- ===== src/Verify/Journey/Passing.antt =====
-- What a journey that passes has seen.
use relay_scheduler.Base.{
  true_of_not, ℕ, ◌≡◌, refl, ap, ◌∙◌, ◌≢◌, ◌⊎◌, Bool, true, false, not, Option, none, some, List,
  [], ◌∷◌, arith, if◌then◌else◌,
}
use relay_scheduler.Base.Int.{ℤ, pos, negsuc, eqb_ℤ}
use relay_scheduler.Text.{Text, codes, text_eq_sound}
use relay_scheduler.Verify.{pass, fail, blocked, Verdict}
use relay_scheduler.Verify.Journey.{
  Request, Answer, HistoryEntry, classify_shell_run, classify_exit, has_line, lines_of,
}
use relay_scheduler.Verify.Journey.Drive.{Exchanges}

-- A request has been sent, and its answer is as described.
abbrev pub Sent : Exchanges → Request → (Answer → Type 0) → Type 0
Sent [] q P = ⊥
Sent ((q', a) ∷ xs) q P = ((q' ≡ q) × P a) ⊎ Sent xs q P

-- The exchanges of the first list are among those of the second.
abbrev pub Grows : Exchanges → Exchanges → Type 1
Grows xs ys = (q : Request) (P : Answer → Type 0) → Sent xs q P → Sent ys q P

pub Grows-trans : (xs ys zs : Exchanges) → Grows xs ys → Grows ys zs → Grows xs zs
Grows-trans xs ys zs f g q P h = g q P (f q P h)

abbrev pub Answers : ℕ → Answer → Type 0
Answers status a = a.status ≡ status

-- A run that succeeded, with the marker on a line of its output.
abbrev pub Succeeded : Text → HistoryEntry → Type 0
Succeeded marker h =
    (h.status ≡ codes "success")
    × (h.exit_code ≡ some (pos 0))
    × (has_line marker (lines_of h.response) ≡ true)

-- The newest entry of the history that the answer carries.
abbrev pub Newest : HistoryEntry → Answer → Type 0
Newest h a = (a.status ≡ 200) × ((hs : List HistoryEntry) × (a.entries ≡ some (h ∷ hs)))

eqb_zero : (n : ℤ) → not (eqb_ℤ n (pos 0)) ≡ false → n ≡ pos 0
eqb_zero (pos n) h = ap pos (ground arith)
eqb_zero (negsuc n) h = absurd (ground arith)

pub fail_not_pass : fail ≢ pass
fail_not_pass c = cc

pub blocked_not_pass : blocked ≢ pass
blocked_not_pass c = cc

-- An `if` that gives a passing verdict, where its first branch does not.
pub if_passes :
    (b : Bool) (x y : Verdict)
    → (if b then x else y).state ≡ pass
    → x.state ≢ pass
    → (b ≡ false) × (y.state ≡ pass)
if_passes true x y h bad = absurd (bad h)
if_passes false x y h bad = (refl, h)

pub if_passes_in :
    (b : Bool) (x y : Verdict)
    → (if b then x else y).state ≡ pass
    → y.state ≢ pass
    → (b ≡ true) × (x.state ≡ pass)
if_passes_in true x y h bad = (refl, h)
if_passes_in false x y h bad = absurd (bad h)

exit_passes :
    (h : HistoryEntry) (marker : Text) (o : Option ℤ)
    → h.exit_code ≡ o
    → (classify_exit h marker o).state ≡ pass
    → Succeeded marker h
exit_passes h marker none e p = cc
exit_passes h marker (some n) e p =
    let (zero_exit, p1) = if_passes _ _ _ p fail_not_pass in
    let (good, p2) = if_passes _ _ _ p1 fail_not_pass in
    let (line, p3) = if_passes_in _ _ _ p2 fail_not_pass in
    (
      text_eq_sound h.status (codes "success") (true_of_not _ good),
      e ∙ ap (λ (x : ℤ). some x) (eqb_zero n zero_exit),
      line,
    )

pub classified :
    (h : HistoryEntry) (marker : Text)
    → (classify_shell_run h marker).state ≡ pass
    → Succeeded marker h
unfolding classify_shell_run
classified h marker p =
    let (other, p1) = if_passes _ _ _ p blocked_not_pass in exit_passes h marker h.exit_code refl p1
