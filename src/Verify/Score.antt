-- ===== src/Verify/Score.antt =====
-- The exit code and the commit status of a run of devboxverify.
use relay_scheduler.Base.{
  ℕ, suc, ◌+◌, ◌≤◌, String, ◌≡◌, refl, sym, ap, ◌∙◌, ◌≢◌, ◌↔◌, Bool, true, false, ◌||◌, List, [],
  ◌∷◌, arith, eq_iff, nat_eq, ◌==◌, if◌then◌else◌, length, All,
}
use relay_scheduler.Verify.{
  State, pass, fail, blocked, not_run, Verdict, count, exit_code, status_state, positive, state_eq,
}

abbrev pub Passed : Verdict → Type 0
Passed r = r.state ≡ pass

unpassed : List Verdict → ℕ
unfolding count
unpassed rs = count fail rs + (count blocked rs + count not_run rs)

abbrev if_more : Bool → ℕ → ℕ
if_more b n = if b then suc n else n

passed_state :
    (x : State) (f b n : ℕ)
    → if_more (state_eq x fail) f
        + (if_more (state_eq x blocked) b + if_more (state_eq x not_run) n)
      ≡ 0
    → (x ≡ pass) × (f + (b + n) ≡ 0)
passed_state pass f b n h = (refl, h)
passed_state fail f b n h = absurd (omega arith)
passed_state blocked f b n h = absurd (omega arith)
passed_state not_run f b n h = absurd (omega arith)

unpassed-Passed : (rs : List Verdict) → unpassed rs ≡ 0 → All Passed rs
unfolding unpassed count
unpassed-Passed [] h = tt
unpassed-Passed (r ∷ rs) h =
    let (e, rest) = passed_state r.state (count fail rs) (count blocked rs) (count not_run rs) h in
    (e, unpassed-Passed rs rest)

Passed-counts :
    (rs : List Verdict) → All Passed rs → (unpassed rs ≡ 0) × (count pass rs ≡ length rs)
unfolding unpassed count
Passed-counts [] h = (refl, refl)
Passed-counts (r ∷ rs) (e, h) = let (u, p) = Passed-counts rs h in rw e (u, ap suc p)

counts_pass : (rs : List Verdict) → unpassed rs ≡ 0 → count pass rs ≡ length rs
counts_pass rs h = (Passed-counts rs (unpassed-Passed rs h)).1

abbrev Success : List Verdict → Type 0
Success rs = (unpassed rs ≡ 0) × (1 ≤ count pass rs)

exit_zero : (rs : List Verdict) → (exit_code rs ≡ 0) ↔ Success rs
unfolding exit_code unpassed
exit_zero rs = (λ h. ground arith, λ h. ground arith)

abbrev named : Bool → Bool → String
named failed bad = if failed then "failure" else if bad then "error" else "success"

true_not_false : true ≢ false
true_not_false c = cc

other_text : (s t : String) → (s == t) ≡ false → s ≢ t
other_text s t e h = let c : true ≡ false = sym ((eq_iff s t).1 h) ∙ e in true_not_false c

named_success : (f b : Bool) → named f b ≡ "success" → (f ≡ false) × (b ≡ false)
named_success true b h = absurd (other_text "failure" "success" refl h)
named_success false true h = absurd (other_text "error" "success" refl h)
named_success false false h = (refl, refl)

named_failure : (f b : Bool) → named f b ≡ "failure" → f ≡ true
named_failure true b h = refl
named_failure false true h = absurd (other_text "error" "failure" refl h)
named_failure false false h = absurd (other_text "success" "failure" refl h)

abbrev unfinished : List Verdict → Bool
unfinished rs =
    positive (count blocked rs) || positive (count not_run rs) || nat_eq (count pass rs) 0

status-Success : (rs : List Verdict) → (status_state rs ≡ "success") ↔ Success rs
unfolding status_state unpassed
status-Success rs = (
  λ h. let (e, g) = named_success (positive (count fail rs)) (unfinished rs) h in ground arith,
  λ h. ground arith,
)

status_failure : (rs : List Verdict) → (status_state rs ≡ "failure") ↔ (1 ≤ count fail rs)
unfolding status_state
status_failure rs = (
  λ h. let e = named_failure (positive (count fail rs)) (unfinished rs) h in ground arith,
  λ h. ground arith,
)

Success-iff : (rs : List Verdict) → Success rs ↔ ((1 ≤ length rs) × All Passed rs)
Success-iff rs = (
  λ (none_bad, some_good).
      let all = counts_pass rs none_bad in (rw all at some_good, unpassed-Passed rs none_bad),
  λ (some_run, all). let (u, p) = Passed-counts rs all in (u, rw p some_run),
)

iff_trans : {A B C : Type 0} → A ↔ B → B ↔ C → A ↔ C
iff_trans (f, g) (h, k) = (λ a. h (f a), λ c. g (k c))

-- The exit code is 0 exactly if some journey ran and all that ran passed; the commit status is
-- success in exactly that case, and failure exactly if a journey failed.
pub exit_code_lem :
    (rs : List Verdict)
    → ((exit_code rs ≡ 0) ↔ ((1 ≤ length rs) × All Passed rs))
      × ((status_state rs ≡ "success") ↔ ((1 ≤ length rs) × All Passed rs))
      × ((status_state rs ≡ "failure") ↔ (1 ≤ count fail rs))
exit_code_lem rs = (
  iff_trans (exit_zero rs) (Success-iff rs),
  iff_trans (status-Success rs) (Success-iff rs),
  status_failure rs,
)
