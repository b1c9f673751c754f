-- ===== src/Verify/Journey/Seen.antt =====
-- A journey that passes has seen its routine created, run, recorded and gone.
use relay_scheduler.Base.{
  ℕ, String, ◌≡◌, refl, ap, ◌∙◌, ◌≢◌, ◌⊎◌, inl, inr, Bool, true, false, ◌&&◌, Option, none, some,
  List, [], ◌∷◌, ◌++◌, arith, nat_eq, if◌then◌else◌, Bool-cases,
}
use relay_scheduler.Text.{Text, codes}
use relay_scheduler.Verify.{State, pass, fail, blocked, not_run, Verdict, replace_all}
use relay_scheduler.Verify.Journey.{
  number, Answer, Env, HistoryEntry, poll, poll_entries, step_refusal,
}
use relay_scheduler.Verify.Journey.Drive.{cleaned, judged, with_leftover}
use relay_scheduler.Verify.Journey.Passing.{Newest, if_passes_in, fail_not_pass, blocked_not_pass}

abbrev Refused : Option Verdict → Type 0
Refused o = (o ≢ none) × ((v : Verdict) → o ≡ some v → v.state ≢ pass)

verdict-Refused : (v : Verdict) → v.state ≢ pass → Refused (some v)
verdict-Refused v bad =
    (λ c. cc, λ w e p. bad (let same : v ≡ w = cc in ap (λ (x : Verdict). x.state) same ∙ p))

if-Refused :
    (b : Bool) (x y : Option Verdict) → Refused x → Refused y → Refused (if b then x else y)
if-Refused true x y f g = f
if-Refused false x y f g = g

-- A step's answer has the wanted status, or is refused.
step_cases :
    (step : String) (r : Answer) (want : ℕ) → (r.status ≡ want) ⊎ Refused (step_refusal step r want)
unfolding step_refusal
step_cases step r want = elim (Bool-cases (nat_eq r.status want)) [
  | inl e ↦ inl (ground arith)
  | inr e ↦ inr (
      rw (e, step_refusal)
        (if-Refused (nat_eq r.status 0) _ _ (verdict-Refused _ blocked_not_pass) (
          if-Refused (nat_eq r.status 401) _ _ (verdict-Refused _ blocked_not_pass) (
            if-Refused (nat_eq r.status 403) _ _ (verdict-Refused _ blocked_not_pass)
              (verdict-Refused _ fail_not_pass)))))
]

pub refused_fails :
    (step : String) (r : Answer) (want : ℕ) (v : Verdict)
    → step_refusal step r want ≡ some v
    → v.state ≢ pass
unfolding step_refusal
refused_fails step r want v h p = elim (Bool-cases (nat_eq r.status want)) [
  | inl e ↦ let c = rw e at h in cc
  | inr e ↦ elim (step_cases step r want) [
    | inl same ↦ let c : true ≡ false = (ground arith) in cc
    | inr (some_answer, bad) ↦ bad v h p
  ]
]

pub accepted :
    (step : String) (r : Answer) (want : ℕ) → step_refusal step r want ≡ none → r.status ≡ want
accepted step r want h = elim (step_cases step r want) [
  | inl e ↦ e
  | inr (some_answer, bad) ↦ absurd (some_answer h)
]

pub polled : (r : Answer) (h : HistoryEntry) → poll r ≡ inr h → Newest h r
unfolding poll
polled r h e = elim (Bool-cases (nat_eq r.status 200)) [
  | inl good ↦ (ground arith, entries r.entries refl (rw good at e))
  | inr bad ↦ let c = rw bad at e in cc
]
  where
    entries :
        (o : Option (List HistoryEntry))
        → r.entries ≡ o
        → poll_entries o ≡ inr h
        → (hs : List HistoryEntry) × (r.entries ≡ some (h ∷ hs))
    entries none f e = cc
    entries (some []) f e = cc
    entries (some (x ∷ hs)) f e = let same : x ≡ h = cc in (hs, rw f (rw same refl))

pub judged_state : (e : Env) (r : Verdict) (n : ℕ) → (judged e r n).state ≡ r.state
judged_state e r n =
    elim r.state
      as (λ s.
        (elim s as (λ _. Verdict) [
          | pass ↦ record r { detail = r.detail ++ codes ", " ++ number n ++ codes "s" }
          | blocked ↦ record r { detail = replace_all r.detail (codes "<project>") e.project_name }
          | fail ↦ r
          | not_run ↦ r
        ]).state
        ≡ r.state) [ pass ↦ refl | blocked ↦ refl | fail ↦ refl | not_run ↦ refl ]

leftover_fails : (r : Verdict) (left : Text) → (with_leftover r left).state ≢ pass
leftover_fails r left = by_state r.state refl
  where
    by_state :
        (s : State)
        → r.state ≡ s
        → (elim s as (λ _. Verdict) [
          | pass ↦ record { id = r.id; state = fail; detail = left }
          | fail ↦ record r { detail = r.detail ++ codes "; " ++ left }
          | blocked ↦ record r { detail = r.detail ++ codes "; " ++ left }
          | not_run ↦ record r { detail = r.detail ++ codes "; " ++ left }
        ]).state
          ≢ pass
    by_state pass e h = cc
    by_state fail e h = cc
    by_state blocked e h = cc
    by_state not_run e h = cc

pub cleaned_passes :
    (r : Verdict) (name : Text) (del after : Answer)
    → (cleaned r name del after).state ≡ pass
    → (del.status ≡ 200) × (after.status ≡ 404) × (r.state ≡ pass)
cleaned_passes r name del after p =
    let (both, q) = if_passes_in _ _ _ p (leftover_fails r _) in
    let (gone, missing) = both_true (nat_eq del.status 200) (nat_eq after.status 404) both in
    (same_status del.status 200 gone, same_status after.status 404 missing, q)
  where
    both_true : (a b : Bool) → (a && b) ≡ true → (a ≡ true) × (b ≡ true)
    both_true true b h = (refl, h)
    both_true false b h = cc

    same_status : (m n : ℕ) → nat_eq m n ≡ true → m ≡ n
    same_status m n h = ground arith
