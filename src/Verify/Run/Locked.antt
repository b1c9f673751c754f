-- ===== src/Verify/Run/Locked.antt =====
-- The lock around the journeys of a run of devboxverify.
use relay_scheduler.Base.{
  ℕ, String, ◌≡◌, refl, sym, ap, ◌∙◌, inl, inr, Bool, true, false, not, ◌&&◌, List, [], ◌∷◌, ◌++◌,
  map, if◌then◌else◌, Bool-cases, Result, ok, err,
}
use relay_scheduler.Base.Int.{ℤ, pos, ltb_ℤ}
use relay_scheduler.Verify.{Verdict, exit_code, status_state}
use relay_scheduler.Verify.Run.{
  Given, Flags, Act, usage, not_in_checkout, take_lock, release_lock, interrupt, summary,
  post_failed, preflight, journey, post, run, run_preflight, checks, after_preflight, with_lock,
  locked, posting, passes, check_build, text_of, then_acts,
}

-- Journeys, summaries and posts are for a run that holds the lock.
abbrev pub allowed : Bool → Act → Bool
allowed b usage = not b
allowed b not_in_checkout = not b
allowed b take_lock = false
allowed b release_lock = false
allowed b interrupt = b
allowed b summary = b
allowed b post_failed = b
allowed b (preflight name good) = true
allowed b (journey r) = b
allowed b (post status) = b

-- The acts of a run that holds the lock or not: the lock is taken once it is free, released once it
-- is held, and free at the end.
unfoldable pub well_locked : Bool → List Act → Bool
well_locked b [] = not b
well_locked b (take_lock ∷ acts) = not b && well_locked true acts
well_locked b (release_lock ∷ acts) = b && well_locked false acts
well_locked b (a ∷ acts) = allowed b a && well_locked b acts

all_allowed : Bool → List Act → Bool
all_allowed b [] = true
all_allowed b (a ∷ acts) = allowed b a && all_allowed b acts

pass_over :
    (b : Bool) (xs ys : List Act)
    → all_allowed b xs ≡ true
    → well_locked b (xs ++ ys) ≡ well_locked b ys
unfolding well_locked all_allowed
pass_over b [] ys h = refl
pass_over b (take_lock ∷ xs) ys h = cc
pass_over b (release_lock ∷ xs) ys h = cc
pass_over b (preflight name good ∷ xs) ys h = pass_over b xs ys h
pass_over true (usage ∷ xs) ys h = cc
pass_over false (usage ∷ xs) ys h = pass_over false xs ys h
pass_over true (not_in_checkout ∷ xs) ys h = cc
pass_over false (not_in_checkout ∷ xs) ys h = pass_over false xs ys h
pass_over true (interrupt ∷ xs) ys h = pass_over true xs ys h
pass_over false (interrupt ∷ xs) ys h = cc
pass_over true (summary ∷ xs) ys h = pass_over true xs ys h
pass_over false (summary ∷ xs) ys h = cc
pass_over true (post_failed ∷ xs) ys h = pass_over true xs ys h
pass_over false (post_failed ∷ xs) ys h = cc
pass_over true (journey r ∷ xs) ys h = pass_over true xs ys h
pass_over false (journey r ∷ xs) ys h = cc
pass_over true (post s ∷ xs) ys h = pass_over true xs ys h
pass_over false (post s ∷ xs) ys h = cc

append_nil : (xs : List Act) → xs ++ [] ≡ xs
append_nil [] = refl
append_nil (x ∷ xs) = ap (◌∷◌ x) (append_nil xs)

allowed_append :
    (b : Bool) (xs ys : List Act)
    → all_allowed b xs ≡ true
    → all_allowed b ys ≡ true
    → all_allowed b (xs ++ ys) ≡ true
unfolding all_allowed
allowed_append b [] ys g h = h
allowed_append b (a ∷ xs) ys g h = elim (Bool-cases (allowed b a)) [
  | inl e ↦ rw e (allowed_append b xs ys (rw e at g) h)
  | inr e ↦ let c = rw e at g in cc
]

journeys_allowed : (rs : List Verdict) → all_allowed true (map journey rs) ≡ true
unfolding all_allowed
journeys_allowed [] = refl
journeys_allowed (r ∷ rs) = journeys_allowed rs

preflight_allowed : (cs : List (String × Bool)) → all_allowed false (run_preflight cs).0 ≡ true
unfolding run_preflight all_allowed
preflight_allowed [] = refl
preflight_allowed ((name, true) ∷ cs) = preflight_allowed cs
preflight_allowed ((name, false) ∷ cs) = refl

module _ (g : Given) (pr : ℤ) where
  posting_allowed : all_allowed true (posting g pr).0 ≡ true
  unfolding all_allowed
  posting_allowed = by_flag (ltb_ℤ (pos 0) pr) g.posted
    where
      by_flag :
          (b : Bool) (r : Result String String)
          → all_allowed true
              (if b
                then elim r as (λ _. List Act × ℕ) [
                  | err e ↦ (post_failed ∷ [], 2)
                  | ok url ↦ (post (status_state g.journeys) ∷ [], exit_code g.journeys)
                ]
                else ([], exit_code g.journeys)).0
            ≡ true
      by_flag true (err e) = refl
      by_flag true (ok url) = refl
      by_flag false r = refl

  locked_allowed : all_allowed true (locked g pr).0 ≡ true
  unfolding all_allowed
  locked_allowed = by_build (passes (check_build g.service_later (text_of g.head))) g.interrupted
    where
      by_build :
          (b i : Bool)
          → all_allowed true
              (if b
                then then_acts (preflight "build" true ∷ []) (
                    if i
                    then (map journey g.journeys ++ interrupt ∷ [], 2)
                    else then_acts (map journey g.journeys ++ summary ∷ []) (posting g pr))
                else (preflight "build" false ∷ [], 2)).0
            ≡ true
      by_build false i = refl
      by_build true true =
          allowed_append true (map journey g.journeys) (interrupt ∷ [])
            (journeys_allowed g.journeys) refl
      by_build true false =
          allowed_append true (map journey g.journeys ++ summary ∷ []) (posting g pr).0
            (allowed_append true (map journey g.journeys) (summary ∷ [])
              (journeys_allowed g.journeys) refl)
            posting_allowed

  with_lock_well : (o : Result String (Unit {0})) → well_locked false (with_lock g pr o).0 ≡ true
  unfolding well_locked
  with_lock_well (err e) = refl
  with_lock_well (ok u) = pass_over true (locked g pr).0 (release_lock ∷ []) locked_allowed

  after_well :
      (acts : List Act) (good : Bool)
      → all_allowed false acts ≡ true
      → well_locked false (after_preflight g pr (acts, good)).0 ≡ true
  unfolding well_locked
  after_well acts true h = pass_over false acts (with_lock g pr g.lock).0 h ∙ with_lock_well g.lock
  after_well acts false h =
      ap (well_locked false) (sym (append_nil acts)) ∙ pass_over false acts [] h

-- A run takes the lock only where it does not hold it, has released it at its end if it took it, and
-- no journey runs and nothing is posted without it.
pub run-well_locked : (g : Given) → well_locked false (run g).0 ≡ true
unfolding run well_locked
run-well_locked g = by_flags g.flags g.tool_root
  where
    by_flags :
        (f : Result String Flags) (r : Result String String)
        → well_locked false
            (elim f as (λ _. List Act × ℕ) [
              | err e ↦ (usage ∷ [], 2)
              | ok f ↦ elim r as (λ _. List Act × ℕ) [
                | err e ↦ (not_in_checkout ∷ [], 2)
                | ok root ↦ after_preflight g f.post (run_preflight (checks g f.post))
              ]
            ]).0
          ≡ true
    by_flags (err e) r = refl
    by_flags (ok f) (err e) = refl
    by_flags (ok f) (ok root) =
        after_well g f.post (run_preflight (checks g f.post)).0 (run_preflight (checks g f.post)).1
          (preflight_allowed (checks g f.post))
