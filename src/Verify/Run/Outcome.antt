-- ===== src/Verify/Run/Outcome.antt =====
-- What the exit code 0 of a run of devboxverify says.
use relay_scheduler.Base.{
  ℕ, ◌≤◌, String, ◌≡◌, refl, inl, inr, Bool, true, false, not, Option, none, some, List, [], ◌∷◌,
  ◌++◌, map, arith, eq_iff, nat_eq, ◌==◌, if◌then◌else◌, Bool-cases, length, All, Result, ok, err,
  ◌>>◌, map_err, is_empty,
}
use relay_scheduler.Base.Int.{ℤ, pos, ltb_ℤ}
use relay_scheduler.Base.Int.{ℤ, pos, ltb_ℤ}
use relay_scheduler.Verify.{exit_code, status_state}
use relay_scheduler.Verify.Score.{Passed, exit_code_lem}
use relay_scheduler.Verify.Machine.{WorldMarker, read_marker}
use relay_scheduler.Verify.Machine.Marker.{IsTestMachine, read_marker-IsTestMachine}
use relay_scheduler.Verify.Run.{
  Service, BuildError, ServiceError, mismatch, no_revision, other_revision, modified_tree, setting,
  build_matches, with_path, with_settings, Given, Flags, Act, usage, not_in_checkout, interrupt,
  summary, post_failed, preflight, journey, post, run, run_preflight, checks, after_preflight,
  with_lock, locked, posting, passes, check_build, text_of, then_acts,
}

module _ (g : Given) (pr : ℤ) where
  good_run :
      (acts : List Act) (good : Bool) → (after_preflight g pr (acts, good)).1 ≡ 0 → good ≡ true
  good_run acts true h = refl
  good_run acts false h = absurd (omega (arith, h))

  posting_zero : (posting g pr).1 ≡ 0 → exit_code g.journeys ≡ 0
  posting_zero h = by_flag (ltb_ℤ (pos 0) pr) g.posted h
    where
      by_flag :
          (b : Bool) (r : Result String String)
          → (if b
              then elim r as (λ _. List Act × ℕ) [
                | err e ↦ (post_failed ∷ [], 2)
                | ok url ↦ (post (status_state g.journeys) ∷ [], exit_code g.journeys)
              ]
              else ([], exit_code g.journeys)).1
            ≡ 0
          → exit_code g.journeys ≡ 0
      by_flag true (err e) h = absurd (omega (arith, h))
      by_flag true (ok url) h = h
      by_flag false r h = h

  locked_zero :
      (locked g pr).1 ≡ 0
      → (passes (check_build g.service_later (text_of g.head)) ≡ true)
        × (g.interrupted ≡ false)
        × ((posting g pr).1 ≡ 0)
  locked_zero h = by_build (passes (check_build g.service_later (text_of g.head))) g.interrupted h
    where
      by_build :
          (b i : Bool)
          → (if b
              then then_acts (preflight "build" true ∷ []) (
                  if i
                  then (map journey g.journeys ++ interrupt ∷ [], 2)
                  else then_acts (map journey g.journeys ++ summary ∷ []) (posting g pr))
              else (preflight "build" false ∷ [], 2)).1
            ≡ 0
          → (b ≡ true) × (i ≡ false) × ((posting g pr).1 ≡ 0)
      by_build false i h = absurd (omega (arith, h))
      by_build true true h = absurd (omega (arith, h))
      by_build true false h = (refl, refl, h)

abbrev pub Good : String × Bool → Type 0
Good (name, good) = good ≡ true

preflight-All : (cs : List (String × Bool)) → (run_preflight cs).1 ≡ true → All Good cs
unfolding run_preflight
preflight-All [] h = tt
preflight-All ((name, true) ∷ cs) h = (refl, preflight-All cs h)
preflight-All ((name, false) ∷ cs) h = cc

-- The settings of a build of the commit, from a tree without changes.
abbrev pub BuiltFrom : String → List (String × String) → Type 0
BuiltFrom head settings =
    (setting "vcs.revision" settings "" ≡ head) × (setting "vcs.modified" settings "" ≡ "false")

-- The tests of buildMatches in turn.
abbrev tested : Bool → Bool → Bool → Result BuildError (Unit {0})
tested unknown same clean =
    if unknown
    then err no_revision
    else if not same
    then err other_revision
    else if not clean
    then err modified_tree
    else ok tt

matches-BuiltFrom :
    (settings : List (String × String)) (head : String)
    → passes (build_matches settings head) ≡ true
    → BuiltFrom head settings
unfolding build_matches
matches-BuiltFrom settings head h =
    tests (setting "vcs.revision" settings "" == "") (setting "vcs.revision" settings "" == head)
      (setting "vcs.modified" settings "" == "false") refl refl h
  where
    tests :
        (a b c : Bool)
        → (setting "vcs.revision" settings "" == head) ≡ b
        → (setting "vcs.modified" settings "" == "false") ≡ c
        → passes (tested a b c) ≡ true
        → BuiltFrom head settings
    tests true b c e f h = cc
    tests false false c e f h = cc
    tests false true false e f h = cc
    tests false true true e f h = ((eq_iff _ head).0 e, (eq_iff _ "false").0 f)

service-BuiltFrom :
    (s : Service) (head : String)
    → passes (check_build s head) ≡ true
    → (settings : List (String × String)) × (s.settings ≡ some settings) × BuiltFrom head settings
unfolding check_build
service-BuiltFrom s head h = elim (Bool-cases (nat_eq s.processes 1)) [
  | inl e ↦ by_path s.path (rw e at h)
  | inr e ↦ let c = rw e at h in cc
]
  where
    first_good :
        (r : Result BuildError (Unit {0})) (rest : Result ServiceError (Unit {0}))
        → passes (map_err mismatch r >> rest) ≡ true
        → passes r ≡ true
    first_good (ok u) rest h = refl
    first_good (err x) rest h = cc

    by_settings :
        (o : Option (List (String × String)))
        → s.settings ≡ o
        → passes (with_settings s head o) ≡ true
        → (settings : List (String × String)) × (s.settings ≡ some settings)
          × BuiltFrom head settings
    by_settings none e h = cc
    by_settings (some settings) e h =
        (settings, e, matches-BuiltFrom settings head (first_good _ _ h))

    by_path :
        (o : Option String)
        → passes (with_path s head o) ≡ true
        → (settings : List (String × String)) × (s.settings ≡ some settings)
          × BuiltFrom head settings
    by_path none h = cc
    by_path (some path) h = elim (Bool-cases (is_empty path)) [
      | inl e ↦ let c = rw e at h in cc
      | inr e ↦ by_settings s.settings refl (rw e at h)
    ]

passed_ok {κ ℓ} :
    {E : Type κ} {A : Type ℓ} (r : Result E A) → passes r ≡ true → (a : A) × (r ≡ ok a)
passed_ok (ok a) h = (a, refl)
passed_ok (err e) h = cc

-- All checks found what they want, before and after the lock, on a test machine whose service is
-- built from the commit, and each journey passed.
pub record IsClean (g : Given) : Type 0 where
  flags : Flags
  flags_good : g.flags ≡ ok flags
  checked : All Good (checks g flags.post)
  held : (u : Unit {0}) × (g.lock ≡ ok u)
  machine : (w : WorldMarker) × IsTestMachine g.marker_file w
  built :
      (settings : List (String × String)) × (g.service_later.settings ≡ some settings)
      × BuiltFrom (text_of g.head) settings
  finished : g.interrupted ≡ false
  some_ran : 1 ≤ length g.journeys
  passed : All Passed g.journeys

-- Exit code 0 says that the flags, every check of the preflight and the lock were good, that the
-- machine is a test machine, that the service that ran with the lock held is built from the checkout's
-- commit and a clean tree, that nothing interrupted the run, and that a journey ran and all that ran
-- passed.
pub run_zero-IsClean : (g : Given) → (run g).1 ≡ 0 → IsClean g
unfolding run
run_zero-IsClean g h = by_flags g.flags g.tool_root refl h
  where
    by_lock :
        (f : Flags) (o : Result String (Unit {0}))
        → g.flags ≡ ok f
        → (run_preflight (checks g f.post)).1 ≡ true
        → g.lock ≡ o
        → (with_lock g f.post o).1 ≡ 0
        → IsClean g
    by_lock f (err x) e c l h = absurd (omega (arith, h))
    by_lock f (ok u) e c l h =
        let (same, going, posts) = locked_zero g f.post h in
        let checked = preflight-All (checks g f.post) c in
        let (some_ran, all) = (exit_code_lem g.journeys).0.0 (posting_zero g f.post posts) in
        record {
          flags = f;
          flags_good = e;
          checked = checked;
          held = (u, l);
          machine =
              let (w, m) = passed_ok (read_marker g.marker_file) checked.0 in
              (w, read_marker-IsTestMachine g.marker_file w m);
          built = service-BuiltFrom g.service_later (text_of g.head) same;
          finished = going;
          some_ran = some_ran;
          passed = all;
        }

    by_flags :
        (x : Result String Flags) (r : Result String String)
        → g.flags ≡ x
        → (elim x as (λ _. List Act × ℕ) [
          | err e ↦ (usage ∷ [], 2)
          | ok f ↦ elim r as (λ _. List Act × ℕ) [
            | err e ↦ (not_in_checkout ∷ [], 2)
            | ok root ↦ after_preflight g f.post (run_preflight (checks g f.post))
          ]
        ]).1
          ≡ 0
        → IsClean g
    by_flags (err e) r e' h = absurd (omega (arith, h))
    by_flags (ok f) (err e) e' h = absurd (omega (arith, h))
    by_flags (ok f) (ok root) e' h =
        let good =
          good_run g f.post (run_preflight (checks g f.post)).0 (run_preflight (checks g f.post)).1
            h in
        by_lock f g.lock e' good refl (rw good at h)
