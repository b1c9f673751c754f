-- ===== src/Logging/Window.antt =====
-- The debug window of relayHandler.Enabled, over the calls of a logger's life.
use relay_scheduler.Base.{
  ℕ, suc, ◌+◌, ◌≤◌, String, ◌≡◌, refl, ap, subst, ◌∙◌, inl, inr, Bool, true, false, not, ◌&&◌, ◌||◌,
  List, [], ◌∷◌, arith, ltb, if◌then◌else◌, Bool-cases, ltb-false→le, length,
}
use relay_scheduler.Base.Int.{ℤ, leb_ℤ}
use relay_scheduler.Clock.{Time}
use relay_scheduler.Text.{codes, lower, trim_space, text_eq, text_eq_sound}
use relay_scheduler.Logging.{
  LogState, enabled, write, new_logger, encodes, debug_window, level_debug, level_info, window_line,
}

-- A call of Enabled: its clock reading, the reading for the line, and the level.
pub record Ask : Type 0 where
  pub now : Time
  pub later : Time
  pub level : ℤ

abbrev answered : LogState × Bool → LogState × List Bool → LogState × List Bool
answered (st, b) (st', bs) = (st', b ∷ bs)

-- The calls in turn, with their answers.
unfoldable pub asked : LogState → List Ask → LogState × List Bool
asked st [] = (st, [])
asked st (a ∷ rest) =
    let first = enabled st a.now a.later a.level in answered first (asked first.0 rest)

abbrev pub InOrder : Time → List Ask → Type 0
InOrder t [] = Unit {0}
InOrder t (a ∷ rest) = (t ≤ a.now) × InOrder a.now rest

-- The level 30 minutes long, and after.
abbrev pub window_level : Time → Time → ℤ
window_level since now = if ltb now (since + debug_window) then level_debug else level_info

unfoldable pub expected : Time → List Ask → List Bool
expected since [] = []
expected since (a ∷ rest) = leb_ℤ (window_level since a.now) a.level ∷ expected since rest

unfoldable pub ends_window : Time → List Ask → Bool
ends_window since [] = false
ends_window since (a ∷ rest) = not (ltb a.now (since + debug_window)) || ends_window since rest

abbrev pub Answers : LogState → Time → List Ask → ℕ → Type 0
Answers st since asks n =
    ((asked st asks).1 ≡ expected since asks) × (length (asked st asks).0.lines ≡ n)

past_window :
    (since t now : Time)
    → since + debug_window ≤ t
    → t ≤ now
    → ltb now (since + debug_window) ≡ false
past_window since t now h k = ground arith

-- Enabled, by the outcome of its test.
abbrev enabled_if : LogState → Bool → Time → ℤ → LogState × Bool
enabled_if st ended later l =
    let info = record st { debug_on = false; level = level_info } in
    let st' = if ended then write info (window_line st later) else st in (st', leb_ℤ st'.level l)

enabled_after :
    (st : LogState) (now later : Time) (l : ℤ)
    → st.debug_on ≡ false
    → enabled st now later l ≡ (st, leb_ℤ st.level l)
unfolding enabled
enabled_after st now later l off = answer st.debug_on off
  where
    answer :
        (b : Bool)
        → b ≡ false
        → enabled_if st (b && not (ltb now (st.debug_since + debug_window))) later l
          ≡ (st, leb_ℤ st.level l)
    answer true e = cc
    answer false e = refl

enabled_during :
    (st : LogState) (now later : Time) (l : ℤ)
    → ltb now (st.debug_since + debug_window) ≡ true
    → enabled st now later l ≡ (st, leb_ℤ st.level l)
unfolding enabled
enabled_during st now later l early = rw early (answer st.debug_on)
  where
    answer : (b : Bool) → enabled_if st (b && false) later l ≡ (st, leb_ℤ st.level l)
    answer true = refl
    answer false = refl

-- The state once the window has ended.
abbrev info_state : LogState → Time → LogState
info_state st later = record st {
  debug_on = false;
  level = level_info;
  lines = window_line st later ∷ st.lines;
}

enabled_ends :
    (st : LogState) (now later : Time) (l : ℤ)
    → st.debug_on ≡ true
    → ltb now (st.debug_since + debug_window) ≡ false
    → enabled st now later l ≡ (info_state st later, leb_ℤ level_info l)
unfolding enabled write encodes
enabled_ends st now later l on late = rw late (answer st.debug_on on)
  where
    answer :
        (b : Bool)
        → b ≡ true
        → enabled_if st (b && true) later l ≡ (info_state st later, leb_ℤ level_info l)
    answer true e = refl
    answer false e = cc

after_window :
    (st : LogState) (since t : Time) (asks : List Ask)
    → st.debug_on ≡ false
    → st.level ≡ level_info
    → since + debug_window ≤ t
    → InOrder t asks
    → Answers st since asks (length st.lines)
unfolding asked expected
after_window st since t [] off info past o = (refl, refl)
after_window st since t (a ∷ rest) off info past (later, o) =
    let (bs, n) = after_window st since a.now rest off info (omega arith) o in
    rw (enabled_after st a.now a.later a.level off, past_window since t a.now past later)
      (rw (bs, n, info) (refl, refl))

-- How many lines the window has written.
abbrev pub window_lines : Time → List Ask → ℕ
window_lines since asks = if ends_window since asks then 1 else 0

during_window :
    (st : LogState) (t : Time) (asks : List Ask)
    → st.debug_on ≡ true
    → st.level ≡ level_debug
    → st.lines ≡ []
    → InOrder t asks
    → Answers st st.debug_since asks (window_lines st.debug_since asks)
unfolding asked expected ends_window
during_window st t [] on debug fresh o = (refl, ap length fresh)
during_window st t (a ∷ rest) on debug fresh (later, o) =
    elim (Bool-cases (ltb a.now (st.debug_since + debug_window))) [
      | inl e ↦
          let (bs, n) = during_window st a.now rest on debug fresh o in
          rw (enabled_during st a.now a.later a.level e, e) (rw (bs, debug) refl, n)
      | inr e ↦
          let past : st.debug_since + debug_window ≤ a.now = ltb-false→le _ _ e in
          let (bs, n) =
            after_window (info_state st a.later) st.debug_since a.now rest refl refl past o in
          rw (enabled_ends st a.now a.later a.level on e, e)
            (ap (◌∷◌ (leb_ℤ level_info a.level)) bs, n ∙ ap suc (ap length fresh))
    ]

debug_logger :
    (level service : String) (since : Time)
    → text_eq (lower (trim_space (codes level))) (codes "debug") ≡ true
    → let st = new_logger level service since in
      (st.debug_on ≡ true) × (st.level ≡ level_debug) × (st.lines ≡ []) × (st.debug_since ≡ since)
unfolding new_logger text_eq
debug_logger level service since h =
    let same = text_eq_sound (lower (trim_space (codes level))) (codes "debug") h in
    (h, rw same refl, refl, refl)

-- The debug window: a logger made for debug, in whatever spelling, answers every later call of
-- Enabled as a debug logger within 30 minutes and as an info logger from then on, and writes its
-- one line at the first call that comes too late, if there is one; the clock does not go back.
pub debug_window_lem :
    (level service : String) (since : Time) (asks : List Ask)
    → text_eq (lower (trim_space (codes level))) (codes "debug") ≡ true
    → InOrder since asks
    → Answers (new_logger level service since) since asks (window_lines since asks)
debug_window_lem level service since asks h o =
    let (on, debug, fresh, same) = debug_logger level service since h in
    subst (λ (t : Time). Answers (new_logger level service since) t asks (window_lines t asks)) same
      (during_window (new_logger level service since) since asks on debug fresh o)
