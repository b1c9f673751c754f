-- ===== src/Examples/Logging.antt =====
-- Log lines and trace ids: the properties of logging.go.
use relay_scheduler.Base.{
  ℕ, ◌+◌, ◌<◌, ◌≡◌, refl, true, none, some, List, [], ◌∷◌, arith, All, false,
}
use relay_scheduler.Base.Int.{pos}
use relay_scheduler.Text.{codes, text_eq, lower, trim_space, decimal}
use relay_scheduler.Logging.{
  Handler, LogRecord, LogState, new_logger, handle, write, text, int64, no_attrs, attr, scalar,
  flatten, ascii, clip, level_warn, level_error, level_debug, debug_window, Entries,
}
use relay_scheduler.Logging.Clip.{invalid_bytes, clip_past_end}
use relay_scheduler.Logging.Trace.{
  bytes_of, valid_trace_id, trace_middleware, trace_middleware_valid,
}
use relay_scheduler.Logging.Window.{Ask, Answers, debug_window_lem, window_lines}
use relay_scheduler.Logging.Standard.{IsStandard, handle-IsStandard}
use relay_scheduler.Examples.{noon}

abbrev zeros : List ℕ
zeros = 0 ∷ 0 ∷ 0 ∷ 0 ∷ 0 ∷ 0 ∷ 0 ∷ 0 ∷ 0 ∷ 0 ∷ 0 ∷ 0 ∷ 0 ∷ 0 ∷ 0 ∷ 171 ∷ []

zeros_fit : All (λ b. b < 256) zeros
zeros_fit = ground arith

trace_middleware_valid_example :
    (valid_trace_id (trace_middleware (codes "no id") zeros) ≡ true)
    × (valid_trace_id (codes "no id") ≡ true
        → trace_middleware (codes "no id") zeros ≡ codes "no id")
    × (valid_trace_id (codes "no id") ≡ false
        → bytes_of (trace_middleware (codes "no id") zeros) ≡ zeros)
trace_middleware_valid_example = trace_middleware_valid (codes "no id") zeros refl zeros_fit

clip_past_end_example : clip (invalid_bytes 501) ≡ none
clip_past_end_example = clip_past_end 501 (omega arith)

-- Two calls in the window, and two after it.
abbrev calls : List Ask
calls =
    record { now = noon; later = noon; level = level_debug }
    ∷ record { now = noon + 5; later = noon + 6; level = level_warn }
    ∷ record { now = noon + debug_window; later = noon + debug_window; level = level_debug }
    ∷ record { now = noon + debug_window; later = noon + debug_window; level = level_error }
    ∷ []

debug_window_lem_example :
    Answers (new_logger " Debug" "relay-scheduler" noon) noon calls (window_lines noon calls)
unfolding text_eq lower trim_space
debug_window_lem_example =
    debug_window_lem " Debug" "relay-scheduler" noon calls refl
      (omega arith, (omega arith, (omega arith, (omega arith, tt))))

abbrev handler : Handler
handler = record { prefix = ""; attrs = ("op", text (ascii "job.fire")) ∷ [] }

-- A message with its own level and duration, in nanoseconds.
abbrev fired : LogRecord
fired = record {
  time = noon;
  level = level_error;
  message = ascii "run failed";
  attrs =
      attr "level" (scalar (text (ascii "high")))
        (attr "duration_ms" (scalar (int64 (pos 12))) no_attrs);
}

abbrev logger : LogState
logger = new_logger "" "" noon

handle-IsStandard_example :
    (m : Entries) × (handle handler logger "t-12345678" fired noon ≡ some (write logger m))
    × IsStandard logger.service "t-12345678" fired noon (codes "run failed") m
unfolding flatten decimal
handle-IsStandard_example =
    handle-IsStandard handler logger "t-12345678" fired noon (codes "run failed") refl
      ((codes "job.fire", refl), tt) ((codes "high", refl), ((codes "12", refl), tt))
