-- ===== src/Logging.antt =====
-- logging.go: trace ids, the level with its debug window, and the lines of the logging standard.
pub mod Trace
pub mod Clip
pub mod Window
pub mod Line
pub mod Standard
use relay_scheduler.Base.{
  ℕ, zero, suc, ◌+◌, ◌-◌, ◌*◌, ◌/◌, ◌%◌, ◌^◌, ◌≤◌, ◌<◌, String, ◌≡◌, refl, sym, ap, subst, ◌∙◌, ◌≢◌,
  ◌↔◌, ◌⊎◌, inl, inr, Bool, true, false, not, ◌&&◌, ◌||◌, Option, none, some, List, [], ◌∷◌, ◌++◌,
  map, arith, eq_iff, eq_refl, ltb, leb, nat_eq, ◌==◌, is_empty, if◌then◌else◌, Bool-cases,
  Option-cases, Result-cases, ltb→lt, lt→ltb, leb→le, ltb-false→le, length, take, drop, select,
  length-append, All, Result, ok, err, ◌>>=◌, ◌>>◌, refuse, map_err, lookup, remove, insert,
  lookup-remove, lookup-insert, contains, discard, adjoin, contains-discard, contains-adjoin,
}
use relay_scheduler.Base.Int.{
  ℤ, pos, negsuc, pos_part, neg_part, ltb_ℤ, leb_ℤ, eqb_ℤ, signed64, mul64, offset_by, mul64_fits,
  mul64_range,
}
use Prim.Native.String.{◌++◌ as ◌⧺◌}
use relay_scheduler.Clock.{Time, minute}
use relay_scheduler.Clock.Rfc3339.{format_millis}
use relay_scheduler.Text.{Text, codes, lower, trim_space, text_eq, decimal}

-- A Go string as its runes are decoded: `none` is a byte that is no UTF-8.
abbrev pub Raw : Type 0
Raw = List (Option ℕ)

abbrev pub ascii : String → Raw
ascii s = map some (codes s)

abbrev pub max_log_text : ℕ
max_log_text = 500

abbrev pub debug_window : ℕ
debug_window = 30 * minute

abbrev pub replacement : ℕ
replacement = 0xFFFD

-- strings.ToValidUTF8(s, "\uFFFD"): each run of invalid bytes becomes one character.
unfoldable pub to_valid : Bool → Raw → Text
to_valid inside [] = []
to_valid inside (some c ∷ s) = c ∷ to_valid false s
to_valid true (none ∷ s) = to_valid true s
to_valid false (none ∷ s) = replacement ∷ to_valid true s

-- `runes[:n]`: `none` past the end, where Go panics, or shows zero runes where the capacity of the
-- conversion's result reaches as far.
abbrev pub reslice : ℕ → Text → Option Text
reslice n t = if leb n (length t) then some (take n t) else none

unfoldable pub clip : Raw → Option Text
unfolding to_valid
clip s =
    let whole = to_valid false s in
    if leb (length s) max_log_text then some whole else reslice max_log_text whole

-- The values of slog's attributes; a duration and any other value come with what fmt prints of them,
-- and any other value with whether encoding/json takes it.
pub data Scalar : Type 0 where
  text : Raw → Scalar
  int64 : ℤ → Scalar
  uint64 : ℕ → Scalar
  duration : ℤ → Raw → Scalar
  any_int : ℤ → Scalar
  other : Raw → Bool → Scalar

mutual
  pub data Value : Type 0 where
    scalar : Scalar → Value
    group : Attrs → Value

  pub data Attrs : Type 0 where
    no_attrs : Attrs
    attr : String → Value → Attrs → Attrs

abbrev pub group_prefix : String → String → String
group_prefix prefix name = if is_empty name then prefix else prefix ⧺ name ⧺ "."

unfoldable pub flatten : String → Attrs → List (String × Scalar)
flatten prefix no_attrs = []
flatten prefix (attr key (group inner) rest) =
    flatten (group_prefix prefix key) inner ++ flatten prefix rest
flatten prefix (attr key (scalar v) rest) =
    if is_empty key then flatten prefix rest else (prefix ⧺ key, v) ∷ flatten prefix rest

-- slog's levels: debug -4, info 0, warn 4, error 8.
abbrev pub level_debug : ℤ
level_debug = negsuc 3

abbrev pub level_info : ℤ
level_info = pos 0

abbrev pub level_warn : ℤ
level_warn = pos 4

abbrev pub level_error : ℤ
level_error = pos 8

abbrev pub level_name : ℤ → String
level_name l =
    if leb_ℤ level_error l
    then "error"
    else if leb_ℤ level_warn l
    then "warn"
    else if leb_ℤ level_info l
    then "info"
    else "debug"

-- A value of a line's JSON object.
pub data Field : Type 0 where
  plain : String → Field
  clipped : Text → Field
  raw : Raw → Field
  number : ℤ → Field
  any : Scalar → Field

abbrev pub Entries : Type 0
Entries = List (String × Field)

-- The lines written, newest first.
pub record LogState : Type 0 where
  pub lines : List Entries
  pub service : String
  pub level : ℤ
  pub debug_on : Bool
  pub debug_since : Time

abbrev pub encodes_field : Field → Bool
encodes_field (any (other s b)) = b
encodes_field _ = true

unfoldable pub encodes : Entries → Bool
encodes [] = true
encodes ((k, f) ∷ m) = encodes_field f && encodes m

-- An object that encoding/json refuses is dropped.
unfoldable pub write : LogState → Entries → LogState
unfolding encodes
write st m = if encodes m then record st { lines = m ∷ st.lines } else st

abbrev pub default_service : String
default_service = "relay-scheduler"

abbrev level_of : Text → ℤ
level_of s =
    if text_eq s (codes "error")
    then level_error
    else if text_eq s (codes "warn")
    then level_warn
    else if text_eq s (codes "debug")
    then level_debug
    else level_info

-- newLogger, with the two environment variables and the clock.
unfoldable pub new_logger : String → String → Time → LogState
new_logger level service now =
    let name = lower (trim_space (codes level)) in
    record {
      lines = [];
      service = if is_empty service then default_service else service;
      level = level_of name;
      debug_on = text_eq name (codes "debug");
      debug_since = now;
    }

abbrev pub window_line : LogState → Time → Entries
window_line st now =
    ("ts", plain (format_millis now))
    ∷ ("level", plain "warn")
    ∷ ("msg", plain "debug logging ended after 30 minutes; level is now info")
    ∷ ("service", plain st.service)
    ∷ ("op", plain "log.level")
    ∷ ("status", plain "error")
    ∷ ("duration_ms", number (pos 0))
    ∷ ("error", plain "debug window expired")
    ∷ ("trace_id", plain "")
    ∷ []

-- The clock is read for the test, and again for the line.
unfoldable pub enabled : LogState → Time → Time → ℤ → LogState × Bool
unfolding write
enabled st now later l =
    let ended = st.debug_on && not (ltb now (st.debug_since + debug_window)) in
    let info = record st { debug_on = false; level = level_info } in
    let st' = if ended then write info (window_line st later) else st in (st', leb_ℤ st'.level l)

-- A handler shares its logger's state, which is an argument of `handle`.
pub record Handler : Type 0 where
  pub prefix : String
  pub attrs : List (String × Scalar)

unfoldable pub with_attrs : Handler → Attrs → Handler
unfolding flatten
with_attrs h more = record h { attrs = h.attrs ++ flatten h.prefix more }

unfoldable pub with_group : Handler → String → Handler
with_group h name = record h { prefix = group_prefix h.prefix name }

-- Duration.Milliseconds, which rounds towards zero.
abbrev pub milliseconds : ℤ → ℤ
milliseconds (pos n) = pos (n / 1_000_000)
milliseconds (negsuc n) = if ltb (suc n) 1_000_000 then pos 0 else negsuc (suc n / 1_000_000 - 1)

abbrev pub duration_ms : Scalar → Option ℤ
duration_ms (int64 n) = some n
duration_ms (uint64 n) = some (signed64 (n % 2 ^ 64))
duration_ms (duration n s) = some (milliseconds n)
duration_ms (any_int n) = some n
duration_ms _ = none

abbrev pub printed : Scalar → Raw
printed (text s) = s
printed (int64 n) = ascii (decimal n)
printed (uint64 n) = ascii (decimal (pos n))
printed (duration n s) = s
printed (any_int n) = ascii (decimal n)
printed (other s b) = s

abbrev pub is_text : Scalar → Bool
is_text (text s) = true
is_text _ = false

abbrev pub is_protected : String → Bool
is_protected key =
    (key == "ts") || (key == "level") || (key == "msg") || (key == "service") || (key == "trace_id")

abbrev pub set_duration : Entries → Option ℤ → Entries
set_duration m none = m
set_duration m (some ms) = insert "duration_ms" (number ms) m

abbrev pub set_error : Entries → Option Text → Option Entries
set_error m none = none
set_error m (some t) = some (insert "error" (clipped t) m)

-- Handle's function `apply`.
unfoldable pub apply : Entries → String × Scalar → Option Entries
unfolding clip
apply m (key, v) =
    if is_protected key
    then some (insert ("attr_" ⧺ key) (any v) m)
    else if key == "op"
    then some (insert "op" (raw (printed v)) m)
    else if key == "status"
    then some
        (if is_text v then insert "status" (raw (printed v)) m else insert "http_status" (any v) m)
    else if key == "duration_ms"
    then some (set_duration m (duration_ms v))
    else if key == "error"
    then set_error m (clip (printed v))
    else some (insert key (any v) m)

unfoldable pub apply_all : Option Entries → List (String × Scalar) → Option Entries
unfolding apply
apply_all none kvs = none
apply_all (some m) [] = some m
apply_all (some m) (kv ∷ kvs) = apply_all (apply m kv) kvs

pub record LogRecord : Type 0 where
  pub time : Time
  pub level : ℤ
  pub message : Raw
  pub attrs : Attrs

abbrev is_failure : String → Bool
is_failure level = (level == "error") || (level == "warn")

-- The entries before the attributes.
abbrev pub first_entries : String → String → LogRecord → Time → Text → Entries
first_entries service trace r now msg =
    let level = level_name r.level in
    ("ts", plain (format_millis (if nat_eq r.time 0 then now else r.time)))
    ∷ ("level", plain level)
    ∷ ("msg", clipped msg)
    ∷ ("service", plain service)
    ∷ ("op", raw (ascii "log"))
    ∷ ("status", raw (ascii (if is_failure level then "error" else "ok")))
    ∷ ("duration_ms", number (pos 0))
    ∷ ("error", clipped [])
    ∷ ("trace_id", plain trace)
    ∷ []

abbrev pub entries_of : Handler → String → String → LogRecord → Time → Option Text → Option Entries
entries_of h service trace r now none = none
entries_of h service trace r now (some msg) =
    apply_all (apply_all (some (first_entries service trace r now msg)) h.attrs)
      (flatten h.prefix r.attrs)

abbrev written : LogState → Option Entries → Option LogState
written st none = none
written st (some m) = some (write st m)

-- `none` where a slice of the message or of an error goes past its end.
unfoldable pub handle : Handler → LogState → String → LogRecord → Time → Option LogState
unfolding clip flatten apply_all write
handle h st trace r now = written st (entries_of h st.service trace r now (clip r.message))
