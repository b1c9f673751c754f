-- ===== src/Logging/Trace.antt =====
-- Trace ids: validTraceID, newTraceID and traceMiddleware of logging.go.
use relay_scheduler.Base.{
  ℕ, ◌+◌, ◌-◌, ◌*◌, ◌/◌, ◌%◌, ◌<◌, ◌≡◌, refl, sym, ◌∙◌, inl, inr, Bool, true, false, ◌&&◌, ◌||◌,
  List, [], ◌∷◌, arith, ltb, leb, nat_eq, if◌then◌else◌, Bool-cases, length, All,
}
use relay_scheduler.Text.{Text}

abbrev pub is_trace_char : ℕ → Bool
is_trace_char c =
    (leb b'A' c && leb c b'Z')
    || (leb b'a' c && leb c b'z')
    || (leb b'0' c && leb c b'9')
    || nat_eq c b'_'
    || nat_eq c b'-'

unfoldable pub all_trace_chars : Text → Bool
all_trace_chars [] = true
all_trace_chars (c ∷ s) = is_trace_char c && all_trace_chars s

-- traceIDPattern, `^[A-Za-z0-9_-]{8,64}$`.
unfoldable pub valid_trace_id : Text → Bool
unfolding all_trace_chars
valid_trace_id s = leb 8 (length s) && leb (length s) 64 && all_trace_chars s

abbrev pub hex_digit : ℕ → ℕ
hex_digit n = if ltb n 10 then b'0' + n else b'a' + (n - 10)

-- hex.EncodeToString.
unfoldable pub hex_text : List ℕ → Text
hex_text [] = []
hex_text (b ∷ bs) = hex_digit (b / 16) ∷ hex_digit (b % 16) ∷ hex_text bs

-- newTraceID, with the 16 bytes of crypto/rand.
abbrev pub new_trace_id : List ℕ → Text
new_trace_id random = hex_text random

-- The trace id that traceMiddleware gives the request's context.
unfoldable pub trace_middleware : Text → List ℕ → Text
unfolding valid_trace_id hex_text
trace_middleware header random = if valid_trace_id header then header else new_trace_id random

hex_digit-in : (n : ℕ) → n < 16 → is_trace_char (hex_digit n) ≡ true
hex_digit-in n h = ground arith

hex_text_fits :
    (bs : List ℕ)
    → All (λ b. b < 256) bs
    → (length (hex_text bs) ≡ 2 * length bs) × (all_trace_chars (hex_text bs) ≡ true)
unfolding hex_text all_trace_chars
hex_text_fits [] h = (omega arith, refl)
hex_text_fits (b ∷ bs) (h, hs) =
    let (n, chars) = hex_text_fits bs hs in
    (
      omega (arith, n),
      rw (hex_digit-in (b / 16) (omega arith), hex_digit-in (b % 16) (omega arith), chars) refl,
    )

-- The value of a hexadecimal digit, and the bytes that a text writes in such digits.
abbrev digit_value : ℕ → ℕ
digit_value c = if leb c b'9' then c - b'0' else 10 + (c - b'a')

abbrev pub bytes_of : Text → List ℕ
bytes_of [] = []
bytes_of (c ∷ []) = []
bytes_of (c ∷ d ∷ s) = (digit_value c * 16 + digit_value d) ∷ bytes_of s

digit_value_lem : (n : ℕ) → n < 16 → digit_value (hex_digit n) ≡ n
digit_value_lem n h = ground arith

bytes_of-hex_text : (bs : List ℕ) → All (λ b. b < 256) bs → bytes_of (hex_text bs) ≡ bs
unfolding hex_text
bytes_of-hex_text [] h = refl
bytes_of-hex_text (b ∷ bs) (h, hs) =
    let whole : b / 16 * 16 + b % 16 ≡ b = omega arith in
    rw
      (
        digit_value_lem (b / 16) (omega arith),
        digit_value_lem (b % 16) (omega arith),
        bytes_of-hex_text bs hs,
        whole,
      )
      refl

-- Every request has a well-formed trace id, whatever its header says: the header's own if that is
-- well-formed, and else the text that writes its 16 random bytes in hexadecimal digits.
pub trace_middleware_valid :
    (header : Text) (random : List ℕ)
    → length random ≡ 16
    → All (λ b. b < 256) random
    → (valid_trace_id (trace_middleware header random) ≡ true)
      × (valid_trace_id header ≡ true → trace_middleware header random ≡ header)
      × (valid_trace_id header ≡ false → bytes_of (trace_middleware header random) ≡ random)
unfolding trace_middleware valid_trace_id
trace_middleware_valid header random n h = elim (Bool-cases (valid_trace_id header)) [
  | inl e ↦ (
    rw (e, trace_middleware) e,
    λ _. rw (e, trace_middleware) refl,
    λ f. let c : true ≡ false = sym e ∙ f in cc,
  )
  | inr e ↦
      let (m, chars) = hex_text_fits random h in
      let m32 : length (hex_text random) ≡ 32 = omega (arith, m, n) in
      (
        rw (e, m32, chars, trace_middleware, valid_trace_id) refl,
        λ f. let c : false ≡ true = sym e ∙ f in cc,
        λ _. rw (e, trace_middleware) (bytes_of-hex_text random h),
      )
]
