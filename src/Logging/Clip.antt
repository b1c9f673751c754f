-- ===== src/Logging/Clip.antt =====
-- The length of the texts in a log line.
use relay_scheduler.Base.{
  ℕ, zero, suc, ◌≤◌, ◌<◌, ◌≡◌, refl, sym, ap, inl, inr, Bool, true, false, none, some, [], ◌∷◌, map,
  arith, leb, Bool-cases, leb→le, length, take, take-length, length-take,
}
use relay_scheduler.Text.{Text}
use relay_scheduler.Logging.{Raw, to_valid, clip, max_log_text}

-- A text of UTF-8 without invalid bytes.
abbrev pub valid_text : Text → Raw
valid_text t = map some t

length-map_some : (t : Text) → length (valid_text t) ≡ length t
length-map_some [] = refl
length-map_some (c ∷ t) = ap suc (length-map_some t)

to_valid-valid_text : (b : Bool) (t : Text) → to_valid b (valid_text t) ≡ t
unfolding to_valid
to_valid-valid_text true [] = refl
to_valid-valid_text false [] = refl
to_valid-valid_text true (c ∷ t) = ap (◌∷◌ c) (to_valid-valid_text false t)
to_valid-valid_text false (c ∷ t) = ap (◌∷◌ c) (to_valid-valid_text false t)

-- A text of UTF-8 is clipped to its first 500 characters.
pub clip_valid : (t : Text) → clip (valid_text t) ≡ some (take max_log_text t)
unfolding clip
clip_valid t = elim (Bool-cases (leb (length t) max_log_text)) [
  | inl e ↦
      rw (length-map_some t, to_valid-valid_text false t, e, clip)
        (ap some (sym (take-length max_log_text t (leb→le (length t) max_log_text e))))
  | inr e ↦
      let long : leb max_log_text (length t) ≡ true = ground arith in
      rw (length-map_some t, to_valid-valid_text false t, e, clip) (rw long refl)
]

length-to_valid : (b : Bool) (s : Raw) → length (to_valid b s) ≤ length s
unfolding to_valid
length-to_valid true [] = omega arith
length-to_valid false [] = omega arith
length-to_valid true (some c ∷ s) = omega (arith, length-to_valid false s)
length-to_valid false (some c ∷ s) = omega (arith, length-to_valid false s)
length-to_valid true (none ∷ s) = omega (arith, length-to_valid true s)
length-to_valid false (none ∷ s) = omega (arith, length-to_valid true s)

-- A clipped text has 500 characters at most.
pub length-clip : (s : Raw) (t : Text) → clip s ≡ some t → length t ≤ max_log_text
unfolding clip
length-clip s t h = elim (Bool-cases (leb (length s) max_log_text)) [
  | inl e ↦
      let same : to_valid false s ≡ t = (let k = rw e at h in cc) in
      rw⁻¹ same (omega (arith, length-to_valid false s, leb→le (length s) max_log_text e))
  | inr e ↦ elim (Bool-cases (leb max_log_text (length (to_valid false s)))) [
    | inl f ↦
        let same : take max_log_text (to_valid false s) ≡ t = (let k = rw (e, f) at h in cc) in
        rw⁻¹ same (omega (arith, length-take max_log_text (to_valid false s)))
    | inr f ↦ let k = rw (e, f) at h in cc
  ]
]

abbrev pub invalid_bytes : ℕ → Raw
invalid_bytes zero = []
invalid_bytes (suc n) = none ∷ invalid_bytes n

length-invalid_bytes : (n : ℕ) → length (invalid_bytes n) ≡ n
length-invalid_bytes zero = refl
length-invalid_bytes (suc n) = ap suc (length-invalid_bytes n)

to_valid-inside : (n : ℕ) → to_valid true (invalid_bytes n) ≡ []
unfolding to_valid
to_valid-inside zero = refl
to_valid-inside (suc n) = to_valid-inside n

-- More than 500 invalid bytes in a row become one character, of which 500 cannot be taken: clip
-- goes past the end of its text.
pub clip_past_end : (n : ℕ) → max_log_text < n → clip (invalid_bytes n) ≡ none
unfolding clip to_valid
clip_past_end zero h = absurd (omega arith)
clip_past_end (suc n) h =
    let long : leb (suc n) max_log_text ≡ false = ground arith in
    rw (length-invalid_bytes n, to_valid-inside n, long) refl
