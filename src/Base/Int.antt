-- ===== src/Base/Int.antt =====
-- Go's int, int64 and time.Duration: signed integers over the native numbers, and the 64-bit wrap.
use Prim.Native.Nat.{ℕ, suc, ◌+◌, ◌-◌, ◌*◌, ◌%◌, ◌^◌, ◌≤◌, ◌<◌}
use mathlib.Core.Path.{◌≡◌}
use mathlib.Core.Bool.{Bool}
use native.Mathlib.Omega.{arith}
use native.Mathlib.Nat.{mod-eq_of_lt}
use relay_scheduler.Base.Tests.{ltb, leb, nat_eq, if◌then◌else◌}

-- `negsuc n` is -(n + 1).
pub data ℤ : Type 0 where
  pos : ℕ → ℤ
  negsuc : ℕ → ℤ

abbrev pub pos_part : ℤ → ℕ
pos_part (pos n) = n
pos_part (negsuc n) = 0

abbrev pub neg_part : ℤ → ℕ
neg_part (pos n) = 0
neg_part (negsuc n) = suc n

abbrev pub ltb_ℤ : ℤ → ℤ → Bool
ltb_ℤ a b = ltb (pos_part a + neg_part b) (pos_part b + neg_part a)

abbrev pub leb_ℤ : ℤ → ℤ → Bool
leb_ℤ a b = leb (pos_part a + neg_part b) (pos_part b + neg_part a)

abbrev pub eqb_ℤ : ℤ → ℤ → Bool
eqb_ℤ a b = nat_eq (pos_part a + neg_part b) (pos_part b + neg_part a)

-- The value of a 64-bit pattern read as an int64.
abbrev pub signed64 : ℕ → ℤ
signed64 n = if ltb n (2 ^ 63) then pos n else negsuc (2 ^ 64 - 1 - n)

-- The 64-bit pattern of an integer.
abbrev pub pattern64 : ℤ → ℕ
pattern64 (pos n) = n % 2 ^ 64
pattern64 (negsuc n) = 2 ^ 64 - 1 - n % 2 ^ 64

-- `a * k` on int64, for a positive constant k.
unfoldable pub mul64 : ℤ → ℕ → ℤ
mul64 a k = signed64 (pattern64 a * k % 2 ^ 64)

-- A moment moved by a signed amount.
abbrev pub offset_by : ℕ → ℤ → ℕ
offset_by t (pos n) = t + n
offset_by t (negsuc n) = t - suc n

-- A product that fits is exact.
pub mul64_fits : (n k : ℕ) → n * k < 2 ^ 63 → 0 < k → mul64 (pos n) k ≡ pos (n * k)
unfolding mul64
mul64_fits n k h p =
    let le : n ≤ n * k = grind arith in
    let small : n % 2 ^ 64 ≡ n = mod-eq_of_lt (omega arith) in
    let whole : n * k % 2 ^ 64 ≡ n * k = mod-eq_of_lt (omega arith) in
    rw (small, whole) (ground arith)

-- Any result is an int64.
pub mul64_range :
    (a : ℤ) (k : ℕ) → (pos_part (mul64 a k) < 2 ^ 63) × (neg_part (mul64 a k) ≤ 2 ^ 63)
unfolding mul64
mul64_range a k = let bound : pattern64 a * k % 2 ^ 64 < 2 ^ 64 = omega arith in ground arith
