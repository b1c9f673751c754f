-- ===== src/Schedule/Overflow.antt =====
-- Intervals whose nanoseconds do not fit in a time.Duration.
use relay_scheduler.Base.{ℕ, ◌-◌, ◌*◌, ◌%◌, ◌^◌, ◌≤◌, ◌<◌, ◌≡◌, arith, ok, ◌>>◌, refuse}
use relay_scheduler.Base.Int.{pos, negsuc, leb_ℤ, mul64, offset_by}
use native.Mathlib.Nat.{mod-eq_of_lt}
use relay_scheduler.Clock.{Time, minute}
use relay_scheduler.Schedule.Json.{RawSchedule, get_int}
use relay_scheduler.Schedule.{run_interval}
use relay_scheduler.Schedule.Wall.{interval_not_positive}

mul64_wraps :
    (n k : ℕ)
    → 2 ^ 63 ≤ n * k
    → n * k < 2 ^ 64
    → 0 < k
    → mul64 (pos n) k ≡ negsuc (2 ^ 64 - 1 - n * k)
unfolding mul64
mul64_wraps n k lo hi p =
    let le : n ≤ n * k = grind arith in
    let small : n % 2 ^ 64 ≡ n = mod-eq_of_lt (omega arith) in
    let whole : n * k % 2 ^ 64 ≡ n * k = mod-eq_of_lt (omega arith) in
    rw (small, whole) (ground arith)

interval_wraps :
    (now n : ℕ)
    → 2 ^ 63 ≤ n * minute
    → n * minute < 2 ^ 64
    → (refuse (leb_ℤ (pos n) (pos 0)) interval_not_positive
        >> ok (offset_by now (mul64 (pos n) minute)))
      ≡ ok (now - (2 ^ 64 - n * minute))
interval_wraps now n lo hi = ground (arith, mul64_wraps n minute lo hi (omega arith))

-- An interval of so many minutes that their nanoseconds take 64 bits (153722868 to 307445734) is
-- accepted, and its next run is computed to lie before now: the product wraps to a negative
-- duration. The clock reads at least 2 ^ 63 nanoseconds since year 1.
pub run_interval_past :
    (now n : ℕ) (raw : RawSchedule)
    → get_int "minutes" raw ≡ ok (pos n)
    → 2 ^ 63 ≤ n * minute
    → n * minute < 2 ^ 64
    → 2 ^ 63 ≤ now
    → (t : Time) × (run_interval now raw ≡ ok t) × (t < now)
unfolding run_interval
run_interval_past now n raw e lo hi late =
    (now - (2 ^ 64 - n * minute), rw (e, run_interval) (interval_wraps now n lo hi), omega arith)
