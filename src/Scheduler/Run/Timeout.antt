-- ===== src/Scheduler/Run/Timeout.antt =====
-- How long a run may take.
use relay_scheduler.Base.{
  ℕ, ◌*◌, ◌^◌, ◌<◌, ◌≡◌, refl, Bool, true, false, arith, nat_eq, if◌then◌else◌,
}
use relay_scheduler.Base.Int.{ℤ, pos, negsuc, pos_part, leb_ℤ, mul64, mul64_fits}
use relay_scheduler.Clock.{second}
use relay_scheduler.Scheduler.Run.{run_timeout}

positive_or :
    (t : ℤ) (b : Bool) → leb_ℤ t (pos 0) ≡ b → 0 < pos_part (if b then pos (1800 * second) else t)
positive_or t true e = omega arith
positive_or (pos n) false e = ground arith
positive_or (negsuc n) false e = ground arith

-- Whatever a task says, its run may take some time; a task that says n seconds, with nanoseconds
-- that fit in 63 bits, gets them, or 30 minutes for n = 0.
pub run_timeout_lem :
    (seconds : ℤ) (n : ℕ)
    → n * second < 2 ^ 63
    → (0 < pos_part (run_timeout seconds))
      × (run_timeout (pos n) ≡ pos (if nat_eq n 0 then 1800 * second else n * second))
unfolding run_timeout
run_timeout_lem seconds n fits = (
  positive_or (mul64 seconds second) _ refl,
  rw (mul64_fits n second fits (omega arith)) (ground arith),
)
