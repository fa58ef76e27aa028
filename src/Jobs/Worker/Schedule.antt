-- ===== src/Jobs/Worker/Schedule.antt =====
-- The time of the attempt that follows a failure (src/worker/jobs/orchestration.ts).
use larafeed.Prelude.{ℕ, ◌+◌, ◌≤◌, ◌≡◌, min, some, arith, ap}
use larafeed.Jobs.Types.{max_backoff_ms, Claim, Failure}
use larafeed.Jobs.Decision.{or_default, retry_backoff_ms}
use larafeed.Jobs.Decision.Bounds.{retry_backoff_ms-doubles}
use larafeed.Jobs.Worker.{failure_retry_at}

-- The attempt after a failure lies between 30 seconds and six hours ahead; it is no earlier than the
-- delay of the attempt count says, nor earlier than the processor asks for, six hours at most.
pub failure_retry_at-bounds :
    (claim : Claim) (result : Failure) (completed_at : ℕ)
    → (completed_at + 30_000 ≤ failure_retry_at claim result completed_at)
      × (failure_retry_at claim result completed_at ≤ completed_at + max_backoff_ms)
      × (completed_at + retry_backoff_ms claim.attempt_count
          ≤ failure_retry_at claim result completed_at)
      × ((asked : ℕ)
          → result.retry_after_ms ≡ some asked
          → completed_at + min max_backoff_ms asked ≤ failure_retry_at claim result completed_at)
unfolding failure_retry_at
failure_retry_at-bounds claim result completed_at =
    let (low, high, _, _) = retry_backoff_ms-doubles claim.attempt_count in
    (omega arith, omega arith, omega arith, λ asked e. omega (arith, ap (λ o. or_default o 0) e))
