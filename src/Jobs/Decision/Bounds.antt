-- ===== src/Jobs/Decision/Bounds.antt =====
-- Retry delays and limits (src/worker/jobs/orchestration.ts).
use larafeed.Prelude.{
  ℕ, zero, suc, ◌+◌, ◌-◌, ◌*◌, ◌^◌, ◌≤◌, min, max, ◌≡◌, ◌⊎◌, inl, inr, refl, Option, some, arith,
}
use larafeed.Jobs.Types.{max_backoff_ms, retry}
use larafeed.Jobs.Decision.{String, limit, retry_backoff_ms, retry_decision}

pow_suc : (n : ℕ) → 2 ^ suc n ≡ 2 * 2 ^ n
pow_suc n = omega arith

pow-positive : (n : ℕ) → 1 ≤ 2 ^ n
pow-positive zero = omega arith
pow-positive (suc n) = omega (arith, pow_suc n, pow-positive n)

capped_double :
    (e f : ℕ)
    → (f ≡ suc e) ⊎ ((e ≡ 20) × (f ≡ 20))
    → min max_backoff_ms (30_000 * 2 ^ f)
      ≡ min max_backoff_ms (2 * min max_backoff_ms (30_000 * 2 ^ e))
capped_double e f (inl h) = rw (h, pow_suc e) (omega arith)
capped_double e f (inr (h, k)) = rw (h, k)

next_exponent :
    (attempt : ℕ)
    → (max 0 (min 20 (attempt + 2 - 1)) ≡ suc (max 0 (min 20 (attempt + 1 - 1))))
      ⊎ ((max 0 (min 20 (attempt + 1 - 1)) ≡ 20) × (max 0 (min 20 (attempt + 2 - 1)) ≡ 20))
next_exponent attempt = omega arith

-- Successive attempts double the delay from 30 seconds up to six hours, where it stays: the delay
-- lies between the two, that of the first attempt is 30 seconds, and from the first attempt on the
-- delay of the next attempt is the double or the six hours.
pub retry_backoff_ms-doubles :
    (attempt : ℕ)
    → (30_000 ≤ retry_backoff_ms attempt)
      × (retry_backoff_ms attempt ≤ max_backoff_ms)
      × (retry_backoff_ms 1 ≡ 30_000)
      × (retry_backoff_ms (attempt + 2) ≡ min max_backoff_ms (2 * retry_backoff_ms (attempt + 1)))
unfolding retry_backoff_ms
retry_backoff_ms-doubles attempt = (
  omega (arith, pow-positive (max 0 (min 20 (attempt - 1)))),
  omega arith,
  refl,
  capped_double _ _ (next_exponent attempt),
)

-- The decision on a retry is to retry, for the reason given, after the least number of whole seconds,
-- one at least, after which the time of the next attempt is reached.
pub retry_decision-least :
    (reason : String) (now retry_at : ℕ)
    → (delay : ℕ) × (retry_decision reason now retry_at ≡ retry reason delay)
      × (1 ≤ delay)
      × (retry_at ≤ now + 1_000 * delay)
      × ((seconds : ℕ) → 1 ≤ seconds → retry_at ≤ now + 1_000 * seconds → delay ≤ seconds)
retry_decision-least reason now retry_at =
    (_, refl, omega arith, omega arith, λ seconds h k. omega arith)

-- A limit lies between 1 and its maximum, whatever is asked for, and what is asked for within these
-- bounds is granted.
pub limit-bounds :
    (value : Option ℕ) (maximum : ℕ)
    → 1 ≤ maximum
    → (1 ≤ limit value maximum)
      × (limit value maximum ≤ maximum)
      × ((asked : ℕ)
          → value ≡ some asked
          → 1 ≤ asked
          → asked ≤ maximum
          → limit value maximum ≡ asked)
limit-bounds value maximum h = ground arith
