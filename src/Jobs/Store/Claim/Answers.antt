-- ===== src/Jobs/Store/Claim/Answers.antt =====
-- What the answers to a claim mean (`claimRefreshJob` of src/worker/jobs/repository.ts).
use larafeed.Effect.{Try}
use mathlib.Core.List.{Memᴰ}
use larafeed.Prelude.{◌+◌, ◌≡◌, ◌⊎◌, ◌<◌, true, false, some, ℕ, List}
use larafeed.Jobs.Types.{
  JobState, ClaimInput, ClaimResult, claimed, completed, busy, unavailable, missing,
}
use larafeed.Jobs.Store.Tables.{JobRow, is_running, is_claimable, is_operation}
use larafeed.Jobs.Store.Claim.{max, returned, can_claim, competes, claim_of}
use larafeed.Jobs.Store.Valid.Refreshes.{CanClaim}

-- the job of the operation
abbrev pub IsJobOf : ClaimInput → List JobRow → JobRow → Type 0
IsJobOf input jobs j = Memᴰ j jobs × (is_operation input.operation_id j ≡ true)

-- A lease that ends at `t` keeps the job from being claimed: its own, or that of another refresh of the
-- feed.
abbrev pub Blocks : ClaimInput → List JobRow → JobRow → ℕ → Type 0
Blocks input jobs j t =
    ((is_running j.state ≡ true) × (j.lease_expires_at ≡ some t))
    ⊎ ((input.now < t)
        × ((k : JobRow) × Memᴰ k jobs
            × (competes j.id j.feed_id k ≡ true)
            × (k.lease_expires_at ≡ some t)))

-- The job runs under a new lease, with one more attempt.
abbrev pub Claimed : ClaimInput → JobRow → JobRow → Type 0
Claimed input j j' =
    (j'.id ≡ j.id)
    × (j'.feed_id ≡ j.feed_id)
    × (j'.operation_id ≡ input.operation_id)
    × (j'.state ≡ JobState.running)
    × (j'.attempt_count ≡ j.attempt_count + 1)
    × (j'.lease_owner ≡ some input.owner)
    × (j'.lease_expires_at ≡ some (input.now + max 1 input.lease_ms))

-- What an answer says of the jobs before the claim, and of those after it.
abbrev pub Explains : ClaimInput → List JobRow → List JobRow → ClaimResult → Type 0
Explains input jobs jobs' (claimed c) =
    (j : JobRow) × Memᴰ j jobs
    × CanClaim input jobs j
    × ((j' : JobRow) × Memᴰ j' jobs' × (c ≡ claim_of input j') × Claimed input j j')
Explains input jobs jobs' (completed state) =
    (j : JobRow) × IsJobOf input jobs j
    × (((j.state ≡ JobState.succeeded) × (state ≡ "succeeded"))
        ⊎ ((j.state ≡ JobState.canceled) × (state ≡ "canceled")))
Explains input jobs jobs' (ClaimResult.dead state) =
    (j : JobRow) × IsJobOf input jobs j
    × (j.state ≡ JobState.dead_lettered)
    × (state ≡ "dead_lettered")
Explains input jobs jobs' (busy t) = (j : JobRow) × IsJobOf input jobs j × Blocks input jobs j t
Explains input jobs jobs' (unavailable t) =
    (j : JobRow) × IsJobOf input jobs j
    × (is_claimable j.state ≡ true)
    × (can_claim input jobs j ≡ false)
    × (t ≡ j.available_at)
Explains input jobs jobs' missing =
    (j : JobRow) → Memᴰ j jobs → is_operation input.operation_id j ≡ false

-- the answer is returned, and is explained
abbrev Answered : ClaimInput → List JobRow → List JobRow → Try ClaimResult → Type 0
Answered input jobs jobs' t =
    (answer : ClaimResult) × (t ≡ returned answer) × Explains input jobs jobs' answer
