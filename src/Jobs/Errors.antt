-- ===== src/Jobs/Errors.antt =====
-- The errors of the jobs (src/worker/jobs/errors.ts), and the decimal numbers in templates.
use Prim.Native.String.{◌++◌ as ◌⊕◌}
use larafeed.Prelude.{ℕ, zero, suc, ◌/◌, ◌%◌, List, [], ◌∷◌, ltb, if◌then◌else◌, get_or, String}
use larafeed.Effect.{Cause, error}

abbrev digits : List String
digits = "0" ∷ "1" ∷ "2" ∷ "3" ∷ "4" ∷ "5" ∷ "6" ∷ "7" ∷ "8" ∷ "9" ∷ []

-- A number in a template string. Numbers below 10 ^ 21 are written with all their digits.
abbrev decimal_within : ℕ → ℕ → String
decimal_within zero n = ""
decimal_within (suc fuel) n =
    let rest = decimal_within fuel (n / 10) in
    if ltb n 10 then get_or digits n "" else rest ⊕ get_or digits (n % 10) ""

abbrev pub decimal : ℕ → String
decimal n = decimal_within 21 n

abbrev pub cooldown_error : ℕ → ℕ → Cause
cooldown_error feed_id retry_at =
    error "ManualRefreshCooldownError"
      ("Manual refresh cooldown is active for feed: " ⊕ decimal feed_id) (feed_id ∷ retry_at ∷ [])

abbrev pub active_error : ℕ → Cause
active_error feed_id =
    error "RefreshAlreadyActiveError" ("A refresh is already active for feed: " ⊕ decimal feed_id)
      (feed_id ∷ [])

abbrev pub invariant_error : String → String → Cause
invariant_error operation message =
    error "JobInvariantError" ("Job invariant failed during " ⊕ (operation ⊕ (": " ⊕ message))) []

abbrev pub feed_not_found_error : ℕ → Cause
feed_not_found_error feed_id =
    error "FeedNotFoundError" ("Feed not found: " ⊕ decimal feed_id) (feed_id ∷ [])

abbrev pub lease_lost_error : String → Cause
lease_lost_error operation_id =
    error "RefreshLeaseLostError" ("Refresh lease is no longer owned: " ⊕ operation_id) []

abbrev pub storage_error : String → Cause
storage_error operation = error "JobStorageError" ("Job storage operation failed: " ⊕ operation) []
