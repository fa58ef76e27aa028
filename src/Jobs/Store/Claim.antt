-- ===== src/Jobs/Store/Claim.antt =====
-- The claim of a job and its release (`claimRefreshJob` and `releaseRefreshJobLease` of
-- src/worker/jobs/repository.ts). The update of a claim and the two reads that may follow it are three
-- calls of the database in the source; here they are one step, which nothing comes between.
pub mod Answers
use larafeed.Prelude.{
  ℕ, ◌+◌, Bool, not, ◌&&◌, Option, none, some, List, [], ◌∷◌, map, ltb, leb, ◌==◌, if◌then◌else◌,
  max,
}
use larafeed.Effect.{Try, returned, threw, Io}
use larafeed.Jobs.Errors.{invariant_error}
use larafeed.Jobs.Types.{
  JobState, ReleaseInput, Claim, ClaimInput, ClaimResult, claimed, completed, busy, unavailable,
  missing,
}
use larafeed.Jobs.Store.Sql.{update_where, select_where, count_where, exists_where, find_where}
use larafeed.Jobs.Store.Tables.{
  JobRow, Db, is_refresh, is_running, is_claimable, is_text, error_class, error_message,
  is_operation,
}

-- another running job of the same feed
abbrev pub competes : ℕ → ℕ → JobRow → Bool
competes id feed_id other =
    not (other.id == id)
    && is_refresh other.kind
    && is_running other.state
    && other.feed_id == feed_id

-- the `WHERE` of the claim
unfoldable pub can_claim : ClaimInput → List JobRow → JobRow → Bool
can_claim input jobs j =
    is_operation input.operation_id j
    && is_claimable j.state
    && leb j.available_at input.now
    && ltb j.attempt_count j.max_attempts
    && not (exists_where (competes j.id j.feed_id) jobs)

abbrev pub coalesce : Option ℕ → ℕ → ℕ
coalesce none fallback = fallback
coalesce (some t) fallback = t

abbrev pub lease_end : ℕ → ℕ → ℕ
lease_end now lease_ms = now + max 1 lease_ms

abbrev pub claim_row : ClaimInput → JobRow → JobRow
claim_row input j = record j {
  state = JobState.running;
  attempt_count = j.attempt_count + 1;
  lease_owner = some input.owner;
  lease_expires_at = some (lease_end input.now input.lease_ms);
  started_at = some (coalesce j.started_at input.now);
  updated_at = input.now;
}

abbrev pub claim_of : ClaimInput → JobRow → Claim
claim_of input row = record {
  job_id = row.id;
  operation_id = row.operation_id;
  feed_id = row.feed_id;
  trigger = row.trigger;
  attempt_count = row.attempt_count;
  max_attempts = row.max_attempts;
  lease_owner = input.owner;
  lease_expires_at = lease_end input.now input.lease_ms;
}

-- `MAX(lease_expires_at)`, NULL of no rows
abbrev pub greatest : Option ℕ → Option ℕ → Option ℕ
greatest none b = b
greatest (some a) none = some a
greatest (some a) (some b) = some (max a b)

abbrev pub latest_lease : List JobRow → Option ℕ
latest_lease [] = none
latest_lease (j ∷ jobs) = greatest j.lease_expires_at (latest_lease jobs)

abbrev pub blocked_by : Option ℕ → ClaimInput → ℕ → ClaimResult
blocked_by none input available_at = unavailable available_at
blocked_by (some t) input available_at =
    if ltb input.now t then busy t else unavailable available_at

-- the answer by the state of the job that was not claimed
unfoldable pub unclaimed_as : JobState → ClaimInput → JobRow → List JobRow → ClaimResult
unclaimed_as JobState.succeeded input row jobs = completed "succeeded"
unclaimed_as JobState.canceled input row jobs = completed "canceled"
unclaimed_as JobState.dead_lettered input row jobs = ClaimResult.dead "dead_lettered"
unclaimed_as JobState.running input row jobs =
    busy (coalesce row.lease_expires_at (input.now + 1_000))
unclaimed_as JobState.pending input row jobs =
    blocked_by (latest_lease (select_where (competes row.id row.feed_id) jobs)) input
      row.available_at
unclaimed_as JobState.queued input row jobs =
    blocked_by (latest_lease (select_where (competes row.id row.feed_id) jobs)) input
      row.available_at
unclaimed_as JobState.failed input row jobs =
    blocked_by (latest_lease (select_where (competes row.id row.feed_id) jobs)) input
      row.available_at

unfoldable pub unclaimed : ClaimInput → List JobRow → Option JobRow → ClaimResult
unfolding unclaimed_as
unclaimed input jobs none = missing
unclaimed input jobs (some row) = unclaimed_as row.state input row jobs

-- the answer by the rows that the update returned
unfoldable pub claim_answer : ClaimInput → List JobRow → List JobRow → Try ClaimResult
unfolding unclaimed
claim_answer input jobs [] =
    returned (unclaimed input jobs (find_where (is_operation input.operation_id) jobs))
claim_answer input jobs (row ∷ []) = returned (claimed (claim_of input row))
claim_answer input jobs (row ∷ next ∷ rows) =
    threw (invariant_error "claimRefreshJob" "claimed multiple jobs")

unfoldable pub claim_refresh_job : ClaimInput → Io Db ClaimResult
unfolding can_claim claim_answer
claim_refresh_job input db =
    let jobs = update_where (can_claim input db.jobs) (claim_row input) db.jobs in
    let rows = map (claim_row input) (select_where (can_claim input db.jobs) db.jobs) in
    (claim_answer input jobs rows, record db { jobs = jobs })

abbrev pub is_held_by : Claim → JobRow → Bool
is_held_by claim j =
    is_operation claim.operation_id j
    && is_running j.state
    && is_text j.lease_owner claim.lease_owner

unfoldable pub release_row : ReleaseInput Claim → JobRow → JobRow
unfolding error_class error_message
release_row input j = record j {
  state = JobState.failed;
  available_at = input.available_at;
  lease_owner = none;
  lease_expires_at = none;
  last_error_class = some (error_class input.error_class);
  last_error_message = some (error_message input.error_message);
  updated_at = input.now;
}

unfoldable pub release_lease : ReleaseInput Claim → Io Db Bool
unfolding release_row
release_lease input db =
    let changed = count_where (is_held_by input.target) db.jobs in
    let db' = record db {
      jobs = update_where (is_held_by input.target) (release_row input) db.jobs;
    } in
    let answer =
      if ltb 1 changed
      then threw (invariant_error "releaseRefreshJobLease" "released multiple jobs")
      else returned (changed == 1) in
    (answer, db')
