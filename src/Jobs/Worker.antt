-- ===== src/Jobs/Worker.antt =====
-- The consumer of refresh messages and the scheduled run (`processQueueMessage` and `runCron` of
-- src/worker/jobs/orchestration.ts). A `try` block is split where its `activeClaim` changes: before
-- the claim there is none for its `catch` to release.
pub mod Justified
pub mod Schedule
use larafeed.Prelude.{
  ℕ, ◌+◌, ◌-◌, min, max, Bool, true, false, Option, none, some, List, [], map, String,
}
use larafeed.Effect.{Try, returned, threw, Io, pure, ◌>>=◌, attempt}
use larafeed.Jobs.Types.{
  max_due_feeds, max_backoff_ms, default_refresh_redrive_age_ms, feed_refresh_retention_ms,
  terminal_job_retention_ms, max_history_cleanup, max_terminal_job_cleanup, Claim, ClaimResult,
  claimed, completed, dead, busy, unavailable, missing, SubscriptionFilter, FeedInput, Completion,
  Success, Failure, ProcessorResult, success, not_modified, failure, FailureRecord, Decision, ack,
}
use larafeed.Jobs.Decision.{
  or_default, limit, retry_backoff_ms, retry_decision, Body, decode_refresh_queue_message,
  processor_failure,
}
use larafeed.Jobs.Orchestrator.{
  Dependencies, CronInput, CronResult, now, named, reserve_due_refreshes, dispatch_outbox,
}

abbrev revision_of : SubscriptionFilter → ℕ × ℕ
revision_of filter = (filter.user_id, filter.filter_revision)

-- the time of the next attempt after a failure
unfoldable pub failure_retry_at : Claim → Failure → ℕ → ℕ
unfolding retry_backoff_ms
failure_retry_at claim result completed_at =
    completed_at
    + min max_backoff_ms
        (max (retry_backoff_ms claim.attempt_count) (or_default result.retry_after_ms 0))

-- the decision after a failure, by `terminal` and `availableAt` of what the repository answers
abbrev pub after_failure : Bool → Option ℕ → ℕ → ℕ → Decision
after_failure true available_at completed_at retry_at = Decision.dead "terminal_failure"
after_failure false available_at completed_at retry_at =
    retry_decision "retryable_failure" completed_at (or_default available_at retry_at)

module _ {W Entry : Type 0} (deps : Dependencies W Entry) where
  unfoldable pub record_failure : Claim → Failure → ℕ → ℕ → Io W Decision
  unfolding failure_retry_at
  record_failure claim result completed_at history_id =
      let retry_at = failure_retry_at claim result completed_at in
      deps.repository.record_refresh_failure (record {
        claim = claim;
        history_id = history_id;
        failed_at = completed_at;
        failure = result;
        retry_at = retry_at;
      })
      >>= λ recorded.
          pure (after_failure recorded.terminal recorded.available_at completed_at retry_at)

  -- the scheduling of the favicon, whose exceptions are caught
  abbrev pub favicon_for : Option (ℕ → Io W (Unit {0})) → ℕ → Io W (Unit {0})
  favicon_for none feed_id = pure tt
  favicon_for (some schedule) feed_id = attempt (schedule feed_id) >>= λ _. pure tt

  abbrev try_favicon : Claim → Io W (Unit {0})
  try_favicon claim = favicon_for deps.schedule_favicon claim.feed_id

  abbrev entries_of : Option (Success Entry) → List Entry
  entries_of none = []
  entries_of (some s) = s.entries

  abbrev was_not_modified : Option (Success Entry) → Bool
  was_not_modified none = true
  was_not_modified (some s) = false

  abbrev committed_reason : Option (Success Entry) → String
  committed_reason none = "not_modified"
  committed_reason (some s) = "succeeded"

  unfoldable pub commit :
      Claim → FeedInput → Completion → Option (Success Entry) → ℕ → ℕ → Io W Decision
  commit claim feed completion fetched completed_at history_id =
      deps.repository.commit_refresh (record {
        claim = claim;
        filter_revisions = map revision_of feed.subscription_filters;
        history_id = history_id;
        completed_at = completed_at;
        completion = completion;
        was_not_modified = was_not_modified fetched;
        success = fetched;
        entries = entries_of fetched;
      })
      >>= λ _. try_favicon claim >>= λ _. pure (ack (committed_reason fetched))

  unfoldable pub settle_result : Claim → FeedInput → ProcessorResult Entry → ℕ → ℕ → Io W Decision
  unfolding record_failure commit
  settle_result claim feed (failure f) completed_at history_id =
      record_failure claim f completed_at history_id
  settle_result claim feed (success c s) completed_at history_id =
      commit claim feed c (some s) completed_at history_id
  settle_result claim feed (not_modified c) completed_at history_id =
      commit claim feed c none completed_at history_id

  -- the processor's result, or the failure that its exception stands for
  abbrev processed : Try (ProcessorResult Entry) → ProcessorResult Entry
  processed (returned result) = result
  processed (threw cause) = processor_failure cause

  -- the `try` block from the claim on
  unfoldable pub run_claimed : Claim → ℕ → Io W Decision
  unfolding settle_result
  run_claimed claim current_time = deps.repository.load_feed_input claim current_time >>= λ feed.
      attempt (deps.processor feed) >>= λ result. now deps >>= λ completed_at.
      deps.generate_id >>= λ history_id.
      settle_result claim feed (processed result) completed_at history_id

  abbrev pub release_claim : Option Claim → ℕ → ℕ → Io W (Unit {0})
  release_claim none failed_at retry_at = pure tt
  release_claim (some claim) failed_at retry_at =
      attempt (
        deps.repository.release_lease (record {
          target = claim;
          now = failed_at;
          available_at = retry_at;
          error_class = "orchestration_error";
          error_message = "Refresh orchestration failed";
        }))
      >>= λ _. pure tt

  -- the `catch` block
  unfoldable pub recover : Option Claim → Io W Decision
  recover active_claim = now deps >>= λ failed_at.
      release_claim active_claim failed_at (failed_at + 30_000) >>= λ _.
      pure (retry_decision "orchestration_error" failed_at (failed_at + 30_000))

  unfoldable pub guarded : Option Claim → Io W Decision → Io W Decision
  unfolding recover
  guarded active_claim m =
      attempt m >>= elim [ returned decision ↦ pure decision | threw cause ↦ recover active_claim ]

  -- the `switch` on the answer to the claim
  unfoldable pub on_claim : ClaimResult → ℕ → Io W Decision
  unfolding guarded run_claimed
  on_claim (completed state) current_time = pure (ack state)
  on_claim (dead state) current_time = pure (Decision.dead state)
  on_claim missing current_time = pure (Decision.dead "missing_job")
  on_claim (busy retry_at) current_time = pure (retry_decision "job_busy" current_time retry_at)
  on_claim (unavailable retry_at) current_time =
      pure (retry_decision "job_unavailable" current_time retry_at)
  on_claim (claimed claim) current_time = guarded (some claim) (run_claimed claim current_time)

  -- the `try` block up to the claim
  unfoldable pub claim_job : String → Option String → ℕ → Io W ClaimResult
  claim_job operation_id requested_owner current_time =
      named deps requested_owner "refresh:" >>= λ owner. deps.repository.claim_refresh_job (record {
        operation_id = operation_id;
        owner = owner;
        now = current_time;
        lease_ms = deps.job_lease_ms;
      })

  unfoldable pub process_operation : String → Option String → Io W Decision
  unfolding claim_job on_claim recover
  process_operation operation_id requested_owner = now deps >>= λ current_time.
      attempt (claim_job operation_id requested_owner current_time)
      >>= elim [ threw cause ↦ recover none | returned answer ↦ on_claim answer current_time ]

  unfoldable pub process_decoded : Option String → Option String → Io W Decision
  unfolding process_operation
  process_decoded none requested_owner = pure (Decision.dead "invalid_message")
  process_decoded (some operation_id) requested_owner =
      process_operation operation_id requested_owner

  unfoldable pub process_queue_message : Body → Option String → Io W Decision
  unfolding decode_refresh_queue_message process_decoded
  process_queue_message body requested_owner =
      process_decoded (decode_refresh_queue_message body) requested_owner

  -- `input.reserve === false ? ... : ...`
  abbrev pub unless_off : {A : Type 0} → Option Bool → A → Io W A → Io W A
  unless_off (some false) off on = pure off
  unless_off (some true) off on = on
  unless_off none off on = on

  unfoldable pub run_cron : CronInput → Io W CronResult
  unfolding reserve_due_refreshes dispatch_outbox
  run_cron input = now deps >>= λ current_time.
      deps.repository.recover_stale_leases current_time
        (limit input.stale_lease_limit max_due_feeds)
      >>= λ recovered.
          deps.repository.reconcile_stranded current_time
            (max 0 (current_time - default_refresh_redrive_age_ms))
            (limit input.redrive_limit max_due_feeds)
          >>= λ reconciled.
              deps.repository.cleanup_refresh_history
                (max 0 (current_time - feed_refresh_retention_ms))
                (limit input.cleanup_limit max_history_cleanup)
              >>= λ history.
                  deps.repository.cleanup_terminal_jobs
                    (max 0 (current_time - terminal_job_retention_ms))
                    (limit input.job_cleanup_limit max_terminal_job_cleanup)
                  >>= λ terminal.
                      unless_off input.reserve (record { reserved = 0; operations = [] })
                        (reserve_due_refreshes deps input.due_limit)
                      >>= λ reserved.
                          unless_off input.dispatch
                            (record { leased = 0; sent = 0; released = 0; ambiguous = 0 })
                            (dispatch_outbox deps input.dispatch_limit none)
                          >>= λ dispatched. pure (record {
                            recovered_jobs = recovered;
                            redriven_jobs = reconciled.redriven;
                            dead_lettered_jobs = reconciled.dead_lettered;
                            reserved_jobs = reserved.reserved;
                            dispatched = dispatched;
                            refresh_history_deleted = history;
                            terminal_jobs_deleted = terminal;
                          })
