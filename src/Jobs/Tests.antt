-- ===== src/Jobs/Tests.antt =====
-- Runs of the orchestrator against a small repository. The world counts the calls.
use larafeed.Prelude.{
  ℕ, ◌+◌, ◌≤◌, ◌*◌, min, ◌≡◌, ◌↔◌, refl, true, false, none, some, List, [], ◌∷◌, String, length,
  arith,
}
use larafeed.Effect.{Try, other, returned, threw, Io, pure, ◌>>=◌, attempt, Ensures, Returns, Calls}
use larafeed.Jobs.Types.{
  max_due_feeds, manual_refresh_cooldown_ms, max_backoff_ms, manual, JobState, RefreshJob,
  CreateResult, created, DueFeed, LeasedMessage, LeaseInput, Claim, claimed, FeedInput, Failure,
  failure, JobRepository, retry,
}
use larafeed.Jobs.Decision.{
  retry_decision, Body, object, text, decode_refresh_queue_message, utf16_length, limit,
  retry_backoff_ms,
}
use larafeed.Jobs.Decision.Bounds.{retry_backoff_ms-doubles, retry_decision-least, limit-bounds}
use larafeed.Jobs.Decision.Messages.{decode_refresh_queue_message-accepts}
use larafeed.Jobs.Orchestrator.{
  ManualRefresh, Dependencies, dispatch_outbox, reserve_due_refreshes, manual_refresh,
}
use larafeed.Jobs.Orchestrator.Accounts.{dispatch_outbox-accounts}
use larafeed.Jobs.Orchestrator.Asks.{Asks, Names}
use larafeed.Jobs.Orchestrator.Reserving.{
  AsksEach, new_jobs, operations_of, reserve_due_refreshes-counts,
}
use larafeed.Jobs.Orchestrator.Admission.{Admits, manual_refresh-Admits}
use larafeed.Jobs.Worker.{process_queue_message, failure_retry_at}
use larafeed.Jobs.Worker.Justified.{JustifiedFor, process_queue_message-Justified}
use larafeed.Jobs.Worker.Schedule.{failure_retry_at-bounds}

abbrev job : RefreshJob
job = record {
  id = 1;
  operation_id = "op";
  feed_id = 7;
  trigger = manual;
  state = JobState.pending;
  attempt_count = 0;
  max_attempts = 8;
  available_at = 0;
}

abbrev claim : Claim
claim = record {
  job_id = 1;
  operation_id = "op";
  feed_id = 7;
  trigger = manual;
  attempt_count = 3;
  max_attempts = 8;
  lease_owner = "me";
  lease_expires_at = 300_000;
}

abbrev message : LeasedMessage
message = record {
  id = 1;
  job_id = 1;
  operation_id = "op";
  attempt_count = 0;
  lease_owner = "me";
  lease_expires_at = 60_000;
}

abbrev feed : FeedInput
feed = record {
  claim = claim;
  feed_url = "https://example.org/feed";
  site_url = none;
  etag = none;
  last_modified = none;
  subscription_filters = [];
}

abbrev failed : Failure
failed = record {
  retryable = true;
  mark_gone = none;
  retry_after_ms = some 90_000;
  error_class = "timeout";
  error_message = "no answer";
  http_status = none;
  duration_ms = none;
}

abbrev tick : {A : Type 0} → A → Io ℕ A
tick a w = (returned a, w + 1)

abbrev repository : JobRepository ℕ ℕ
repository = record {
  create_refresh_job = λ _. tick (created job);
  list_due_feeds = λ _ _. tick (record { id = 7; next_refresh_at = 0 } ∷ []);
  lease_outbox = λ _. tick (message ∷ message ∷ []);
  mark_dispatched = λ _ _. tick tt;
  release_outbox = λ _. tick tt;
  claim_refresh_job = λ _. tick (claimed claim);
  load_feed_input = λ _ _. tick feed;
  release_lease = λ _. tick true;
  recover_stale_leases = λ _ _. tick 0;
  reconcile_stranded = λ _ _ _. tick (record { redriven = 0; dead_lettered = 0 });
  cleanup_refresh_history = λ _ _. tick 0;
  cleanup_terminal_jobs = λ _ _. tick 0;
  commit_refresh = λ _. tick tt;
  record_refresh_failure = λ _. tick (record { terminal = false; available_at = some 60_000 });
}

-- the queue throws, and the processor fails
abbrev deps : Dependencies ℕ ℕ
deps = record {
  repository = repository;
  send = λ _ w. (threw other, w);
  processor = λ _. tick (failure failed);
  schedule_favicon = none;
  clock = λ w. (w, w);
  generate_id = tick 5;
  generate_token = tick "token";
  job_lease_ms = 300_000;
  outbox_lease_ms = 60_000;
  max_attempts = 8;
}

abbrev body : Body
body = object (("operationId", text "op") ∷ [])

dispatch_releases :
    (dispatch_outbox deps none none 0).0
    ≡ returned (record { leased = 2; sent = 0; released = 2; ambiguous = 0 })
unfolding dispatch_outbox pure ◌>>=◌ attempt
dispatch_releases = refl

failure_retries :
    (process_queue_message deps body none 0).0 ≡ returned (retry "retryable_failure" 60)
unfolding process_queue_message pure ◌>>=◌ attempt
failure_retries = refl

process_queue_message-Justified_example :
    Returns
      (JustifiedFor deps (decode_refresh_queue_message body))
      (process_queue_message deps body none)
process_queue_message-Justified_example = process_queue_message-Justified deps body none

dispatch_outbox-accounts_example :
    Ensures
      (λ r.
        (input : LeaseInput) × (messages : List LeasedMessage) × Calls
          (deps.repository.lease_outbox input)
          (returned messages)
        × (r.leased ≡ length messages)
        × (r.sent + r.released + r.ambiguous ≡ length messages))
      (dispatch_outbox deps (some 2) none)
dispatch_outbox-accounts_example = dispatch_outbox-accounts deps (some 2) none

reserved_one :
    reserve_due_refreshes deps (some 500) 0
    ≡ (returned (record { reserved = 1; operations = "op" ∷ [] }), 4)
unfolding reserve_due_refreshes pure ◌>>=◌
reserved_one = refl

reserve_due_refreshes-counts_example :
    (reserve_due_refreshes deps (some 500) 0
      ≡ (returned (record { reserved = 1; operations = "op" ∷ [] }), 4))
    ↔ ((t : ℕ) × (u : ℕ) × (feeds : List DueFeed) × (v : ℕ) × (answers : List CreateResult)
        × (deps.clock 0 ≡ (t, u))
        × (1 ≤ limit (some 500) max_due_feeds)
        × (limit (some 500) max_due_feeds ≤ max_due_feeds)
        × (deps.repository.list_due_feeds t (limit (some 500) max_due_feeds) u
            ≡ (returned feeds, v))
        × AsksEach deps t feeds v answers 4
        × (1 ≡ new_jobs answers)
        × ("op" ∷ [] ≡ operations_of answers))
reserve_due_refreshes-counts_example =
    reserve_due_refreshes-counts deps (some 500) 0 (record { reserved = 1; operations = "op" ∷ [] })
      4

refreshed :
    ◌≡◌ {A = Try ManualRefresh × ℕ}
      (manual_refresh deps 7 (some "op") true 0)
      (returned (record { operation_id = "op"; created = true; job = job }), 3)
unfolding manual_refresh pure ◌>>=◌
refreshed = refl

manual_refresh-Admits_example :
    (manual_refresh deps 7 (some "op") true 0
      ≡ (returned (record { operation_id = "op"; created = true; job = job }), 3))
    ↔ ((operation_id : String) × (u : ℕ) × (t : ℕ) × (v : ℕ) × (answer : CreateResult) × Names deps
          (some "op")
          "feed-refresh:manual:"
          0
          operation_id
          u
        × (deps.clock u ≡ (t, v))
        × Asks deps 7 operation_id manual t manual_refresh_cooldown_ms v answer 3
        × Admits true answer (record { operation_id = "op"; created = true; job = job })
        × ◌≡◌ {A = String} "op" "op")
manual_refresh-Admits_example =
    manual_refresh-Admits deps 7 (some "op") true 0
      (record { operation_id = "op"; created = true; job = job }) 3

decode_refresh_queue_message-accepts_example : (decode_refresh_queue_message body ≡ some "op") ↔ (
    (body ≡ object (("operationId", text "op") ∷ []))
    × (1 ≤ utf16_length "op")
    × (utf16_length "op" ≤ 256))
decode_refresh_queue_message-accepts_example = decode_refresh_queue_message-accepts body "op"

retry_backoff_ms-doubles_example :
    (30_000 ≤ retry_backoff_ms 3)
    × (retry_backoff_ms 3 ≤ max_backoff_ms)
    × (retry_backoff_ms 1 ≡ 30_000)
    × (retry_backoff_ms 5 ≡ min max_backoff_ms (2 * retry_backoff_ms 4))
retry_backoff_ms-doubles_example = retry_backoff_ms-doubles 3

retry_decision-least_example :
    (delay : ℕ) × (retry_decision "busy" 1_000 2_500 ≡ retry "busy" delay)
    × (1 ≤ delay)
    × (2_500 ≤ 1_000 + 1_000 * delay)
    × ((seconds : ℕ) → 1 ≤ seconds → 2_500 ≤ 1_000 + 1_000 * seconds → delay ≤ seconds)
retry_decision-least_example = retry_decision-least "busy" 1_000 2_500

limit-bounds_example :
    (1 ≤ limit (some 500) 100)
    × (limit (some 500) 100 ≤ 100)
    × ((asked : ℕ) → some 500 ≡ some asked → 1 ≤ asked → asked ≤ 100 → limit (some 500) 100 ≡ asked)
limit-bounds_example = limit-bounds (some 500) 100 (omega arith)

failure_retry_at-bounds_example :
    (1_000 + 30_000 ≤ failure_retry_at claim failed 1_000)
    × (failure_retry_at claim failed 1_000 ≤ 1_000 + max_backoff_ms)
    × (1_000 + retry_backoff_ms 3 ≤ failure_retry_at claim failed 1_000)
    × ((asked : ℕ)
        → some 90_000 ≡ some asked
        → 1_000 + min max_backoff_ms asked ≤ failure_retry_at claim failed 1_000)
failure_retry_at-bounds_example = failure_retry_at-bounds claim failed 1_000
