-- ===== src/Jobs/Types.antt =====
-- The data of feed refresh jobs (src/worker/jobs/types.ts). Times are in milliseconds.
use larafeed.Prelude.{ℕ, ◌*◌, Bool, Option, List, String}
use larafeed.Effect.{Io}
use larafeed.Filter.Matching.{FilterRules}

abbrev pub max_due_feeds : ℕ
max_due_feeds = 100

abbrev pub max_outbox_messages : ℕ
max_outbox_messages = 100

abbrev pub default_max_attempts : ℕ
default_max_attempts = 8

abbrev pub default_job_lease_ms : ℕ
default_job_lease_ms = 5 * 60_000

abbrev pub default_outbox_lease_ms : ℕ
default_outbox_lease_ms = 60_000

abbrev pub default_refresh_redrive_age_ms : ℕ
default_refresh_redrive_age_ms = 15 * 60_000

abbrev pub manual_refresh_cooldown_ms : ℕ
manual_refresh_cooldown_ms = 5 * 60_000

abbrev pub max_backoff_ms : ℕ
max_backoff_ms = 6 * 60 * 60_000

abbrev pub feed_refresh_retention_ms : ℕ
feed_refresh_retention_ms = 90 * 24 * 60 * 60_000

abbrev pub terminal_job_retention_ms : ℕ
terminal_job_retention_ms = 7 * 24 * 60 * 60_000

abbrev pub max_history_cleanup : ℕ
max_history_cleanup = 500

abbrev pub max_terminal_job_cleanup : ℕ
max_terminal_job_cleanup = 500

pub data RefreshTrigger : Type 0 where
  manual scheduled : RefreshTrigger

pub data JobState : Type 0 where
  pending queued running succeeded failed dead_lettered canceled : JobState

pub record RefreshJob : Type 0 where
  pub id : ℕ
  pub operation_id : String
  pub feed_id : ℕ
  pub trigger : RefreshTrigger
  pub state : JobState
  pub attempt_count : ℕ
  pub max_attempts : ℕ
  pub available_at : ℕ

pub record CreateInput : Type 0 where
  pub job_id : ℕ
  pub outbox_id : ℕ
  pub operation_id : String
  pub feed_id : ℕ
  pub trigger : RefreshTrigger
  pub max_attempts : ℕ
  pub now : ℕ
  pub manual_cooldown_ms : ℕ

pub data CreateResult : Type 0 where
  created idempotent active : RefreshJob → CreateResult
  cooldown : ℕ → CreateResult
  gone : CreateResult

pub record DueFeed : Type 0 where
  pub id : ℕ
  pub next_refresh_at : ℕ

pub record LeasedMessage : Type 0 where
  pub id : ℕ
  pub job_id : ℕ
  pub operation_id : String
  pub attempt_count : ℕ
  pub lease_owner : String
  pub lease_expires_at : ℕ

pub record Claim : Type 0 where
  pub job_id : ℕ
  pub operation_id : String
  pub feed_id : ℕ
  pub trigger : RefreshTrigger
  pub attempt_count : ℕ
  pub max_attempts : ℕ
  pub lease_owner : String
  pub lease_expires_at : ℕ

pub data ClaimResult : Type 0 where
  claimed : Claim → ClaimResult
  completed : String → ClaimResult
  dead : String → ClaimResult
  busy unavailable : ℕ → ClaimResult
  missing : ClaimResult

pub record SubscriptionFilter : Type 0 where
  pub user_id : ℕ
  pub filter_revision : ℕ
  pub rules : FilterRules

pub record FeedInput : Type 0 where
  pub claim : Claim
  pub feed_url : String
  pub site_url : Option String
  pub etag : Option String
  pub last_modified : Option String
  pub subscription_filters : List SubscriptionFilter

-- `publisher_interval` is `none` where the field is undefined, and `some none` where it is null; so
-- for the optional fields of `Success`.
pub record Completion : Type 0 where
  pub etag : Option String
  pub last_modified : Option String
  pub next_refresh_at : Option ℕ
  pub publisher_interval : Option (Option ℕ)
  pub http_status : ℕ
  pub duration_ms : Option ℕ

pub record Success (Entry : Type 0) : Type 0 where
  pub feed_name : Option String
  pub site_url : Option (Option String)
  pub favicon_url : Option (Option String)
  pub entries : List Entry

pub record Failure : Type 0 where
  pub retryable : Bool
  pub mark_gone : Option Bool
  pub retry_after_ms : Option ℕ
  pub error_class : String
  pub error_message : String
  pub http_status : Option ℕ
  pub duration_ms : Option ℕ

pub data ProcessorResult (Entry : Type 0) : Type 0 where
  success : Completion → Success Entry → ProcessorResult Entry
  not_modified : Completion → ProcessorResult Entry
  failure : Failure → ProcessorResult Entry

pub record CommitInput (Entry : Type 0) : Type 0 where
  pub claim : Claim
  pub filter_revisions : List (ℕ × ℕ)
  pub history_id : ℕ
  pub completed_at : ℕ
  pub completion : Completion
  pub was_not_modified : Bool
  pub success : Option (Success Entry)
  pub entries : List Entry

pub record FailureInput : Type 0 where
  pub claim : Claim
  pub history_id : ℕ
  pub failed_at : ℕ
  pub failure : Failure
  pub retry_at : ℕ

pub record FailureRecord : Type 0 where
  pub terminal : Bool
  pub available_at : Option ℕ

pub data Decision : Type 0 where
  ack : String → Decision
  retry : String → ℕ → Decision
  dead : String → Decision

pub record LeaseInput : Type 0 where
  pub owner : String
  pub now : ℕ
  pub lease_ms : ℕ
  pub limit : ℕ
  pub operation_id : Option String

pub record ReleaseInput (Target : Type 0) : Type 0 where
  pub target : Target
  pub now : ℕ
  pub available_at : ℕ
  pub error_class : String
  pub error_message : String

pub record ClaimInput : Type 0 where
  pub operation_id : String
  pub owner : String
  pub now : ℕ
  pub lease_ms : ℕ

pub record RedriveResult : Type 0 where
  pub redriven : ℕ
  pub dead_lettered : ℕ

-- The operations that the orchestrator calls: `JobRepository` of src/worker/jobs/repository.ts,
-- whose methods all are asynchronous and may throw.
pub record JobRepository (W Entry : Type 0) : Type 0 where
  pub create_refresh_job : CreateInput → Io W CreateResult
  pub list_due_feeds : ℕ → ℕ → Io W (List DueFeed)
  pub lease_outbox : LeaseInput → Io W (List LeasedMessage)
  pub mark_dispatched : LeasedMessage → ℕ → Io W (Unit {0})
  pub release_outbox : ReleaseInput LeasedMessage → Io W (Unit {0})
  pub claim_refresh_job : ClaimInput → Io W ClaimResult
  pub load_feed_input : Claim → ℕ → Io W FeedInput
  pub release_lease : ReleaseInput Claim → Io W Bool
  pub recover_stale_leases : ℕ → ℕ → Io W ℕ
  pub reconcile_stranded : ℕ → ℕ → ℕ → Io W RedriveResult
  pub cleanup_refresh_history : ℕ → ℕ → Io W ℕ
  pub cleanup_terminal_jobs : ℕ → ℕ → Io W ℕ
  pub commit_refresh : CommitInput Entry → Io W (Unit {0})
  pub record_refresh_failure : FailureInput → Io W FailureRecord
