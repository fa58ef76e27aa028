-- ===== src/Jobs/Store/Tests.antt =====
-- Runs of the repository on a small database.
use larafeed.Jobs.Store.Failure.Daily.{record_refresh_failure-AddsUp, AllAddUp}
use larafeed.Jobs.Store.Failure.Stale.{record_refresh_failure-stale}
use larafeed.Jobs.Errors.{storage_error, lease_lost_error}
use larafeed.Jobs.Store.Failure.{record_refresh_failure}
use larafeed.Jobs.Store.Recover.{job_id_of}
use mathlib.Core.List.{Memᴰ}
use mathlib.Core.List.Memᴰ
use larafeed.Effect.{threw}
use larafeed.Prelude.{
  true, sym, subst, ap, ◌∙◌, ◌≡◌, ◌≤◌, refl, false, none, some, List, [], ◌∷◌, min, length, arith,
}
use larafeed.Effect.{returned}
use larafeed.Jobs.Types.{
  FailureInput, JobState, manual, CreateInput, idempotent, LeaseInput, LeasedMessage, ClaimInput,
  busy, max_outbox_messages,
}
use larafeed.Jobs.Store.Tables.{holds_lease, Db, JobRow, job_from_row}
use larafeed.Jobs.Store.Create.{new_message, create_refresh_job, new_job}
use larafeed.Jobs.Store.Create.Again.{create_refresh_job-again}
use larafeed.Jobs.Store.Claim.{claim_refresh_job}
use larafeed.Jobs.Store.Outbox.{lease_outbox}
use larafeed.Jobs.Store.Outbox.Batch.{IsLeased, lease_outbox-IsLeased}
use larafeed.Jobs.Store.Valid.{IsValidJob, IsValid}
use larafeed.Jobs.Store.Steps.{Step, Steps, Arises}
use larafeed.Jobs.Store.Steps.Invariant.{Steps-IsValid}
use larafeed.Jobs.Store.Steps.Life.{Step-Arises, Step-final}

abbrev fresh : Db
fresh = record {
  jobs = [];
  outbox = [];
  feeds =
      record {
        id = 7;
        is_gone = false;
        next_refresh_at = 0;
        last_attempt_at = none;
        last_successful_refresh_at = none;
        last_failed_refresh_at = none;
        consecutive_failures = 0;
        consecutive_not_found_failures = 0;
        last_error_class = none;
        last_error_message = none;
        updated_at = 0;
      }
      ∷ [];
  refreshes = [];
  daily = [];
}

fresh-IsValid : IsValid fresh
fresh-IsValid = record {
  rows = λ j m. absurd (Memᴰ.not-nil m);
  messages = λ o m. absurd (Memᴰ.not-nil m);
  ids = tt;
  operations = tt;
  message_ids = tt;
  owners = tt;
  owned = λ o m. absurd (Memᴰ.not-nil m);
  alone = λ j k m n. absurd (Memᴰ.not-nil m);
}

abbrev command : CreateInput
command = record {
  job_id = 1;
  outbox_id = 2;
  operation_id = "op";
  feed_id = 7;
  trigger = manual;
  max_attempts = 8;
  now = 1_000;
  manual_cooldown_ms = 300_000;
}

abbrev command_again : CreateInput
command_again = record command { job_id = 3; outbox_id = 4; now = 2_000 }

abbrev asked : Db
asked = record fresh {
  jobs = new_job command ∷ [];
  outbox = new_message command (new_job command) ∷ [];
}

abbrev batch : LeaseInput
batch = record { operation_id = none; owner = "sender"; now = 1_500; lease_ms = 60_000; limit = 10 }

abbrev worker : ClaimInput
worker = record { operation_id = "op"; owner = "worker"; now = 2_000; lease_ms = 300_000 }

asked-IsValid : IsValid asked
unfolding create_refresh_job
asked-IsValid =
    Steps-IsValid fresh asked fresh-IsValid (Steps.next Steps.start (Step.create command))

-- asked for, leased and claimed
Steps-IsValid_example :
    IsValid (claim_refresh_job worker (lease_outbox batch (create_refresh_job command fresh).1).1).1
Steps-IsValid_example =
    Steps-IsValid fresh
      (claim_refresh_job worker (lease_outbox batch (create_refresh_job command fresh).1).1).1
      fresh-IsValid
      (Steps.next (Steps.next (Steps.next Steps.start (Step.create command)) (Step.lease batch))
        (Step.claim worker))

lease_outbox-IsLeased_example :
    (messages : List LeasedMessage) × ((lease_outbox batch asked).0 ≡ returned messages)
    × (length messages ≤ min max_outbox_messages batch.limit)
    × ((message : LeasedMessage)
        → Memᴰ message messages
        → IsLeased batch asked (lease_outbox batch asked).1 message)
lease_outbox-IsLeased_example = lease_outbox-IsLeased batch asked asked-IsValid (omega arith)

Step-Arises_example : Arises fresh (new_job command)
unfolding create_refresh_job
Step-Arises_example =
    Step-Arises fresh asked fresh-IsValid (Step.create command) (new_job command) (Memᴰ.head refl)

create_refresh_job-again_example :
    create_refresh_job command_again asked
    ≡ (returned (idempotent (job_from_row (new_job command))), asked)
unfolding create_refresh_job
create_refresh_job-again_example =
    create_refresh_job-again command command_again fresh asked (job_from_row (new_job command))
      fresh-IsValid (record { operation = refl; feed = refl; trigger = refl }) refl

abbrev done_job : JobRow
done_job = record (new_job command) {
  state = JobState.succeeded;
  attempt_count = 1;
  completed_at = some 1_900;
}

abbrev done : Db
done = record fresh { jobs = done_job ∷ [] }

done-IsValid : IsValid done
done-IsValid = record {
  rows = λ j m.
      subst IsValidJob (sym (Memᴰ.eq_of_singleton m))
        (record { tried = omega arith; owner = refl; expiry = refl; completion = refl });
  messages = λ o m. absurd (Memᴰ.not-nil m);
  ids = (Memᴰ.not-nil, tt);
  operations = (Memᴰ.not-nil, tt);
  message_ids = tt;
  owners = tt;
  owned = λ o m. absurd (Memᴰ.not-nil m);
  alone = λ j k m n r s f.
      ap job_id_of (Memᴰ.eq_of_singleton m) ∙ sym (ap job_id_of (Memᴰ.eq_of_singleton n));
}

Step-final_example : done_job ≡ done_job
unfolding claim_refresh_job
Step-final_example =
    Step-final done (claim_refresh_job worker done).1 done_job done_job done-IsValid
      (Step.claim worker) (Memᴰ.head refl) refl (Memᴰ.head refl) refl

-- A claim takes the job, and a second one finds it busy.
abbrev claimed_once : Db
claimed_once = record asked {
  jobs =
      record (new_job command) {
        state = JobState.running;
        attempt_count = 1;
        lease_owner = some "worker";
        lease_expires_at = some 302_000;
        started_at = some 2_000;
        updated_at = 2_000;
      }
      ∷ [];
}

claim_once : (claim_refresh_job worker asked).1 ≡ claimed_once
unfolding claim_refresh_job
claim_once = refl

claim_twice : (claim_refresh_job worker claimed_once).0 ≡ returned (busy 302_000)
unfolding claim_refresh_job
claim_twice = refl

-- The lease of the claim is over.
abbrev late : FailureInput
late = record {
  claim = record {
    job_id = 1;
    operation_id = "op";
    feed_id = 7;
    trigger = manual;
    attempt_count = 1;
    max_attempts = 8;
    lease_owner = "worker";
    lease_expires_at = 302_000;
  };
  failure = record {
    retryable = true;
    mark_gone = none;
    retry_after_ms = none;
    error_class = "timeout";
    error_message = "timed out";
    http_status = none;
    duration_ms = none;
  };
  failed_at = 400_000;
  retry_at = 500_000;
  history_id = 9;
}

late-lost :
    (j : JobRow) → Memᴰ j claimed_once.jobs → holds_lease late.claim late.failed_at j ≡ false
late-lost j m = ap (holds_lease late.claim late.failed_at) (Memᴰ.eq_of_singleton m)

record_refresh_failure-stale_example :
    record_refresh_failure late claimed_once ≡ (threw (lease_lost_error "op"), claimed_once)
record_refresh_failure-stale_example = record_refresh_failure-stale late claimed_once late-lost

-- The last attempt fails in time.
abbrev last_failure : FailureInput
last_failure = record late {
  failed_at = 300_000;
  failure = record late.failure { retryable = false };
}

record_refresh_failure-AddsUp_example :
    AllAddUp (record_refresh_failure last_failure claimed_once).1.daily
record_refresh_failure-AddsUp_example =
    record_refresh_failure-AddsUp last_failure claimed_once (λ d m. absurd (Memᴰ.not-nil m))

last_failure_buries :
    (record_refresh_failure last_failure claimed_once).0
    ≡ returned (record { terminal = true; available_at = none })
unfolding record_refresh_failure
last_failure_buries = refl

-- The feed is deleted while its refresh runs.
abbrev without_feed : Db
without_feed = record claimed_once { feeds = [] }

last_failure_of_deleted :
    record_refresh_failure last_failure without_feed
    ≡ (threw (storage_error "recordRefreshFailure"), without_feed)
unfolding record_refresh_failure
last_failure_of_deleted = refl
