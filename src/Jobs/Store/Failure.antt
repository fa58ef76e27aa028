-- ===== src/Jobs/Store/Failure.antt =====
-- The record of a failed refresh (`recordRefreshFailure` and `dailyRefreshAggregate` of
-- src/worker/jobs/repository.ts).
pub mod Stale
pub mod Daily
use larafeed.Prelude.{
  ℕ, ◌+◌, ◌-◌, ◌*◌, ◌%◌, Bool, true, false, not, ◌&&◌, ◌||◌, Option, none, some, List, ◌∷◌, leb,
  ◌==◌, if◌then◌else◌, max,
}
use larafeed.Effect.{returned, threw, Io}
use larafeed.Jobs.Errors.{lease_lost_error, storage_error}
use larafeed.Jobs.Types.{max_backoff_ms, JobState, FailureInput, FailureRecord}
use larafeed.Jobs.Store.Sql.{update_where, count_where, exists_where, find_where}
use larafeed.Jobs.Store.Tables.{
  JobRow, OutboxRow, FeedRow, RefreshRow, DailyRow, Db, is_refresh, is_abandoned, error_class,
  error_message, default_refresh_interval_ms, holds_lease,
}
use larafeed.Jobs.Store.Recover.{abandon_row}

abbrev pub is_true : Option Bool → Bool
is_true none = false
is_true (some b) = b

unfoldable pub is_final : FailureInput → Bool
is_final input =
    not input.failure.retryable || leb input.claim.max_attempts input.claim.attempt_count

abbrev pub next_attempt : FailureInput → ℕ
next_attempt input = max input.failed_at input.retry_at

-- the delay of a scheduled refresh after so many failures
abbrev pub failure_delay : ℕ → ℕ
failure_delay failures =
    if failures == 0
    then default_refresh_interval_ms
    else if failures == 1
    then default_refresh_interval_ms * 2
    else if failures == 2
    then default_refresh_interval_ms * 4
    else if failures == 3
    then default_refresh_interval_ms * 8
    else if failures == 4
    then default_refresh_interval_ms * 16
    else max_backoff_ms

unfoldable pub failed_feed : FailureInput → FeedRow → FeedRow
unfolding error_class error_message is_final
failed_feed input f = record f {
  consecutive_failures = f.consecutive_failures + 1;
  consecutive_not_found_failures =
      if is_true input.failure.mark_gone then f.consecutive_not_found_failures + 1 else 0;
  is_gone =
      if is_true input.failure.mark_gone
        && is_final input
        && leb 3 (f.consecutive_not_found_failures + 1)
      then true
      else f.is_gone;
  last_attempt_at = some input.failed_at;
  last_failed_refresh_at = some input.failed_at;
  next_refresh_at =
      if is_final input
      then max input.retry_at (input.failed_at + failure_delay f.consecutive_failures)
      else next_attempt input;
  last_error_class = some (error_class input.failure.error_class);
  last_error_message = some (error_message input.failure.error_message);
  updated_at = input.failed_at;
}

abbrev pub is_failed_feed : FailureInput → List JobRow → FeedRow → Bool
is_failed_feed input jobs f =
    f.id == input.claim.feed_id && exists_where (holds_lease input.claim input.failed_at) jobs

unfoldable pub failed_refresh : FailureInput → JobRow → RefreshRow
unfolding error_class error_message
failed_refresh input j = record {
  id = input.history_id;
  feed_id = input.claim.feed_id;
  job_id = some j.id;
  refreshed_at = input.failed_at;
  was_successful = false;
  entries_created = 0;
  http_status = input.failure.http_status;
  duration_ms = input.failure.duration_ms;
  error_class = some (error_class input.failure.error_class);
  error_message = some (error_message input.failure.error_message);
}

-- the start of the day, in UTC
abbrev pub day_of : ℕ → ℕ
day_of t = t - t % 86_400_000

abbrev pub is_day : RefreshRow → DailyRow → Bool
is_day row d = d.feed_id == row.feed_id && d.day_start == day_of row.refreshed_at

abbrev pub one_if : Bool → ℕ
one_if true = 1
one_if false = 0

abbrev pub new_day : RefreshRow → DailyRow
new_day row = record {
  feed_id = row.feed_id;
  day_start = day_of row.refreshed_at;
  attempts_count = 1;
  successes_count = one_if row.was_successful;
  failures_count = one_if (not row.was_successful);
  entries_created_count = row.entries_created;
  updated_at = row.refreshed_at;
}

abbrev pub add_to_day : RefreshRow → DailyRow → DailyRow
add_to_day row d = record d {
  attempts_count = d.attempts_count + 1;
  successes_count = d.successes_count + one_if row.was_successful;
  failures_count = d.failures_count + one_if (not row.was_successful);
  entries_created_count = d.entries_created_count + row.entries_created;
  updated_at = row.refreshed_at;
}

-- `dailyRefreshAggregate`: the upsert of the day of a refresh that was just inserted
unfoldable pub count_day : RefreshRow → List DailyRow → List DailyRow
count_day row daily =
    if exists_where (is_day row) daily
    then update_where (is_day row) (add_to_day row) daily
    else new_day row ∷ daily

abbrev pub is_failed_message : FailureInput → List JobRow → OutboxRow → Bool
is_failed_message input jobs o =
    o.job_id == input.claim.job_id
    && is_refresh o.topic
    && not (is_abandoned o.state)
    && exists_where (λ (j : JobRow). j.id == o.job_id && holds_lease input.claim input.failed_at j)
        jobs

unfoldable pub failed_row : FailureInput → JobRow → JobRow
unfolding error_class error_message is_final
failed_row input j = record j {
  state = if is_final input then JobState.dead_lettered else JobState.failed;
  available_at = if is_final input then input.failed_at else next_attempt input;
  lease_owner = none;
  lease_expires_at = none;
  completed_at = if is_final input then some input.failed_at else none;
  last_error_class = some (error_class input.failure.error_class);
  last_error_message = some (error_message input.failure.error_message);
  updated_at = input.failed_at;
}

-- the insertion of the refresh of the job that holds the lease, with its day
unfoldable pub put_refresh : FailureInput → Option JobRow → Db → Db
unfolding failed_refresh count_day
put_refresh input none db = db
put_refresh input (some j) db = record db {
  refreshes = failed_refresh input j ∷ db.refreshes;
  daily = count_day (failed_refresh input j) db.daily;
}

abbrev pub held_job : FailureInput → Db → Option JobRow
held_job input db = find_where (holds_lease input.claim input.failed_at) db.jobs

-- the three statements that only a final failure has
unfoldable pub bury : FailureInput → Db → Db
unfolding put_refresh
bury input db =
    let db' = put_refresh input (held_job input db) db in
    record db' {
      outbox =
          update_where (is_failed_message input db.jobs)
            (abandon_row input.failed_at (error_class input.failure.error_class)
              (error_message input.failure.error_message))
            db.outbox;
    }

abbrev pub is_job_of_refresh : JobRow → RefreshRow → Bool
is_job_of_refresh j row = elim row.job_id [ none ↦ false | some id ↦ id == j.id ]

-- The insertion of the refresh makes the batch fail as a whole where the feed is deleted, or where
-- the number or the job of the refresh is taken.
abbrev pub refresh_conflict : FailureInput → Option JobRow → Db → Bool
refresh_conflict input none db = false
refresh_conflict input (some j) db =
    is_final input
    && (not (exists_where (λ (f : FeedRow). f.id == input.claim.feed_id) db.feeds)
        || exists_where (λ (row : RefreshRow). row.id == input.history_id) db.refreshes
        || exists_where (is_job_of_refresh j) db.refreshes)

-- the updates of the feed and of the job, which every failure has
unfoldable pub with_failure : FailureInput → Db → Db
unfolding failed_feed failed_row bury is_final
with_failure input db =
    let db' = record db {
      feeds = update_where (is_failed_feed input db.jobs) (failed_feed input) db.feeds;
    } in
    let db'' = if is_final input then bury input db' else db' in
    record db'' {
      jobs = update_where (holds_lease input.claim input.failed_at) (failed_row input) db.jobs;
    }

-- The inserted refresh and its day are one change each where a job holds the lease.
abbrev pub buried_once : FailureInput → Db → Bool
buried_once input db =
    count_where (holds_lease input.claim input.failed_at) db.jobs == 1
    && count_where (is_failed_message input db.jobs) db.outbox == 1

abbrev pub failure_record : FailureInput → FailureRecord
failure_record input = record {
  terminal = is_final input;
  available_at = if is_final input then none else some (next_attempt input);
}

unfoldable pub is_recorded : FailureInput → Db → Bool
unfolding is_final
is_recorded input db =
    count_where (is_failed_feed input db.jobs) db.feeds == 1
    && (not (is_final input) || buried_once input db)
    && count_where (holds_lease input.claim input.failed_at) db.jobs == 1

unfoldable pub record_refresh_failure : FailureInput → Io Db FailureRecord
unfolding with_failure is_recorded is_final
record_refresh_failure input db =
    if refresh_conflict input (held_job input db) db
    then (threw (storage_error "recordRefreshFailure"), db)
    else if is_recorded input db
    then (returned (failure_record input), with_failure input db)
    else (threw (lease_lost_error input.claim.operation_id), with_failure input db)
