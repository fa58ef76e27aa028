-- ===== src/Jobs/Store/Create.antt =====
-- The admission of refreshes (`createRefreshJob` and `listDueFeeds` of src/worker/jobs/repository.ts).
pub mod Answers
pub mod Again
use larafeed.Prelude.{
  ℕ, ◌+◌, ◌-◌, Bool, true, false, not, ◌&&◌, ◌||◌, Option, none, some, List, [], ◌∷◌, map, ltb, leb,
  ◌==◌, if◌then◌else◌, str_eq, String,
}
use larafeed.Effect.{Try, returned, threw, Io}
use larafeed.Jobs.Errors.{invariant_error, feed_not_found_error, storage_error}
use larafeed.Jobs.Types.{
  max_due_feeds, JobState, CreateInput, CreateResult, created, idempotent, active, cooldown, gone,
  DueFeed,
}
use larafeed.Jobs.Store.Sql.{select_where, count_where, exists_where, find_where, first_by, or_zero}
use larafeed.Jobs.Store.Tables.{
  feed_refresh, JobRow, OutboxState, OutboxRow, FeedRow, Db, is_refresh, is_scheduled, same_trigger,
  is_active, bounded_limit, job_from_row, is_operation,
}

-- `ON CONFLICT(operation_id) DO NOTHING`, whatever the kind
abbrev pub is_taken : String → Db → Bool
is_taken operation_id db = exists_where (λ (j : JobRow). str_eq j.operation_id operation_id) db.jobs

abbrev pub is_active_for : ℕ → JobRow → Bool
is_active_for feed_id j = is_refresh j.kind && is_active j.state && j.feed_id == feed_id

-- the last success is not within the cooldown
abbrev pub is_cooled : CreateInput → Option ℕ → Bool
is_cooled input none = true
is_cooled input (some t) =
    input.manual_cooldown_ms == 0 || leb t (input.now - input.manual_cooldown_ms)

abbrev pub admits_feed : CreateInput → FeedRow → Bool
admits_feed input f =
    f.id == input.feed_id
    && (not (is_scheduled input.trigger) || not f.is_gone)
    && is_cooled input f.last_successful_refresh_at

-- the first statement inserts a row
unfoldable pub admits : CreateInput → Db → Bool
admits input db =
    exists_where (admits_feed input) db.feeds
    && not (exists_where (is_active_for input.feed_id) db.jobs)
    && not (is_taken input.operation_id db)

abbrev pub new_job : CreateInput → JobRow
new_job input = record {
  id = input.job_id;
  operation_id = input.operation_id;
  kind = feed_refresh;
  state = JobState.pending;
  feed_id = input.feed_id;
  trigger = input.trigger;
  attempt_count = 0;
  max_attempts = input.max_attempts;
  available_at = input.now;
  lease_owner = none;
  lease_expires_at = none;
  started_at = none;
  completed_at = none;
  last_error_class = none;
  last_error_message = none;
  created_at = input.now;
  updated_at = input.now;
}

abbrev pub new_message : CreateInput → JobRow → OutboxRow
new_message input job = record {
  id = input.outbox_id;
  job_id = job.id;
  topic = feed_refresh;
  operation_id = input.operation_id;
  state = OutboxState.pending;
  attempt_count = 0;
  available_at = input.now;
  lease_owner = none;
  lease_expires_at = none;
  sent_at = none;
  last_error_class = none;
  last_error_message = none;
  created_at = input.now;
  updated_at = input.now;
}

unfoldable pub with_job : CreateInput → Db → Db
unfolding admits
with_job input db = if admits input db then record db { jobs = new_job input ∷ db.jobs } else db

-- the job that is to get a message: that of the operation, if it has none yet
abbrev pub lacks_message : List OutboxRow → Option JobRow → Option JobRow
lacks_message outbox none = none
lacks_message outbox (some job) =
    if exists_where (λ (o : OutboxRow). o.job_id == job.id) outbox then none else some job

abbrev pub without_message : CreateInput → Db → Option JobRow
without_message input db =
    lacks_message db.outbox (find_where (is_operation input.operation_id) db.jobs)

abbrev pub put_message : CreateInput → Db → Option JobRow → Db
put_message input db none = db
put_message input db (some job) = record db { outbox = new_message input job ∷ db.outbox }

unfoldable pub with_message : CreateInput → Db → Db
with_message input db = put_message input db (without_message input db)

abbrev pub is_some : {A : Type 0} → Option A → Bool
is_some none = false
is_some (some a) = true

-- An insertion under a key that is taken makes the batch fail as a whole.
unfoldable pub key_conflict : CreateInput → Db → Bool
unfolding admits with_job
key_conflict input db =
    (admits input db && exists_where (λ (j : JobRow). j.id == input.job_id) db.jobs)
    || (is_some (without_message input (with_job input db))
        && exists_where (λ (o : OutboxRow). o.id == input.outbox_id) (with_job input db).outbox)

abbrev pub messages_of : CreateInput → Db → ℕ
messages_of input db =
    count_where
      (λ (o : OutboxRow).
        is_refresh o.topic
        && str_eq o.operation_id input.operation_id
        && exists_where (λ (j : JobRow). j.id == o.job_id && is_operation input.operation_id j)
            db.jobs)
      db.outbox

abbrev pub first_row : {R : Type 0} → List R → Option R
first_row [] = none
first_row (row ∷ rows) = some row

abbrev pub is_cooling : CreateInput → Option ℕ → Bool
is_cooling input none = false
is_cooling input (some t) =
    ltb 0 input.manual_cooldown_ms && ltb input.now (t + input.manual_cooldown_ms)

abbrev pub same_command : CreateInput → JobRow → Bool
same_command input row = row.feed_id == input.feed_id && same_trigger row.trigger input.trigger

-- the answer where the operation has a job
abbrev pub requested : CreateInput → Bool → ℕ → JobRow → Try CreateResult
requested input fresh messages row =
    if not (same_command input row)
    then threw
        (invariant_error "createRefreshJob" "operation ID belongs to a different refresh command")
    else if not (messages == 1)
    then threw (invariant_error "createRefreshJob" "job does not have one outbox row")
    else if fresh
    then returned (created (job_from_row row))
    else returned (idempotent (job_from_row row))

abbrev pub active_answer : Option JobRow → Try CreateResult
active_answer none = threw (invariant_error "createRefreshJob" "refresh admission was lost")
active_answer (some row) = returned (active (job_from_row row))

-- the answer where it has none
abbrev pub refused : CreateInput → FeedRow → Option JobRow → Try CreateResult
refused input feed active_row =
    if is_scheduled input.trigger && feed.is_gone
    then returned gone
    else if is_cooling input feed.last_successful_refresh_at
    then returned (cooldown (or_zero feed.last_successful_refresh_at + input.manual_cooldown_ms))
    else active_answer active_row

abbrev pub answer_for :
    CreateInput → Bool → ℕ → Option JobRow → Option JobRow → Option FeedRow → Try CreateResult
answer_for input fresh messages job active_row none = threw (feed_not_found_error input.feed_id)
answer_for input fresh messages (some row) active_row (some feed) =
    requested input fresh messages row
answer_for input fresh messages none active_row (some feed) = refused input feed active_row

unfoldable pub create_answer : CreateInput → Bool → Db → Try CreateResult
unfolding first_by
create_answer input fresh db =
    answer_for input fresh (messages_of input db)
      (find_where (is_operation input.operation_id) db.jobs)
      (first_row (
        first_by (λ (j : JobRow). j.updated_at) (λ (j : JobRow). j.id) 1
          (select_where (is_active_for input.feed_id) db.jobs)))
      (find_where (λ (f : FeedRow). f.id == input.feed_id) db.feeds)

unfoldable pub create_refresh_job : CreateInput → Io Db CreateResult
unfolding admits with_job with_message key_conflict create_answer
create_refresh_job input db =
    let db' = with_message input (with_job input db) in
    if key_conflict input db
    then (threw (storage_error "createRefreshJob"), db)
    else (create_answer input (admits input db) db', db')

abbrev due_feed : FeedRow → DueFeed
due_feed f = record { id = f.id; next_refresh_at = f.next_refresh_at }

unfoldable pub list_due_feeds : ℕ → ℕ → Io Db (List DueFeed)
unfolding first_by
list_due_feeds now limit db = (
  returned (
      map due_feed (
        first_by (λ (f : FeedRow). f.next_refresh_at) (λ (f : FeedRow). f.id)
          (bounded_limit limit max_due_feeds)
          (select_where (λ (f : FeedRow). not f.is_gone && leb f.next_refresh_at now) db.feeds))),
  db,
)
