-- ===== src/Jobs/Store/Outbox.antt =====
-- The outbox (`leaseOutbox`, `markDispatched` and `releaseOutbox` of src/worker/jobs/repository.ts).
pub mod Batch
use larafeed.Prelude.{
  ℕ, ◌+◌, Bool, not, ◌&&◌, ◌||◌, Option, none, some, List, map, ltb, leb, ◌==◌, if◌then◌else◌, min,
  max, length, String,
}
use larafeed.Effect.{returned, threw, Io}
use larafeed.Jobs.Errors.{invariant_error}
use larafeed.Jobs.Types.{max_outbox_messages, JobState, LeaseInput, LeasedMessage, ReleaseInput}
use larafeed.Jobs.Store.Sql.{
  update_where, select_where, count_where, exists_where, first_by, is_in, at_most, at_least,
  or_zero,
}
use larafeed.Jobs.Store.Tables.{
  JobRow, OutboxState, OutboxRow, FeedRow, Db, is_refresh, is_scheduled, is_open, is_dead,
  is_waiting, is_leased, is_abandoned, is_text, error_class, error_message, max_outbox_attempts,
  bounded_limit, is_operation,
}
use larafeed.Jobs.Store.Claim.{lease_end}

-- the operation that a lease is restricted to, if any
abbrev pub in_scope : Option String → JobRow → Bool
in_scope none j = is_refresh j.kind
in_scope (some operation_id) j = is_operation operation_id j

-- a refresh message of a refresh job in scope
abbrev pub has_job : Option String → List JobRow → OutboxRow → Bool
has_job scope jobs o =
    is_refresh o.topic && exists_where (λ (j : JobRow). j.id == o.job_id && in_scope scope j) jobs

abbrev pub is_expired : LeaseInput → List JobRow → OutboxRow → Bool
is_expired input jobs o =
    has_job input.operation_id jobs o && is_leased o.state && at_most o.lease_expires_at input.now

abbrev pub is_due : LeaseInput → List JobRow → OutboxRow → Bool
is_due input jobs o =
    has_job input.operation_id jobs o && is_waiting o.state && leb o.available_at input.now

abbrev pub id_of : OutboxRow → ℕ
id_of o = o.id

abbrev pub lease_limit : LeaseInput → ℕ
lease_limit input = bounded_limit input.limit max_outbox_messages

-- the rows that the first statement recovers, and those that the second leases
unfoldable pub expired_ids : LeaseInput → Db → List ℕ
unfolding first_by
expired_ids input db = map id_of (
    first_by (λ (o : OutboxRow). or_zero o.lease_expires_at) id_of (lease_limit input)
      (select_where (is_expired input db.jobs) db.outbox))

unfoldable pub due_ids : LeaseInput → Db → List ℕ
unfolding first_by
due_ids input db = map id_of (
    first_by (λ (o : OutboxRow). o.available_at) id_of (lease_limit input)
      (select_where (is_due input db.jobs) db.outbox))

abbrev pub recover_row : LeaseInput → OutboxRow → OutboxRow
recover_row input o = record o {
  state = OutboxState.pending;
  lease_owner = none;
  lease_expires_at = none;
  available_at = min o.available_at input.now;
  updated_at = input.now;
}

abbrev pub lease_row : LeaseInput → OutboxRow → OutboxRow
lease_row input o = record o {
  state = OutboxState.leased;
  lease_owner = some input.owner;
  lease_expires_at = some (lease_end input.now input.lease_ms);
  updated_at = input.now;
}

abbrev pub has_id : List ℕ → OutboxRow → Bool
has_id ids o = is_in ids o.id

unfoldable pub recovered : LeaseInput → Db → Db
unfolding expired_ids
recovered input db = record db {
  outbox = update_where (has_id (expired_ids input db)) (recover_row input) db.outbox;
}

abbrev pub leased_message : LeaseInput → OutboxRow → LeasedMessage
leased_message input o = record {
  id = o.id;
  job_id = o.job_id;
  operation_id = o.operation_id;
  attempt_count = o.attempt_count;
  lease_owner = input.owner;
  lease_expires_at = lease_end input.now input.lease_ms;
}

-- the second statement, on what the first leaves
unfoldable pub lease_due : LeaseInput → Io Db (List LeasedMessage)
unfolding due_ids
lease_due input db =
    let ids = due_ids input db in
    let rows = select_where (has_id ids) db.outbox in
    let db' = record db { outbox = update_where (has_id ids) (lease_row input) db.outbox } in
    let answer =
      if ltb input.limit (length rows)
      then threw (invariant_error "leaseOutbox" "invalid leased outbox batch")
      else returned (map (leased_message input) rows) in
    (answer, db')

unfoldable pub lease_outbox : LeaseInput → Io Db (List LeasedMessage)
unfolding recovered lease_due
lease_outbox input db = lease_due input (recovered input db)

-- the row of a message whose lease is held
abbrev pub is_held : LeasedMessage → ℕ → OutboxRow → Bool
is_held message now o =
    o.id == message.id
    && o.job_id == message.job_id
    && is_refresh o.topic
    && is_leased o.state
    && is_text o.lease_owner message.lease_owner
    && at_least o.lease_expires_at now

abbrev pub is_job_of : LeasedMessage → JobRow → Bool
is_job_of message j = j.id == message.job_id && is_operation message.operation_id j

-- the `WHERE` of the first statement of `markDispatched`
abbrev pub can_queue : LeasedMessage → ℕ → List OutboxRow → JobRow → Bool
can_queue message now outbox j =
    is_job_of message j && is_open j.state && exists_where (is_held message now) outbox

abbrev pub queue_row : ℕ → JobRow → JobRow
queue_row now j = record j { state = JobState.queued; updated_at = now }

-- the `WHERE` of the second, and of the first of `releaseOutbox`
abbrev pub can_settle : LeasedMessage → ℕ → List JobRow → OutboxRow → Bool
can_settle message now jobs o = is_held message now o && exists_where (is_job_of message) jobs

abbrev pub send_row : ℕ → OutboxRow → OutboxRow
send_row now o = record o {
  state = OutboxState.sent;
  sent_at = some now;
  lease_owner = none;
  lease_expires_at = none;
  updated_at = now;
}

unfoldable pub mark_dispatched : LeasedMessage → ℕ → Io Db (Unit {0})
mark_dispatched message now db =
    let jobs = update_where (can_queue message now db.outbox) (queue_row now) db.jobs in
    let outbox = update_where (can_settle message now jobs) (send_row now) db.outbox in
    let db' = record db { jobs = jobs; outbox = outbox } in
    let answer =
      if ltb 1 (count_where (can_queue message now db.outbox) db.jobs)
        || not (count_where (can_settle message now jobs) db.outbox == 1)
      then threw (invariant_error "markDispatched" "dispatch lease was lost")
      else returned tt in
    (answer, db')

abbrev pub unsent_state : ℕ → OutboxState
unsent_state attempts =
    if leb max_outbox_attempts attempts then OutboxState.dead_lettered else OutboxState.pending

unfoldable pub unsent_row : ReleaseInput LeasedMessage → OutboxRow → OutboxRow
unfolding error_class error_message
unsent_row input o = record o {
  state = unsent_state (o.attempt_count + 1);
  attempt_count = o.attempt_count + 1;
  available_at = max input.now input.available_at;
  lease_owner = none;
  lease_expires_at = none;
  last_error_class = some (error_class input.error_class);
  last_error_message = some (error_message input.error_message);
  updated_at = input.now;
}

abbrev pub is_dead_message : LeasedMessage → OutboxRow → Bool
is_dead_message message o =
    o.id == message.id && o.job_id == message.job_id && is_refresh o.topic && is_abandoned o.state

-- the `WHERE` of the second statement of `releaseOutbox`
abbrev pub can_bury : LeasedMessage → List OutboxRow → JobRow → Bool
can_bury message outbox j =
    is_job_of message j && is_open j.state && exists_where (is_dead_message message) outbox

unfoldable pub bury_row : ReleaseInput LeasedMessage → JobRow → JobRow
unfolding error_class error_message
bury_row input j = record j {
  state = JobState.dead_lettered;
  completed_at = some input.now;
  last_error_class = some (error_class input.error_class);
  last_error_message = some (error_message input.error_message);
  updated_at = input.now;
}

-- the feed of the scheduled job that is dead with its message
abbrev pub is_buried_feed : LeasedMessage → Db → FeedRow → Bool
is_buried_feed message db f =
    exists_where
      (λ (j : JobRow).
        is_job_of message j
        && is_dead j.state
        && is_scheduled j.trigger
        && j.feed_id == f.id
        && exists_where (is_dead_message message) db.outbox)
      db.jobs

-- `next_refresh_at = MAX(next_refresh_at + 1, ?), updated_at = MAX(updated_at, ?)`
abbrev pub postpone_row : ℕ → ℕ → FeedRow → FeedRow
postpone_row at now f = record f {
  next_refresh_at = max (f.next_refresh_at + 1) at;
  updated_at = max f.updated_at now;
}

unfoldable pub release_outbox : ReleaseInput LeasedMessage → Io Db (Unit {0})
unfolding unsent_row bury_row
release_outbox input db =
    let held = can_settle input.target input.now db.jobs in
    let outbox = update_where held (unsent_row input) db.outbox in
    let bury = can_bury input.target outbox in
    let db' = record db { jobs = update_where bury (bury_row input) db.jobs; outbox = outbox } in
    let postpone = is_buried_feed input.target db' in
    let db'' = record db' {
      feeds =
          update_where postpone (postpone_row (max input.now input.available_at) input.now)
            db.feeds;
    } in
    let answer =
      if not (count_where held db.outbox == 1)
      then threw (invariant_error "releaseOutbox" "outbox lease was lost")
      else if ltb 1 (count_where bury db.jobs) || ltb 1 (count_where postpone db.feeds)
      then threw (invariant_error "releaseOutbox" "updated multiple jobs or feeds")
      else returned tt in
    (answer, db'')
