-- ===== src/Jobs/Store/Recover.antt =====
-- The recovery of jobs whose lease is over or whose message was lost (`recoverStaleJobLeases` and
-- `reconcileStrandedRefreshJobs` of src/worker/jobs/repository.ts).
use larafeed.Prelude.{
  ℕ, ◌+◌, Bool, true, false, not, ◌&&◌, ◌||◌, none, some, List, [], ◌∷◌, ◌++◌, map, ltb, leb, ◌==◌,
  if◌then◌else◌, length, String,
}
use larafeed.Effect.{returned, threw, Io}
use larafeed.Jobs.Errors.{invariant_error}
use larafeed.Jobs.Types.{max_due_feeds, JobState, RedriveResult}
use larafeed.Jobs.Store.Sql.{
  update_where, select_where, count_where, exists_where, first_by, is_in, at_most, or_zero,
}
use larafeed.Jobs.Store.Tables.{
  JobRow, OutboxState, OutboxRow, FeedRow, Db, is_refresh, is_scheduled, is_running, is_delivered,
  is_dead, is_sent, is_abandoned, is_text, max_outbox_attempts, default_refresh_interval_ms,
  bounded_limit,
}
use larafeed.Jobs.Store.Outbox.{postpone_row}

abbrev pub stale_lease : String
stale_lease = "stale_lease"

abbrev pub job_id_of : JobRow → ℕ
job_id_of j = j.id

abbrev pub is_stale : ℕ → JobRow → Bool
is_stale now j = is_refresh j.kind && is_running j.state && at_most j.lease_expires_at now

-- `staleJobs`
unfoldable pub stale_ids : ℕ → ℕ → List JobRow → List ℕ
unfolding first_by
stale_ids now bounded jobs = map job_id_of (
    first_by (λ (j : JobRow). or_zero j.lease_expires_at) job_id_of bounded
      (select_where (is_stale now) jobs))

abbrev pub is_exhausted : JobRow → Bool
is_exhausted j = leb j.max_attempts j.attempt_count

-- the feed of a stale job that will not be tried again
abbrev pub is_stale_feed : List ℕ → List JobRow → FeedRow → Bool
is_stale_feed ids jobs f =
    exists_where
      (λ (j : JobRow).
        is_in ids j.id && is_exhausted j && is_scheduled j.trigger && j.feed_id == f.id)
      jobs

abbrev pub stale_row : ℕ → JobRow → JobRow
stale_row now j = record j {
  state = if is_exhausted j then JobState.dead_lettered else JobState.failed;
  available_at = now;
  lease_owner = none;
  lease_expires_at = none;
  completed_at = if is_exhausted j then some now else none;
  last_error_class = some stale_lease;
  last_error_message = some "Worker lease expired";
  updated_at = now;
}

abbrev pub job_in : List ℕ → JobRow → Bool
job_in ids j = is_in ids j.id

abbrev pub is_stale_message : ℕ → List JobRow → OutboxRow → Bool
is_stale_message now jobs o =
    is_refresh o.topic
    && not (is_abandoned o.state)
    && exists_where
        (λ (j : JobRow).
          j.id == o.job_id
          && is_refresh j.kind
          && is_dead j.state
          && is_text j.last_error_class stale_lease
          && j.updated_at == now)
        jobs

abbrev pub abandon_row : ℕ → String → String → OutboxRow → OutboxRow
abandon_row now class message o = record o {
  state = OutboxState.dead_lettered;
  sent_at = none;
  lease_owner = none;
  lease_expires_at = none;
  last_error_class = some class;
  last_error_message = some message;
  updated_at = now;
}

unfoldable pub recover_stale_leases : ℕ → ℕ → Io Db ℕ
unfolding stale_ids
recover_stale_leases now limit db =
    let bounded = bounded_limit limit max_due_feeds in
    let ids = stale_ids now bounded db.jobs in
    let feeds =
      update_where (is_stale_feed ids db.jobs)
        (postpone_row (now + default_refresh_interval_ms) now) db.feeds in
    let jobs = update_where (job_in ids) (stale_row now) db.jobs in
    let outbox =
      update_where (is_stale_message now jobs) (abandon_row now stale_lease "Worker lease expired")
        db.outbox in
    let db' = record db { jobs = jobs; outbox = outbox; feeds = feeds } in
    let changed = count_where (job_in ids) db.jobs in
    let answer =
      if ltb bounded (count_where (is_stale_feed ids db.jobs) db.feeds)
      then threw (invariant_error "recoverStaleJobLeases" "advanced beyond job limit")
      else if ltb bounded changed || ltb changed (count_where (is_stale_message now jobs) db.outbox)
      then threw (invariant_error "recoverStaleJobLeases" "recovered beyond job limit")
      else returned changed in
    (answer, db')

-- a queued or failed job whose message was sent and that nothing has touched since
abbrev pub is_stranded : ℕ → ℕ → JobRow → Bool
is_stranded now stale_before j =
    is_refresh j.kind
    && is_delivered j.state
    && leb j.updated_at stale_before
    && leb j.available_at now

abbrev pub is_lost : ℕ → JobRow → OutboxRow → Bool
is_lost stale_before j o =
    o.job_id == j.id && is_refresh o.topic && is_sent o.state && leb o.updated_at stale_before

abbrev pub has_lost : ℕ → List OutboxRow → JobRow → Bool
has_lost stale_before outbox j = exists_where (is_lost stale_before j) outbox

-- the messages of the selected jobs, each with whether it is exhausted
abbrev pub lost_of : ℕ → List OutboxRow → JobRow → List (ℕ × Bool)
lost_of stale_before [] j = []
lost_of stale_before (o ∷ outbox) j =
    let rest = lost_of stale_before outbox j in
    if is_lost stale_before j o
    then (o.id, leb max_outbox_attempts o.attempt_count || is_exhausted j) ∷ rest
    else rest

abbrev pub append_all : {A : Type 0} → (JobRow → List A) → List JobRow → List A
append_all f [] = []
append_all f (j ∷ jobs) = f j ++ append_all f jobs

-- A job has one message at most, so that the limit on the joined rows is one on the jobs.
unfoldable pub stranded : ℕ → ℕ → ℕ → Db → List (ℕ × Bool)
unfolding first_by
stranded now stale_before bounded db = append_all (lost_of stale_before db.outbox) (
    first_by (λ (j : JobRow). j.updated_at) job_id_of bounded
      (select_where
        (λ (j : JobRow). is_stranded now stale_before j && has_lost stale_before db.outbox j)
        db.jobs))

abbrev pub ids_where : Bool → List (ℕ × Bool) → List ℕ
ids_where exhausted [] = []
ids_where true ((id, true) ∷ rows) = id ∷ ids_where true rows
ids_where true ((id, false) ∷ rows) = ids_where true rows
ids_where false ((id, true) ∷ rows) = ids_where false rows
ids_where false ((id, false) ∷ rows) = id ∷ ids_where false rows

abbrev pub redrive_exhausted : String
redrive_exhausted = "queue_redrive_exhausted"

-- the `WHERE` of the first statement of the batch
abbrev pub can_exhaust : ℕ → ℕ → List ℕ → List OutboxRow → JobRow → Bool
can_exhaust now stale_before ids outbox j =
    is_stranded now stale_before j
    && exists_where
        (λ (o : OutboxRow).
          is_in ids o.id
          && o.job_id == j.id
          && is_refresh o.topic
          && is_sent o.state
          && (leb max_outbox_attempts o.attempt_count || is_exhausted j))
        outbox

abbrev pub exhaust_row : ℕ → JobRow → JobRow
exhaust_row now j = record j {
  state = JobState.dead_lettered;
  completed_at = some now;
  last_error_class = some redrive_exhausted;
  last_error_message = some "Queue redrive attempts exhausted";
  updated_at = now;
}

-- a job that the first statement has just given up
abbrev pub is_given_up : ℕ → JobRow → Bool
is_given_up now j =
    is_refresh j.kind
    && is_dead j.state
    && is_text j.last_error_class redrive_exhausted
    && j.updated_at == now

abbrev pub is_given_up_feed : ℕ → List ℕ → List JobRow → List OutboxRow → FeedRow → Bool
is_given_up_feed now ids jobs outbox f =
    exists_where
      (λ (j : JobRow).
        is_given_up now j
        && is_scheduled j.trigger
        && j.feed_id == f.id
        && exists_where
            (λ (o : OutboxRow).
              is_in ids o.id && o.job_id == j.id && is_refresh o.topic && is_sent o.state)
            outbox)
      jobs

abbrev pub is_given_up_message : ℕ → List ℕ → List JobRow → OutboxRow → Bool
is_given_up_message now ids jobs o =
    is_in ids o.id
    && is_refresh o.topic
    && is_sent o.state
    && exists_where (λ (j : JobRow). j.id == o.job_id && is_given_up now j) jobs

-- the first three statements of the batch, which are run where some message is exhausted
unfoldable pub give_up : ℕ → ℕ → List ℕ → Db → Db
give_up now stale_before ids db =
    let jobs =
      update_where (can_exhaust now stale_before ids db.outbox) (exhaust_row now) db.jobs in
    let feeds =
      update_where (is_given_up_feed now ids jobs db.outbox)
        (postpone_row (now + default_refresh_interval_ms) now) db.feeds in
    let outbox =
      update_where (is_given_up_message now ids jobs)
        (λ (o : OutboxRow). record o {
          state = OutboxState.dead_lettered;
          sent_at = none;
          last_error_class = some redrive_exhausted;
          last_error_message = some "Queue redrive attempts exhausted";
          updated_at = now;
        })
        db.outbox in
    record db { jobs = jobs; outbox = outbox; feeds = feeds }

abbrev pub can_redrive : ℕ → ℕ → List ℕ → List JobRow → OutboxRow → Bool
can_redrive now stale_before ids jobs o =
    is_in ids o.id
    && is_refresh o.topic
    && is_sent o.state
    && ltb o.attempt_count max_outbox_attempts
    && leb o.updated_at stale_before
    && exists_where
        (λ (j : JobRow). j.id == o.job_id && is_stranded now stale_before j && not (is_exhausted j))
        jobs

abbrev pub redrive_row : ℕ → OutboxRow → OutboxRow
redrive_row now o = record o {
  state = OutboxState.pending;
  attempt_count = o.attempt_count + 1;
  available_at = now;
  sent_at = none;
  last_error_class = some "queue_delivery_lost";
  last_error_message = some "Queue delivery was not observed";
  updated_at = now;
}

-- the fourth statement
unfoldable pub redrive : ℕ → ℕ → List ℕ → Db → Db
redrive now stale_before ids db = record db {
  outbox = update_where (can_redrive now stale_before ids db.jobs) (redrive_row now) db.outbox;
}

-- The statements are run only for the lists that are not empty; for an empty list they change
-- nothing.
unfoldable pub reconcile_ids : ℕ → ℕ → ℕ → List ℕ → List ℕ → Io Db RedriveResult
unfolding give_up redrive
reconcile_ids now stale_before bounded redrive_ids exhausted_ids db =
    let db' = give_up now stale_before exhausted_ids db in
    let db'' = redrive now stale_before redrive_ids db' in
    let terminal_jobs =
      count_where (can_exhaust now stale_before exhausted_ids db.outbox) db.jobs in
    let advanced_feeds =
      count_where (is_given_up_feed now exhausted_ids db'.jobs db.outbox) db.feeds in
    let terminal_outbox = count_where (is_given_up_message now exhausted_ids db'.jobs) db.outbox in
    let redriven = count_where (can_redrive now stale_before redrive_ids db'.jobs) db'.outbox in
    let answer =
      if ltb (length exhausted_ids) terminal_jobs
        || ltb terminal_jobs advanced_feeds
        || not (terminal_outbox == terminal_jobs)
        || ltb (length redrive_ids) redriven
        || ltb bounded (terminal_jobs + redriven)
      then threw (invariant_error "reconcileStrandedRefreshJobs" "invalid redrive reconciliation")
      else returned (record { redriven = redriven; dead_lettered = terminal_jobs }) in
    (answer, db'')

-- The candidates are read before the batch; nothing is modelled to come between.
unfoldable pub reconcile_stranded : ℕ → ℕ → ℕ → Io Db RedriveResult
unfolding stranded reconcile_ids
reconcile_stranded now stale_before limit db =
    let bounded = bounded_limit limit max_due_feeds in
    let rows = stranded now stale_before bounded db in
    if ltb bounded (length rows)
    then (
      threw (invariant_error "reconcileStrandedRefreshJobs" "selected beyond redrive limit"),
      db,
    )
    else reconcile_ids now stale_before bounded (ids_where false rows) (ids_where true rows) db
