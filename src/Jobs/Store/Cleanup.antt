-- ===== src/Jobs/Store/Cleanup.antt =====
-- The deletion of old rows (`cleanupRefreshHistory` and `cleanupTerminalJobs` of
-- src/worker/jobs/repository.ts).
use larafeed.Prelude.{
  ℕ, Bool, false, not, ◌&&◌, ◌||◌, Option, none, some, List, map, ltb, ◌==◌, if◌then◌else◌,
}
use larafeed.Effect.{returned, threw, Io}
use larafeed.Jobs.Errors.{invariant_error}
use larafeed.Jobs.Types.{max_history_cleanup, max_terminal_job_cleanup}
use larafeed.Jobs.Store.Sql.{
  update_where, select_where, delete_where, count_where, exists_where, first_by, is_in, or_zero,
}
use larafeed.Jobs.Store.Tables.{
  JobRow, OutboxRow, RefreshRow, Db, is_terminal, is_leased, bounded_limit,
}

abbrev pub is_newer : RefreshRow → RefreshRow → Bool
is_newer old newer =
    newer.feed_id == old.feed_id
    && (ltb old.refreshed_at newer.refreshed_at
        || (newer.refreshed_at == old.refreshed_at && ltb old.id newer.id))

-- an old refresh that is not the last of its feed
abbrev pub is_old : ℕ → List RefreshRow → RefreshRow → Bool
is_old cutoff rows old = ltb old.refreshed_at cutoff && exists_where (is_newer old) rows

abbrev pub refresh_id : RefreshRow → ℕ
refresh_id row = row.id

unfoldable pub old_ids : ℕ → ℕ → List RefreshRow → List ℕ
unfolding first_by
old_ids cutoff bounded rows = map refresh_id (
    first_by (λ (row : RefreshRow). row.refreshed_at) refresh_id bounded
      (select_where (is_old cutoff rows) rows))

abbrev pub refresh_in : List ℕ → RefreshRow → Bool
refresh_in ids row = is_in ids row.id

unfoldable pub cleanup_refresh_history : ℕ → ℕ → Io Db ℕ
unfolding old_ids
cleanup_refresh_history cutoff limit db =
    let bounded = bounded_limit limit max_history_cleanup in
    let ids = old_ids cutoff bounded db.refreshes in
    let db' = record db { refreshes = delete_where (refresh_in ids) db.refreshes } in
    let deleted = count_where (refresh_in ids) db.refreshes in
    let answer =
      if ltb bounded deleted
      then threw (invariant_error "cleanupRefreshHistory" "deleted beyond cleanup limit")
      else returned deleted in
    (answer, db')

-- `completed_at < ?`
abbrev pub is_before : Option ℕ → ℕ → Bool
is_before none cutoff = false
is_before (some t) cutoff = ltb t cutoff

abbrev pub can_delete : ℕ → List OutboxRow → JobRow → Bool
can_delete cutoff outbox j =
    is_terminal j.state
    && is_before j.completed_at cutoff
    && not (exists_where (λ (o : OutboxRow). o.job_id == j.id && is_leased o.state) outbox)

unfoldable pub finished_ids : ℕ → ℕ → Db → List ℕ
unfolding first_by
finished_ids cutoff bounded db =
    map (λ (j : JobRow). j.id)
      (first_by (λ (j : JobRow). or_zero j.completed_at) (λ (j : JobRow). j.id) bounded
        (select_where (can_delete cutoff db.outbox) db.jobs))

abbrev pub job_id_in : List ℕ → Option ℕ → Bool
job_id_in ids none = false
job_id_in ids (some id) = is_in ids id

abbrev pub forget_job : RefreshRow → RefreshRow
forget_job row = record row { job_id = none }

-- Messages go with their jobs (`ON DELETE CASCADE`), and refreshes forget theirs
-- (`ON DELETE SET NULL`).
unfoldable pub cleanup_terminal_jobs : ℕ → ℕ → Io Db ℕ
unfolding finished_ids
cleanup_terminal_jobs cutoff limit db =
    let bounded = bounded_limit limit max_terminal_job_cleanup in
    let ids = finished_ids cutoff bounded db in
    let db' = record db {
      jobs = delete_where (λ (j : JobRow). is_in ids j.id) db.jobs;
      outbox = delete_where (λ (o : OutboxRow). is_in ids o.job_id) db.outbox;
      refreshes =
          update_where (λ (row : RefreshRow). job_id_in ids row.job_id) forget_job db.refreshes;
    } in
    let deleted = count_where (λ (j : JobRow). is_in ids j.id) db.jobs in
    let answer =
      if ltb bounded deleted
      then threw (invariant_error "cleanupTerminalJobs" "deleted beyond terminal job cleanup limit")
      else returned deleted in
    (answer, db')
