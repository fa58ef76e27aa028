-- ===== src/Jobs/Store/Failure/Stale.antt =====
-- A worker whose lease is over (`recordRefreshFailure` of src/worker/jobs/repository.ts).
use mathlib.Core.List.{Memᴰ}
use larafeed.Prelude.{
  ◌≡◌, refl, ap, arith, ◌&&◌, Bool, true, false, none, List, ◌==◌, if◌then◌else◌,
}
use larafeed.Effect.{Try, returned, threw}
use larafeed.Jobs.Errors.{storage_error, lease_lost_error}
use larafeed.Jobs.Types.{FailureInput, FailureRecord}
use larafeed.Jobs.Store.Tables.{
  error_message, error_class, JobRow, OutboxRow, FeedRow, Db, holds_lease,
}
use larafeed.Jobs.Store.Failure.{
  failure_record, record_refresh_failure, with_failure, is_recorded, is_final, bury, is_failed_feed,
  is_failed_message, held_job, put_refresh, refresh_conflict, failed_feed, failed_row,
}
use larafeed.Jobs.Store.Recover.{abandon_row}
use larafeed.Jobs.Store.Sql.Rows.{no_rows, update_where_none}

-- no job holds the lease of the claim
abbrev pub LeaseLost : FailureInput → List JobRow → Type 0
LeaseLost input jobs =
    (j : JobRow) → Memᴰ j jobs → holds_lease input.claim input.failed_at j ≡ false

same_if : (b : Bool) (db : Db) → (if b then db else db) ≡ db
same_if true db = refl
same_if false db = refl

module _ (input : FailureInput) (db : Db) (lost : LeaseLost input db.jobs) where
  no_job : held_job input db ≡ none
  no_job = (no_rows (holds_lease input.claim input.failed_at) db.jobs lost).1

  no_feed : (f : FeedRow) → Memᴰ f db.feeds → is_failed_feed input db.jobs f ≡ false
  no_feed f m =
      let e = (no_rows (holds_lease input.claim input.failed_at) db.jobs lost).0 in ground arith

  no_message : (o : OutboxRow) → Memᴰ o db.outbox → is_failed_message input db.jobs o ≡ false
  no_message o m =
      let its : JobRow → Bool =
        λ j. j.id == o.job_id && holds_lease input.claim input.failed_at j in
      let e = (no_rows its db.jobs (λ j n. let f = lost j n in ground arith)).0 in ground arith

  unburied : bury input db ≡ db
  unfolding bury put_refresh
  unburied =
      let change =
        abandon_row input.failed_at (error_class input.failure.error_class)
          (error_message input.failure.error_message) in
      let e = update_where_none (is_failed_message input db.jobs) change db.outbox no_message in
      rw (no_job, e)

  unchanged : with_failure input db ≡ db
  unfolding with_failure
  unchanged =
      let e =
        update_where_none (is_failed_feed input db.jobs) (failed_feed input) db.feeds no_feed in
      let e' =
        update_where_none (holds_lease input.claim input.failed_at) (failed_row input) db.jobs
          lost in
      rw (e, unburied, same_if (is_final input) db, e')

  not_recorded : is_recorded input db ≡ false
  unfolding is_recorded
  not_recorded =
      let (e, e', e'') = no_rows (is_failed_feed input db.jobs) db.feeds no_feed in rw (e'')

  last_outcome :
      (conflict recorded : Bool) (x y z : Try FailureRecord) (d : Db)
      → conflict ≡ false
      → recorded ≡ false
      → d ≡ db
      → ◌≡◌ {A = Try FailureRecord × Db}
          (if conflict then (x, db) else if recorded then (y, d) else (z, d))
          (z, db)
  last_outcome true r x y z d h k e = cc
  last_outcome false true x y z d h k e = cc
  last_outcome false false x y z d h k e = ap (λ (d' : Db). (z, d')) e

  -- Where no running job holds the lease of the claim (the owner is another, or the lease is over), the
  -- record of a failure throws the error on the lost lease and changes nothing.
  pub record_refresh_failure-stale :
      record_refresh_failure input db ≡ (threw (lease_lost_error input.claim.operation_id), db)
  unfolding record_refresh_failure
  record_refresh_failure-stale =
      last_outcome (refresh_conflict input (held_job input db) db) (is_recorded input db)
        (threw (storage_error "recordRefreshFailure")) (returned (failure_record input))
        (threw (lease_lost_error input.claim.operation_id)) (with_failure input db)
        (ap (λ found. refresh_conflict input found db) no_job) not_recorded unchanged
