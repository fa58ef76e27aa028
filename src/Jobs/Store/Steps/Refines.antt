-- ===== src/Jobs/Store/Steps/Refines.antt =====
-- Jobs move along the edges of their state machine only (for src/worker/jobs/repository.ts).
use larafeed.Jobs.Store.Sql.Rows.{update_where-Changed, Changed}
use larafeed.Jobs.Store.Valid.Recover.{can_exhaust-delivered}
use larafeed.Prelude.{
  ◌≡◌, refl, sym, subst, ap, arith, not, inr, if◌then◌else◌, false, length, Bool, inl, ltb,
}
use larafeed.Jobs.Store.Valid.Updates.{either_result}
use larafeed.Jobs.Errors.{invariant_error, lease_lost_error, storage_error}
use larafeed.Jobs.Store.Sql.Keys.{first_by-selected}
use larafeed.Jobs.Store.Valid.States.{
  claimable_idle, running_active, delivered_claimable, open_claimable,
}
use larafeed.Effect.{Try, returned, threw}
use larafeed.Jobs.Store.Valid.Outbox.{can_bury-open, can_queue-open}
use larafeed.Jobs.Store.Valid.Refreshes.{can_claim-CanClaim, is_held_by-running}
use larafeed.Jobs.Store.Sql.{or_zero, update_where}
use larafeed.Jobs.Store.Valid.{IsValid}
use larafeed.Jobs.Store.Failure.{
  is_recorded, held_job, refresh_conflict, failed_row, failure_record, is_final,
  record_refresh_failure, with_failure,
}
use larafeed.Jobs.Store.Recover.{
  exhaust_row, can_exhaust, give_up, ids_where, is_exhausted, is_stale, job_id_of, job_in,
  reconcile_ids, reconcile_stranded, recover_stale_leases, redrive, stale_ids, stale_row, stranded,
}
use larafeed.Jobs.Store.Claim.{
  can_claim, claim_refresh_job, claim_row, is_held_by, release_lease, release_row,
}
use larafeed.Jobs.Store.Outbox.{
  bury_row, can_bury, can_queue, can_settle, mark_dispatched, queue_row, release_outbox, unsent_row,
}
use larafeed.Jobs.Types.{
  Claim, ClaimInput, FailureInput, FailureRecord, JobState, LeasedMessage, RedriveResult,
  ReleaseInput, max_due_feeds,
}
use larafeed.Jobs.Store.Tables.{
  is_active, Db, JobRow, bounded_limit, holds_lease, is_claimable, is_running,
}
use larafeed.Jobs.Store.Steps.{Follows, Arises, Moves, command_of, true, ℕ}
use mathlib.Core.List.{Memᴰ}

-- the moves of the rows that an update changes
abbrev Moved : (JobRow → JobRow) → JobRow → Type 0
Moved change j =
    (command_of (change j) ≡ command_of j)
    × Moves j.max_attempts j.state j.attempt_count (change j).state (change j).attempt_count

update_Follows :
    (db : Db) (test : JobRow → Bool) (change : JobRow → JobRow) (j' : JobRow)
    → ((j : JobRow) → Memᴰ j db.jobs → test j ≡ true → Moved change j)
    → Memᴰ j' (update_where test change db.jobs)
    → Arises db j'
update_Follows db test change j' h m =
    let (j, n, c) = update_where-Changed test change db.jobs j' m in inl (j, n, follows j n c)
  where
    follows : (j : JobRow) → Memᴰ j db.jobs → Changed test change j j' → Follows j j'
    follows j n (inl (t, e)) = subst (Follows j) (sym e) (inr (h j n t))
    follows j n (inr (t, e)) = inl e

same_Arises : (db : Db) (j : JobRow) → Memᴰ j db.jobs → Arises db j
same_Arises db j m = inl (j, m, inl refl)

running_is_active : (s : JobState) → is_running s ≡ true → is_active s ≡ true
running_is_active s h = ap not (running_active s h)

claimable_active : (s : JobState) → is_claimable s ≡ true → is_active s ≡ true
claimable_active s h = ap not (claimable_idle s h).1

-- the moves of a job that fails or is given up
failed_or_dead :
    (most n : ℕ) (s : JobState) (b : Bool)
    → is_running s ≡ true
    → Moves most s n (if b then JobState.dead_lettered else JobState.failed) n
failed_or_dead most n s true h = Moves.bury (running_is_active s h)
failed_or_dead most n s false h = Moves.postpone h

pub dispatch_Follows :
    (message : LeasedMessage) (now : ℕ) (db : Db) (j' : JobRow)
    → Memᴰ j' (mark_dispatched message now db).1.jobs
    → Arises db j'
unfolding mark_dispatched
dispatch_Follows message now db j' m =
    update_Follows db (can_queue message now db.outbox) (queue_row now) j'
      (λ j n t. (refl, Moves.queue (can_queue-open message now db.outbox j t))) m

pub undispatch_Follows :
    (input : ReleaseInput LeasedMessage) (db : Db) (j' : JobRow)
    → Memᴰ j' (release_outbox input db).1.jobs
    → Arises db j'
unfolding release_outbox bury_row
undispatch_Follows input db j' m =
    let outbox =
      update_where (can_settle input.target input.now db.jobs) (unsent_row input) db.outbox in
    update_Follows db (can_bury input.target outbox) (bury_row input) j'
      (λ j n t. (
        refl,
        Moves.bury (
            claimable_active j.state
              (open_claimable j.state (can_bury-open input.target outbox j t))),
      ))
      m

pub claim_Follows :
    (input : ClaimInput) (db : Db) (j' : JobRow)
    → Memᴰ j' (claim_refresh_job input db).1.jobs
    → Arises db j'
unfolding claim_refresh_job
claim_Follows input db j' m =
    update_Follows db (can_claim input db.jobs) (claim_row input) j'
      (λ j n t.
        let c = can_claim-CanClaim input db.jobs j t in (refl, Moves.begin c.claimable c.tries))
      m

pub release_Follows :
    (input : ReleaseInput Claim) (db : Db) (j' : JobRow)
    → Memᴰ j' (release_lease input db).1.jobs
    → Arises db j'
unfolding release_lease release_row
release_Follows input db j' m =
    update_Follows db (is_held_by input.target) (release_row input) j'
      (λ j n t. (refl, Moves.postpone (is_held_by-running input.target j t))) m

is_stale-running : (now : ℕ) (j : JobRow) → is_stale now j ≡ true → is_running j.state ≡ true
is_stale-running now j h = ground arith

pub recover_Follows :
    (now limit : ℕ) (db : Db) (j' : JobRow)
    → IsValid db
    → Memᴰ j' (recover_stale_leases now limit db).1.jobs
    → Arises db j'
unfolding recover_stale_leases stale_ids
recover_Follows now limit db j' v m =
    let bounded = bounded_limit limit max_due_feeds in
    update_Follows db (job_in (stale_ids now bounded db.jobs)) (stale_row now) j'
      (λ j n t.
        let h =
          first_by-selected job_id_of (λ (r : JobRow). or_zero r.lease_expires_at) job_id_of bounded
            (is_stale now) db.jobs j v.ids n t in
        (refl, failed_or_dead _ _ _ (is_exhausted j) (is_stale-running now j h)))
      m

pub reconcile_Follows :
    (now stale_before limit : ℕ) (db : Db) (j' : JobRow)
    → Memᴰ j' (reconcile_stranded now stale_before limit db).1.jobs
    → Arises db j'
unfolding reconcile_stranded reconcile_ids give_up redrive
reconcile_Follows now stale_before limit db j' m =
    let bounded = bounded_limit limit max_due_feeds in
    let rows = stranded now stale_before bounded db in
    let ids = ids_where true rows in
    let failed : Try RedriveResult × Db = (
      threw (invariant_error "reconcileStrandedRefreshJobs" "selected beyond redrive limit"),
      db,
    ) in
    either_result (λ db'. Memᴰ j' db'.jobs → Arises db j') (ltb bounded (length rows)) failed
      (reconcile_ids now stale_before bounded (ids_where false rows) ids db) (same_Arises db j')
      (update_Follows db (can_exhaust now stale_before ids db.outbox) (exhaust_row now) j' (λ j n t.
        (
          refl,
          Moves.bury (
              claimable_active j.state (
                delivered_claimable j.state
                  (can_exhaust-delivered now stale_before ids db.outbox j t))),
        )))
      m

holds_lease-running :
    (claim : Claim) (now : ℕ) (j : JobRow)
    → holds_lease claim now j ≡ true
    → is_running j.state ≡ true
holds_lease-running claim now j h = ground arith

pub fail_Follows :
    (input : FailureInput) (db : Db) (j' : JobRow)
    → Memᴰ j' (record_refresh_failure input db).1.jobs
    → Arises db j'
unfolding record_refresh_failure with_failure failed_row
fail_Follows input db j' m =
    let test = holds_lease input.claim input.failed_at in
    let follows : Memᴰ j' (with_failure input db).jobs → Arises db j' =
      update_Follows db test (failed_row input) j' (λ j n t. (
        refl,
        failed_or_dead _ _ _ (is_final input) (holds_lease-running input.claim input.failed_at j t),
      )) in
    let failed : Try FailureRecord × Db = (threw (storage_error "recordRefreshFailure"), db) in
    let lost : Try FailureRecord × Db =
      (threw (lease_lost_error input.claim.operation_id), with_failure input db) in
    let done : Try FailureRecord × Db = (returned (failure_record input), with_failure input db) in
    either_result (λ db'. Memᴰ j' db'.jobs → Arises db j')
      (refresh_conflict input (held_job input db) db) failed
      (if is_recorded input db then done else lost) (same_Arises db j')
      (either_result (λ db'. Memᴰ j' db'.jobs → Arises db j') (is_recorded input db) done lost
        follows follows)
      m
