-- ===== src/Jobs/Store/Steps.antt =====
-- Operations of the repository as steps between states of the database (for
-- src/worker/jobs/repository.ts): the eleven that write, apart from `commitRefresh`, which is not
-- modelled. A step that throws counts with what it has written.
pub mod Invariant
pub mod Refines
pub mod Life
use mathlib.Core.List.{Memᴰ}
use larafeed.Prelude.{ℕ, ◌+◌, ◌<◌, ◌≡◌, ◌⊎◌, true, List, [], map, String}
use larafeed.Jobs.Types.{
  RefreshTrigger, JobState, CreateInput, LeaseInput, LeasedMessage, ReleaseInput, Claim, ClaimInput,
  FailureInput,
}
use larafeed.Jobs.Store.Tables.{JobRow, Kind, Db, is_open, is_claimable, is_running, is_active}
use larafeed.Jobs.Store.Create.{create_refresh_job}
use larafeed.Jobs.Store.Outbox.{lease_outbox, mark_dispatched, release_outbox}
use larafeed.Jobs.Store.Claim.{claim_refresh_job, release_lease}
use larafeed.Jobs.Store.Recover.{recover_stale_leases, reconcile_stranded}
use larafeed.Jobs.Store.Cleanup.{cleanup_refresh_history, cleanup_terminal_jobs}
use larafeed.Jobs.Store.Failure.{record_refresh_failure}
use larafeed.Jobs.Store.Valid.{operation_of}

-- One operation, whatever its arguments; `commitRefresh` is not among them.
pub data Step (db : Db) : Db → Type 0 where
  create : (input : CreateInput) → Step db (create_refresh_job input db).1
  lease : (input : LeaseInput) → Step db (lease_outbox input db).1
  dispatch : (message : LeasedMessage) (now : ℕ) → Step db (mark_dispatched message now db).1
  undispatch : (input : ReleaseInput LeasedMessage) → Step db (release_outbox input db).1
  claim : (input : ClaimInput) → Step db (claim_refresh_job input db).1
  release : (input : ReleaseInput Claim) → Step db (release_lease input db).1
  recover : (now limit : ℕ) → Step db (recover_stale_leases now limit db).1
  reconcile :
      (now stale_before limit : ℕ) → Step db (reconcile_stranded now stale_before limit db).1
  fail : (input : FailureInput) → Step db (record_refresh_failure input db).1
  forget : (cutoff limit : ℕ) → Step db (cleanup_refresh_history cutoff limit db).1
  remove : (cutoff limit : ℕ) → Step db (cleanup_terminal_jobs cutoff limit db).1

-- Zero or more steps, none of them a commit, lead from one state to another.
pub data Steps (db : Db) : Db → Type 0 where
  start : Steps db db
  next : {db' db'' : Db} → Steps db db' → Step db' db'' → Steps db db''

-- what no step changes in a job
pub record Command : Type 0 where
  pub id : ℕ
  pub operation_id : String
  pub kind : Kind
  pub feed_id : ℕ
  pub trigger : RefreshTrigger
  pub max_attempts : ℕ

abbrev pub command_of : JobRow → Command
command_of j = record {
  id = j.id;
  operation_id = j.operation_id;
  kind = j.kind;
  feed_id = j.feed_id;
  trigger = j.trigger;
  max_attempts = j.max_attempts;
}

-- The life of a job with at most so many attempts, as moves between states and numbers of attempts.
pub data Moves (most : ℕ) : JobState → ℕ → JobState → ℕ → Type 0 where
  queue : {s : JobState} {n : ℕ} → is_open s ≡ true → Moves most s n JobState.queued n
  begin :
      {s : JobState} {n : ℕ}
      → is_claimable s ≡ true
      → n < most
      → Moves most s n JobState.running (n + 1)
  postpone : {s : JobState} {n : ℕ} → is_running s ≡ true → Moves most s n JobState.failed n
  bury : {s : JobState} {n : ℕ} → is_active s ≡ true → Moves most s n JobState.dead_lettered n

-- The job stays as it is, or makes a move.
abbrev pub Follows : JobRow → JobRow → Type 0
Follows j j' =
    (j' ≡ j)
    ⊎ ((command_of j' ≡ command_of j)
        × Moves j.max_attempts j.state j.attempt_count j'.state j'.attempt_count)

-- The job is new, under an operation that had none.
abbrev pub IsNew : Db → JobRow → Type 0
IsNew db j =
    (j.state ≡ JobState.pending)
    × (j.attempt_count ≡ 0)
    × (Memᴰ j.operation_id (map operation_of db.jobs) → ⊥)

abbrev pub Arises : Db → JobRow → Type 0
Arises db j' = ((j : JobRow) × Memᴰ j db.jobs × Follows j j') ⊎ IsNew db j'
