-- ===== src/Jobs/Store/Steps/Invariant.antt =====
-- The tables stay valid along the steps (for src/worker/jobs/repository.ts).
use larafeed.Jobs.Store.Valid.Recover.{reconcile_stranded-IsValid, recover_stale_leases-IsValid}
use larafeed.Jobs.Store.Valid.Refreshes.{
  record_refresh_failure-IsValid, release_lease-IsValid, claim_refresh_job-IsValid,
}
use larafeed.Jobs.Store.Valid.Outbox.{
  release_outbox-IsValid, mark_dispatched-IsValid, lease_outbox-IsValid,
}
use larafeed.Jobs.Store.Valid.Changes.{cleanup_terminal_jobs-IsValid, create_refresh_job-IsValid}
use larafeed.Jobs.Store.Valid.{IsValid}
use larafeed.Jobs.Store.Tables.{Db}
use larafeed.Jobs.Store.Cleanup.{cleanup_refresh_history}
use larafeed.Jobs.Store.Steps.{Steps, Steps, Step}

pub Step-IsValid : (db db' : Db) → IsValid db → Step db db' → IsValid db'
unfolding cleanup_refresh_history
Step-IsValid db _ v (Step.create input) = create_refresh_job-IsValid input db v
Step-IsValid db _ v (Step.lease input) = lease_outbox-IsValid input db v
Step-IsValid db _ v (Step.dispatch message now) = mark_dispatched-IsValid message now db v
Step-IsValid db _ v (Step.undispatch input) = release_outbox-IsValid input db v
Step-IsValid db _ v (Step.claim input) = claim_refresh_job-IsValid input db v
Step-IsValid db _ v (Step.release input) = release_lease-IsValid input db v
Step-IsValid db _ v (Step.recover now limit) = recover_stale_leases-IsValid now limit db v
Step-IsValid db _ v (Step.reconcile now stale_before limit) =
    reconcile_stranded-IsValid now stale_before limit db v
Step-IsValid db _ v (Step.fail input) = record_refresh_failure-IsValid input db v
Step-IsValid db _ v (Step.forget cutoff limit) = v
Step-IsValid db _ v (Step.remove cutoff limit) = cleanup_terminal_jobs-IsValid cutoff limit db v

-- From valid tables, every sequence of the operations of the repository that are steps, which are all
-- that write but commitRefresh, leads to valid tables: rows satisfy the checks on attempts, leases and times, no two jobs share a number or an operation, no two messages
-- share a number or a job, each message has its job, and no feed has two refreshes that run.
pub Steps-IsValid : (db db' : Db) → IsValid db → Steps db db' → IsValid db'
Steps-IsValid db _ v Steps.start = v
Steps-IsValid db _ v (Steps.next {db' = d} {db'' = e} steps step) =
    Step-IsValid d e (Steps-IsValid db d v steps) step
