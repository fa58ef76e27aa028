-- ===== src/Jobs/Store/Valid/Refreshes.antt =====
-- The operations on refresh jobs keep the tables valid (`createRefreshJob`, `claimRefreshJob`,
-- `releaseRefreshJobLease` and `recordRefreshFailure` of src/worker/jobs/repository.ts).
use larafeed.Jobs.Errors.{lease_lost_error, storage_error}
use larafeed.Jobs.Store.Valid.Recover.{abandon_row-Keeps, given_up}
use larafeed.Jobs.Store.Failure.{
  is_recorded, held_job, refresh_conflict, failure_record, is_failed_message, is_final, bury,
  record_refresh_failure, with_failure, failed_row,
}
use larafeed.Jobs.Store.Sql.Keys.{Distinct-same}
use larafeed.Jobs.Store.Valid.States.{claimable_idle, running_active}
use larafeed.Jobs.Store.Sql.Rows.{exists_where-false, update_where-Changed, Changed}
use larafeed.Jobs.Store.Sql.{exists_where}
use larafeed.Jobs.Store.Claim.{
  claim_row, claim_refresh_job, competes, can_claim, release_lease, release_row, is_held_by,
}
use mathlib.Core.List.{Memᴰ}
use larafeed.Effect.{Try, returned, threw}
use larafeed.Prelude.{
  subst, ap, if◌then◌else◌, sym, inl, inr, str_eq-eq, ◌<◌, ◌≡◌, ◌≤◌, refl, ◌∙◌, Bool, true, false,
  List, arith,
}
use larafeed.Jobs.Types.{FailureRecord, Claim, ClaimInput, ReleaseInput, FailureInput}
use larafeed.Jobs.Store.Tables.{holds_lease, is_running, is_claimable, is_refresh, JobRow, Db}
use larafeed.Jobs.Store.Valid.{
  job_id_of, Valid, OneRuns, operation_of, map, Distinct, Runs, IsValid,
}
use larafeed.Jobs.Store.Valid.Updates.{
  either_result, update_jobs, KeepsJobs, stop_jobs, update_messages,
}

pub is_held_by-running :
    (claim : Claim) (j : JobRow) → is_held_by claim j ≡ true → is_running j.state ≡ true
is_held_by-running claim j h = ground arith

release_row-Keeps :
    (input : ReleaseInput Claim) (jobs : List JobRow)
    → KeepsJobs jobs (is_held_by input.target) (release_row input)
unfolding release_row
release_row-Keeps input jobs = record {
  same_id = λ j. refl;
  same_operation = λ j. refl;
  keeps = λ j m t v.
      let f = running_active j.state (is_held_by-running input.target j t) in
      record { tried = v.tried; owner = refl; expiry = refl; completion = v.completion ∙ f };
}

pub release_lease-IsValid :
    (input : ReleaseInput Claim) (db : Db) → IsValid db → IsValid (release_lease input db).1
unfolding release_lease release_row
release_lease-IsValid input db v = stop_jobs _ _ (release_row-Keeps input db.jobs) (λ j. refl) v

-- what a claimable job of the operation satisfies
pub record CanClaim (input : ClaimInput) (jobs : List JobRow) (j : JobRow) : Type 0 where
  pub operation : j.operation_id ≡ input.operation_id
  pub refresh : is_refresh j.kind ≡ true
  pub claimable : is_claimable j.state ≡ true
  pub due : j.available_at ≤ input.now
  pub tries : j.attempt_count < j.max_attempts
  pub free : exists_where (competes j.id j.feed_id) jobs ≡ false

pub can_claim-CanClaim :
    (input : ClaimInput) (jobs : List JobRow) (j : JobRow)
    → can_claim input jobs j ≡ true
    → CanClaim input jobs j
unfolding can_claim
can_claim-CanClaim input jobs j h = record {
  operation = str_eq-eq j.operation_id input.operation_id (ground arith);
  refresh = ground arith;
  claimable = ground arith;
  due = ground arith;
  tries = ground arith;
  free = ground arith;
}

claim_row-Keeps :
    (input : ClaimInput) (jobs : List JobRow)
    → KeepsJobs jobs (can_claim input jobs) (claim_row input)
claim_row-Keeps input jobs = record {
  same_id = λ j. refl;
  same_operation = λ j. refl;
  keeps = λ j m t v.
      let c = can_claim-CanClaim input jobs j t in
      let (r, f) = claimable_idle j.state c.claimable in
      let a = c.tries in
      record { tried = omega arith; owner = refl; expiry = refl; completion = v.completion ∙ f };
}

-- A job that runs is the claimed one or no competitor of it.
competes-false :
    (j k : JobRow)
    → Runs k
    → competes j.id j.feed_id k ≡ false
    → j.feed_id ≡ k.feed_id
    → j.id ≡ k.id
competes-false j k r h e = ground arith

claimed_alone :
    (input : ClaimInput) (jobs : List JobRow) (j k j' k' : JobRow)
    → Distinct (map operation_of jobs)
    → OneRuns jobs
    → Memᴰ j jobs
    → Memᴰ k jobs
    → Changed (can_claim input jobs) (claim_row input) j j'
    → Changed (can_claim input jobs) (claim_row input) k k'
    → Runs j'
    → Runs k'
    → j'.feed_id ≡ k'.feed_id
    → j'.id ≡ k'.id
claimed_alone input jobs j k j' k' d one m n (inl (t, e)) (inl (t', e')) r s f =
    let c = can_claim-CanClaim input jobs j t in
    let c' = can_claim-CanClaim input jobs k t' in
    let same = Distinct-same operation_of jobs j k d m n (c.operation ∙ sym c'.operation) in
    ap job_id_of e ∙ ap job_id_of same ∙ sym (ap job_id_of e')
claimed_alone input jobs j k j' k' d one m n (inl (t, e)) (inr (t', e')) r s f =
    let c = can_claim-CanClaim input jobs j t in
    let none_competes = exists_where-false (competes j.id j.feed_id) jobs k c.free n in
    let feeds = sym (ap (λ (x : JobRow). x.feed_id) e) ∙ f ∙ ap (λ (x : JobRow). x.feed_id) e' in
    ap job_id_of e
    ∙ competes-false j k (subst Runs e' s) none_competes feeds
    ∙ sym (ap job_id_of e')
claimed_alone input jobs j k j' k' d one m n (inr (t, e)) (inl (t', e')) r s f =
    let c = can_claim-CanClaim input jobs k t' in
    let none_competes = exists_where-false (competes k.id k.feed_id) jobs j c.free m in
    let feeds = sym (ap (λ (x : JobRow). x.feed_id) e) ∙ f ∙ ap (λ (x : JobRow). x.feed_id) e' in
    ap job_id_of e
    ∙ sym (competes-false k j (subst Runs e r) none_competes (sym feeds))
    ∙ sym (ap job_id_of e')
claimed_alone input jobs j k j' k' d one m n (inr (t, e)) (inr (t', e')) r s f =
    let feeds = sym (ap (λ (x : JobRow). x.feed_id) e) ∙ f ∙ ap (λ (x : JobRow). x.feed_id) e' in
    ap job_id_of e ∙ one j k m n (subst Runs e r) (subst Runs e' s) feeds ∙ sym (ap job_id_of e')

pub claim_refresh_job-IsValid :
    (input : ClaimInput) (db : Db) → IsValid db → IsValid (claim_refresh_job input db).1
unfolding claim_refresh_job
claim_refresh_job-IsValid input db v =
    update_jobs (can_claim input db.jobs) (claim_row input) (claim_row-Keeps input db.jobs)
      (λ j' k' m n r s f.
        let (j, m', c) =
          update_where-Changed (can_claim input db.jobs) (claim_row input) db.jobs j' m in
        let (k, n', d) =
          update_where-Changed (can_claim input db.jobs) (claim_row input) db.jobs k' n in
        claimed_alone input db.jobs j k j' k' v.operations v.alone m' n' c d r s f)
      v

failed_row-Keeps :
    (input : FailureInput) (jobs : List JobRow) (test : JobRow → Bool)
    → KeepsJobs jobs test (failed_row input)
unfolding failed_row
failed_row-Keeps input jobs test = record {
  same_id = λ j. refl;
  same_operation = λ j. refl;
  keeps = λ j m t v.
      let (r, c) = given_up (is_final input) input.failed_at in
      record { tried = v.tried; owner = sym r; expiry = sym r; completion = c };
}

either_outbox :
    (jobs : List JobRow) (b : Bool) (x y : Db)
    → Valid jobs x.outbox
    → Valid jobs y.outbox
    → Valid jobs (if b then x else y).outbox
either_outbox jobs true x y v w = v
either_outbox jobs false x y v w = w

with_failure-IsValid :
    (input : FailureInput) (db : Db) → IsValid db → IsValid (with_failure input db)
unfolding with_failure bury failed_row
with_failure-IsValid input db v =
    let w =
      stop_jobs (holds_lease input.claim input.failed_at) _ (failed_row-Keeps input db.jobs _)
        (λ j. (given_up (is_final input) input.failed_at).0) v in
    either_outbox _ (is_final input) _ _
      (update_messages (is_failed_message input db.jobs) _
        (abandon_row-Keeps db.outbox _ input.failed_at _ _) w)
      w

pub record_refresh_failure-IsValid :
    (input : FailureInput) (db : Db) → IsValid db → IsValid (record_refresh_failure input db).1
unfolding record_refresh_failure
record_refresh_failure-IsValid input db v =
    let recorded = with_failure-IsValid input db v in
    let failed : Try FailureRecord × Db = (threw (storage_error "recordRefreshFailure"), db) in
    let lost : Try FailureRecord × Db =
      (threw (lease_lost_error input.claim.operation_id), with_failure input db) in
    let done : Try FailureRecord × Db = (returned (failure_record input), with_failure input db) in
    either_result IsValid (refresh_conflict input (held_job input db) db) failed
      (if is_recorded input db then done else lost) v
      (either_result IsValid (is_recorded input db) done lost recorded recorded)
