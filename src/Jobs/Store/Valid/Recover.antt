-- ===== src/Jobs/Store/Valid/Recover.antt =====
-- The recovery of jobs keeps the tables valid (`recoverStaleJobLeases` and
-- `reconcileStrandedRefreshJobs` of src/worker/jobs/repository.ts).
use larafeed.Jobs.Errors.{invariant_error}
use larafeed.Jobs.Store.Sql.{update_where}
use larafeed.Jobs.Store.Valid.States.{claimable_idle, delivered_claimable}
use larafeed.Effect.{Try, threw}
use larafeed.Prelude.{
  length, ltb, some, ap, if◌then◌else◌, sym, none, ℕ, ◌≡◌, refl, ◌∙◌, Bool, true, false, List,
  arith,
}
use larafeed.Jobs.Types.{RedriveResult, max_due_feeds, JobState}
use larafeed.Jobs.Store.Tables.{
  is_terminal, is_leased, bounded_limit, is_delivered, OutboxState, is_sent, is_running, JobRow,
  OutboxRow, Db,
}
use larafeed.Jobs.Store.Recover.{
  ids_where, stranded, exhaust_row, abandon_row, redrive_row, is_exhausted, stale_row, give_up,
  reconcile_stranded, redrive, can_redrive, reconcile_ids, can_exhaust, is_given_up_message,
  recover_stale_leases,
}
use larafeed.Jobs.Store.Valid.{is_some, String, IsValid}
use larafeed.Jobs.Store.Valid.Updates.{
  either_result, KeepsJobs, KeepsMessages, stop_jobs, update_messages,
}

-- the state and the time of completion by whether the attempts are used up
pub given_up :
    (b : Bool) (now : ℕ)
    → (is_running (if b then JobState.dead_lettered else JobState.failed) ≡ false)
      × (is_some (if b then some now else none)
          ≡ is_terminal (if b then JobState.dead_lettered else JobState.failed))
given_up true now = (refl, refl)
given_up false now = (refl, refl)

stale_row-Keeps :
    (jobs : List JobRow) (test : JobRow → Bool) (now : ℕ) → KeepsJobs jobs test (stale_row now)
stale_row-Keeps jobs test now = record {
  same_id = λ j. refl;
  same_operation = λ j. refl;
  keeps = λ j m t v.
      let (r, c) = given_up (is_exhausted j) now in
      record { tried = v.tried; owner = sym r; expiry = sym r; completion = c };
}

pub abandon_row-Keeps :
    (outbox : List OutboxRow) (test : OutboxRow → Bool) (now : ℕ) (class message : String)
    → KeepsMessages outbox test (abandon_row now class message)
abandon_row-Keeps outbox test now class message = record {
  same_id = λ o. refl;
  same_owner = λ o. refl;
  keeps = λ o m t v. record { owner = refl; expiry = refl; sending = refl };
}

pub recover_stale_leases-IsValid :
    (now limit : ℕ) (db : Db) → IsValid db → IsValid (recover_stale_leases now limit db).1
unfolding recover_stale_leases
recover_stale_leases-IsValid now limit db v =
    update_messages _ _ (abandon_row-Keeps db.outbox _ now _ _)
      (stop_jobs _ _ (stale_row-Keeps db.jobs _ now) (λ j. (given_up (is_exhausted j) now).0) v)

pub can_exhaust-delivered :
    (now stale_before : ℕ) (ids : List ℕ) (outbox : List OutboxRow) (j : JobRow)
    → can_exhaust now stale_before ids outbox j ≡ true
    → is_delivered j.state ≡ true
can_exhaust-delivered now stale_before ids outbox j h = ground arith

exhaust_row-Keeps :
    (now stale_before : ℕ) (ids : List ℕ) (jobs : List JobRow) (outbox : List OutboxRow)
    → KeepsJobs jobs (can_exhaust now stale_before ids outbox) (exhaust_row now)
exhaust_row-Keeps now stale_before ids jobs outbox = record {
  same_id = λ j. refl;
  same_operation = λ j. refl;
  keeps = λ j m t v.
      let h = delivered_claimable j.state (can_exhaust-delivered now stale_before ids outbox j t) in
      let (r, f) = claimable_idle j.state h in
      record { tried = v.tried; owner = v.owner ∙ r; expiry = v.expiry ∙ r; completion = refl };
}

sent_unleased : (s : OutboxState) → is_sent s ≡ true → is_leased s ≡ false
sent_unleased OutboxState.sent h = refl
sent_unleased OutboxState.pending h = cc
sent_unleased OutboxState.leased h = cc
sent_unleased OutboxState.dead_lettered h = cc

-- a change of a message that was sent, to one that is neither sent nor leased
unsent-Keeps :
    (outbox : List OutboxRow) (test : OutboxRow → Bool) (change : OutboxRow → OutboxRow)
    → ((o : OutboxRow) → test o ≡ true → is_sent o.state ≡ true)
    → ((o : OutboxRow) → (change o).id ≡ o.id)
    → ((o : OutboxRow) → (change o).job_id ≡ o.job_id)
    → ((o : OutboxRow) → (change o).lease_owner ≡ o.lease_owner)
    → ((o : OutboxRow) → (change o).lease_expires_at ≡ o.lease_expires_at)
    → ((o : OutboxRow) → (change o).sent_at ≡ none)
    → ((o : OutboxRow) → is_leased (change o).state ≡ false)
    → ((o : OutboxRow) → is_sent (change o).state ≡ false)
    → KeepsMessages outbox test change
unsent-Keeps outbox test change h i j l e s a b = record {
  same_id = i;
  same_owner = j;
  keeps = λ o m t v.
      let f = sent_unleased o.state (h o t) in
      record {
        owner = ap is_some (l o) ∙ v.owner ∙ f ∙ sym (a o);
        expiry = ap is_some (e o) ∙ v.expiry ∙ f ∙ sym (a o);
        sending = ap is_some (s o) ∙ sym (b o);
      };
}

is_given_up_message-sent :
    (now : ℕ) (ids : List ℕ) (jobs : List JobRow) (o : OutboxRow)
    → is_given_up_message now ids jobs o ≡ true
    → is_sent o.state ≡ true
is_given_up_message-sent now ids jobs o h = ground arith

can_redrive-sent :
    (now stale_before : ℕ) (ids : List ℕ) (jobs : List JobRow) (o : OutboxRow)
    → can_redrive now stale_before ids jobs o ≡ true
    → is_sent o.state ≡ true
can_redrive-sent now stale_before ids jobs o h = ground arith

give_up-IsValid :
    (now stale_before : ℕ) (ids : List ℕ) (db : Db)
    → IsValid db
    → IsValid (give_up now stale_before ids db)
unfolding give_up
give_up-IsValid now stale_before ids db v =
    let jobs =
      update_where (can_exhaust now stale_before ids db.outbox) (exhaust_row now) db.jobs in
    update_messages _ _
      (unsent-Keeps db.outbox _ _ (is_given_up_message-sent now ids jobs) (λ o. refl) (λ o. refl)
        (λ o. refl) (λ o. refl) (λ o. refl) (λ o. refl) (λ o. refl))
      (stop_jobs _ _ (exhaust_row-Keeps now stale_before ids db.jobs db.outbox) (λ j. refl) v)

redrive-IsValid :
    (now stale_before : ℕ) (ids : List ℕ) (db : Db)
    → IsValid db
    → IsValid (redrive now stale_before ids db)
unfolding redrive
redrive-IsValid now stale_before ids db v =
    update_messages _ _
      (unsent-Keeps db.outbox _ (redrive_row now) (can_redrive-sent now stale_before ids db.jobs)
        (λ o. refl) (λ o. refl) (λ o. refl) (λ o. refl) (λ o. refl) (λ o. refl) (λ o. refl))
      v

reconcile_ids-IsValid :
    (now stale_before bounded : ℕ) (redrive_ids exhausted_ids : List ℕ) (db : Db)
    → IsValid db
    → IsValid (reconcile_ids now stale_before bounded redrive_ids exhausted_ids db).1
unfolding reconcile_ids
reconcile_ids-IsValid now stale_before bounded redrive_ids exhausted_ids db v =
    redrive-IsValid now stale_before redrive_ids (give_up now stale_before exhausted_ids db)
      (give_up-IsValid now stale_before exhausted_ids db v)

pub reconcile_stranded-IsValid :
    (now stale_before limit : ℕ) (db : Db)
    → IsValid db
    → IsValid (reconcile_stranded now stale_before limit db).1
unfolding reconcile_stranded
reconcile_stranded-IsValid now stale_before limit db v =
    let bounded = bounded_limit limit max_due_feeds in
    let rows = stranded now stale_before bounded db in
    let failed : Try RedriveResult × Db = (
      threw (invariant_error "reconcileStrandedRefreshJobs" "selected beyond redrive limit"),
      db,
    ) in
    either_result IsValid (ltb bounded (length rows)) failed
      (reconcile_ids now stale_before bounded (ids_where false rows) (ids_where true rows) db) v
      (reconcile_ids-IsValid now stale_before bounded _ _ db v)
