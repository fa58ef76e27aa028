-- ===== src/Jobs/Store/Valid/Outbox.antt =====
-- The operations on the outbox keep the tables valid (`leaseOutbox`, `markDispatched` and
-- `releaseOutbox` of src/worker/jobs/repository.ts).
use larafeed.Jobs.Store.Sql.{or_zero}
use larafeed.Prelude.{
  ◌+◌, sym, ℕ, ◌≡◌, refl, ◌∙◌, Bool, true, false, List, leb, arith, if◌then◌else◌,
}
use larafeed.Jobs.Types.{LeaseInput, LeasedMessage, ReleaseInput}
use larafeed.Jobs.Store.Tables.{
  is_waiting, JobRow, OutboxRow, OutboxState, Db, is_open, is_leased, is_sent, max_outbox_attempts,
}
use larafeed.Jobs.Store.Outbox.{
  id_of, is_expired, is_due, expired_ids, due_ids, can_queue, queue_row, can_settle, send_row,
  unsent_row, can_bury, bury_row, has_id, recover_row, lease_row, lease_due, recovered,
  lease_outbox, mark_dispatched, release_outbox,
}
use larafeed.Jobs.Store.Sql.Keys.{first_by-selected}
use larafeed.Jobs.Store.Valid.{IsValid}
use larafeed.Jobs.Store.Valid.Updates.{KeepsJobs, KeepsMessages, stop_jobs, update_messages}
use larafeed.Jobs.Store.Valid.States.{open_claimable, claimable_idle}

pub can_queue-open :
    (message : LeasedMessage) (now : ℕ) (outbox : List OutboxRow) (j : JobRow)
    → can_queue message now outbox j ≡ true
    → is_open j.state ≡ true
can_queue-open message now outbox j h = ground arith

queue_row-Keeps :
    (message : LeasedMessage) (now : ℕ) (jobs : List JobRow) (outbox : List OutboxRow)
    → KeepsJobs jobs (can_queue message now outbox) (queue_row now)
queue_row-Keeps message now jobs outbox = record {
  same_id = λ j. refl;
  same_operation = λ j. refl;
  keeps = λ j m t v.
      let (r, f) =
        claimable_idle j.state (open_claimable j.state (can_queue-open message now outbox j t)) in
      record {
        tried = v.tried;
        owner = v.owner ∙ r;
        expiry = v.expiry ∙ r;
        completion = v.completion ∙ f;
      };
}

send_row-Keeps :
    (outbox : List OutboxRow) (test : OutboxRow → Bool) (now : ℕ)
    → KeepsMessages outbox test (send_row now)
send_row-Keeps outbox test now = record {
  same_id = λ o. refl;
  same_owner = λ o. refl;
  keeps = λ o m t v. record { owner = refl; expiry = refl; sending = refl };
}

pub mark_dispatched-IsValid :
    (message : LeasedMessage) (now : ℕ) (db : Db)
    → IsValid db
    → IsValid (mark_dispatched message now db).1
unfolding mark_dispatched
mark_dispatched-IsValid message now db v =
    update_messages _ _ (send_row-Keeps db.outbox _ now)
      (stop_jobs _ _ (queue_row-Keeps message now db.jobs db.outbox) (λ j. refl) v)

waiting_unsent : (s : OutboxState) → is_waiting s ≡ true → is_sent s ≡ false
waiting_unsent OutboxState.pending h = refl
waiting_unsent OutboxState.leased h = cc
waiting_unsent OutboxState.sent h = cc
waiting_unsent OutboxState.dead_lettered h = cc

leased_unsent : (s : OutboxState) → is_leased s ≡ true → is_sent s ≡ false
leased_unsent OutboxState.leased h = refl
leased_unsent OutboxState.pending h = cc
leased_unsent OutboxState.sent h = cc
leased_unsent OutboxState.dead_lettered h = cc

is_expired-leased :
    (input : LeaseInput) (jobs : List JobRow) (o : OutboxRow)
    → is_expired input jobs o ≡ true
    → is_leased o.state ≡ true
is_expired-leased input jobs o h = ground arith

is_due-waiting :
    (input : LeaseInput) (jobs : List JobRow) (o : OutboxRow)
    → is_due input jobs o ≡ true
    → is_waiting o.state ≡ true
is_due-waiting input jobs o h = ground arith

recover_row-Keeps :
    (input : LeaseInput) (db : Db)
    → IsValid db
    → KeepsMessages db.outbox (has_id (expired_ids input db)) (recover_row input)
unfolding expired_ids
recover_row-Keeps input db w = record {
  same_id = λ o. refl;
  same_owner = λ o. refl;
  keeps = λ o m t v.
      let h =
        first_by-selected id_of (λ (r : OutboxRow). or_zero r.lease_expires_at) id_of _
          (is_expired input db.jobs) db.outbox o w.message_ids m t in
      let f = leased_unsent o.state (is_expired-leased input db.jobs o h) in
      record { owner = refl; expiry = refl; sending = v.sending ∙ f };
}

lease_row-Keeps :
    (input : LeaseInput) (db : Db)
    → IsValid db
    → KeepsMessages db.outbox (has_id (due_ids input db)) (lease_row input)
unfolding due_ids
lease_row-Keeps input db w = record {
  same_id = λ o. refl;
  same_owner = λ o. refl;
  keeps = λ o m t v.
      let h =
        first_by-selected id_of (λ (r : OutboxRow). r.available_at) id_of _ (is_due input db.jobs)
          db.outbox o w.message_ids m t in
      let f = waiting_unsent o.state (is_due-waiting input db.jobs o h) in
      record { owner = refl; expiry = refl; sending = v.sending ∙ f };
}

pub recovered-IsValid : (input : LeaseInput) (db : Db) → IsValid db → IsValid (recovered input db)
unfolding recovered
recovered-IsValid input db v =
    update_messages (has_id (expired_ids input db)) _ (recover_row-Keeps input db v) v

pub lease_due-IsValid : (input : LeaseInput) (db : Db) → IsValid db → IsValid (lease_due input db).1
unfolding lease_due
lease_due-IsValid input db v =
    update_messages (has_id (due_ids input db)) _ (lease_row-Keeps input db v) v

pub lease_outbox-IsValid :
    (input : LeaseInput) (db : Db) → IsValid db → IsValid (lease_outbox input db).1
unfolding lease_outbox
lease_outbox-IsValid input db v =
    lease_due-IsValid input (recovered input db) (recovered-IsValid input db v)

unsent_idle :
    (b : Bool)
    → (is_leased (if b then OutboxState.dead_lettered else OutboxState.pending) ≡ false)
      × (is_sent (if b then OutboxState.dead_lettered else OutboxState.pending) ≡ false)
unsent_idle true = (refl, refl)
unsent_idle false = (refl, refl)

pub can_bury-open :
    (message : LeasedMessage) (outbox : List OutboxRow) (j : JobRow)
    → can_bury message outbox j ≡ true
    → is_open j.state ≡ true
can_bury-open message outbox j h = ground arith

bury_row-Keeps :
    (input : ReleaseInput LeasedMessage) (jobs : List JobRow) (outbox : List OutboxRow)
    → KeepsJobs jobs (can_bury input.target outbox) (bury_row input)
unfolding bury_row
bury_row-Keeps input jobs outbox = record {
  same_id = λ j. refl;
  same_operation = λ j. refl;
  keeps = λ j m t v.
      let h = open_claimable j.state (can_bury-open input.target outbox j t) in
      let (r, f) = claimable_idle j.state h in
      record { tried = v.tried; owner = v.owner ∙ r; expiry = v.expiry ∙ r; completion = refl };
}

can_settle-leased :
    (message : LeasedMessage) (now : ℕ) (jobs : List JobRow) (o : OutboxRow)
    → can_settle message now jobs o ≡ true
    → is_leased o.state ≡ true
can_settle-leased message now jobs o h = ground arith

unsent_row-Keeps :
    (input : ReleaseInput LeasedMessage) (jobs : List JobRow) (outbox : List OutboxRow)
    → KeepsMessages outbox (can_settle input.target input.now jobs) (unsent_row input)
unfolding unsent_row
unsent_row-Keeps input jobs outbox = record {
  same_id = λ o. refl;
  same_owner = λ o. refl;
  keeps = λ o m t v.
      let (l, f) = unsent_idle (leb max_outbox_attempts (o.attempt_count + 1)) in
      let g = leased_unsent o.state (can_settle-leased input.target input.now jobs o t) in
      record { owner = sym l; expiry = sym l; sending = v.sending ∙ g ∙ sym f };
}

pub release_outbox-IsValid :
    (input : ReleaseInput LeasedMessage) (db : Db)
    → IsValid db
    → IsValid (release_outbox input db).1
unfolding release_outbox bury_row
release_outbox-IsValid input db v =
    stop_jobs _ _ (bury_row-Keeps input db.jobs _) (λ j. refl)
      (update_messages _ _ (unsent_row-Keeps input db.jobs db.outbox) v)
