-- ===== src/Jobs/Store/Outbox/Batch.antt =====
-- The batch that a lease of the outbox returns (`leaseOutbox` of src/worker/jobs/repository.ts).
use larafeed.Jobs.Store.Sql.Keys.{first_by-selected, count_where-is_in}
use larafeed.Jobs.Store.Sql.Rows.{
  Changed, Mem-update_where, map-Mem, select_where-Mem, update_where-Changed, first_by-length,
}
use larafeed.Jobs.Store.Valid.Outbox.{recovered-IsValid}
use larafeed.Jobs.Store.Sql.{or_zero, select_where, first_by, at_most}
use mathlib.Core.List.{Memᴰ}
use larafeed.Prelude.{
  ltb, ◌≡◌, refl, sym, subst, ap, ◌∙◌, ◌⊎◌, ◌≤◌, arith, inl, inr, true, some, ℕ, List,
  if◌then◌else◌, map, length, length-map, min,
}
use larafeed.Effect.{Cause, returned, threw}
use larafeed.Jobs.Types.{LeaseInput, LeasedMessage, max_outbox_messages}
use larafeed.Jobs.Store.Tables.{OutboxRow, Db, is_waiting, is_leased}
use larafeed.Jobs.Store.Outbox.{
  recover_row, expired_ids, is_expired, is_due, lease_outbox, lease_due, recovered, lease_row,
  leased_message, id_of, due_ids, has_id, lease_limit,
}
use larafeed.Jobs.Store.Valid.{IsValid}

-- The message was free before: it waited and was due, or its lease was over.
abbrev pub WasFree : LeaseInput → OutboxRow → Type 0
WasFree input o =
    ((is_waiting o.state ≡ true) × (o.available_at ≤ input.now))
    ⊎ ((is_leased o.state ≡ true) × (at_most o.lease_expires_at input.now ≡ true))

-- A message of the batch: the row that it was, and the lease that the table now holds for it.
abbrev pub IsLeased : LeaseInput → Db → Db → LeasedMessage → Type 0
IsLeased input db db' message =
    (o : OutboxRow) × Memᴰ o db.outbox
    × WasFree input o
    × (message.id ≡ o.id)
    × ((o' : OutboxRow) × Memᴰ o' db'.outbox
        × (o'.id ≡ o.id)
        × (is_leased o'.state ≡ true)
        × (o'.lease_owner ≡ some message.lease_owner)
        × (o'.lease_expires_at ≡ some message.lease_expires_at))

due_ids-length : (input : LeaseInput) (db : Db) → length (due_ids input db) ≤ lease_limit input
unfolding due_ids
due_ids-length input db =
    let rows =
      first_by (λ (o : OutboxRow). o.available_at) id_of (lease_limit input)
        (select_where (is_due input db.jobs) db.outbox) in
    let n =
      first_by-length (λ (o : OutboxRow). o.available_at) id_of (lease_limit input)
        (select_where (is_due input db.jobs) db.outbox) in
    omega (arith, length-map rows id_of, n)

is_due-waits :
    (input : LeaseInput) (db : Db) (o : OutboxRow)
    → is_due input db.jobs o ≡ true
    → (is_waiting o.state ≡ true) × (o.available_at ≤ input.now)
is_due-waits input db o h = (ground arith, ground arith)

is_expired-over :
    (input : LeaseInput) (db : Db) (o : OutboxRow)
    → is_expired input db.jobs o ≡ true
    → (is_leased o.state ≡ true) × (at_most o.lease_expires_at input.now ≡ true)
is_expired-over input db o h = (ground arith, ground arith)

-- a row that is due after the first statement was free before it
recovered-WasFree :
    (input : LeaseInput) (db : Db) (o : OutboxRow)
    → IsValid db
    → (is_waiting o.state ≡ true) × (o.available_at ≤ input.now)
    → Memᴰ o (recovered input db).outbox
    → (r : OutboxRow) × Memᴰ r db.outbox × WasFree input r × (o.id ≡ r.id)
unfolding recovered expired_ids
recovered-WasFree input db o v due m =
    let test = has_id (expired_ids input db) in
    let (r, n, c) = update_where-Changed test (recover_row input) db.outbox o m in
    let (free, e) = back r n c in (r, n, free, e)
  where
    back :
        (r : OutboxRow)
        → Memᴰ r db.outbox
        → Changed (has_id (expired_ids input db)) (recover_row input) r o
        → WasFree input r × (o.id ≡ r.id)
    back r n (inl (t, e)) =
        let h =
          first_by-selected id_of (λ (r : OutboxRow). or_zero r.lease_expires_at) id_of
            (lease_limit input) (is_expired input db.jobs) db.outbox r v.message_ids n t in
        (inr (is_expired-over input db r h), ap id_of e)
    back r n (inr (t, e)) = (
      inl (
          subst (λ (x : OutboxRow). (is_waiting x.state ≡ true) × (x.available_at ≤ input.now)) e
            due),
      ap id_of e,
    )

lease_due-Mem :
    (input : LeaseInput) (db : Db) (o : OutboxRow)
    → IsValid db
    → Memᴰ o (select_where (has_id (due_ids input db)) db.outbox)
    → Memᴰ o db.outbox
      × (has_id (due_ids input db) o ≡ true)
      × ((is_waiting o.state ≡ true) × (o.available_at ≤ input.now))
unfolding due_ids
lease_due-Mem input db o v m =
    let (n, t) = select_where-Mem (has_id (due_ids input db)) db.outbox o m in
    let h =
      first_by-selected id_of (λ (r : OutboxRow). r.available_at) id_of (lease_limit input)
        (is_due input db.jobs) db.outbox o v.message_ids n t in
    (n, t, is_due-waits input db o h)

within :
    {A : Type 0} (limit n : ℕ) (c : Cause) (a : A)
    → n ≤ limit
    → (if ltb limit n then threw c else returned a) ≡ returned a
within limit n c a h = ground arith

-- In a valid state of the tables, a lease of the outbox with a limit of at least one never throws: it
-- returns at most as many messages as the limit and as a batch holds, and each of them was free
-- before (it was due, or its lease was over) and is leased in the table to the owner and until the time
-- that the message carries.
pub lease_outbox-IsLeased :
    (input : LeaseInput) (db : Db)
    → IsValid db
    → 1 ≤ input.limit
    → (messages : List LeasedMessage) × ((lease_outbox input db).0 ≡ returned messages)
      × (length messages ≤ min max_outbox_messages input.limit)
      × ((message : LeasedMessage)
          → Memᴰ message messages
          → IsLeased input db (lease_outbox input db).1 message)
unfolding lease_outbox lease_due
lease_outbox-IsLeased input db v l =
    let d = recovered input db in
    let w = recovered-IsValid input db v in
    let test = has_id (due_ids input d) in
    let rows = select_where test d.outbox in
    let n = count_where-is_in id_of (due_ids input d) d.outbox w.message_ids in
    let k = due_ids-length input d in
    (
      map (leased_message input) rows,
      within input.limit (length rows) _ _ (omega arith),
      omega (arith, length-map rows (leased_message input)),
      λ message m.
          let (o, m', e) = map-Mem (leased_message input) rows message m in
          let (m'', t, due) = lease_due-Mem input d o w m' in
          let (r, q, free, e') = recovered-WasFree input db o v due m'' in
          (
            r,
            q,
            free,
            ap (λ (x : LeasedMessage). x.id) e ∙ e',
            (
              lease_row input o,
              Mem-update_where test (lease_row input) d.outbox o m'' t,
              e',
              refl,
              ap (λ (x : LeasedMessage). some x.lease_owner) (sym e),
              ap (λ (x : LeasedMessage). some x.lease_expires_at) (sym e),
            ),
          ),
    )
