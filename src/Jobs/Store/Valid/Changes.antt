-- ===== src/Jobs/Store/Valid/Changes.antt =====
-- The creation and the deletion of jobs keep the tables valid (`createRefreshJob` and
-- `cleanupTerminalJobs` of src/worker/jobs/repository.ts).
use larafeed.Jobs.Errors.{storage_error}
use larafeed.Jobs.Store.Sql.Keys.{fresh_key, Distinct-select_where}
use larafeed.Jobs.Store.Sql.Rows.{
  Mem-select_where, Mem-map, find_where-some, map-Mem, select_where-Mem,
}
use larafeed.Jobs.Store.Cleanup.{cleanup_terminal_jobs}
use larafeed.Jobs.Store.Sql.{exists_where, is_in, delete_where}
use larafeed.Jobs.Store.Create.{
  create_answer, new_message, new_job, put_message, with_job, is_some, with_message,
  without_message, lacks_message, create_refresh_job, key_conflict, admits,
}
use mathlib.Core.List.{Memᴰ}
use mathlib.Core.List.Memᴰ
use larafeed.Effect.{Try, threw}
use larafeed.Prelude.{
  str_eq_refl, str_eq, ap, some-injective, sym, Bool-cases, if◌then◌else◌, subst, ◌&&◌, ◌||◌,
  Option, ◌==◌, ℕ, ◌≡◌, refl, ◌∙◌, Bool, true, false, List, ◌∷◌, arith, not, inl, inr, some, none,
}
use larafeed.Jobs.Types.{CreateResult, CreateInput}
use larafeed.Jobs.Store.Tables.{is_operation, is_running, JobRow, OutboxRow, Db}
use larafeed.Jobs.Store.Valid.{
  OneRuns, Runs, owner_of, operation_of, id_of, job_id_of, map, IsValid, Valid, IsValidJob,
  IsValidMessage,
}

insert_job :
    {jobs : List JobRow} {outbox : List OutboxRow} (job : JobRow)
    → IsValidJob job
    → is_running job.state ≡ false
    → (Memᴰ job.id (map job_id_of jobs) → ⊥)
    → (Memᴰ job.operation_id (map operation_of jobs) → ⊥)
    → Valid jobs outbox
    → Valid (job ∷ jobs) outbox
insert_job {jobs} job w idle id operation v = record {
  rows = valid;
  messages = v.messages;
  ids = (id, v.ids);
  operations = (operation, v.operations);
  message_ids = v.message_ids;
  owners = v.owners;
  owned = λ o m. Memᴰ.tail (v.owned o m);
  alone = alone;
}
  where
    valid : (j : JobRow) → Memᴰ j (job ∷ jobs) → IsValidJob j
    valid j (Memᴰ.head e) = subst IsValidJob (sym e) w
    valid j (Memᴰ.tail m) = v.rows j m

    still : (j : JobRow) → j ≡ job → Runs j → ⊥
    still j e r = let f = ap (λ (i : JobRow). is_running i.state) e in let t = r.1 in cc

    alone : OneRuns (job ∷ jobs)
    alone j k (Memᴰ.head e) n r s f = absurd (still j e r)
    alone j k (Memᴰ.tail m) (Memᴰ.head e) r s f = absurd (still k e s)
    alone j k (Memᴰ.tail m) (Memᴰ.tail n) r s f = v.alone j k m n r s f

insert_message :
    {jobs : List JobRow} {outbox : List OutboxRow} (message : OutboxRow)
    → IsValidMessage message
    → (Memᴰ message.id (map id_of outbox) → ⊥)
    → (Memᴰ message.job_id (map owner_of outbox) → ⊥)
    → Memᴰ message.job_id (map job_id_of jobs)
    → Valid jobs outbox
    → Valid jobs (message ∷ outbox)
insert_message {jobs} {outbox} message w id owner job v = record {
  rows = v.rows;
  messages = valid;
  ids = v.ids;
  operations = v.operations;
  message_ids = (id, v.message_ids);
  owners = (owner, v.owners);
  owned = owned;
  alone = v.alone;
}
  where
    valid : (o : OutboxRow) → Memᴰ o (message ∷ outbox) → IsValidMessage o
    valid o (Memᴰ.head e) = subst IsValidMessage (sym e) w
    valid o (Memᴰ.tail m) = v.messages o m

    owned : (o : OutboxRow) → Memᴰ o (message ∷ outbox) → Memᴰ o.job_id (map job_id_of jobs)
    owned o (Memᴰ.head e) = Memᴰ.cast (ap owner_of e) job
    owned o (Memᴰ.tail m) = v.owned o m

is_key : (a b : ℕ) → a ≡ b → (a == b) ≡ true
is_key a b e = ground arith

new_job-Valid :
    (input : CreateInput) (db : Db) (b : Bool)
    → admits input db ≡ b
    → (b && exists_where (λ (j : JobRow). j.id == input.job_id) db.jobs) ≡ false
    → IsValid db
    → IsValid (if b then record db { jobs = new_job input ∷ db.jobs } else db)
unfolding admits
new_job-Valid input db false a h v = v
new_job-Valid input db true a h v =
    insert_job (new_job input)
      (record { tried = omega arith; owner = refl; expiry = refl; completion = refl }) refl
      (fresh_key job_id_of (λ (j : JobRow). j.id == input.job_id) db.jobs input.job_id
        (λ j e. is_key j.id input.job_id e) h)
      (fresh_key operation_of (λ (j : JobRow). str_eq j.operation_id input.operation_id) db.jobs
        input.operation_id
        (λ j e. ap (λ s. str_eq s input.operation_id) e ∙ str_eq_refl input.operation_id)
        (ground arith))
      v

-- the job that gets a message has none
lacks_message-none :
    (outbox : List OutboxRow) (found : Option JobRow) (job : JobRow)
    → lacks_message outbox found ≡ some job
    → (found ≡ some job) × (exists_where (λ (o : OutboxRow). o.job_id == job.id) outbox ≡ false)
lacks_message-none outbox none job h = cc
lacks_message-none outbox (some other) job h =
    elim (Bool-cases (exists_where (λ (o : OutboxRow). o.job_id == other.id) outbox)) [
      | inl t ↦ ground arith
      | inr f ↦
          let e : other ≡ job = some-injective (ground arith) in
          (
            ap some e,
            subst
                (λ (j : JobRow). exists_where (λ (o : OutboxRow). o.job_id == j.id) outbox ≡ false)
                e f,
          )
    ]

new_message-Valid :
    (input : CreateInput) (db : Db) (found : Option JobRow)
    → without_message input db ≡ found
    → (is_some found && exists_where (λ (o : OutboxRow). o.id == input.outbox_id) db.outbox) ≡ false
    → IsValid db
    → IsValid (put_message input db found)
new_message-Valid input db none e h v = v
new_message-Valid input db (some job) e h v =
    let (found, lacks) = lacks_message-none db.outbox _ job e in
    let (m, t) = find_where-some (is_operation input.operation_id) db.jobs job found in
    insert_message (new_message input job) (record { owner = refl; expiry = refl; sending = refl })
      (fresh_key id_of (λ (o : OutboxRow). o.id == input.outbox_id) db.outbox input.outbox_id
        (λ o e. is_key o.id input.outbox_id e) h)
      (fresh_key owner_of (λ (o : OutboxRow). o.job_id == job.id) db.outbox job.id
        (λ o e. is_key o.job_id job.id e) lacks)
      (Mem-map job_id_of db.jobs job m) v

or_false : (a b : Bool) → a || b ≡ false → (a ≡ false) × (b ≡ false)
or_false true b h = cc
or_false false b h = (refl, h)

inserted-IsValid :
    (input : CreateInput) (db : Db)
    → key_conflict input db ≡ false
    → IsValid db
    → IsValid (with_message input (with_job input db))
unfolding key_conflict with_message with_job
inserted-IsValid input db f v =
    let db' = with_job input db in
    let (a, b) =
      or_false (admits input db && exists_where (λ (j : JobRow). j.id == input.job_id) db.jobs)
        (is_some (without_message input db')
          && exists_where (λ (o : OutboxRow). o.id == input.outbox_id) db'.outbox)
        f in
    new_message-Valid input db' (without_message input db') refl b
      (new_job-Valid input db (admits input db) refl a v)

pub create_refresh_job-IsValid :
    (input : CreateInput) (db : Db) → IsValid db → IsValid (create_refresh_job input db).1
unfolding create_refresh_job
create_refresh_job-IsValid input db v =
    let db' = with_message input (with_job input db) in
    let failed : Try CreateResult × Db = (threw (storage_error "createRefreshJob"), db) in
    let done : Try CreateResult × Db = (create_answer input (admits input db) db', db') in
    elim (Bool-cases (key_conflict input db)) [
      | inl t ↦ subst (λ b. IsValid (if b then failed else done).1) (sym t) v
      | inr f ↦
          subst (λ b. IsValid (if b then failed else done).1) (sym f)
            (inserted-IsValid input db f v)
    ]

-- the messages that are left are those of the jobs that are left
left_owned :
    (jobs : List JobRow) (outbox : List OutboxRow) (ids : List ℕ)
    → Valid jobs outbox
    → (o : OutboxRow) → Memᴰ o (delete_where (λ (o : OutboxRow). is_in ids o.job_id) outbox)
    → Memᴰ o.job_id (map job_id_of (delete_where (λ (j : JobRow). is_in ids j.id) jobs))
left_owned jobs outbox ids v o m =
    let (n, t) = select_where-Mem (λ (o : OutboxRow). not (is_in ids o.job_id)) outbox o m in
    let (j, q, e) = map-Mem job_id_of jobs o.job_id (v.owned o n) in
    let kept = ap (λ id. not (is_in ids id)) (sym e) ∙ t in
    Memᴰ.cast e (
      Mem-map job_id_of (delete_where (λ (j : JobRow). is_in ids j.id) jobs) j
        (Mem-select_where (λ (j : JobRow). not (is_in ids j.id)) jobs j q kept))

delete_jobs :
    (jobs : List JobRow) (outbox : List OutboxRow) (ids : List ℕ)
    → Valid jobs outbox
    → Valid
        (delete_where (λ (j : JobRow). is_in ids j.id) jobs)
        (delete_where (λ (o : OutboxRow). is_in ids o.job_id) outbox)
delete_jobs jobs outbox ids v =
    let gone_job : JobRow → Bool = λ j. not (is_in ids j.id) in
    let gone_message : OutboxRow → Bool = λ o. not (is_in ids o.job_id) in
    record {
      rows = λ j m. v.rows j (select_where-Mem gone_job jobs j m).0;
      messages = λ o m. v.messages o (select_where-Mem gone_message outbox o m).0;
      ids = Distinct-select_where job_id_of gone_job jobs v.ids;
      operations = Distinct-select_where operation_of gone_job jobs v.operations;
      message_ids = Distinct-select_where id_of gone_message outbox v.message_ids;
      owners = Distinct-select_where owner_of gone_message outbox v.owners;
      owned = left_owned jobs outbox ids v;
      alone = λ j k m n.
          v.alone j k (select_where-Mem gone_job jobs j m).0 (select_where-Mem gone_job jobs k n).0;
    }

pub cleanup_terminal_jobs-IsValid :
    (cutoff limit : ℕ) (db : Db) → IsValid db → IsValid (cleanup_terminal_jobs cutoff limit db).1
unfolding cleanup_terminal_jobs
cleanup_terminal_jobs-IsValid cutoff limit db v = delete_jobs db.jobs db.outbox _ v
