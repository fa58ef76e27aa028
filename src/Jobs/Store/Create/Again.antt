-- ===== src/Jobs/Store/Create/Again.antt =====
-- A command that is sent again (`createRefreshJob` of src/worker/jobs/repository.ts).
use larafeed.Jobs.Store.Create.Answers.{answer_for-Asked, created_job, created_of}
use larafeed.Jobs.Store.Valid.Changes.{create_refresh_job-IsValid}
use larafeed.Jobs.Store.Recover.{job_id_of}
use larafeed.Jobs.Store.Sql.Keys.{Distinct-same}
use larafeed.Jobs.Errors.{storage_error}
use larafeed.Jobs.Store.Sql.Rows.{
  exists_where-Mem, exists_where-true, find_where-some, select_where-Mem,
}
use larafeed.Jobs.Store.Sql.{exists_where, select_where, count_where, find_where}
use mathlib.Core.List.{Memᴰ}
use larafeed.Prelude.{
  ◌≡◌, refl, sym, subst, ap, ◌∙◌, arith, ◌&&◌, Bool, true, false, none, some, Option, ℕ, List, [],
  ◌∷◌, ◌==◌, if◌then◌else◌, length, str_eq, str_eq-eq,
}
use larafeed.Effect.{Try, returned, threw}
use larafeed.Jobs.Types.{CreateInput, CreateResult, RefreshJob, created, idempotent}
use larafeed.Jobs.Store.Tables.{
  is_refresh, same_trigger, JobRow, OutboxRow, FeedRow, Db, is_operation, job_from_row,
}
use larafeed.Jobs.Store.Create.{
  create_refresh_job, admits, with_job, with_message, key_conflict, create_answer, same_command,
  answer_for, messages_of, requested, without_message, lacks_message,
}
use larafeed.Jobs.Store.Valid.{IsValid, operation_of}

-- one message or more is that of some job of the operation
counted :
    {R : Type 0} (test : R → Bool) (rows : List R)
    → (count_where test rows == 1) ≡ true
    → (r : R) × Memᴰ r rows × (test r ≡ true)
counted test rows h = go (select_where test rows) refl h
  where
    go :
        (found : List _)
        → select_where test rows ≡ found
        → (length found == 1) ≡ true
        → (r : _) × Memᴰ r rows × (test r ≡ true)
    go [] e h = absurd (ground arith)
    go (r ∷ found) e h =
        let (m, t) = select_where-Mem test rows r (subst (Memᴰ r) (sym e) (Memᴰ.head refl)) in
        (r, m, t)

-- The command has its job, its one message and its feed.
record Holds (input : CreateInput) (db : Db) (row : JobRow) : Type 0 where
  on : FeedRow
  found : find_where (is_operation input.operation_id) db.jobs ≡ some row
  known : find_where (λ (f : FeedRow). f.id == input.feed_id) db.feeds ≡ some on
  same : same_command input row ≡ true
  one : (messages_of input db == 1) ≡ true

-- two inputs of the same command
pub record SameCommand (input again : CreateInput) : Type 0 where
  pub operation : again.operation_id ≡ input.operation_id
  pub feed : again.feed_id ≡ input.feed_id
  pub trigger : again.trigger ≡ input.trigger

Holds-again :
    (input again : CreateInput) (db : Db) (row : JobRow)
    → SameCommand input again
    → Holds input db row
    → Holds again db row
Holds-again input again db row s h = record {
  on = h.on;
  found = ap (λ o. find_where (is_operation o) db.jobs) s.operation ∙ h.found;
  known = ap (λ i. find_where (λ (f : FeedRow). f.id == i) db.feeds) s.feed ∙ h.known;
  same =
      ap (λ i. row.feed_id == i && same_trigger row.trigger again.trigger) s.feed
      ∙ ap (λ t. row.feed_id == input.feed_id && same_trigger row.trigger t) s.trigger
      ∙ h.same;
  one = ap (λ o. messages_of (record again { operation_id = o }) db == 1) s.operation ∙ h.one;
}

-- the message of the job is there
Holds-message :
    (input : CreateInput) (db : Db) (row : JobRow)
    → IsValid db
    → Holds input db row
    → exists_where (λ (o : OutboxRow). o.job_id == row.id) db.outbox ≡ true
Holds-message input db row v h =
    let is_its : OutboxRow → Bool = λ o.
      is_refresh o.topic
      && str_eq o.operation_id input.operation_id
      && exists_where (λ (j : JobRow). j.id == o.job_id && is_operation input.operation_id j)
          db.jobs in
    let (o, m, t) = counted is_its db.outbox h.one in
    let its : JobRow → Bool = λ j. j.id == o.job_id && is_operation input.operation_id j in
    let (j, n, t') = exists_where-true its db.jobs (ground arith) in
    let (n', t'') = find_where-some (is_operation input.operation_id) db.jobs row h.found in
    let e = str_eq-eq j.operation_id input.operation_id (ground arith) in
    let e' = str_eq-eq row.operation_id input.operation_id (ground arith) in
    let same = Distinct-same operation_of db.jobs j row v.operations n n' (e ∙ sym e') in
    let i = ap job_id_of same in
    exists_where-Mem (λ (o : OutboxRow). o.job_id == row.id) db.outbox o m (ground arith)

requested_again :
    (input : CreateInput) (messages : ℕ) (row : JobRow)
    → same_command input row ≡ true
    → (messages == 1) ≡ true
    → requested input false messages row ≡ returned (idempotent (job_from_row row))
requested_again input messages row s o = ground arith

answer_for-again :
    (input : CreateInput) (messages : ℕ) (found act : Option JobRow) (feed : Option FeedRow)
    (row : JobRow) (on : FeedRow)
    → found ≡ some row
    → feed ≡ some on
    → same_command input row ≡ true
    → (messages == 1) ≡ true
    → answer_for input false messages found act feed ≡ returned (idempotent (job_from_row row))
answer_for-again input messages found act feed row on e e' s o =
    ap (λ f. answer_for input false messages f act feed) e
    ∙ ap (answer_for input false messages (some row) act) e'
    ∙ requested_again input messages row s o

Holds-answer :
    (input : CreateInput) (db : Db) (row : JobRow)
    → Holds input db row
    → create_answer input false db ≡ returned (idempotent (job_from_row row))
unfolding create_answer
Holds-answer input db row h =
    answer_for-again input (messages_of input db) _ _ _ row h.on h.found h.known h.same h.one

Holds-admits :
    (input : CreateInput) (db : Db) (row : JobRow) → Holds input db row → admits input db ≡ false
unfolding admits
Holds-admits input db row h =
    let (m, t) = find_where-some (is_operation input.operation_id) db.jobs row h.found in
    let u =
      exists_where-Mem (λ (j : JobRow). str_eq j.operation_id input.operation_id) db.jobs row m
        (ground arith) in
    ground arith

Holds-without :
    (input : CreateInput) (db : Db) (row : JobRow)
    → IsValid db
    → Holds input db row
    → without_message input db ≡ none
Holds-without input db row v h =
    let u = Holds-message input db row v h in
    ap (lacks_message db.outbox) h.found ∙ ap (λ b. if b then none else some row) u

Holds-kept :
    (input : CreateInput) (db : Db) (row : JobRow)
    → IsValid db
    → Holds input db row
    → create_refresh_job input db ≡ (returned (idempotent (job_from_row row)), db)
unfolding create_refresh_job with_job with_message key_conflict
Holds-kept input db row v h =
    rw (Holds-admits input db row h, Holds-without input db row v h, Holds-answer input db row h)

second_of :
    (b : Bool) (x y : Try CreateResult) (d d' e : Db) (a : CreateResult)
    → (x ≡ returned a → ⊥)
    → ◌≡◌ {A = Try CreateResult × Db} (if b then (x, d) else (y, d')) (returned a, e)
    → (y ≡ returned a) × (d' ≡ e)
second_of true x y d d' e a n h = absurd (n (ap (λ (p : Try CreateResult × Db). p.0) h))
second_of false x y d d' e a n h =
    (ap (λ (p : Try CreateResult × Db). p.0) h, ap (λ (p : Try CreateResult × Db). p.1) h)

Holds-created :
    (input : CreateInput) (fresh : Bool) (db : Db) (job : RefreshJob)
    → create_answer input fresh db ≡ returned (created job)
    → (row : JobRow) × Holds input db row × (job ≡ job_from_row row)
unfolding create_answer created_of created_job
Holds-created input fresh db job h =
    let asked = answer_for-Asked input fresh (messages_of input db) _ _ _ job (ap created_of h) in
    (
      asked.row,
      record {
        on = asked.on;
        found = asked.found;
        known = asked.known;
        same = asked.same;
        one = asked.one;
      },
      asked.answered,
    )

created_run :
    (input : CreateInput) (db db' : Db) (job : RefreshJob)
    → create_refresh_job input db ≡ (returned (created job), db')
    → let d = with_message input (with_job input db) in
      (create_answer input (admits input db) d ≡ returned (created job)) × (d ≡ db')
unfolding create_refresh_job
created_run input db db' job h =
    let d = with_message input (with_job input db) in
    second_of (key_conflict input db) (threw (storage_error "createRefreshJob"))
      (create_answer input (admits input db) d) db d db' (created job) (λ e. cc) h

-- In a valid state of the tables, a command that is sent again after a run that created its job, with
-- whatever fresh numbers, times and limits, is answered `idempotent` with the same job, and changes
-- nothing.
pub create_refresh_job-again :
    (input again : CreateInput) (db db' : Db) (job : RefreshJob)
    → IsValid db
    → SameCommand input again
    → create_refresh_job input db ≡ (returned (created job), db')
    → create_refresh_job again db' ≡ (returned (idempotent job), db')
create_refresh_job-again input again db db' job v s h =
    let (answered, e) = created_run input db db' job h in
    let d = with_message input (with_job input db) in
    let (row, holds, e') = Holds-created input (admits input db) d job answered in
    let valid : IsValid d =
      subst IsValid (ap (λ p. p.1) h ∙ sym e) (create_refresh_job-IsValid input db v) in
    let kept = Holds-kept again d row valid (Holds-again input again d row s holds) in
    subst (λ x. create_refresh_job again x ≡ (returned (idempotent job), x)) e
      (kept ∙ ap (λ j. (returned (idempotent j), d)) (sym e'))
