-- ===== src/Jobs/Store/Valid/Updates.antt =====
-- Updates that keep the tables of jobs and messages valid (for src/worker/jobs/repository.ts).
use mathlib.Core.List.{Memᴰ}
use larafeed.Prelude.{
  ◌≡◌, sym, ◌∙◌, ap, subst, inl, inr, Bool, true, false, List, map, if◌then◌else◌,
}
use larafeed.Effect.{Try}
use larafeed.Jobs.Store.Tables.{JobRow, OutboxRow, Db, is_running}
use larafeed.Jobs.Store.Recover.{job_id_of}
use larafeed.Jobs.Store.Outbox.{id_of}
use larafeed.Jobs.Store.Sql.{update_where}
use larafeed.Jobs.Store.Sql.Rows.{Changed, update_where-Changed}
use larafeed.Jobs.Store.Sql.Keys.{Distinct, map-update_where}
use larafeed.Jobs.Store.Valid.{
  IsValidJob, IsValidMessage, operation_of, owner_of, Runs, OneRuns, Valid,
}

-- A change of jobs that keeps what identifies them, and keeps the selected ones valid.
pub record KeepsJobs (jobs : List JobRow) (test : JobRow → Bool) (change : JobRow → JobRow)
    : Type 0 where
  pub same_id : (j : JobRow) → (change j).id ≡ j.id
  pub same_operation : (j : JobRow) → (change j).operation_id ≡ j.operation_id
  pub keeps : (j : JobRow) → Memᴰ j jobs → test j ≡ true → IsValidJob j → IsValidJob (change j)

pub record KeepsMessages (outbox : List OutboxRow) (test : OutboxRow → Bool)
    (change : OutboxRow → OutboxRow) : Type 0 where
  pub same_id : (o : OutboxRow) → (change o).id ≡ o.id
  pub same_owner : (o : OutboxRow) → (change o).job_id ≡ o.job_id
  pub keeps :
      (o : OutboxRow) → Memᴰ o outbox → test o ≡ true → IsValidMessage o → IsValidMessage (change o)

-- the one that an update leaves, of a property of rows
kept :
    {R : Type 0} (P : R → Type 0) (test : R → Bool) (change : R → R) (r r' : R)
    → (test r ≡ true → P r → P (change r))
    → P r
    → Changed test change r r'
    → P r'
kept P test change r r' h p (inl (t, e)) = subst P (sym e) (h t p)
kept P test change r r' h p (inr (t, e)) = subst P (sym e) p

pub update_jobs :
    {jobs : List JobRow} {outbox : List OutboxRow} (test : JobRow → Bool) (change : JobRow → JobRow)
    → KeepsJobs jobs test change
    → OneRuns (update_where test change jobs)
    → Valid jobs outbox
    → Valid (update_where test change jobs) outbox
update_jobs {jobs} test change k one v = record {
  rows = λ j m.
      let (i, m', c) = update_where-Changed test change jobs j m in
      kept IsValidJob test change i j (k.keeps i m') (v.rows i m') c;
  messages = v.messages;
  ids = subst Distinct (sym (map-update_where job_id_of test change jobs k.same_id)) v.ids;
  operations =
      subst Distinct (sym (map-update_where operation_of test change jobs k.same_operation))
        v.operations;
  message_ids = v.message_ids;
  owners = v.owners;
  owned = λ o m.
      subst (Memᴰ o.job_id) (sym (map-update_where job_id_of test change jobs k.same_id))
        (v.owned o m);
  alone = one;
}

unmoved :
    (test : JobRow → Bool) (change : JobRow → JobRow) (j j' : JobRow)
    → ((j : JobRow) → is_running (change j).state ≡ false)
    → is_running j'.state ≡ true
    → Changed test change j j'
    → j' ≡ j
unmoved test change j j' h r (inl (t, e)) =
    let f = h j in let g = ap (λ (i : JobRow). is_running i.state) e in cc
unmoved test change j j' h r (inr (t, e)) = e

-- An update after which the changed jobs do not run.
pub stop_jobs :
    {jobs : List JobRow} {outbox : List OutboxRow} (test : JobRow → Bool) (change : JobRow → JobRow)
    → KeepsJobs jobs test change
    → ((j : JobRow) → is_running (change j).state ≡ false)
    → Valid jobs outbox
    → Valid (update_where test change jobs) outbox
stop_jobs {jobs} test change k h v =
    update_jobs test change k
      (λ j' k' m n r s f.
        let (j, m', c) = update_where-Changed test change jobs j' m in
        let (i, n', d) = update_where-Changed test change jobs k' n in
        let e = unmoved test change j j' h r.1 c in
        let e' = unmoved test change i k' h s.1 d in
        ap job_id_of e
        ∙ v.alone j i m' n' (subst Runs e r) (subst Runs e' s)
            (sym (ap (λ (x : JobRow). x.feed_id) e) ∙ f ∙ ap (λ (x : JobRow). x.feed_id) e')
        ∙ sym (ap job_id_of e'))
      v

pub update_messages :
    {jobs : List JobRow} {outbox : List OutboxRow} (test : OutboxRow → Bool)
    (change : OutboxRow → OutboxRow)
    → KeepsMessages outbox test change
    → Valid jobs outbox
    → Valid jobs (update_where test change outbox)
update_messages {jobs} {outbox} test change k v = record {
  rows = v.rows;
  messages = λ o m.
      let (i, m', c) = update_where-Changed test change outbox o m in
      kept IsValidMessage test change i o (k.keeps i m') (v.messages i m') c;
  ids = v.ids;
  operations = v.operations;
  message_ids =
      subst Distinct (sym (map-update_where id_of test change outbox k.same_id)) v.message_ids;
  owners =
      subst Distinct (sym (map-update_where owner_of test change outbox k.same_owner)) v.owners;
  owned = λ o m.
      let (i, m', c) = update_where-Changed test change outbox o m in
      subst (λ id. Memᴰ id (map job_id_of jobs)) (sym (owner_kept i o c)) (v.owned i m');
  alone = v.alone;
}
  where
    owner_kept : (i o : OutboxRow) → Changed test change i o → o.job_id ≡ i.job_id
    owner_kept i o (inl (t, e)) = ap owner_of e ∙ k.same_owner i
    owner_kept i o (inr (t, e)) = ap owner_of e

-- of the two outcomes of a guarded operation
pub either_result :
    {A : Type 0} (P : Db → Type 0) (b : Bool) (x y : Try A × Db)
    → P x.1
    → P y.1
    → P (if b then x else y).1
either_result P true x y p q = p
either_result P false x y p q = q
