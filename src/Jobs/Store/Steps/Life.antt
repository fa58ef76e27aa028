-- ===== src/Jobs/Store/Steps/Life.antt =====
-- The life of a job as a state machine, as the operations that are steps run it (for
-- src/worker/jobs/repository.ts); the move of `commitRefresh`, from running to succeeded, is not in it.
use larafeed.Jobs.Store.Sql.{is_in}
use larafeed.Jobs.Store.Steps.Refines.{
  fail_Follows, reconcile_Follows, recover_Follows, release_Follows, claim_Follows,
  undispatch_Follows, dispatch_Follows,
}
use larafeed.Jobs.Store.Valid.Updates.{either_result}
use larafeed.Jobs.Errors.{storage_error}
use larafeed.Jobs.Store.Sql.Rows.{select_where-Mem, Mem-map}
use larafeed.Jobs.Store.Valid.States.{running_active, open_claimable, claimable_idle}
use larafeed.Jobs.Store.Outbox.{recovered, lease_due, lease_outbox}
use larafeed.Jobs.Store.Cleanup.{cleanup_refresh_history, finished_ids, cleanup_terminal_jobs}
use larafeed.Effect.{threw, Try}
use larafeed.Jobs.Store.Sql.Keys.{Distinct-same, fresh_key}
use mathlib.Core.List.{Memᴰ}
use mathlib.Core.List.Memᴰ
use larafeed.Prelude.{
  ◌≡◌, refl, sym, subst, ap, ◌∙◌, arith, not, inl, inr, Bool, true, false, none, some, Option, ℕ,
  ◌∷◌, str_eq, str_eq_refl, if◌then◌else◌,
}
use larafeed.Jobs.Types.{max_terminal_job_cleanup, CreateInput, CreateResult, JobState}
use larafeed.Jobs.Store.Tables.{bounded_limit, JobRow, Db, is_terminal}
use larafeed.Jobs.Store.Create.{
  without_message, create_refresh_job, admits, new_job, put_message, with_job, with_message,
  key_conflict, create_answer,
}
use larafeed.Jobs.Store.Steps.{Command, Step, Arises, Moves, IsNew}
use larafeed.Jobs.Store.Valid.{operation_of, IsValid}

put_message-jobs :
    (input : CreateInput) (db : Db) (found : Option JobRow)
    → (put_message input db found).jobs ≡ db.jobs
put_message-jobs input db none = refl
put_message-jobs input db (some job) = refl

new_job-Arises :
    (input : CreateInput) (db : Db) (b : Bool) (j : JobRow)
    → admits input db ≡ b
    → Memᴰ j (if b then record db { jobs = new_job input ∷ db.jobs } else db).jobs
    → Arises db j
unfolding admits
new_job-Arises input db false j a m = inl (j, m, inl refl)
new_job-Arises input db true j a (Memᴰ.tail m) = inl (j, m, inl refl)
new_job-Arises input db true j a (Memᴰ.head e) = inr (
    subst (IsNew db) (sym e) (
      refl,
      refl,
      fresh_key operation_of (λ (j : JobRow). str_eq j.operation_id input.operation_id) db.jobs
          input.operation_id
          (λ k e'. ap (λ s. str_eq s input.operation_id) e' ∙ str_eq_refl input.operation_id)
          (ground arith),
    ))

create_Arises :
    (input : CreateInput) (db : Db) (j : JobRow)
    → Memᴰ j (create_refresh_job input db).1.jobs
    → Arises db j
unfolding create_refresh_job with_message with_job
create_Arises input db j m =
    let db' = with_message input (with_job input db) in
    let failed : Try CreateResult × Db = (threw (storage_error "createRefreshJob"), db) in
    let done : Try CreateResult × Db = (create_answer input (admits input db) db', db') in
    either_result (λ d. Memᴰ j d.jobs → Arises db j) (key_conflict input db) failed done
      (λ n. inl (j, n, inl refl))
      (λ n. new_job-Arises input db (admits input db) j refl (
        subst (Memᴰ j)
          (put_message-jobs input (with_job input db) (without_message input (with_job input db)))
          n))
      m

remove_Arises :
    (cutoff limit : ℕ) (db : Db) (j : JobRow)
    → Memᴰ j (cleanup_terminal_jobs cutoff limit db).1.jobs
    → Arises db j
unfolding cleanup_terminal_jobs
remove_Arises cutoff limit db j m =
    let ids = finished_ids cutoff (bounded_limit limit max_terminal_job_cleanup) db in
    inl (j, (select_where-Mem (λ (j : JobRow). not (is_in ids j.id)) db.jobs j m).0, inl refl)

-- In a valid state of the tables, whichever of the operations that are steps comes next (all that write
-- but commitRefresh, of which nothing is said), each job that it leaves is a job from before that is unchanged, or has kept its command and made a move of the
-- state machine, or is a new pending job with no attempt under an operation that no job had.
pub Step-Arises :
    (db db' : Db) → IsValid db → Step db db' → (j : JobRow) → Memᴰ j db'.jobs → Arises db j
unfolding lease_outbox lease_due recovered cleanup_refresh_history
Step-Arises db _ v (Step.create input) j m = create_Arises input db j m
Step-Arises db _ v (Step.lease input) j m = inl (j, m, inl refl)
Step-Arises db _ v (Step.dispatch message now) j m = dispatch_Follows message now db j m
Step-Arises db _ v (Step.undispatch input) j m = undispatch_Follows input db j m
Step-Arises db _ v (Step.claim input) j m = claim_Follows input db j m
Step-Arises db _ v (Step.release input) j m = release_Follows input db j m
Step-Arises db _ v (Step.recover now limit) j m = recover_Follows now limit db j v m
Step-Arises db _ v (Step.reconcile now stale_before limit) j m =
    reconcile_Follows now stale_before limit db j m
Step-Arises db _ v (Step.fail input) j m = fail_Follows input db j m
Step-Arises db _ v (Step.forget cutoff limit) j m = inl (j, m, inl refl)
Step-Arises db _ v (Step.remove cutoff limit) j m = remove_Arises cutoff limit db j m

Moves-active : (most n n' : ℕ) (s s' : JobState) → Moves most s n s' n' → is_terminal s ≡ true → ⊥
Moves-active most n n' s s' (Moves.queue h) t =
    let f = (claimable_idle s (open_claimable s h)).1 in cc
Moves-active most n n' s s' (Moves.begin h l) t = let f = (claimable_idle s h).1 in cc
Moves-active most n n' s s' (Moves.postpone h) t = let f = running_active s h in cc
Moves-active most n n' s s' (Moves.bury h) t = ground arith

final_row :
    (db : Db) (j j' : JobRow)
    → IsValid db
    → Memᴰ j db.jobs
    → is_terminal j.state ≡ true
    → j'.operation_id ≡ j.operation_id
    → Arises db j'
    → j' ≡ j
final_row db j j' v m t e (inr (_, _, fresh)) =
    absurd (fresh (Memᴰ.cast e (Mem-map operation_of db.jobs j m)))
final_row db j j' v m t e (inl (k, n, inl e')) =
    e' ∙ Distinct-same operation_of db.jobs k j v.operations n m (sym (ap operation_of e') ∙ e)
final_row db j j' v m t e (inl (k, n, inr (c, moves))) =
    let e' =
      Distinct-same operation_of db.jobs k j v.operations n m
        (sym (ap (λ (x : Command). x.operation_id) c) ∙ e) in
    absurd
      (Moves-active _ _ _ k.state j'.state moves (ap (λ (x : JobRow). is_terminal x.state) e' ∙ t))

-- In a valid state of the tables, a job that has succeeded, is dead or was canceled is not changed by
-- any of the operations that are steps (all that write but commitRefresh, of which nothing is said):
-- the job of its operation that the step leaves, if any, is that row.
pub Step-final :
    (db db' : Db) (j j' : JobRow)
    → IsValid db
    → Step db db'
    → Memᴰ j db.jobs
    → is_terminal j.state ≡ true
    → Memᴰ j' db'.jobs
    → j'.operation_id ≡ j.operation_id
    → j' ≡ j
Step-final db db' j j' v step m t m' e = final_row db j j' v m t e (Step-Arises db db' v step j' m')
