-- ===== src/Jobs/Orchestrator/Reserving.antt =====
-- The run over the due feeds (`reserveDueRefreshes` of src/worker/jobs/orchestration.ts).
use larafeed.Prelude.{
  ◌↔◌, ℕ, ◌+◌, ◌≤◌, ◌≡◌, refl, sym, ap, ◌∙◌, Option, String, List, [], ◌∷◌, ◌++◌, arith,
}
use larafeed.Effect.{returned}
use larafeed.Effect.Laws.{bind_returns, pure_returns, bind_returned, pure-returned}
use larafeed.Jobs.Types.{
  max_due_feeds, scheduled, DueFeed, CreateResult, created, idempotent, active, cooldown, gone,
}
use larafeed.Jobs.Decision.{limit}
use larafeed.Jobs.Decision.Bounds.{limit-bounds}
use larafeed.Jobs.Orchestrator.{
  Dependencies, Reserved, scheduled_id, count_reserved, reserve_each, reserve_due_refreshes,
}
use larafeed.Jobs.Orchestrator.Asks.{clock-now, Asks-create_job, Asks, create_job-Asks, now-clock}

-- how many of the answers say that a job was created
abbrev pub new_jobs : List CreateResult → ℕ
new_jobs [] = 0
new_jobs (created job ∷ answers) = 1 + new_jobs answers
new_jobs (idempotent job ∷ answers) = new_jobs answers
new_jobs (active job ∷ answers) = new_jobs answers
new_jobs (cooldown retry_at ∷ answers) = new_jobs answers
new_jobs (gone ∷ answers) = new_jobs answers

-- the operations of the jobs that the answers name, in order
abbrev pub operations_of : List CreateResult → List String
operations_of [] = []
operations_of (created job ∷ answers) = job.operation_id ∷ operations_of answers
operations_of (idempotent job ∷ answers) = job.operation_id ∷ operations_of answers
operations_of (active job ∷ answers) = job.operation_id ∷ operations_of answers
operations_of (cooldown retry_at ∷ answers) = operations_of answers
operations_of (gone ∷ answers) = operations_of answers

-- `r` with the answers added
abbrev Counts : Reserved → List CreateResult → Reserved → Type 0
Counts r answers r' =
    (r'.reserved ≡ r.reserved + new_jobs answers)
    × (r'.operations ≡ r.operations ++ operations_of answers)

from_zero : (n k : ℕ) → n ≡ 0 + k → n ≡ k
from_zero n k h = omega arith

append-nil : {A : Type 0} (as' : List A) → as' ++ [] ≡ as'
append-nil [] = refl
append-nil (a ∷ as') = ap (λ l. a ∷ l) (append-nil as')

append_one :
    {A : Type 0} (as' : List A) (b : A) (bs : List A) → (as' ++ b ∷ []) ++ bs ≡ as' ++ b ∷ bs
append_one [] b bs = refl
append_one (a ∷ as') b bs = ap (λ l. a ∷ l) (append_one as' b bs)

module _ {W Entry : Type 0} (deps : Dependencies W Entry) where
  -- From the world `w` to the world `w'`, the repository is asked for a scheduled job of each feed in
  -- order, once, without a cooldown and under the operation of the feed's due time, and gives these
  -- answers.
  abbrev pub AsksEach : ℕ → List DueFeed → W → List CreateResult → W → Type 0
  AsksEach t [] w [] w' = w ≡ w'
  AsksEach t [] w (answer ∷ answers) w' = ⊥
  AsksEach t (feed ∷ feeds) w [] w' = ⊥
  AsksEach t (feed ∷ feeds) w (answer ∷ answers) w' =
      (u : W) × Asks deps feed.id (scheduled_id deps feed) scheduled t 0 w answer u
      × AsksEach t feeds u answers w'

  count_reserved-Counts :
      (r r' : Reserved) (answer : CreateResult) (answers : List CreateResult)
      → Counts (count_reserved deps r answer) answers r'
      → Counts r (answer ∷ answers) r'
  count_reserved-Counts r r' gone answers (n, l) = (n, l)
  count_reserved-Counts r r' (cooldown retry_at) answers (n, l) = (n, l)
  count_reserved-Counts r r' (created job) answers (n, l) =
      (omega arith, l ∙ append_one r.operations _ _)
  count_reserved-Counts r r' (idempotent job) answers (n, l) = (n, l ∙ append_one r.operations _ _)
  count_reserved-Counts r r' (active job) answers (n, l) = (n, l ∙ append_one r.operations _ _)

  reserve_each-Counts :
      (t : ℕ) (feeds : List DueFeed) (r : Reserved) (w : W) (r' : Reserved) (w' : W)
      → reserve_each deps t feeds r w ≡ (returned r', w')
      → (answers : List CreateResult) × AsksEach t feeds w answers w' × Counts r answers r'
  unfolding reserve_each
  reserve_each-Counts t [] r w r' w' h =
      let (same, kept) = pure-returned r r' w w' h in
      (
        [],
        kept,
        (
          ap (λ (x : Reserved). x.reserved) (sym same) ∙ omega arith,
          ap (λ (x : Reserved). x.operations) (sym same) ∙ sym (append-nil r.operations),
        ),
      )
  reserve_each-Counts t (feed ∷ feeds) r w r' w' h =
      let (answer, u, called, h') = bind_returned _ _ w r' w' h in
      let asks = create_job-Asks deps feed.id _ scheduled t 0 w answer u called in
      let (answers, each, counts) =
        reserve_each-Counts t feeds (count_reserved deps r answer) u r' w' h' in
      (answer ∷ answers, (u, asks, each), count_reserved-Counts r r' answer answers counts)

  count_reserved-Counted :
      (r r' : Reserved) (answer : CreateResult) (answers : List CreateResult)
      → Counts r (answer ∷ answers) r'
      → Counts (count_reserved deps r answer) answers r'
  count_reserved-Counted r r' gone answers (n, l) = (n, l)
  count_reserved-Counted r r' (cooldown retry_at) answers (n, l) = (n, l)
  count_reserved-Counted r r' (created job) answers (n, l) =
      (omega arith, l ∙ sym (append_one r.operations _ _))
  count_reserved-Counted r r' (idempotent job) answers (n, l) =
      (n, l ∙ sym (append_one r.operations _ _))
  count_reserved-Counted r r' (active job) answers (n, l) =
      (n, l ∙ sym (append_one r.operations _ _))

  same_counts : (r r' : Reserved) → r.reserved ≡ r'.reserved → r.operations ≡ r'.operations → r ≡ r'
  same_counts r r' e e' = cc

  AsksEach-reserve_each :
      (t : ℕ) (feeds : List DueFeed) (answers : List CreateResult) (r : Reserved) (w : W)
      (r' : Reserved) (w' : W)
      → AsksEach t feeds w answers w'
      → Counts r answers r'
      → reserve_each deps t feeds r w ≡ (returned r', w')
  unfolding reserve_each
  AsksEach-reserve_each t [] [] r w r' w' kept (n, l) =
      pure_returns r r' w w'
        (same_counts r r' (omega arith) (sym (append-nil r.operations) ∙ sym l)) kept
  AsksEach-reserve_each t [] (answer ∷ answers) r w r' w' each counts = absurd each
  AsksEach-reserve_each t (feed ∷ feeds) [] r w r' w' each counts = absurd each
  AsksEach-reserve_each t (feed ∷ feeds) (answer ∷ answers) r w r' w' (u, asks, each) counts =
      bind_returns _ _ w answer u
        (Asks-create_job deps feed.id (scheduled_id deps feed) scheduled t 0 w answer u asks)
      ∙ AsksEach-reserve_each t feeds answers (count_reserved deps r answer) u r' w' each
          (count_reserved-Counted r r' answer answers counts)

  -- A run over the due feeds returns exactly if, one after the other and with no other call between
  -- the world before it and the world after it, the clock is read, the repository lists the due
  -- feeds, with a limit from 1 to 100, and answers once for a scheduled job of each listed feed, in
  -- order. What it returns counts as reserved exactly the answers that a job was created, and its
  -- operations are those of the created, idempotent and active answers, in order.
  pub reserve_due_refreshes-counts :
      (requested_limit : Option ℕ) (w : W) (r : Reserved) (w' : W)
      → (reserve_due_refreshes deps requested_limit w ≡ (returned r, w')) ↔ (
          (t : ℕ) × (u : W) × (feeds : List DueFeed) × (v : W) × (answers : List CreateResult)
          × (deps.clock w ≡ (t, u))
          × (1 ≤ limit requested_limit max_due_feeds)
          × (limit requested_limit max_due_feeds ≤ max_due_feeds)
          × (deps.repository.list_due_feeds t (limit requested_limit max_due_feeds) u
              ≡ (returned feeds, v))
          × AsksEach t feeds v answers w'
          × (r.reserved ≡ new_jobs answers)
          × (r.operations ≡ operations_of answers))
  unfolding reserve_due_refreshes
  reserve_due_refreshes-counts requested_limit w r w' = (
    λ h.
        let (t, u, e, h1) = bind_returned _ _ w r w' h in
        let (feeds, v, listed, h2) = bind_returned _ _ u r w' h1 in
        let (answers, each, (reserved, operations)) = reserve_each-Counts t feeds _ v r w' h2 in
        let (low, high, _) = limit-bounds requested_limit max_due_feeds (omega arith) in
        (
          t,
          u,
          feeds,
          v,
          answers,
          now-clock deps w t u e,
          low,
          high,
          listed,
          each,
          from_zero _ _ reserved,
          operations,
        ),
    λ (t, u, feeds, v, answers, read, low, high, listed, each, reserved, operations).
        bind_returns _ _ w t u (clock-now deps w t u read)
        ∙ (bind_returns _ _ u feeds v listed
            ∙ AsksEach-reserve_each t feeds answers _ v r w' each (omega arith, operations)),
  )
