-- ===== src/Jobs/Store/Create/Answers.antt =====
-- What the answer to a command says of the tables (`createRefreshJob` of src/worker/jobs/repository.ts).
use larafeed.Jobs.Errors.{invariant_error}
use larafeed.Jobs.Store.Sql.{or_zero}
use larafeed.Prelude.{
  ◌+◌, ◌≡◌, refl, sym, not, ◌&&◌, Bool, true, false, none, some, Option, ℕ, ◌==◌, if◌then◌else◌,
  some-injective,
}
use larafeed.Effect.{Cause, Try, returned, threw}
use larafeed.Jobs.Types.{
  CreateInput, CreateResult, RefreshJob, created, idempotent, active, cooldown, gone,
}
use larafeed.Jobs.Store.Tables.{is_scheduled, JobRow, FeedRow, job_from_row}
use larafeed.Jobs.Store.Create.{is_cooling, same_command, answer_for, active_answer}

-- the rows that the answer was made from
pub record Asked (input : CreateInput) (messages : ℕ) (job : Option JobRow) (feed : Option FeedRow)
    (answer : RefreshJob) : Type 0 where
  pub row : JobRow
  pub on : FeedRow
  pub found : job ≡ some row
  pub known : feed ≡ some on
  pub same : same_command input row ≡ true
  pub one : (messages == 1) ≡ true
  pub answered : answer ≡ job_from_row row

unfoldable pub created_job : CreateResult → Option RefreshJob
created_job (created job) = some job
created_job (idempotent job) = none
created_job (active job) = none
created_job (cooldown t) = none
created_job gone = none

unfoldable pub created_of : Try CreateResult → Option RefreshJob
unfolding created_job
created_of (returned answer) = created_job answer
created_of (threw c) = none

-- the ways through the conditions of an answer
chosen :
    (s o f : Bool) (r job : RefreshJob) (c d : Cause)
    → created_of (
        if not s
        then threw c
        else if not o
        then threw d
        else if f
        then returned (created r)
        else returned (idempotent r))
      ≡ some job
    → (s ≡ true) × (o ≡ true) × (job ≡ r)
unfolding created_of created_job
chosen true true true r job c d h = (refl, refl, sym (some-injective h))
chosen true true false r job c d h = cc
chosen true false f r job c d h = cc
chosen false o f r job c d h = cc

active_answer-none : (found : Option JobRow) → created_of (active_answer found) ≡ none
unfolding created_of created_job
active_answer-none none = refl
active_answer-none (some row) = refl

refusal :
    (a b : Bool) (t : ℕ) (other : Try CreateResult)
    → created_of other ≡ none
    → created_of (if a then returned gone else if b then returned (cooldown t) else other) ≡ none
unfolding created_of created_job
refusal true b t other h = refl
refusal false true t other h = refl
refusal false false t other h = h

pub answer_for-Asked :
    (input : CreateInput) (fresh : Bool) (messages : ℕ) (job act : Option JobRow)
    (feed : Option FeedRow) (answer : RefreshJob)
    → created_of (answer_for input fresh messages job act feed) ≡ some answer
    → Asked input messages job feed answer
unfolding created_of created_job
answer_for-Asked input fresh messages job act none answer h = cc
answer_for-Asked input fresh messages none act (some feed) answer h =
    let f =
      refusal (is_scheduled input.trigger && feed.is_gone)
        (is_cooling input feed.last_successful_refresh_at)
        (or_zero feed.last_successful_refresh_at + input.manual_cooldown_ms) (active_answer act)
        (active_answer-none act) in
    cc
answer_for-Asked input fresh messages (some row) act (some feed) answer h =
    let (s, o, e) =
      chosen (same_command input row) (messages == 1) fresh (job_from_row row) answer
        (invariant_error "createRefreshJob" "operation ID belongs to a different refresh command")
        (invariant_error "createRefreshJob" "job does not have one outbox row") h in
    record { row = row; on = feed; found = refl; known = refl; same = s; one = o; answered = e }
