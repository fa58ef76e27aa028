-- ===== src/Jobs/Worker/Justified.antt =====
-- The decisions on queue messages (`processQueueMessage` of src/worker/jobs/orchestration.ts).
use larafeed.Prelude.{
  ℕ, ◌≤◌, ◌≡◌, ◌⊎◌, inl, inr, refl, Bool, true, false, Option, none, some, String, arith,
}
use larafeed.Effect.{returned, threw, Io, Ensures, Returns, Calls}
use larafeed.Effect.Laws.{Ensures-bind, Returns-bind, Returns-attempt, Returns-pure, Ensures-pure}
use larafeed.Jobs.Types.{
  Claim, ClaimInput, ClaimResult, claimed, completed, dead, busy, unavailable, missing, FeedInput,
  Completion, Success, Failure, FailureInput, ProcessorResult, success, not_modified, failure,
  FailureRecord, CommitInput, Decision, ack, retry,
}
use larafeed.Jobs.Decision.{Body, decode_refresh_queue_message}
use larafeed.Jobs.Orchestrator.{Dependencies}
use larafeed.Jobs.Orchestrator.Accounts.{now-Returns}
use larafeed.Jobs.Worker.{
  record_failure, commit, settle_result, run_claimed, recover, guarded, on_claim, claim_job,
  process_operation, process_queue_message, after_failure, process_decoded,
}

module _ {W Entry : Type 0} (deps : Dependencies W Entry) where
  -- The repository answered a claim of the operation.
  abbrev pub Answered : String → ClaimResult → Type 0
  Answered operation_id answer =
      (input : ClaimInput) × (input.operation_id ≡ operation_id)
      × Calls (deps.repository.claim_refresh_job input) (returned answer)

  -- The result of the claimed job is committed.
  abbrev pub Committed : Claim → Type 0
  Committed claim =
      (input : CommitInput Entry) × (input.claim ≡ claim)
      × Calls (deps.repository.commit_refresh input) (returned tt)

  -- The failure of the claimed job is recorded, and the repository answered that it was the last.
  abbrev pub FailedForGood : Claim → Type 0
  FailedForGood claim =
      (input : FailureInput) × (answer : FailureRecord) × (input.claim ≡ claim)
      × (answer.terminal ≡ true)
      × Calls (deps.repository.record_refresh_failure input) (returned answer)

  -- What a decision on a claimed job rests on.
  abbrev pub Settled : Claim → Decision → Type 0
  Settled claim (ack reason) = Committed claim
  Settled claim (retry reason seconds) = 1 ≤ seconds
  Settled claim (Decision.dead reason) = FailedForGood claim

  -- What a decision on an operation rests on.
  abbrev pub Justified : String → Decision → Type 0
  Justified operation_id (ack reason) =
      Answered operation_id (completed reason)
      ⊎ ((claim : Claim) × Answered operation_id (claimed claim) × Committed claim)
  Justified operation_id (retry reason seconds) = 1 ≤ seconds
  Justified operation_id (Decision.dead reason) =
      Answered operation_id (dead reason)
      ⊎ (Answered operation_id missing
          ⊎ ((claim : Claim) × Answered operation_id (claimed claim) × FailedForGood claim))

  abbrev pub JustifiedFor : Option String → Decision → Type 0
  JustifiedFor none decision = decision ≡ Decision.dead "invalid_message"
  JustifiedFor (some operation_id) decision = Justified operation_id decision

  Settled-Justified :
      (operation_id : String) (claim : Claim) (decision : Decision)
      → Answered operation_id (claimed claim)
      → Settled claim decision
      → Justified operation_id decision
  Settled-Justified operation_id claim (ack reason) h s = inr (claim, h, s)
  Settled-Justified operation_id claim (retry reason seconds) h s = s
  Settled-Justified operation_id claim (Decision.dead reason) h s = inr (inr (claim, h, s))

  after_failure-Settled :
      (input : FailureInput) (answer : FailureRecord) (terminal : Bool) (completed_at retry_at : ℕ)
      → answer.terminal ≡ terminal
      → Calls (deps.repository.record_refresh_failure input) (returned answer)
      → Settled input.claim (after_failure terminal answer.available_at completed_at retry_at)
  after_failure-Settled input answer true completed_at retry_at e called =
      (input, answer, refl, e, called)
  after_failure-Settled input answer false completed_at retry_at e called = omega arith

  record_failure-Settled :
      (claim : Claim) (result : Failure) (completed_at history_id : ℕ)
      → Ensures (Settled claim) (record_failure deps claim result completed_at history_id)
  unfolding record_failure
  record_failure-Settled claim result completed_at history_id =
      Ensures-bind (Settled claim) _ _ (λ recorded called.
        Ensures-pure (Settled claim) _
          (after_failure-Settled _ recorded recorded.terminal completed_at _ refl called))

  commit-Settled :
      (claim : Claim) (feed : FeedInput) (completion : Completion)
      (fetched : Option (Success Entry)) (completed_at history_id : ℕ)
      → Ensures (Settled claim) (commit deps claim feed completion fetched completed_at history_id)
  unfolding commit
  commit-Settled claim feed completion fetched completed_at history_id =
      Ensures-bind (Settled claim) _ _ (λ u called.
        Ensures-bind (Settled claim) _ _ (λ _ _. Ensures-pure (Settled claim) _ (_, refl, called)))

  settle_result-Settled :
      (claim : Claim) (feed : FeedInput) (result : ProcessorResult Entry)
      (completed_at history_id : ℕ)
      → Ensures (Settled claim) (settle_result deps claim feed result completed_at history_id)
  unfolding settle_result
  settle_result-Settled claim feed (failure f) t i = record_failure-Settled claim f t i
  settle_result-Settled claim feed (success c s) t i = commit-Settled claim feed c (some s) t i
  settle_result-Settled claim feed (not_modified c) t i = commit-Settled claim feed c none t i

  run_claimed-Settled :
      (claim : Claim) (current_time : ℕ)
      → Ensures (Settled claim) (run_claimed deps claim current_time)
  unfolding run_claimed
  run_claimed-Settled claim current_time = Ensures-bind (Settled claim) _ _ (λ feed _.
      Ensures-bind (Settled claim) _ _ (λ t _. Ensures-bind (Settled claim) _ _ (λ completed_at _.
        Ensures-bind (Settled claim) _ _
          (λ history_id _. settle_result-Settled claim feed _ completed_at history_id))))

  recover-Justified :
      (operation_id : String) (active_claim : Option Claim)
      → Returns (Justified operation_id) (recover deps active_claim)
  unfolding recover
  recover-Justified operation_id none =
      Returns-bind (λ _. Unit {0}) (Justified operation_id) _ _ (now-Returns deps)
        (λ failed_at _.
          Returns-bind (λ _. Unit {0}) (Justified operation_id) _ _
            (Returns-pure (λ _. Unit {0}) tt tt)
            (λ _ _. Returns-pure (Justified operation_id) _ (omega arith)))
  recover-Justified operation_id (some claim) =
      Returns-bind (λ _. Unit {0}) (Justified operation_id) _ _ (now-Returns deps)
        (λ failed_at _.
          Returns-bind (λ _. Unit {0}) (Justified operation_id) _ _
            (Returns-bind _ (λ _. Unit {0}) _ _ (Returns-attempt _)
              (λ _ _. Returns-pure (λ _. Unit {0}) tt tt))
            (λ _ _. Returns-pure (Justified operation_id) _ (omega arith)))

  -- The `try` block of a claimed job.
  guarded-Justified :
      (operation_id : String) (claim : Claim) (m : Io W Decision)
      → Answered operation_id (claimed claim)
      → Ensures (Settled claim) m
      → Returns (Justified operation_id) (guarded deps (some claim) m)
  unfolding guarded
  guarded-Justified operation_id claim m h s =
      Returns-bind (Calls m) (Justified operation_id) _ _ (Returns-attempt m) (elim [
        | returned decision ↦ λ (w, w', e).
            Returns-pure (Justified operation_id) _
              (Settled-Justified operation_id claim decision h (s w decision w' e))
        | threw cause ↦ λ _. recover-Justified operation_id (some claim)
      ])

  on_claim-Justified :
      (operation_id : String) (answer : ClaimResult) (current_time : ℕ)
      → Answered operation_id answer
      → Returns (Justified operation_id) (on_claim deps answer current_time)
  unfolding on_claim
  on_claim-Justified operation_id (completed state) t h =
      Returns-pure (Justified operation_id) _ (inl h)
  on_claim-Justified operation_id (dead state) t h = Returns-pure (Justified operation_id) _ (inl h)
  on_claim-Justified operation_id missing t h =
      Returns-pure (Justified operation_id) _ (inr (inl h))
  on_claim-Justified operation_id (busy retry_at) t h =
      Returns-pure (Justified operation_id) _ (omega arith)
  on_claim-Justified operation_id (unavailable retry_at) t h =
      Returns-pure (Justified operation_id) _ (omega arith)
  on_claim-Justified operation_id (claimed claim) t h =
      guarded-Justified operation_id claim _ h (run_claimed-Settled claim t)

  claim_job-Answered :
      (operation_id : String) (requested_owner : Option String) (current_time : ℕ)
      → Ensures (Answered operation_id) (claim_job deps operation_id requested_owner current_time)
  unfolding claim_job
  claim_job-Answered operation_id requested_owner current_time =
      Ensures-bind (Answered operation_id) _ _ (λ owner _ w answer w' e. (_, refl, (w, w', e)))

  process_operation-Justified :
      (operation_id : String) (requested_owner : Option String)
      → Returns (Justified operation_id) (process_operation deps operation_id requested_owner)
  unfolding process_operation
  process_operation-Justified operation_id requested_owner =
      Returns-bind (λ _. Unit {0}) (Justified operation_id) _ _ (now-Returns deps)
        (λ t _. Returns-bind _ (Justified operation_id) _ _ (Returns-attempt _) (elim [
          | returned answer ↦ λ (w, w', e).
              on_claim-Justified operation_id answer t
                (claim_job-Answered operation_id requested_owner t w answer w' e)
          | threw cause ↦ λ _. recover-Justified operation_id none
        ]))

  -- The consumer never throws, whatever its dependencies do, and its decision rests on what the
  -- repository answered for the message's operation: it acknowledges only a completed operation or a
  -- job that it claimed and whose result was committed; it gives up only a malformed message, an
  -- operation that is dead or missing, or a claimed job whose failure was recorded as the last; and
  -- it retries after at least one second.
  pub process_queue_message-Justified :
      (body : Body) (requested_owner : Option String)
      → Returns
          (JustifiedFor (decode_refresh_queue_message body))
          (process_queue_message deps body requested_owner)
  unfolding process_queue_message process_decoded
  process_queue_message-Justified body requested_owner =
      elim (decode_refresh_queue_message body)
        as (λ o. Returns (JustifiedFor o) (process_decoded deps o requested_owner)) [
          | none ↦ Returns-pure (λ d. d ≡ Decision.dead "invalid_message") _ refl
          | some operation_id ↦ process_operation-Justified operation_id requested_owner
        ]
