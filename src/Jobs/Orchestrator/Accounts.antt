-- ===== src/Jobs/Orchestrator/Accounts.antt =====
-- The counts that the orchestrator returns (`dispatchOutbox` of src/worker/jobs/orchestration.ts).
use larafeed.Prelude.{ℕ, suc, ◌+◌, ◌≡◌, refl, Option, List, [], ◌∷◌, length, String, arith}
use larafeed.Effect.{Returns, returned, threw, Ensures, Calls}
use larafeed.Effect.Laws.{Ensures-bind, Ensures-pure}
use larafeed.Jobs.Types.{LeasedMessage, LeaseInput}
use larafeed.Jobs.Orchestrator.{
  now, Dependencies, DispatchResult, dispatch_message, dispatch_each, dispatch_outbox,
}

module _ {W Entry : Type 0} (deps : Dependencies W Entry) where
  pub now-Returns : Returns (λ _. Unit {0}) (now deps)
  now-Returns w = ((deps.clock w).0, (deps.clock w).1, refl, tt)

  -- `n` more messages are accounted for than in `r`, and the number of leased ones is kept.
  abbrev Adds : DispatchResult → ℕ → DispatchResult → Type 0
  Adds r n r' =
      (r'.leased ≡ r.leased)
      × (r'.sent + r'.released + r'.ambiguous ≡ r.sent + r.released + r.ambiguous + n)

  dispatch_message-Adds :
      (t : ℕ) (message : LeasedMessage) (r : DispatchResult)
      → Ensures (Adds r 1) (dispatch_message deps t message r)
  unfolding dispatch_message
  dispatch_message-Adds t message r = Ensures-bind (Adds r 1) _ _ (elim [
    | threw cause ↦
        λ _. Ensures-bind (Adds r 1) _ _ (λ _ _. Ensures-pure (Adds r 1) _ (refl, omega arith))
    | returned _ ↦ λ _. Ensures-bind (Adds r 1) _ _ (elim [
      | returned _ ↦ λ _. Ensures-pure (Adds r 1) _ (refl, omega arith)
      | threw _ ↦ λ _. Ensures-pure (Adds r 1) _ (refl, omega arith)
    ])
  ])

  dispatch_each-Adds :
      (t : ℕ) (messages : List LeasedMessage) (r : DispatchResult)
      → Ensures (Adds r (length messages)) (dispatch_each deps t messages r)
  unfolding dispatch_each
  dispatch_each-Adds t [] r = Ensures-pure (Adds r 0) _ (refl, omega arith)
  dispatch_each-Adds t (message ∷ messages) r =
      Ensures-bind (Adds r (suc (length messages))) _ _ (λ r' (w, w', e) u r'' u' e'.
        let (kept, sum) = dispatch_message-Adds t message r w r' w' e in
        let (kept', sum') = dispatch_each-Adds t messages r' u r'' u' e' in
        (omega arith, omega arith))

  -- When a dispatch returns, the repository leased it messages and each of them is counted once: as
  -- sent, as released for a later attempt, or as ambiguous.
  pub dispatch_outbox-accounts :
      (requested_limit : Option ℕ) (operation_id : Option String)
      → Ensures
          (λ r.
            (input : LeaseInput) × (messages : List LeasedMessage) × Calls
              (deps.repository.lease_outbox input)
              (returned messages)
            × (r.leased ≡ length messages)
            × (r.sent + r.released + r.ambiguous ≡ length messages))
          (dispatch_outbox deps requested_limit operation_id)
  unfolding dispatch_outbox
  dispatch_outbox-accounts requested_limit operation_id = Ensures-bind _ _ _ (λ t _.
      Ensures-bind _ _ _ (λ owner _. Ensures-bind _ _ _ (λ messages called w r w' e.
        let (kept, sum) = dispatch_each-Adds t messages _ w r w' e in
        (_, messages, called, kept, omega arith))))
