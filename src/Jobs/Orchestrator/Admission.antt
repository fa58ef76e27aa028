-- ===== src/Jobs/Orchestrator/Admission.antt =====
-- The refreshes that users ask for (`manualRefresh` of src/worker/jobs/orchestration.ts).
use larafeed.Jobs.Orchestrator.Asks.{
  Asks-create_job, clock-now, Names-named, now-clock, named-Names, create_job-Asks, Asks, Names,
}
use larafeed.Prelude.{
  ◌∙◌, ◌↔◌, ap, sym, subst, ℕ, ◌≡◌, refl, Bool, true, false, Option, String, if◌then◌else◌,
}
use larafeed.Effect.{pure, returned}
use larafeed.Effect.Laws.{bind_returns, pure_returns, bind_returned, pure-returned}
use larafeed.Jobs.Types.{
  RefreshJob, manual_refresh_cooldown_ms, manual, CreateResult, created, idempotent, active,
  cooldown, gone,
}
use larafeed.Jobs.Orchestrator.{Dependencies, ManualRefresh, admit, manual_refresh}

-- The answers of the repository with which a manual refresh returns, and what it returns for them.
abbrev pub Admits : Bool → CreateResult → ManualRefresh → Type 0
Admits strict (created job) r = (r.created ≡ true) × (r.job ≡ job)
Admits strict (idempotent job) r = (r.created ≡ false) × (r.job ≡ job)
Admits strict (active job) r = (strict ≡ false) × (r.created ≡ false) × (r.job ≡ job)
Admits strict (cooldown retry_at) r = ⊥
Admits strict gone r = ⊥

module _ {W Entry : Type 0} (deps : Dependencies W Entry) where
  -- What is returned follows from the answer, and the world stays as it is.
  abbrev Follows : Bool → CreateResult → W → ManualRefresh → W → Type 0
  Follows strict answer w r w' =
      Admits strict answer r × (r.operation_id ≡ r.job.operation_id) × (w' ≡ w)

  admitted-Follows :
      (strict : Bool) (answer : CreateResult) (given r : ManualRefresh) (w w' : W)
      → Admits strict answer given × (given.operation_id ≡ given.job.operation_id)
      → pure {W = W} given w ≡ (returned r, w')
      → Follows strict answer w r w'
  admitted-Follows strict answer given r w w' (admits, same) h =
      let (e, e') = pure-returned given r w w' h in
      subst (λ r'. Follows strict answer w r' w') e (admits, same, sym e')

  admit-Follows :
      (feed_id : ℕ) (strict : Bool) (answer : CreateResult) (w : W) (r : ManualRefresh) (w' : W)
      → admit deps feed_id strict answer w ≡ (returned r, w')
      → Follows strict answer w r w'
  admit-Follows feed_id strict (created job) w r w' h =
      admitted-Follows strict (created job) _ r w w' ((refl, refl), refl) h
  admit-Follows feed_id strict (idempotent job) w r w' h =
      admitted-Follows strict (idempotent job) _ r w w' ((refl, refl), refl) h
  admit-Follows feed_id false (active job) w r w' h =
      admitted-Follows false (active job) _ r w w' ((refl, refl, refl), refl) h
  admit-Follows feed_id true (active job) w r w' h = cc
  admit-Follows feed_id strict (cooldown retry_at) w r w' h = cc
  admit-Follows feed_id strict gone w r w' h = cc

  same_refresh :
      (given r : ManualRefresh)
      → given.operation_id ≡ r.operation_id
      → given.created ≡ r.created
      → given.job ≡ r.job
      → given ≡ r
  same_refresh given r e e' e'' = cc

  returned_as :
      (given r : ManualRefresh) (w : W)
      → given.operation_id ≡ r.operation_id
      → given.created ≡ r.created
      → given.job ≡ r.job
      → pure {W = W} given w ≡ (returned r, w)
  returned_as given r w e e' e'' = pure_returns given r w w (same_refresh given r e e' e'') refl

  Admits-admit :
      (feed_id : ℕ) (strict : Bool) (answer : CreateResult) (w : W) (r : ManualRefresh)
      → Admits strict answer r × (r.operation_id ≡ r.job.operation_id)
      → admit deps feed_id strict answer w ≡ (returned r, w)
  Admits-admit feed_id strict (created job) w r ((e, e'), same) =
      returned_as _ r w (ap (λ (j : RefreshJob). j.operation_id) (sym e') ∙ sym same) (sym e)
        (sym e')
  Admits-admit feed_id strict (idempotent job) w r ((e, e'), same) =
      returned_as _ r w (ap (λ (j : RefreshJob). j.operation_id) (sym e') ∙ sym same) (sym e)
        (sym e')
  Admits-admit feed_id false (active job) w r ((_, e, e'), same) =
      returned_as _ r w (ap (λ (j : RefreshJob). j.operation_id) (sym e') ∙ sym same) (sym e)
        (sym e')
  Admits-admit feed_id true (active job) w r ((h, e, e'), same) = cc
  Admits-admit feed_id strict (cooldown retry_at) w r (h, same) = absurd h
  Admits-admit feed_id strict gone w r (h, same) = absurd h

  -- A manual refresh returns exactly if, one after the other and with no other call between the world
  -- before it and the world after it, an operation is named (the given one, or a generated one if none
  -- is given), the clock is read, and the repository answers to one command, under two generated
  -- identifiers, for a manual job of the feed, with the cooldown of five minutes if the refresh is
  -- strict and with none if it is not; and if that answer admits the result: the job of the answer and
  -- that job's operation, said to be created exactly for an answer that it was created. A cooldown, a
  -- gone feed and, if the refresh is strict, a job that was active already admit none.
  pub manual_refresh-Admits :
      (feed_id : ℕ) (requested : Option String) (strict : Bool) (w : W) (r : ManualRefresh) (w' : W)
      → (manual_refresh deps feed_id requested strict w ≡ (returned r, w')) ↔ (
          (operation_id : String) × (u : W) × (t : ℕ) × (v : W) × (answer : CreateResult) × Names
            deps requested "feed-refresh:manual:" w operation_id u
          × (deps.clock u ≡ (t, v))
          × Asks deps feed_id operation_id manual t
              (if strict then manual_refresh_cooldown_ms else 0)
              v
              answer
              w'
          × Admits strict answer r
          × (r.operation_id ≡ r.job.operation_id))
  unfolding manual_refresh
  manual_refresh-Admits feed_id requested strict w r w' = (
    λ h.
        let (operation_id, u, e, h1) = bind_returned _ _ w r w' h in
        let (t, v, e', h2) = bind_returned _ _ u r w' h1 in
        let (answer, x, called, h3) = bind_returned _ _ v r w' h2 in
        let (admits, same, kept) = admit-Follows feed_id strict answer x r w' h3 in
        (
          operation_id,
          u,
          t,
          v,
          answer,
          named-Names deps requested _ w operation_id u e,
          now-clock deps u t v e',
          subst
              (λ z.
                Asks deps feed_id operation_id manual t
                  (if strict then manual_refresh_cooldown_ms else 0) v answer z)
              (sym kept) (create_job-Asks deps feed_id operation_id manual t _ v answer x called),
          admits,
          same,
        ),
    λ (operation_id, u, t, v, answer, names, read, asks, admits, same).
        bind_returns _ _ w operation_id u (Names-named deps requested _ w operation_id u names)
        ∙ (bind_returns _ _ u t v (clock-now deps u t v read)
            ∙ (bind_returns _ _ v answer w'
                  (Asks-create_job deps feed_id operation_id manual t _ v answer w' asks)
                ∙ Admits-admit feed_id strict answer w' r (admits, same))),
  )
