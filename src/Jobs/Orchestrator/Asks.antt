-- ===== src/Jobs/Orchestrator/Asks.antt =====
-- The one call with which the orchestrator asks the repository for a job (for `createJob` of
-- src/worker/jobs/orchestration.ts), between the world before and the world after.
use larafeed.Prelude.{◌∙◌, ap, subst, sym, ℕ, ◌≡◌, refl, Option, none, some, String}
use Prim.Native.String.{◌++◌ as ◌⊕◌}
use larafeed.Effect.{Try, returned}
use larafeed.Effect.Laws.{pure_returns, bind_returns, bind_returned, pure-returned}
use larafeed.Jobs.Types.{RefreshTrigger, CreateResult}
use larafeed.Jobs.Orchestrator.{now, Dependencies, create_job, named}

module _ {W Entry : Type 0} (deps : Dependencies W Entry) where
  -- From the world `w`, two identifiers are generated and the repository is called once, for a job
  -- with these identifiers and arguments; it answers, and leaves the world `w'`. Nothing else happens
  -- in between.
  abbrev pub Asks : ℕ → String → RefreshTrigger → ℕ → ℕ → W → CreateResult → W → Type 0
  Asks feed_id operation_id trigger t cooldown_ms w answer w' =
      (job_id : ℕ) × (outbox_id : ℕ) × (u : W) × (v : W) × (deps.generate_id w
        ≡ (returned job_id, u))
      × (deps.generate_id u ≡ (returned outbox_id, v))
      × (deps.repository.create_refresh_job
            (record {
              job_id = job_id;
              outbox_id = outbox_id;
              operation_id = operation_id;
              feed_id = feed_id;
              trigger = trigger;
              max_attempts = deps.max_attempts;
              now = t;
              manual_cooldown_ms = cooldown_ms;
            })
            v
          ≡ (returned answer, w'))

  module _ (feed_id : ℕ) (operation_id : String) (trigger : RefreshTrigger) (t cooldown_ms : ℕ)
      (w : W) (answer : CreateResult) (w' : W) where
    pub create_job-Asks :
        create_job deps feed_id operation_id trigger t cooldown_ms w ≡ (returned answer, w')
        → Asks feed_id operation_id trigger t cooldown_ms w answer w'
    create_job-Asks h =
        let (job_id, u, e, h') = bind_returned _ _ w answer w' h in
        let (outbox_id, v, e', called) = bind_returned _ _ u answer w' h' in
        (job_id, outbox_id, u, v, e, e', called)

    pub Asks-create_job :
        Asks feed_id operation_id trigger t cooldown_ms w answer w'
        → create_job deps feed_id operation_id trigger t cooldown_ms w ≡ (returned answer, w')
    Asks-create_job (job_id, outbox_id, u, v, e, e', called) =
        bind_returns _ _ w job_id u e ∙ (bind_returns _ _ u outbox_id v e' ∙ called)

  -- The operation is the given one, or the prefix with a generated token.
  abbrev pub Names : Option String → String → W → String → W → Type 0
  Names (some name) prefix w operation_id w' = (operation_id ≡ name) × (w' ≡ w)
  Names none prefix w operation_id w' =
      (token : String) × (deps.generate_token w ≡ (returned token, w'))
      × (operation_id ≡ prefix ⊕ token)

  pub named-Names :
      (requested : Option String) (prefix : String) (w : W) (operation_id : String) (w' : W)
      → named deps requested prefix w ≡ (returned operation_id, w')
      → Names requested prefix w operation_id w'
  named-Names (some name) prefix w operation_id w' h =
      let (same, kept) = pure-returned name operation_id w w' h in (sym same, sym kept)
  named-Names none prefix w operation_id w' h =
      let (token, u, e, h') = bind_returned _ _ w operation_id w' h in
      let (same, kept) = pure-returned _ operation_id u w' h' in
      (token, subst (λ v. deps.generate_token w ≡ (returned token, v)) kept e, sym same)

  read_clock :
      (p : ℕ × W) (t : ℕ) (w' : W)
      → ◌≡◌ {A = Try ℕ × W} (returned p.0, p.1) (returned t, w')
      → p ≡ (t, w')
  read_clock (t', w'') t w' h = cc

  pub now-clock : (w : W) (t : ℕ) (w' : W) → now deps w ≡ (returned t, w') → deps.clock w ≡ (t, w')
  now-clock w t w' h = read_clock (deps.clock w) t w' h

  pub Names-named :
      (requested : Option String) (prefix : String) (w : W) (operation_id : String) (w' : W)
      → Names requested prefix w operation_id w'
      → named deps requested prefix w ≡ (returned operation_id, w')
  Names-named (some name) prefix w operation_id w' (same, kept) =
      pure_returns name operation_id w w' (sym same) (sym kept)
  Names-named none prefix w operation_id w' (token, e, same) =
      bind_returns _ _ w token w' e ∙ pure_returns _ operation_id w' w' (sym same) refl

  pub clock-now : (w : W) (t : ℕ) (w' : W) → deps.clock w ≡ (t, w') → now deps w ≡ (returned t, w')
  clock-now w t w' h = ap (λ (p : ℕ × W). (returned p.0, p.1)) h
