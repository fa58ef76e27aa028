-- ===== src/Filter/Simulation/Closure.antt =====
-- The inner loop of `matchesSafePattern` (src/worker/subscriptions/filter.ts): from the states on its
-- stack it marks exactly those that can be reached at this position, and it ends.
use larafeed.Prelude.{
  List-cases, subst, ℕ, zero, suc, ◌+◌, ◌*◌, ◌≤◌, ◌<◌, ◌≡◌, ◌≢◌, ◌↔◌, ◌⊎◌, inl, inr, refl, true,
  some, List, [], ◌∷◌, length, get_elem?, set, length-set, arith, ◌==◌, Bool-cases, ==_iff, sym,
  ◌∙◌, ap,
}
use larafeed.Result.{Returns, Returns-bind}
use larafeed.Filter.Ast.{Text}
use larafeed.Filter.Nfa.{NfaState, match, SafePattern}
use larafeed.Filter.Simulation.{Scan, visit, closure}
use larafeed.Filter.Simulation.Paths.{Has, Steps, Run, jump, IsClosed, Targets}
use larafeed.Filter.Simulation.Expand.{
  unmarked, unmarked-set, lt-length_of_get_elem?, get_elem?_of_lt, get_elem?-set_iff, IsCharacter,
  Expands, expand-Expands,
}

module _ (pattern : SafePattern) (fold : Text → Text) (characters : Text) where
  abbrev StateAt : ℕ → NfaState → Type 0
  StateAt u state = get_elem? pattern.states u ≡ some state

  Steps-Targets :
      (position : ℕ) (state : NfaState) (v : ℕ)
      → Steps pattern fold characters position state v
      → Targets state v
  Steps-Targets position (NfaState.character m target) v h = absurd h
  Steps-Targets position (NfaState.assertion kind target) v h = h.1
  Steps-Targets position (NfaState.epsilon target) v h = h
  Steps-Targets position (NfaState.split left right) v h = h
  Steps-Targets position match v h = h

  module _ (generation position : ℕ) (Seed : ℕ → Type 0) where
    abbrev pub Marked : Scan → ℕ → Type 0
    Marked s v = get_elem? s.marks v ≡ some generation

    abbrev Known : Scan → ℕ → Type 0
    Known s v = Marked s v ⊎ Has v s.stack

    -- What holds after each round. The first half says that the loop meets only states that a path
    -- reaches, the second that no such state is lost.
    pub record Inv (s : Scan) : Type 0 where
      pub sized : length s.marks ≡ length pattern.states
      pub recent : (v m : ℕ) → get_elem? s.marks v ≡ some m → m ≤ generation
      pub stack_below : (v : ℕ) → Has v s.stack → v < length pattern.states
      pub stack_reached : (v : ℕ) → Has v s.stack → Run pattern fold characters position v
      pub marked_reached : (v : ℕ) → Marked s v → Run pattern fold characters position v
      pub consuming_reached : (v : ℕ) → Has v s.consuming → Run pattern fold characters position v
      pub accepted_reached :
          s.accepted ≡ true → (v : ℕ) × Run pattern fold characters position v × StateAt v match
      pub seeded : (v : ℕ) → Seed v → Known s v
      pub closed :
          (u v : ℕ) (state : NfaState)
          → Marked s u
          → StateAt u state
          → Steps pattern fold characters position state v
          → Known s v
      pub queued :
          (u : ℕ) (state : NfaState)
          → Marked s u
          → StateAt u state
          → IsCharacter state
          → Has u s.consuming
      pub matched : (u : ℕ) → Marked s u → StateAt u match → s.accepted ≡ true

    abbrev work : Scan → ℕ
    work s = length s.stack + 2 * unmarked generation s.marks

    module _ (c : IsClosed pattern) (index : ℕ) (rest : List ℕ) where
      -- The popped state was marked before.
      skip-Inv :
          (s : Scan)
          → s.stack ≡ index ∷ rest
          → Inv s
          → Marked s index
          → Inv (record s { stack = rest })
      skip-Inv s e h m =
          let popped = λ (v : ℕ) (k : Has v rest). subst (Has v) (sym e) (inr k) in
          record {
            sized = h.sized;
            recent = h.recent;
            stack_below = λ v k. h.stack_below v (popped v k);
            stack_reached = λ v k. h.stack_reached v (popped v k);
            marked_reached = h.marked_reached;
            consuming_reached = h.consuming_reached;
            accepted_reached = h.accepted_reached;
            seeded = λ v k. keep v (h.seeded v k);
            closed = λ u v state mu st k. keep v (h.closed u v state mu st k);
            queued = h.queued;
            matched = h.matched;
          }
        where
          keep : (v : ℕ) → Known s v → Marked s v ⊎ Has v rest
          keep v (inl k) = inl k
          keep v (inr k) = ground (arith, subst (Has v) e k)

      -- The popped state is marked now, and what it leads to is pushed.
      module _ (s t : Scan) (state : NfaState) (e : s.stack ≡ index ∷ rest) (h : Inv s)
          (st : StateAt index state)
          (x : Expands pattern fold characters position index state
            (record s { stack = rest; marks = set s.marks index generation })
            t) where
        marks_iff :
            (v m : ℕ)
            → (get_elem? t.marks v ≡ some m)
              ↔ (((v ≡ index) × (m ≡ generation)) ⊎ ((v ≢ index) × (get_elem? s.marks v ≡ some m)))
        marks_iff v m = rw x.marks (
            get_elem?-set_iff s.marks index v generation m
              (rw h.sized (lt-length_of_get_elem? pattern.states index st)))

        Marked-iff : (v : ℕ) → Marked t v ↔ ((v ≡ index) ⊎ Marked s v)
        Marked-iff v = ground (arith, marks_iff v generation)

        here : Run pattern fold characters position index
        here = h.stack_reached index (subst (Has index) (sym e) (inl refl))

        popped : (v : ℕ) → Has v s.stack ↔ ((v ≡ index) ⊎ Has v rest)
        popped v = rw e ((λ k. k), (λ k. k))

        pushed :
            (v : ℕ) → Has v t.stack ↔ (Has v rest ⊎ Steps pattern fold characters position state v)
        pushed v = x.stack v

        known : (v : ℕ) → Known s v → Known t v
        known v k = ground (arith, Marked-iff v, popped v, pushed v)

        mark-stack_below : (v : ℕ) → Has v t.stack → v < length pattern.states
        mark-stack_below v k = elim ((pushed v).0 k) [
          | inl old ↦ h.stack_below v ((popped v).1 (inr old))
          | inr step ↦ c.targets_below index v state st (Steps-Targets position state v step)
        ]

        mark-stack_reached : (v : ℕ) → Has v t.stack → Run pattern fold characters position v
        mark-stack_reached v k = elim ((pushed v).0 k) [
          | inl old ↦ h.stack_reached v ((popped v).1 (inr old))
          | inr step ↦ jump here st step
        ]

        mark-Marked_reached : (v : ℕ) → Marked t v → Run pattern fold characters position v
        mark-Marked_reached v k = elim ((Marked-iff v).0 k) [
          | inl same ↦ rw same here
          | inr old ↦ h.marked_reached v old
        ]

        mark-consuming_reached :
            (v : ℕ) → Has v t.consuming → Run pattern fold characters position v
        mark-consuming_reached v k = elim ((x.consuming v).0 k) [
          | inl old ↦ h.consuming_reached v old
          | inr (same, _) ↦ rw same here
        ]

        mark-accepted_reached :
            t.accepted ≡ true → (v : ℕ) × Run pattern fold characters position v × StateAt v match
        mark-accepted_reached k = elim (x.accepted.0 k) [
          | inl old ↦ h.accepted_reached old
          | inr final ↦ (index, here, rw (← final) st)
        ]

        mark-closed :
            (u v : ℕ) (other : NfaState)
            → Marked t u
            → StateAt u other
            → Steps pattern fold characters position other v
            → Known t v
        mark-closed u v other mu su step = elim ((Marked-iff u).0 mu) [
          | inl same ↦
              let one : other ≡ state = ground (arith, same, su, st) in
              inr (
                (pushed v).1
                  (inr (subst (λ o. Steps pattern fold characters position o v) one step)))
          | inr old ↦ known v (h.closed u v other old su step)
        ]

        mark-queued :
            (u : ℕ) (other : NfaState)
            → Marked t u
            → StateAt u other
            → IsCharacter other
            → Has u t.consuming
        mark-queued u other mu su ch = elim ((Marked-iff u).0 mu) [
          | inl same ↦
              let one : other ≡ state = ground (arith, same, su, st) in
              (x.consuming u).1 (inr (same, subst IsCharacter one ch))
          | inr old ↦ (x.consuming u).1 (inl (h.queued u other old su ch))
        ]

        mark-matched : (u : ℕ) → Marked t u → StateAt u match → t.accepted ≡ true
        mark-matched u mu su = elim ((Marked-iff u).0 mu) [
          | inl same ↦ x.accepted.1 (inr (ground (arith, same, su, st)))
          | inr old ↦ x.accepted.1 (inl (h.matched u old su))
        ]

        mark-Inv : Inv t
        mark-Inv = record {
          sized = rw x.marks (length-set s.marks index generation ∙ h.sized);
          recent = λ v m k. ground (arith, marks_iff v m, h.recent v m);
          stack_below = mark-stack_below;
          stack_reached = mark-stack_reached;
          marked_reached = mark-Marked_reached;
          consuming_reached = mark-consuming_reached;
          accepted_reached = mark-accepted_reached;
          seeded = λ v k. known v (h.seeded v k);
          closed = mark-closed;
          queued = mark-queued;
          matched = mark-matched;
        }

    module _ (c : IsClosed pattern) where
      abbrev Better : Scan → Scan → Type 0
      Better s t = Inv t × (work t < work s)

      visit-Better :
          (index : ℕ) (rest : List ℕ) (s : Scan)
          → s.stack ≡ index ∷ rest
          → Inv s
          → Returns
              (Better s)
              (visit pattern fold characters generation position index (record s { stack = rest }))
      unfolding visit
      visit-Better index rest s e h =
          let below = h.stack_below index (subst (Has index) (sym e) (inl refl)) in
          let (mark, em) = get_elem?_of_lt s.marks index (rw h.sized below) in
          let (state, es) = get_elem?_of_lt pattern.states index below in
          rw (em, visit)
            (elim (Bool-cases (mark == generation)) [
              | inl same ↦ rw same (
                skip-Inv c index rest s e h (ground (arith, em, same)),
                omega (arith, ap length e),
              )
              | inr other ↦
                  let x =
                    expand-Expands pattern fold characters position index state
                      (record s { stack = rest; marks = set s.marks index generation }) in
                  let fewer =
                    unmarked-set generation s.marks index mark em
                      (λ same. cc ((==_iff mark generation).1 same)) in
                  rw (other, es)
                    (
                      mark-Inv c index rest s _ state e h es x,
                      omega (arith, ap length e, x.size, ap (unmarked generation) x.marks, fewer),
                    )
            ])

      -- The loop ends with an empty stack, and keeps what holds.
      pub closure-Inv :
          (fuel : ℕ) (s : Scan)
          → work s ≤ fuel
          → Inv s
          → Returns
              (λ t. Inv t × (t.stack ≡ []))
              (closure pattern fold characters fuel generation position s)
      unfolding closure
      closure-Inv zero s w h = elim (List-cases s.stack) [
        | inl done ↦ rw (done, closure) (h, done)
        | inr (index, rest, e) ↦ absurd (omega (arith, ap length e, w))
      ]
      closure-Inv (suc fuel) s w h = elim (List-cases s.stack) [
        | inl done ↦ rw (done, closure) (h, done)
        | inr (index, rest, e) ↦
            rw (e, closure)
              (Returns-bind (Better s) _
                (visit pattern fold characters generation position index
                  (record s { stack = rest }))
                _ (visit-Better index rest s e h)
                λ t (h', w'). closure-Inv fuel t (omega (arith, w, w')) h')
      ]
