-- ===== src/Filter/Simulation/Rounds.antt =====
-- One position of `matchesSafePattern` (src/worker/subscriptions/filter.ts): what the inner loop
-- finds there, and what it hands to the next position.
use mathlib.Core.List.{reverse, reverse_aux}
use mathlib.Core.Bool.{false≢true}
use larafeed.Prelude.{
  ◌∙◌, ==_iff, ◌==◌, ℕ, zero, suc, ◌+◌, ◌*◌, ◌≤◌, ◌<◌, ◌≡◌, ◌≢◌, ◌↔◌, ◌⊎◌, inl, inr, refl, true,
  false, Option, some, none, List, [], ◌∷◌, length, get_elem?, arith, Bool-cases, subst, sym,
}
use larafeed.Result.{Returns}
use larafeed.Filter.Ast.{Text, CharacterMatcher}
use larafeed.Filter.Nfa.{NfaState, character, assertion, epsilon, split, match, SafePattern}
use larafeed.Filter.Simulation.{Scan, add_target, carry_over, scan, matches_character}
use larafeed.Filter.Simulation.Paths.{Has, Run, begin, jump, read, IsClosed, AcceptsFrom}
use larafeed.Filter.Simulation.Expand.{unmarked-le, lt-length_of_get_elem?}
use larafeed.Filter.Simulation.Closure.{Inv, closure-Inv}

Has-reverse_aux : (v : ℕ) (xs ys : List ℕ) → Has v (reverse_aux xs ys) ↔ (Has v xs ⊎ Has v ys)
Has-reverse_aux v [] ys = ground arith
Has-reverse_aux v (x ∷ xs) ys = ground (arith, Has-reverse_aux v xs (x ∷ ys))

Has-reverse : (v : ℕ) (xs : List ℕ) → Has v (reverse xs) ↔ Has v xs
Has-reverse v xs = ground (arith, Has-reverse_aux v xs [])

settled : (v : ℕ) {P : Type 0} {xs : List ℕ} → xs ≡ [] → P ⊎ Has v xs → P
settled v e (inl p) = p
settled v e (inr h) = absurd (subst (Has v) e h)

module _ (pattern : SafePattern) (fold : Text → Text) (characters : Text) where
  -- A state that the character before the position leads to.
  abbrev pub Reads : ℕ → ℕ → ℕ → Type 0
  Reads c u v =
      (m : CharacterMatcher) × (get_elem? pattern.states u ≡ some (character m (some v)))
      × (matches_character m c (fold (c ∷ [])) ≡ true)

  abbrev pub Into : ℕ → ℕ → Type 0
  Into zero v = ⊥
  Into (suc i) v =
      (u : ℕ) × (c : ℕ) × Run pattern fold characters i u
      × (get_elem? characters i ≡ some c)
      × Reads c u v

  abbrev pub Seed : ℕ → ℕ → Type 0
  Seed i v = (v ≡ pattern.start) ⊎ Into i v

  Has-add_target :
      (c v : ℕ) (o : Option NfaState) (later : List ℕ)
      → Has v (add_target pattern fold characters c o later) ↔ (
          ((m : CharacterMatcher) × (o ≡ some (character m (some v)))
            × (matches_character m c (fold (c ∷ [])) ≡ true))
          ⊎ Has v later)
  unfolding add_target
  Has-add_target c v (some (character m (some target))) later =
      elim (Bool-cases (matches_character m c (fold (c ∷ [])))) [
        | inl holds ↦ rw holds (
          λ h. elim h [ inl same ↦ inl (m, cc, holds) | inr k ↦ inr k ],
          λ d. elim d [ inl (k, e, t) ↦ inl (cc) | inr h ↦ inr h ],
        )
        | inr fails ↦ rw fails (inr, λ d. elim d [ inl (k, e, t) ↦ cc | inr h ↦ h ])
      ]
  Has-add_target c v (some (character m none)) later =
      (inr, λ d. elim d [ inl (k, e, _) ↦ cc | inr h ↦ h ])
  Has-add_target c v (some (assertion k o)) later =
      (inr, λ d. elim d [ inl (k, e, _) ↦ cc | inr h ↦ h ])
  Has-add_target c v (some (epsilon o)) later =
      (inr, λ d. elim d [ inl (k, e, _) ↦ cc | inr h ↦ h ])
  Has-add_target c v (some (split a b)) later =
      (inr, λ d. elim d [ inl (k, e, _) ↦ cc | inr h ↦ h ])
  Has-add_target c v (some match) later = (inr, λ d. elim d [ inl (k, e, _) ↦ cc | inr h ↦ h ])
  Has-add_target c v none later = (inr, λ d. elim d [ inl (k, e, _) ↦ cc | inr h ↦ h ])

  Has-carry_over :
      (c v : ℕ) (indices : List ℕ)
      → Has v (carry_over pattern fold characters c indices)
        ↔ ((u : ℕ) × Has u indices × Reads c u v)
  unfolding carry_over
  Has-carry_over c v [] = (λ h. absurd h, λ (u, h, _). absurd h)
  Has-carry_over c v (x ∷ xs) =
      let (to, from) =
        Has-add_target c v (get_elem? pattern.states x) (carry_over pattern fold characters c xs) in
      let (to', from') = Has-carry_over c v xs in
      (
        λ h. elim (to h) [
          | inl reads ↦ (x, inl refl, reads)
          | inr later ↦ let (u, k, reads) = to' later in (u, inr k, reads)
        ],
        λ (u, k, reads). elim k [
          | inl same ↦ from (inl (subst (λ w. Reads c w v) same reads))
          | inr k' ↦ from (inr (from' (u, k', reads)))
        ],
      )

  abbrev pub Done : ℕ → ℕ → Scan → Type 0
  Done g i s = Inv pattern fold characters g i (Seed i) s × (s.stack ≡ [])

  -- A finished loop has marked every state that a path reaches at its position.
  marked-of-Run :
      {i v : ℕ} (g : ℕ) (s : Scan)
      → Run pattern fold characters i v
      → Done g i s
      → get_elem? s.marks v ≡ some g
  marked-of-Run g s (begin _) (h, e) = settled _ e (h.seeded _ (inl refl))
  marked-of-Run g s (jump r st step) (h, e) =
      settled _ e (h.closed _ _ _ (marked-of-Run g s r (h, e)) st step)
  marked-of-Run g s (read {i} {u} {v} {c} {m} r st at_c m_c) (h, e) =
      settled _ e (h.seeded v (inr (u, c, r, at_c, (m, st, m_c))))

  pub Run-le : {i v : ℕ} → Run pattern fold characters i v → i ≤ length characters
  Run-le (begin h) = h
  Run-le (jump r st step) = Run-le r
  Run-le (read {i} r st at_c m_c) = lt-length_of_get_elem? characters i at_c

  module _ (closed : IsClosed pattern) where
    Into-below : (i v : ℕ) → Into i v → v < length pattern.states
    Into-below zero v h = absurd h
    Into-below (suc i) v (u, c, r, at_c, (m, st, m_c)) =
        closed.targets_below u v (character m (some v)) st refl

    Into-Run : (i v : ℕ) → Into i v → Run pattern fold characters i v
    Into-Run zero v h = absurd h
    Into-Run (suc i) v (u, c, r, at_c, (m, st, m_c)) = read r st at_c m_c

    module _ (g i : ℕ) (marks carry : List ℕ) (sized : length marks ≡ length pattern.states)
        (old : (v m : ℕ) → get_elem? marks v ≡ some m → m ≤ g)
        (carried : (v : ℕ) → Has v carry ↔ Into i v) (within : i ≤ length characters) where
      abbrev first : Scan
      first = record {
        marks = marks;
        stack = reverse (pattern.start ∷ carry);
        consuming = [];
        accepted = false;
      }

      first-stack : (v : ℕ) → Has v first.stack ↔ Seed i v
      first-stack v = ground (arith, Has-reverse v (pattern.start ∷ carry), carried v)

      Seed-below : (v : ℕ) → Seed i v → v < length pattern.states
      Seed-below v (inl same) = rw same closed.start_below
      Seed-below v (inr into) = Into-below i v into

      Seed-Run : (v : ℕ) → Seed i v → Run pattern fold characters i v
      Seed-Run v (inl same) = rw same (begin within)
      Seed-Run v (inr into) = Into-Run i v into

      fresh : (v : ℕ) → get_elem? marks v ≢ some (suc g)
      fresh v e = absurd (omega (arith, old v (suc g) e))

      first-Inv : Inv pattern fold characters (suc g) i (Seed i) first
      first-Inv = record {
        sized = sized;
        recent = λ v m e. omega (arith, old v m e);
        stack_below = λ v k. Seed-below v ((first-stack v).0 k);
        stack_reached = λ v k. Seed-Run v ((first-stack v).0 k);
        marked_reached = λ v k. absurd (fresh v k);
        consuming_reached = λ v k. absurd k;
        accepted_reached = λ e. absurd (false≢true e);
        seeded = λ v k. inr ((first-stack v).1 k);
        closed = λ u v state k _ _. absurd (fresh u k);
        queued = λ u state k _ _. absurd (fresh u k);
        matched = λ u k _. absurd (fresh u k);
      }

      pub scan-Done : Returns (Done (suc g) i) (scan pattern fold characters (suc g) i marks carry)
      unfolding scan
      scan-Done =
          closure-Inv pattern fold characters (suc g) i (Seed i) closed
            (length first.stack + 2 * length pattern.states) first
            (omega (arith, unmarked-le (suc g) marks, sized)) first-Inv

    module _ (g i : ℕ) (s : Scan) (d : Done g i s) where
      pub accepts-here : s.accepted ≡ true → AcceptsFrom pattern fold characters i
      accepts-here e = let (v, r, m) = d.0.accepted_reached e in (i, v, omega arith, r, m)

      pub accepts-later :
          s.accepted ≡ false
          → AcceptsFrom pattern fold characters i
          → AcceptsFrom pattern fold characters (suc i)
      accepts-later e (j, u, le, r, m) = elim (Bool-cases (j == i)) [
        | inl same ↦
            let marked =
              marked-of-Run g s
                (subst (λ k. Run pattern fold characters k u) ((==_iff j i).0 same) r) d in
            absurd (false≢true (sym e ∙ d.0.matched u marked m))
        | inr other ↦ (j, u, ground (arith, le, other), r, m)
      ]

      pub carry_over-Into :
          (c v : ℕ)
          → get_elem? characters i ≡ some c
          → Has v (carry_over pattern fold characters c (reverse s.consuming)) ↔ Into (suc i) v
      carry_over-Into c v at_c =
          let (to, from) = Has-carry_over c v (reverse s.consuming) in
          (
            λ h.
                let (u, k, reads) = to h in
                (u, c, d.0.consuming_reached u ((Has-reverse u s.consuming).0 k), at_c, reads),
            λ (u, c', r, at_c', (m, st, m_c)).
                let one : c' ≡ c = cc in
                from (
                  u,
                  (Has-reverse u s.consuming).1
                      (d.0.queued u (character m (some v)) (marked-of-Run g s r d) st tt),
                  (m, st, rw (← one) m_c),
                ),
          )
