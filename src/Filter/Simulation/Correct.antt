-- ===== src/Filter/Simulation/Correct.antt =====
-- `matchesSafePattern` (src/worker/subscriptions/filter.ts) against the paths of the automaton.
use mathlib.Core.List.{reverse}
use larafeed.Prelude.{
  inl, inr, ℕ, zero, suc, ◌≤◌, ◌≡◌, ◌↔◌, refl, Bool, true, some, List, [], ◌∷◌, length, get_elem?,
  length-replicate, replicate, arith, Bool-cases, drop,
}
use larafeed.Result.{Returns-weaken, Returns-ok, ok, Returns, Returns-bind}
use larafeed.Filter.Ast.{Text}
use larafeed.Filter.Nfa.{SafePattern}
use larafeed.Filter.Simulation.{Scan, carry_over, scan, run_from, matches_safe_pattern}
use larafeed.Filter.Simulation.Paths.{Has, IsClosed, AcceptsFrom, Accepts}
use larafeed.Filter.Simulation.Expand.{lt-length_of_get_elem?}
use larafeed.Filter.Simulation.Rounds.{
  Done, Into, Run-le, scan-Done, accepts-here, accepts-later, carry_over-Into,
}

drop-cons :
    (i : ℕ) (xs : Text) (c : ℕ) (cs : Text)
    → drop i xs ≡ c ∷ cs
    → (get_elem? xs i ≡ some c) × (drop (suc i) xs ≡ cs)
drop-cons zero [] c cs e = cc
drop-cons zero (x ∷ xs) c cs e = (cc, cc)
drop-cons (suc i) [] c cs e = cc
drop-cons (suc i) (x ∷ xs) c cs e = drop-cons i xs c cs e

drop-nil : (i : ℕ) (xs : Text) → drop i xs ≡ [] → length xs ≤ i
drop-nil zero [] e = omega arith
drop-nil zero (x ∷ xs) e = cc
drop-nil (suc i) [] e = omega arith
drop-nil (suc i) (x ∷ xs) e = omega (arith, drop-nil i xs e)

get_elem?-replicate : (n v m : ℕ) → get_elem? (replicate n 0) v ≡ some m → m ≤ 0
get_elem?-replicate zero v m e = cc
get_elem?-replicate (suc n) zero m e = ground arith
get_elem?-replicate (suc n) (suc v) m e = get_elem?-replicate n v m e

module _ (pattern : SafePattern) (fold : Text → Text) (characters : Text)
    (closed : IsClosed pattern) where
  abbrev Decides : ℕ → Bool → Type 0
  Decides i b = (b ≡ true) ↔ AcceptsFrom pattern fold characters i

  -- Past the last position no path is left.
  last-Decides :
      (g i : ℕ) (s : Scan)
      → Done pattern fold characters g i s
      → length characters ≤ i
      → Decides i s.accepted
  last-Decides g i s d h = elim (Bool-cases s.accepted) [
    | inl yes' ↦ (accepts-here pattern fold characters closed g i s d, λ _. yes')
    | inr no' ↦ (
      accepts-here pattern fold characters closed g i s d,
      λ a.
          let (j, u, le, r, m) = accepts-later pattern fold characters closed g i s d no' a in
          absurd (omega (arith, Run-le pattern fold characters r, le, h)),
    )
  ]

  run_from-Decides :
      (rest : Text) (g i : ℕ) (marks carry : List ℕ)
      → length marks ≡ length pattern.states
      → ((v m : ℕ) → get_elem? marks v ≡ some m → m ≤ g)
      → ((v : ℕ) → Has v carry ↔ Into pattern fold characters i v)
      → i ≤ length characters
      → drop i characters ≡ rest
      → Returns (Decides i) (run_from pattern fold characters rest g i marks carry)
  unfolding run_from
  run_from-Decides [] g i marks carry sized old carried within e =
      Returns-bind _ _ (scan pattern fold characters (suc g) i marks carry) _
        (scan-Done pattern fold characters closed g i marks carry sized old carried within)
        λ s d. last-Decides (suc g) i s d (drop-nil i characters e)
  run_from-Decides (c ∷ cs) g i marks carry sized old carried within e =
      let (at_c, e') = drop-cons i characters c cs e in
      Returns-bind _ _ (scan pattern fold characters (suc g) i marks carry) _
        (scan-Done pattern fold characters closed g i marks carry sized old carried within)
        λ s d. elim (Bool-cases s.accepted) [
          | inl yes' ↦
              rw yes'
                (λ _. accepts-here pattern fold characters closed (suc g) i s d yes', λ _. refl)
          | inr no' ↦ rw no' (
              Returns-weaken (Decides (suc i)) (Decides i) _
                (λ b (to, from). (
                  λ h. let (j, u, le, r, m) = to h in (j, u, omega (arith, le), r, m),
                  λ a. from (accepts-later pattern fold characters closed (suc g) i s d no' a),
                ))
                (run_from-Decides cs (suc g) (suc i) s.marks
                  (carry_over pattern fold characters c (reverse s.consuming)) d.0.sized d.0.recent
                  (λ v. carry_over-Into pattern fold characters closed (suc g) i s d c v at_c)
                  (lt-length_of_get_elem? characters i at_c) e'))
        ]

-- On an automaton whose pointers stay inside, the simulation ends without an exception on every
-- text, and it answers true exactly if some path from the start state, begun at any position of the
-- text, ends in the accepting state.
pub matches_safe_pattern-Accepts :
    (pattern : SafePattern) (fold : Text → Text) (characters : Text)
    → IsClosed pattern
    → (b : Bool) × (matches_safe_pattern pattern fold characters ≡ ok b)
      × ((b ≡ true) ↔ Accepts pattern fold characters)
unfolding matches_safe_pattern
matches_safe_pattern-Accepts pattern fold characters closed = Returns-ok _ _ (
    run_from-Decides pattern fold characters closed characters 0 0
      (replicate (length pattern.states) 0) [] (length-replicate _ 0)
      (get_elem?-replicate (length pattern.states)) (λ v. ((λ h. absurd h), (λ h. absurd h)))
      (omega arith) refl)
