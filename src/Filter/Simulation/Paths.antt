-- ===== src/Filter/Simulation/Paths.antt =====
-- What an automaton accepts, said without the search: the paths through its states
-- (src/worker/subscriptions/filter.ts).
use larafeed.Prelude.{ℕ, suc, ◌≤◌, ◌<◌, ◌≡◌, ◌⊎◌, true, some, List, [], ◌∷◌, length, get_elem?}
use larafeed.Filter.Ast.{Text, CharacterMatcher}
use larafeed.Filter.Nfa.{NfaState, character, assertion, epsilon, split, match, SafePattern}
use larafeed.Filter.Simulation.{matches_character, assertion_matches}

abbrev pub Has : ℕ → List ℕ → Type 0
Has v [] = ⊥
Has v (x ∷ xs) = (v ≡ x) ⊎ Has v xs

-- A state points to `v`.
abbrev pub Targets : NfaState → ℕ → Type 0
Targets (character m target) v = target ≡ some v
Targets (assertion kind target) v = target ≡ some v
Targets (epsilon target) v = target ≡ some v
Targets (split left right) v = (left ≡ some v) ⊎ (right ≡ some v)
Targets match v = ⊥

-- Every pointer of the automaton leads to one of its states.
pub record IsClosed (pattern : SafePattern) : Type 0 where
  pub start_below : pattern.start < length pattern.states
  pub targets_below :
      (u v : ℕ) (state : NfaState)
      → get_elem? pattern.states u ≡ some state
      → Targets state v
      → v < length pattern.states

module _ (pattern : SafePattern) (fold : Text → Text) (characters : Text) where
  -- A state leads to `v` at a position of the text without a character read.
  abbrev pub Steps : ℕ → NfaState → ℕ → Type 0
  Steps position (character m target) v = ⊥
  Steps position (assertion kind target) v =
      (assertion_matches kind position characters ≡ true) × (target ≡ some v)
  Steps position (epsilon target) v = target ≡ some v
  Steps position (split left right) v = (left ≡ some v) ⊎ (right ≡ some v)
  Steps position match v = ⊥

  -- A path that begins in the start state at any position, and ends at a position and a state.
  pub data Run : ℕ → ℕ → Type 0 where
    begin : {i : ℕ} → i ≤ length characters → Run i pattern.start
    jump :
        {i u v : ℕ} {state : NfaState}
        → Run i u
        → get_elem? pattern.states u ≡ some state
        → Steps i state v
        → Run i v
    read :
        {i u v c : ℕ} {m : CharacterMatcher}
        → Run i u
        → get_elem? pattern.states u ≡ some (character m (some v))
        → get_elem? characters i ≡ some c
        → matches_character m c (fold (c ∷ [])) ≡ true
        → Run (suc i) v

  -- Some path from a position on ends in the accepting state.
  abbrev pub AcceptsFrom : ℕ → Type 0
  AcceptsFrom i = (j : ℕ) × (u : ℕ) × (i ≤ j) × Run j u × (get_elem? pattern.states u ≡ some match)

  abbrev pub Accepts : Type 0
  Accepts = AcceptsFrom 0
