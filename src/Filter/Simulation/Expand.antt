-- ===== src/Filter/Simulation/Expand.antt =====
-- One round of the inner loop of `matchesSafePattern`
-- (src/worker/subscriptions/filter.ts).
use larafeed.Prelude.{
  Bool-cases, inl, inr, ℕ, zero, suc, ◌+◌, ◌≤◌, ◌<◌, ◌≡◌, ◌≢◌, ◌↔◌, ◌⊎◌, inl, inr, refl, true,
  Option, none, some, List, [], ◌∷◌, length, get_elem?, set, arith, ◌==◌, if◌then◌else◌,
}
use larafeed.Filter.Ast.{Text}
use larafeed.Filter.Nfa.{NfaState, character, assertion, epsilon, split, match, SafePattern}
use larafeed.Filter.Simulation.{Scan, push, expand, assertion_matches}
use larafeed.Filter.Simulation.Paths.{Has, Steps}

-- the states that a generation has not marked
abbrev pub unmarked : ℕ → List ℕ → ℕ
unmarked g [] = 0
unmarked g (m ∷ ms) = let rest = unmarked g ms in if m == g then rest else suc rest

pub unmarked-le : (g : ℕ) (marks : List ℕ) → unmarked g marks ≤ length marks
unmarked-le g [] = omega arith
unmarked-le g (m ∷ ms) = ground (arith, unmarked-le g ms)

pub unmarked-set :
    (g : ℕ) (marks : List ℕ) (i m : ℕ)
    → get_elem? marks i ≡ some m
    → m ≢ g
    → suc (unmarked g (set marks i g)) ≡ unmarked g marks
unmarked-set g [] i m e ne = cc
unmarked-set g (x ∷ xs) zero m e ne = ground arith
unmarked-set g (x ∷ xs) (suc i) m e ne = ground (arith, unmarked-set g xs i m e ne)

pub lt-length_of_get_elem? :
    {A : Type 0} (xs : List A) (i : ℕ) {x : A} → get_elem? xs i ≡ some x → i < length xs
lt-length_of_get_elem? [] i e = cc
lt-length_of_get_elem? (x ∷ xs) zero e = omega arith
lt-length_of_get_elem? (x ∷ xs) (suc i) e = omega (arith, lt-length_of_get_elem? xs i e)

pub get_elem?_of_lt :
    {A : Type 0} (xs : List A) (i : ℕ) → i < length xs → (x : A) × (get_elem? xs i ≡ some x)
get_elem?_of_lt [] i h = absurd (omega arith)
get_elem?_of_lt (x ∷ xs) zero h = (x, refl)
get_elem?_of_lt (x ∷ xs) (suc i) h = get_elem?_of_lt xs i (omega arith)

-- the marks after one more state is marked
pub get_elem?-set_iff :
    (xs : List ℕ) (i v g m : ℕ)
    → i < length xs
    → (get_elem? (set xs i g) v ≡ some m)
      ↔ (((v ≡ i) × (m ≡ g)) ⊎ ((v ≢ i) × (get_elem? xs v ≡ some m)))
get_elem?-set_iff [] i v g m h = absurd (omega arith)
get_elem?-set_iff (x ∷ xs) zero zero g m h = ground arith
get_elem?-set_iff (x ∷ xs) zero (suc v) g m h = ground arith
get_elem?-set_iff (x ∷ xs) (suc i) zero g m h = ground arith
get_elem?-set_iff (x ∷ xs) (suc i) (suc v) g m h = ground (arith, get_elem?-set_iff xs i v g m)

abbrev pub IsCharacter : NfaState → Type 0
IsCharacter (character m target) = Unit
IsCharacter (assertion kind target) = ⊥
IsCharacter (epsilon target) = ⊥
IsCharacter (split left right) = ⊥
IsCharacter match = ⊥

Has-push : (v : ℕ) (o : Option ℕ) (xs : List ℕ) → Has v (push o xs) ↔ ((o ≡ some v) ⊎ Has v xs)
Has-push v none xs = ground arith
Has-push v (some x) xs = ground arith

module _ (pattern : SafePattern) (fold : Text → Text) (characters : Text) (position index : ℕ) where
  -- what the body of the loop does, for each kind of state
  pub record Expands (state : NfaState) (s t : Scan) : Type 0 where
    pub marks : t.marks ≡ s.marks
    pub stack :
        (v : ℕ) → Has v t.stack ↔ (Has v s.stack ⊎ Steps pattern fold characters position state v)
    pub consuming :
        (v : ℕ) → Has v t.consuming ↔ (Has v s.consuming ⊎ ((v ≡ index) × IsCharacter state))
    pub accepted : (t.accepted ≡ true) ↔ ((s.accepted ≡ true) ⊎ (state ≡ match))
    pub size : length t.stack ≤ length s.stack + 2

  pub expand-Expands :
      (state : NfaState) (s : Scan)
      → Expands state s (expand pattern fold characters position index state s)
  unfolding expand
  expand-Expands (character m target) s = record {
    marks = refl;
    stack = λ v. ground arith;
    consuming = λ v. ground arith;
    accepted = ground arith;
    size = omega arith;
  }
  expand-Expands (assertion kind target) s =
      elim (Bool-cases (assertion_matches kind position characters)) [
        | inl holds ↦ rw holds (record {
          marks = refl;
          stack = λ v. ground (arith, Has-push v target s.stack);
          consuming = λ v. ground arith;
          accepted = ground arith;
          size = ground arith;
        })
        | inr fails ↦ rw fails (record {
          marks = refl;
          stack = λ v. ground arith;
          consuming = λ v. ground arith;
          accepted = ground arith;
          size = omega arith;
        })
      ]
  expand-Expands (epsilon target) s = record {
    marks = refl;
    stack = λ v. ground (arith, Has-push v target s.stack);
    consuming = λ v. ground arith;
    accepted = ground arith;
    size = ground arith;
  }
  expand-Expands (split left right) s = record {
    marks = refl;
    stack = λ v. ground (arith, Has-push v left s.stack, Has-push v right (push left s.stack));
    consuming = λ v. ground arith;
    accepted = ground arith;
    size = ground arith;
  }
  expand-Expands match s = record {
    marks = refl;
    stack = λ v. ground arith;
    consuming = λ v. ground arith;
    accepted = ground arith;
    size = omega arith;
  }
