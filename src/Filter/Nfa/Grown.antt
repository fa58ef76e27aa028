-- ===== src/Filter/Nfa/Grown.antt =====
-- The array of `NfaBuilder` (src/worker/subscriptions/filter.ts) while it grows: its pointers stay
-- inside, and its states keep their kinds.
use larafeed.Prelude.{
  ℕ, zero, suc, ◌+◌, ◌≤◌, ◌<◌, ◌≡◌, ◌≢◌, ◌⊎◌, inl, inr, refl, sym, ap, subst, some, List, [], ◌∷◌,
  ◌++◌, length, length-append, get_elem?, arith,
}
use larafeed.Filter.Nfa.{
  NfaState, character, assertion, epsilon, split, match, States, Field, out, out1, Patch, set_field,
  max_nfa_states,
}
use larafeed.Filter.Simulation.Paths.{Targets}

pub data Kind : Type 0 where
  consuming passing branching final : Kind

abbrev pub kind : NfaState → Kind
kind (character m o) = consuming
kind (assertion a o) = passing
kind (epsilon o) = passing
kind (split a b) = branching
kind match = final

abbrev pub KindAt : States → ℕ → Kind → Type 0
KindAt states i k = (state : NfaState) × (get_elem? states i ≡ some state) × (kind state ≡ k)

abbrev pub InRange : ℕ → States → Type 0
InRange n states =
    (u v : ℕ) (state : NfaState) → get_elem? states u ≡ some state → Targets state v → v < n

-- What the builder's array always satisfies.
pub record IsGood (states : States) : Type 0 where
  pub in_range : InRange (length states) states
  pub few : length states ≤ max_nfa_states

abbrev pub Keeps : States → States → Type 0
Keeps states states' = (i : ℕ) (k : Kind) → KindAt states i k → KindAt states' i k

-- `n` states more, and none of another kind than before.
pub record Grown (n : ℕ) (states states' : States) : Type 0 where
  pub size : length states' ≡ length states + n
  pub good : IsGood states'
  pub keeps : Keeps states states'

-- The state that a patch names has the field that it names.
abbrev pub CanPatch : States → Patch → Type 0
CanPatch states (i, out) = (k : Kind) × KindAt states i k × (k ≢ final)
CanPatch states (i, out1) = KindAt states i branching

abbrev pub AllCanPatch : States → List Patch → Type 0
AllCanPatch states [] = Unit
AllCanPatch states (p ∷ ps) = CanPatch states p × AllCanPatch states ps

pub CanPatch-Keeps :
    (states states' : States) (p : Patch)
    → Keeps states states'
    → CanPatch states p
    → CanPatch states' p
CanPatch-Keeps states states' (i, out) keeps (k, at, ne) = (k, keeps i k at, ne)
CanPatch-Keeps states states' (i, out1) keeps at = keeps i branching at

pub AllCanPatch-Keeps :
    (states states' : States) (ps : List Patch)
    → Keeps states states'
    → AllCanPatch states ps
    → AllCanPatch states' ps
AllCanPatch-Keeps states states' [] keeps h = tt
AllCanPatch-Keeps states states' (p ∷ ps) keeps (h, hs) =
    (CanPatch-Keeps states states' p keeps h, AllCanPatch-Keeps states states' ps keeps hs)

pub AllCanPatch-append :
    (states : States) (ps qs : List Patch)
    → AllCanPatch states ps
    → AllCanPatch states qs
    → AllCanPatch states (ps ++ qs)
AllCanPatch-append states [] qs h k = k
AllCanPatch-append states (p ∷ ps) qs (h, hs) k = (h, AllCanPatch-append states ps qs hs k)

-- An array with a state behind it.
pub get_elem?-concat :
    {A : Type 0} (xs : List A) (x y : A) (i : ℕ)
    → get_elem? (xs ++ x ∷ []) i ≡ some y
    → (get_elem? xs i ≡ some y) ⊎ ((i ≡ length xs) × (x ≡ y))
get_elem?-concat [] x y zero e = inr (refl, cc)
get_elem?-concat [] x y (suc i) e = cc
get_elem?-concat (z ∷ xs) x y zero e = inl e
get_elem?-concat (z ∷ xs) x y (suc i) e = elim (get_elem?-concat xs x y i e) [
  | inl h ↦ inl h
  | inr (h, k) ↦ inr (ap suc h, k)
]

pub get_elem?-append_left :
    {A : Type 0} (xs ys : List A) (i : ℕ) {x : A}
    → get_elem? xs i ≡ some x
    → get_elem? (xs ++ ys) i ≡ some x
get_elem?-append_left [] ys i e = cc
get_elem?-append_left (z ∷ xs) ys zero e = e
get_elem?-append_left (z ∷ xs) ys (suc i) e = get_elem?-append_left xs ys i e

pub get_elem?-append_last :
    {A : Type 0} (xs : List A) (x : A) → get_elem? (xs ++ x ∷ []) (length xs) ≡ some x
get_elem?-append_last [] x = refl
get_elem?-append_last (z ∷ xs) x = get_elem?-append_last xs x

-- A new state whose pointers lead to old ones keeps the array good.
pub Grown-append :
    (states : States) (state : NfaState)
    → IsGood states
    → ((v : ℕ) → Targets state v → v < length states)
    → length states < max_nfa_states
    → Grown 1 states (states ++ state ∷ [])
Grown-append states state g targets few = record {
  size = length-append states (state ∷ []);
  good = record {
    in_range = λ u v other e t. in_range u v other (get_elem?-concat states state other u e) t;
    few = omega (arith, length-append states (state ∷ []));
  };
  keeps = λ i k (other, e, same). (other, get_elem?-append_left states (state ∷ []) i e, same);
}
  where
    in_range :
        (u v : ℕ) (other : NfaState)
        → (get_elem? states u ≡ some other) ⊎ ((u ≡ length states) × (state ≡ other))
        → Targets other v
        → v < length (states ++ state ∷ [])
    in_range u v other (inl e) t =
        omega (arith, g.in_range u v other e t, length-append states (state ∷ []))
    in_range u v other (inr (_, same)) t = omega (
      arith,
      targets v (subst (λ o. Targets o v) (sym same) t),
      length-append states (state ∷ []),
    )

pub Targets-set_field :
    (field : Field) (state state' : NfaState) (target v : ℕ)
    → set_field field state target ≡ some state'
    → Targets state' v
    → (v ≡ target) ⊎ Targets state v
unfolding set_field
Targets-set_field out1 (split a b) state' target v e t = ground arith
Targets-set_field out1 (character m a) state' target v e t = cc
Targets-set_field out1 (assertion k a) state' target v e t = cc
Targets-set_field out1 (epsilon a) state' target v e t = cc
Targets-set_field out1 match state' target v e t = cc
Targets-set_field out (character m a) state' target v e t = ground arith
Targets-set_field out (assertion k a) state' target v e t = ground arith
Targets-set_field out (epsilon a) state' target v e t = ground arith
Targets-set_field out (split a b) state' target v e t = ground arith
Targets-set_field out match state' target v e t = cc

-- A patch of a state that has the field keeps the state's kind.
pub set_field-kind :
    (field : Field) (state : NfaState) (i target : ℕ) (states : States)
    → get_elem? states i ≡ some state
    → CanPatch states (i, field)
    → (state' : NfaState) × (set_field field state target ≡ some state')
      × (kind state' ≡ kind state)
unfolding set_field
set_field-kind out (character m a) i target states e h = (_, refl, refl)
set_field-kind out (assertion k a) i target states e h = (_, refl, refl)
set_field-kind out (epsilon a) i target states e h = (_, refl, refl)
set_field-kind out (split a b) i target states e h = (_, refl, refl)
set_field-kind out match i target states e (k, (state, e', same), ne) = absurd (ne (cc))
set_field-kind out1 (split a b) i target states e h = (_, refl, refl)
set_field-kind out1 (character m a) i target states e (state, e', same) = cc
set_field-kind out1 (assertion k a) i target states e (state, e', same) = cc
set_field-kind out1 (epsilon a) i target states e (state, e', same) = cc
set_field-kind out1 match i target states e (state, e', same) = cc
