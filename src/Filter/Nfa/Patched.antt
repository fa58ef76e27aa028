-- ===== src/Filter/Nfa/Patched.antt =====
-- `patch` (src/worker/subscriptions/filter.ts) does not throw on the fields that a fragment leaves
-- open, and keeps the array good.
use larafeed.Prelude.{
  ℕ, ◌+◌, ◌<◌, ◌≡◌, ◌≢◌, ◌⊎◌, inl, inr, refl, sym, subst, some, List, [], ◌∷◌, length, length-set,
  get_elem?, set, get_elem?-set_self, get_elem?-set_ne, arith, ◌==◌, ==_iff, Bool-cases, ◌∙◌,
}
use larafeed.Filter.Nfa.{NfaState, States, Field, out, out1, Patch, set_field, patch_one, patch}
use larafeed.Filter.Nfa.Grown.{
  kind, CanPatch, AllCanPatch, AllCanPatch-Keeps, IsGood, Keeps, Grown, Targets-set_field,
  set_field-kind,
}
use larafeed.Filter.Simulation.Paths.{Targets}
use larafeed.Filter.Simulation.Expand.{lt-length_of_get_elem?}

pub Grown-trans : (n k : ℕ) (a b c : States) → Grown n a b → Grown k b c → Grown (n + k) a c
Grown-trans n k a b c g h = record {
  size = omega (arith, g.size, h.size);
  good = h.good;
  keeps = λ i kd at. h.keeps i kd (g.keeps i kd at);
}

pub Grown-refl : (states : States) → IsGood states → Grown 0 states states
Grown-refl states g = record { size = omega arith; good = g; keeps = λ i k at. at }

-- the states after a write
get_elem?-set-cases :
    (states : States) (i u : ℕ) (state state' other : NfaState)
    → get_elem? states i ≡ some state
    → get_elem? (set states i state') u ≡ some other
    → ((u ≡ i) × (other ≡ state')) ⊎ ((u ≢ i) × (get_elem? states u ≡ some other))
get_elem?-set-cases states i u state state' other e h = elim (Bool-cases (u == i)) [
  | inl same ↦
      let eq = (==_iff u i).0 same in
      let written = get_elem?-set_self states i state' (lt-length_of_get_elem? states i e) in
      inl (eq, cc)
  | inr ne ↦
      let distinct : i ≢ u = λ q. ground (arith, q, ne) in
      inr ((λ q. distinct (sym q)), sym (get_elem?-set_ne states state' distinct) ∙ h)
]

module _ (states : States) (i target : ℕ) (field : Field) (state state' : NfaState)
    (at : get_elem? states i ≡ some state) (written : set_field field state target ≡ some state')
    (same : kind state' ≡ kind state) (good : IsGood states) (below : target < length states) where
  written-Keeps : Keeps states (set states i state')
  written-Keeps u k (other, e, is) = elim (Bool-cases (u == i)) [
    | inl here ↦
        let eq : u ≡ i = (==_iff u i).0 here in
        let now = get_elem?-set_self states i state' (lt-length_of_get_elem? states i at) in
        (state', rw eq now, cc)
    | inr ne ↦
        let distinct : i ≢ u = λ q. ground (arith, q, ne) in
        (other, get_elem?-set_ne states state' distinct ∙ e, is)
  ]

  written-Grown : Grown 0 states (set states i state')
  written-Grown = record {
    size = omega (arith, length-set states i state');
    good = record {
      in_range = λ u v other e t.
          rw (length-set states i state')
            (in_range u v other (get_elem?-set-cases states i u state state' other at e) t);
      few = rw (length-set states i state') good.few;
    };
    keeps = written-Keeps;
  }
    where
      in_range :
          (u v : ℕ) (other : NfaState)
          → ((u ≡ i) × (other ≡ state')) ⊎ ((u ≢ i) × (get_elem? states u ≡ some other))
          → Targets other v
          → v < length states
      in_range u v other (inl (_, eq)) t =
          elim (Targets-set_field field state state' target v written
            (subst (λ o. Targets o v) eq t)) [
              | inl q ↦ rw q below
              | inr old ↦ good.in_range i v state at old
            ]
      in_range u v other (inr (_, e)) t = good.in_range u v other e t

CanPatch-state :
    (states : States) (i : ℕ) (field : Field)
    → CanPatch states (i, field)
    → (state : NfaState) × (get_elem? states i ≡ some state)
CanPatch-state states i out (k, (state, e, _), _) = (state, e)
CanPatch-state states i out1 (state, e, _) = (state, e)

patch_one-Grown :
    (p : Patch) (target : ℕ) (states : States)
    → IsGood states
    → target < length states
    → CanPatch states p
    → (states' : States) × (patch_one p target states ≡ some states') × Grown 0 states states'
unfolding patch_one
patch_one-Grown (i, field) target states good below can =
    let (state, at) = CanPatch-state states i field can in
    let (state', written, same) = set_field-kind field state i target states at can in
    (
      set states i state',
      rw (at, patch_one) (rw (written, patch_one)),
      written-Grown states i target field state state' at written same good below,
    )

pub patch-Grown :
    (ps : List Patch) (target : ℕ) (states : States)
    → IsGood states
    → target < length states
    → AllCanPatch states ps
    → (states' : States) × (patch ps target states ≡ some (tt, states')) × Grown 0 states states'
unfolding patch
patch-Grown [] target states good below can = (states, refl, Grown-refl states good)
patch-Grown (p ∷ ps) target states good below (can, cans) =
    let (mid, e, g) = patch_one-Grown p target states good below can in
    let (last, e', g') =
      patch-Grown ps target mid g.good (omega (arith, g.size))
        (AllCanPatch-Keeps states mid ps g.keeps cans) in
    (last, rw (e, patch) e', Grown-trans 0 0 states mid last g g')
