-- ===== src/Filter/Nfa/Build.antt =====
-- `NfaBuilder.compile` (src/worker/subscriptions/filter.ts) as a whole: when it throws, and what it
-- returns.
use larafeed.Prelude.{
  ℕ, ◌+◌, ◌<◌, ◌≢◌, inl, inr, refl, Option, none, some, List, length, ltb, arith, Bool-cases,
  ltb→lt,
}
use larafeed.Filter.Nfa.{
  NfaState, States, Patch, Fragment, Builder, ◌>>=◌, add, patch, leaf, concatenate, max_nfa_states,
}
use larafeed.Filter.Nfa.Grown.{
  final, kind, KindAt, AllCanPatch, AllCanPatch-Keeps, IsGood, Grown, Grown-append,
  get_elem?-append_last,
}
use larafeed.Filter.Nfa.Patched.{Grown-trans, Grown-refl, patch-Grown}
use larafeed.Filter.Simulation.Paths.{Targets}

-- Either the array has no room for `n` states more, and the builder throws, or it returns a value
-- with the property `P` and an array with `n` states more.
abbrev pub Built {ℓ} :
    {A : Type ℓ} → (A → States → Type 0) → ℕ → States → Option (A × States) → Type 0
Built P n states none = max_nfa_states < length states + n
Built P n states (some (a, states')) = Grown n states states' × P a states'

module _ {ℓ κ} {A : Type ℓ} {B : Type κ} (P : A → States → Type 0) (Q : B → States → Type 0) where
  pub Built-bind :
      (n k : ℕ) (states : States) (m : Builder A) (f : A → Builder B)
      → Built P n states (m states)
      → ((a : A) (states' : States)
          → Grown n states states'
          → P a states'
          → Built Q k states' (f a states'))
      → Built Q (n + k) states ((m >>= f) states)
  Built-bind n k states m f h next = go (m states) h
    where
      after :
          (states' : States)
          → Grown n states states'
          → (r : Option (B × States)) → Built Q k states' r
          → Built Q (n + k) states r
      after states' g none b = omega (arith, g.size)
      after states' g (some (b, last)) (g', q) = (Grown-trans n k states states' last g g', q)

      go :
          (r : Option (A × States))
          → Built P n states r
          → Built Q (n + k) states (elim r [ none ↦ none | some (a, states') ↦ f a states' ])
      go none b = omega arith
      go (some (a, states')) (g, p) = after states' g (f a states') (next a states' g p)

-- What is open in a fragment can be patched.
abbrev pub IsOpen : Fragment → States → Type 0
IsOpen f states = (f.start < length states) × AllCanPatch states f.outs

abbrev pub IsNew : NfaState → ℕ → States → Type 0
IsNew state i states = (i < length states) × KindAt states i (kind state)

pub IsOpen-Grown : (n : ℕ) (f : Fragment) (a b : States) → Grown n a b → IsOpen f a → IsOpen f b
IsOpen-Grown n f a b g (lt, can) = (omega (arith, g.size), AllCanPatch-Keeps a b f.outs g.keeps can)

pub add-Built :
    (state : NfaState) (states : States)
    → IsGood states
    → ((v : ℕ) → Targets state v → v < length states)
    → Built (IsNew state) 1 states (add state states)
unfolding add
add-Built state states good targets = elim (Bool-cases (ltb (length states) max_nfa_states)) [
  | inl room ↦
      let g = Grown-append states state good targets (ltb→lt _ _ room) in
      rw room (g, (omega (arith, g.size), (state, get_elem?-append_last states state, refl)))
  | inr full ↦ rw full (ground arith)
]

pub patch-Built :
    (ps : List Patch) (target : ℕ) (states : States)
    → IsGood states
    → target < length states
    → AllCanPatch states ps
    → Built (λ _ _. Unit {0}) 0 states (patch ps target states)
patch-Built ps target states good below can =
    let (states', e, g) = patch-Grown ps target states good below can in rw e (g, tt)

pub leaf-Built :
    (state : NfaState) (states : States)
    → IsGood states
    → ((v : ℕ) → Targets state v → v < length states)
    → kind state ≢ final
    → Built IsOpen 1 states (leaf state states)
unfolding leaf
leaf-Built state states good targets ne =
    Built-bind (IsNew state) IsOpen 1 0 states (add state) _ (add-Built state states good targets)
      λ i states' g (lt, at). (Grown-refl states' g.good, (lt, ((kind state, at, ne), tt)))

pub concatenate-Built :
    (left right : Fragment) (states : States)
    → IsGood states
    → IsOpen left states
    → IsOpen right states
    → Built IsOpen 0 states (concatenate left right states)
unfolding concatenate
concatenate-Built left right states good l r =
    Built-bind (λ _ _. Unit {0}) IsOpen 0 0 states (patch left.outs right.start) _
      (patch-Built left.outs right.start states good r.0 l.1)
      λ _ states' g _. (
        Grown-refl states' g.good,
        (omega (arith, g.size, l.0), (IsOpen-Grown 0 right states states' g r).1),
      )
