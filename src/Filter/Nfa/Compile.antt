-- ===== src/Filter/Nfa/Compile.antt =====
-- `NfaBuilder.compile` (src/worker/subscriptions/filter.ts): when it throws, and that its automata
-- are closed.
use larafeed.Prelude.{
  ℕ, zero, suc, ◌+◌, ◌*◌, ◌<◌, ◌≡◌, Option, none, some, [], ◌∷◌, length, arith, subst,
}
use larafeed.Filter.Nfa.{
  split, States, out1, Fragment, Builder, ◌>>=◌, add, patch, single, concatenate, alternate,
  required, unbounded, optional, optionals,
}
use larafeed.Filter.Nfa.Grown.{branching, AllCanPatch-Keeps, AllCanPatch-append, IsGood, Grown}
use larafeed.Filter.Nfa.Patched.{Grown-refl}
use larafeed.Filter.Nfa.Build.{
  Built, Built-bind, IsOpen, IsNew, IsOpen-Grown, add-Built, patch-Built, concatenate-Built,
}

pub Built-size {ℓ} :
    {A : Type ℓ} (P : A → States → Type 0) (n k : ℕ) (states : States) (r : Option (A × States))
    → n ≡ k
    → Built P n states r
    → Built P k states r
Built-size P n k states r e h = subst (λ j. Built P j states r) e h

abbrev pub Builds : ℕ → Builder Fragment → Type 0
Builds n copy = (states : States) → IsGood states → Built IsOpen n states (copy states)

abbrev pub Extends : ℕ → (Fragment → Builder Fragment) → Type 0
Extends n more =
    (result : Fragment) (states : States)
    → IsGood states
    → IsOpen result states
    → Built IsOpen n states (more result states)

pub Builds-Extends :
    (n k : ℕ) (copy : Builder Fragment) (more : Fragment → Builder Fragment)
    → Builds n copy
    → Extends k more
    → Builds (n + k) (copy >>= more)
Builds-Extends n k copy more b x states good =
    Built-bind IsOpen IsOpen n k states copy more (b states good)
      λ f states' g o. x f states' g.good o

pub alternate-Built :
    (result right : Fragment) (states : States)
    → IsGood states
    → IsOpen result states
    → IsOpen right states
    → Built IsOpen 1 states (alternate result right states)
unfolding alternate
alternate-Built result right states good l r =
    let state = split (some result.start) (some right.start) in
    Built-bind (IsNew state) IsOpen 1 0 states (add state) _
      (add-Built state states good λ v t. ground (arith, l.0, r.0))
      λ i states' g (lt, at). (
        Grown-refl states' g.good,
        (
          lt,
          AllCanPatch-append states' result.outs right.outs
              (AllCanPatch-Keeps states states' result.outs g.keeps l.1)
              (AllCanPatch-Keeps states states' right.outs g.keeps r.1),
        ),
      )

-- A copy, and then what joins it to the result.
pub join-Extends :
    (n k : ℕ) (copy : Builder Fragment) (more : Fragment → Fragment → Builder Fragment)
    → Builds n copy
    → ((result next : Fragment) (states : States)
        → IsGood states
        → IsOpen result states
        → IsOpen next states
        → Built IsOpen k states (more result next states))
    → Extends (n + k) (λ result. copy >>= more result)
join-Extends n k copy more b x result states good o =
    Built-bind IsOpen IsOpen n k states copy (more result) (b states good) λ next states' g o'.
      x result next states' g.good (IsOpen-Grown n result states states' g o) o'

pub required-Extends :
    (m n : ℕ) (copy : Builder Fragment) → Builds n copy → Extends (m * n) (required m copy)
unfolding required
required-Extends zero n copy b result states good o = (Grown-refl' states good, o)
  where
    Grown-refl' : (states : States) → IsGood states → Grown (0 * n) states states
    Grown-refl' states good =
        subst (λ k. Grown k states states) (omega arith) (Grown-refl states good)
required-Extends (suc m) n copy b result states good o =
    Built-size IsOpen (n + (0 + m * n)) (suc m * n) states _ (omega arith) (
      join-Extends n (0 + m * n) copy (λ result next. concatenate result next >>= required m copy) b
        (λ result next states good o o'.
          Built-bind IsOpen IsOpen 0 (m * n) states (concatenate result next) (required m copy)
            (concatenate-Built result next states good o o')
            λ f states' g o''. required-Extends m n copy b f states' g.good o'')
        result states good o)

-- a split whose second pointer is open
split-Built :
    (first : ℕ) (states : States)
    → IsGood states
    → first < length states
    → Built (IsNew (split (some first) none)) 1 states (add (split (some first) none) states)
split-Built first states good lt =
    add-Built (split (some first) none) states good λ v t. ground (arith, lt)

optional-Extends :
    (n : ℕ) (copy : Builder Fragment) → Builds n copy → Extends (n + 1) (optional copy)
unfolding optional
optional-Extends n copy b = join-Extends n 1 copy _ b λ result next states good o o'.
    Built-bind (IsNew (split (some next.start) none)) IsOpen 1 0 states
      (add (split (some next.start) none)) _ (split-Built next.start states good o'.0)
      λ i states' g (lt, at).
        concatenate-Built result _ states' g.good (IsOpen-Grown 1 result states states' g o) (
          lt,
          AllCanPatch-append states' next.outs ((i, out1) ∷ [])
              (AllCanPatch-Keeps states states' next.outs g.keeps o'.1) (at, tt),
        )

pub optionals-Extends :
    (m n : ℕ) (copy : Builder Fragment) → Builds n copy → Extends (m * (n + 1)) (optionals m copy)
unfolding optionals
optionals-Extends zero n copy b result states good o =
    (subst (λ k. Grown k states states) (omega arith) (Grown-refl states good), o)
optionals-Extends (suc m) n copy b result states good o =
    Built-size IsOpen ((n + 1) + m * (n + 1)) (suc m * (n + 1)) states _ (omega arith) (
      Built-bind IsOpen IsOpen (n + 1) (m * (n + 1)) states (optional copy result)
        (optionals m copy) (optional-Extends n copy b result states good o)
        λ f states' g o'. optionals-Extends m n copy b f states' g.good o')

pub unbounded-Extends :
    (n : ℕ) (copy : Builder Fragment) → Builds n copy → Extends (n + 1) (unbounded copy)
unfolding unbounded
unbounded-Extends n copy b = join-Extends n 1 copy _ b λ result next states good o o'.
    Built-bind (IsNew (split (some next.start) none)) IsOpen 1 0 states
      (add (split (some next.start) none)) _ (split-Built next.start states good o'.0)
      λ i states' g (lt, at).
        Built-bind (λ _ _. Unit {0}) IsOpen 0 0 states' (patch next.outs i) _
          (patch-Built next.outs i states' g.good lt
            (AllCanPatch-Keeps states states' next.outs g.keeps o'.1))
          λ _ last g' _.
            concatenate-Built result (single i out1) last g'.good
              (IsOpen-Grown 0 result states' last g' (IsOpen-Grown 1 result states states' g o))
              (omega (arith, g'.size, lt), (g'.keeps i branching at, tt))
