-- ===== src/Filter/Nfa/Total.antt =====
-- When a pattern compiles (src/worker/subscriptions/filter.ts), and what its automaton is like.
use larafeed.Prelude.{
  subst, ℕ, ◌+◌, ◌-◌, ◌*◌, ◌≤◌, ◌<◌, ◌≡◌, ◌⊎◌, inl, inr, refl, Option, none, some, [], length,
  arith,
}
use larafeed.Result.{Result, ok, thrown, out_of_fuel, Ensures}
use larafeed.Filter.Ast.{Text, AstNode, AstNodes, empty, sequence, alternation, repeat, nil, cons}
use larafeed.Filter.Parser.{parse}
use larafeed.Filter.Parser.WellFormed.{IsWellFormed, AllWellFormed}
use larafeed.Filter.Parser.Total.{parse-ends}
use larafeed.Filter.Nfa.{
  NfaState, epsilon, match, States, SafePattern, Fragment, Builder, ◌>>=◌, add, patch, leaf,
  concatenate, alternate, required, tail_of, compile_repeat, compile_node, compile_sequence,
  compile_alternatives, build, compile, compile_parsed, pattern_of, compile_safe_pattern,
  max_nfa_states,
}
use larafeed.Filter.Nfa.Grown.{AllCanPatch-Keeps, IsGood}
use larafeed.Filter.Nfa.Patched.{Grown-refl}
use larafeed.Filter.Nfa.Build.{
  Built, Built-bind, IsOpen, IsNew, add-Built, patch-Built, leaf-Built, concatenate-Built,
}
use larafeed.Filter.Nfa.Compile.{
  Builds, Extends, Built-size, Builds-Extends, alternate-Built, join-Extends, required-Extends,
  optionals-Extends, unbounded-Extends,
}
use larafeed.Filter.Simulation.Paths.{IsClosed}

abbrev tail_size : ℕ → Option ℕ → ℕ → ℕ
tail_size minimum none n = n + 1
tail_size minimum (some maximum) n = (maximum - minimum) * (n + 1)

-- how many states the automaton of a tree has, but for the accepting one
abbrev mutual
  pub size : AstNode → ℕ
  size empty = 1
  size (AstNode.character m) = 1
  size (AstNode.assertion a) = 1
  size (sequence nodes) = 1 + size_sequence nodes
  size (alternation nil) = 0
  size (alternation (cons node nodes)) = size node + size_alternatives nodes
  size (repeat node minimum maximum) =
      1 + (minimum * size node + tail_size minimum maximum (size node))

  pub size_sequence : AstNodes → ℕ
  size_sequence nil = 0
  size_sequence (cons node nodes) = size node + size_sequence nodes

  pub size_alternatives : AstNodes → ℕ
  size_alternatives nil = 0
  size_alternatives (cons node nodes) = size node + (1 + size_alternatives nodes)

tail_of-Extends :
    (minimum : ℕ) (maximum : Option ℕ) (n : ℕ) (copy : Builder Fragment)
    → Builds n copy
    → Extends (tail_size minimum maximum n) (tail_of minimum maximum copy)
unfolding tail_of
tail_of-Extends minimum none n copy b = unbounded-Extends n copy b
tail_of-Extends minimum (some maximum) n copy b = optionals-Extends (maximum - minimum) n copy b

epsilon-Builds : Builds 1 (leaf (epsilon none))
epsilon-Builds states good = leaf-Built (epsilon none) states good (λ v t. cc) (λ e. cc)

compile_repeat-Builds :
    (minimum : ℕ) (maximum : Option ℕ) (n : ℕ) (copy : Builder Fragment)
    → Builds n copy
    → Builds (1 + (minimum * n + tail_size minimum maximum n)) (compile_repeat minimum maximum copy)
unfolding compile_repeat
compile_repeat-Builds minimum maximum n copy b states good =
    Built-size IsOpen (1 + minimum * n + tail_size minimum maximum n) _ states _ (omega arith) (
      Builds-Extends (1 + minimum * n) (tail_size minimum maximum n) _ _
        (Builds-Extends 1 (minimum * n) (leaf (epsilon none)) (required minimum copy) epsilon-Builds
          (required-Extends minimum n copy b))
        (tail_of-Extends minimum maximum n copy b) states good)

mutual
  unfolding compile_node compile_sequence compile_alternatives

  compile_node-Builds :
      (node : AstNode) → IsWellFormed node → Builds (size node) (compile_node node)
  compile_node-Builds empty w = epsilon-Builds
  compile_node-Builds (AstNode.character m) w =
      λ states good. leaf-Built (NfaState.character m none) states good (λ v t. cc) (λ e. cc)
  compile_node-Builds (AstNode.assertion a) w =
      λ states good. leaf-Built (NfaState.assertion a none) states good (λ v t. cc) (λ e. cc)
  compile_node-Builds (sequence nodes) w =
      Builds-Extends 1 (size_sequence nodes) (leaf (epsilon none)) (compile_sequence nodes)
        epsilon-Builds (compile_sequence-Extends nodes w)
  compile_node-Builds (alternation nil) w = absurd (w.0 refl)
  compile_node-Builds (alternation (cons node nodes)) w =
      Builds-Extends (size node) (size_alternatives nodes) (compile_node node)
        (compile_alternatives nodes) (compile_node-Builds node w.1.0)
        (compile_alternatives-Extends nodes w.1.1)
  compile_node-Builds (repeat node minimum maximum) w =
      compile_repeat-Builds minimum maximum (size node) (compile_node node)
        (compile_node-Builds node w.0)

  compile_sequence-Extends :
      (nodes : AstNodes)
      → AllWellFormed nodes
      → Extends (size_sequence nodes) (compile_sequence nodes)
  compile_sequence-Extends nil w result states good o = (Grown-refl states good, o)
  compile_sequence-Extends (cons node nodes) w result states good o =
      Built-size IsOpen (size node + 0 + size_sequence nodes) _ states _ (omega arith) (
        Built-bind IsOpen IsOpen (size node + 0) (size_sequence nodes) states
          (compile_node node >>= concatenate result) (compile_sequence nodes)
          (join-Extends (size node) 0 (compile_node node) concatenate (compile_node-Builds node w.0)
            concatenate-Built result states good o)
          λ f states' g o'. compile_sequence-Extends nodes w.1 f states' g.good o')

  compile_alternatives-Extends :
      (nodes : AstNodes)
      → AllWellFormed nodes
      → Extends (size_alternatives nodes) (compile_alternatives nodes)
  compile_alternatives-Extends nil w result states good o = (Grown-refl states good, o)
  compile_alternatives-Extends (cons node nodes) w result states good o =
      Built-size IsOpen (size node + 1 + size_alternatives nodes) _ states _ (omega arith) (
        Built-bind IsOpen IsOpen (size node + 1) (size_alternatives nodes) states
          (compile_node node >>= alternate result) (compile_alternatives nodes)
          (join-Extends (size node) 1 (compile_node node) alternate (compile_node-Builds node w.0)
            alternate-Built result states good o)
          λ f states' g o'. compile_alternatives-Extends nodes w.1 f states' g.good o')

build-Built :
    (node : AstNode)
    → IsWellFormed node
    → Built (λ start states. start < length states) (size node + 1) [] (build node [])
unfolding build
build-Built node w =
    Built-bind IsOpen (λ start states. start < length states) (size node) 1 [] (compile_node node) _
      (compile_node-Builds node w [] nothing)
      λ f states g o.
        Built-bind (IsNew match) (λ start states. start < length states) 1 0 states (add match) _
          (add-Built match states g.good (λ v t. absurd t))
          λ i states' g' (lt, _).
            Built-bind (λ _ _. Unit {0}) (λ start states. start < length states) 0 0 states'
              (patch f.outs i) _
              (patch-Built f.outs i states' g'.good lt
                (AllCanPatch-Keeps states states' f.outs g'.keeps o.1))
              λ _ last g'' _. (Grown-refl last g''.good, omega (arith, g''.size, g'.size, o.0))
  where
    nothing : IsGood []
    nothing = record { in_range = λ u v state e t. cc; few = omega arith }

abbrev pub HasSize : ℕ → SafePattern → Type 0
HasSize n pattern = IsClosed pattern × (length pattern.states ≡ n)

-- A tree of the parser compiles exactly if its automaton, the accepting state included, has at most
-- 1024 states. The automaton then has as many states as the tree's size says, and every pointer in
-- it, the start included, leads to one of them; no patch throws.
pub compile-HasSize :
    (node : AstNode)
    → IsWellFormed node
    → ((compile node ≡ none) × (max_nfa_states < size node + 1))
      ⊎ ((pattern : SafePattern) × (compile node ≡ some pattern)
          × HasSize (size node + 1) pattern
          × (size node + 1 ≤ max_nfa_states))
unfolding compile
compile-HasSize node w = go (build node []) (build-Built node w)
  where
    go :
        (r : Option (ℕ × States))
        → Built (λ start states. start < length states) (size node + 1) [] r
        → ((pattern_of r ≡ none) × (max_nfa_states < size node + 1))
          ⊎ ((pattern : SafePattern) × (pattern_of r ≡ some pattern)
              × HasSize (size node + 1) pattern
              × (size node + 1 ≤ max_nfa_states))
    go none h = inl (refl, omega arith)
    go (some (start, states)) (g, lt) = inr (
      record { states = states; start = start },
      refl,
      (record { start_below = lt; targets_below = g.good.in_range }, omega (arith, g.size)),
      omega (arith, g.size, g.good.few),
    )

compile_parsed-IsClosed :
    (r : Result AstNode) (safe : SafePattern)
    → Ensures IsWellFormed r
    → compile_parsed r ≡ some safe
    → IsClosed safe × (length safe.states ≤ max_nfa_states)
unfolding compile_parsed
compile_parsed-IsClosed (ok node) safe w e = elim (compile-HasSize node w) [
  | inl (failed, _) ↦ cc
  | inr (pattern, built, (closed, size), few) ↦
      let same : pattern ≡ safe = cc in
      subst (λ p. IsClosed p × (length p.states ≤ max_nfa_states)) same
        (closed, omega (arith, size, few))
]
compile_parsed-IsClosed thrown safe w e = cc
compile_parsed-IsClosed out_of_fuel safe w e = absurd w

-- Whatever the pattern, the automaton that it compiles to is closed, and has at most 1024 states.
pub compile_safe_pattern-IsClosed :
    (fold : Text → Text) (pattern : Text) (safe : SafePattern)
    → compile_safe_pattern fold pattern ≡ some safe
    → IsClosed safe × (length safe.states ≤ max_nfa_states)
unfolding compile_safe_pattern
compile_safe_pattern-IsClosed fold pattern safe e =
    compile_parsed-IsClosed (parse fold pattern) safe (parse-ends fold pattern) e
