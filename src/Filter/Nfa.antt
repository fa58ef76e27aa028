-- ===== src/Filter/Nfa.antt =====
-- Pattern automata: `NfaBuilder` and `compileSafePattern` in
-- src/worker/subscriptions/filter.ts. The builder's array `states` is passed through each call;
-- `none` is an exception.
pub mod Grown
pub mod Patched
pub mod Build
pub mod Compile
pub mod Total
use larafeed.Prelude.{
  ℕ, zero, suc, ◌-◌, Bool, Option, none, some, List, [], ◌∷◌, ◌++◌, ltb, if◌then◌else◌, length,
  get_elem?, set,
}
use larafeed.Result.{Result, ok, thrown, out_of_fuel}
use larafeed.Filter.Ast.{
  Text, AssertionKind, CharacterMatcher, AstNode, AstNodes, empty, sequence, alternation, repeat,
  nil, cons,
}
use larafeed.Filter.Parser.{parse}

abbrev pub max_nfa_states : ℕ
max_nfa_states = 1024

pub data NfaState : Type 0 where
  character : CharacterMatcher → Option ℕ → NfaState
  assertion : AssertionKind → Option ℕ → NfaState
  epsilon : Option ℕ → NfaState
  split : Option ℕ → Option ℕ → NfaState
  match : NfaState

abbrev pub States : Type 0
States = List NfaState

pub record SafePattern : Type 0 where
  pub states : States
  pub start : ℕ

pub data Field : Type 0 where
  out out1 : Field

abbrev pub Patch : Type 0
Patch = ℕ × Field

pub record Fragment : Type 0 where
  pub start : ℕ
  pub outs : List Patch

abbrev pub Builder {ℓ} : Type ℓ → Type ℓ
Builder A = States → Option (A × States)

infixl 5 ◌>>=◌
abbrev pub ◌>>=◌ {ℓ κ} : {A : Type ℓ} {B : Type κ} → Builder A → (A → Builder B) → Builder B
◌>>=◌ m f states = elim (m states) [ none ↦ none | some (a, states') ↦ f a states' ]

abbrev pub pure {ℓ} : {A : Type ℓ} → A → Builder A
pure a states = some (a, states)

pub add : NfaState → Builder ℕ
add state states =
    if ltb (length states) max_nfa_states then some (length states, states ++ state ∷ []) else none

-- the assignment of `patch` to one state
pub set_field : Field → NfaState → ℕ → Option NfaState
set_field out1 (split a b) target = some (split a (some target))
set_field out1 _ target = none
set_field out (character m a) target = some (character m (some target))
set_field out (assertion k a) target = some (assertion k (some target))
set_field out (epsilon a) target = some (epsilon (some target))
set_field out (split a b) target = some (split (some target) b)
set_field out match target = none

pub patch_one : Patch → ℕ → States → Option States
unfolding set_field
patch_one (index, field) target states = elim (get_elem? states index) [
  | none ↦ none
  | some state ↦ elim (set_field field state target) [
    | none ↦ none
    | some state' ↦ some (set states index state')
  ]
]

pub patch : List Patch → ℕ → Builder (Unit {0})
unfolding patch_one
patch [] target states = some (tt, states)
patch (p ∷ ps) target states = elim (patch_one p target states) [
  | none ↦ none
  | some states' ↦ patch ps target states'
]

abbrev single : ℕ → Field → Fragment
single state field = record { start = state; outs = (state, field) ∷ [] }

-- a new state whose `out` is still open
pub leaf : NfaState → Builder Fragment
unfolding add
leaf state = add state >>= λ index. pure (single index out)

pub concatenate : Fragment → Fragment → Builder Fragment
unfolding patch
concatenate left right =
    patch left.outs right.start >>= λ _. pure (record { start = left.start; outs = right.outs })

-- one more alternative
pub alternate : Fragment → Fragment → Builder Fragment
unfolding add
alternate result right = add (split (some result.start) (some right.start)) >>= λ index.
    pure (record { start = index; outs = result.outs ++ right.outs })

-- the loop of `compileRepeat` over the copies that must match
pub required : ℕ → Builder Fragment → Fragment → Builder Fragment
unfolding concatenate
required zero copy result = pure result
required (suc n) copy result = copy >>= λ next. concatenate result next >>= required n copy

-- the case of an unbounded maximum
pub unbounded : Builder Fragment → Fragment → Builder Fragment
unfolding add patch concatenate
unbounded copy result = copy >>= λ repeated. add (split (some repeated.start) none) >>= λ index.
    patch repeated.outs index >>= λ _. concatenate result (single index out1)

-- one round of the loop over the copies that may match
pub optional : Builder Fragment → Fragment → Builder Fragment
unfolding add concatenate
optional copy result = copy >>= λ next. add (split (some next.start) none) >>= λ index.
    concatenate result (record { start = index; outs = next.outs ++ (index, out1) ∷ [] })

pub optionals : ℕ → Builder Fragment → Fragment → Builder Fragment
unfolding optional
optionals zero copy result = pure result
optionals (suc n) copy result = optional copy result >>= optionals n copy

-- the end of `compileRepeat`, behind the required copies
pub tail_of : ℕ → Option ℕ → Builder Fragment → Fragment → Builder Fragment
unfolding unbounded optionals
tail_of minimum none copy result = unbounded copy result
tail_of minimum (some maximum) copy result = optionals (maximum - minimum) copy result

pub compile_repeat : ℕ → Option ℕ → Builder Fragment → Builder Fragment
unfolding leaf required tail_of
compile_repeat minimum maximum copy =
    leaf (epsilon none) >>= required minimum copy >>= tail_of minimum maximum copy

-- The lists of a sequence and of an alternation are compiled behind what came before. An
-- alternation of no node would read `node.nodes[0]`, which is an exception.
mutual
  unfolding leaf concatenate alternate compile_repeat

  pub compile_node : AstNode → Builder Fragment
  compile_node empty = leaf (epsilon none)
  compile_node (AstNode.character m) = leaf (NfaState.character m none)
  compile_node (AstNode.assertion a) = leaf (NfaState.assertion a none)
  compile_node (sequence nodes) = leaf (epsilon none) >>= compile_sequence nodes
  compile_node (alternation nil) = λ states. none
  compile_node (alternation (cons node nodes)) = compile_node node >>= compile_alternatives nodes
  compile_node (repeat node minimum maximum) = compile_repeat minimum maximum (compile_node node)

  pub compile_sequence : AstNodes → Fragment → Builder Fragment
  compile_sequence nil result = pure result
  compile_sequence (cons node nodes) result =
      compile_node node >>= concatenate result >>= compile_sequence nodes

  pub compile_alternatives : AstNodes → Fragment → Builder Fragment
  compile_alternatives nil result = pure result
  compile_alternatives (cons node nodes) result =
      compile_node node >>= alternate result >>= compile_alternatives nodes

-- `NfaBuilder.compile`
pub build : AstNode → Builder ℕ
unfolding compile_node add patch
build node = compile_node node >>= λ fragment.
    add match >>= λ index. patch fragment.outs index >>= λ _. pure fragment.start

pattern_of : Option (ℕ × States) → Option SafePattern
pattern_of none = none
pattern_of (some (start, states)) = some (record { states = states; start = start })

unfoldable pub compile : AstNode → Option SafePattern
unfolding build pattern_of
compile node = pattern_of (build node [])

-- the `catch` of `compileSafePattern`, which takes every exception
compile_parsed : Result AstNode → Option SafePattern
unfolding compile
compile_parsed (ok node) = compile node
compile_parsed thrown = none
compile_parsed out_of_fuel = none

unfoldable pub compile_safe_pattern : (Text → Text) → Text → Option SafePattern
unfolding parse compile_parsed
compile_safe_pattern fold pattern = compile_parsed (parse fold pattern)
