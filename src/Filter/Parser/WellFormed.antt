-- ===== src/Filter/Parser/WellFormed.antt =====
-- What the parser guarantees of the trees that it returns
-- (src/worker/subscriptions/filter.ts).
use larafeed.Prelude.{ℕ, ◌≤◌, Option, none, some, ◌≢◌}
use larafeed.Filter.Ast.{
  AstNode, AstNodes, empty, character, assertion, sequence, alternation, repeat, nil, cons,
}
use larafeed.Filter.Ast.Ordered.{IsOrderedMatcher}
use larafeed.Filter.Parser.{max_repeat_count}

-- The bounds of a repetition are in order, and none exceeds the limit.
abbrev pub IsBounded : ℕ → Option ℕ → Type 0
IsBounded minimum none = minimum ≤ max_repeat_count
IsBounded minimum (some maximum) = (minimum ≤ maximum) × (maximum ≤ max_repeat_count)

abbrev mutual
  pub IsWellFormed : AstNode → Type 0
  IsWellFormed empty = Unit
  IsWellFormed (character m) = IsOrderedMatcher m
  IsWellFormed (assertion _) = Unit
  IsWellFormed (sequence nodes) = AllWellFormed nodes
  IsWellFormed (alternation nodes) = (nodes ≢ nil) × AllWellFormed nodes
  IsWellFormed (repeat node minimum maximum) = IsWellFormed node × IsBounded minimum maximum

  pub AllWellFormed : AstNodes → Type 0
  AllWellFormed nil = Unit
  AllWellFormed (cons node nodes) = IsWellFormed node × AllWellFormed nodes
