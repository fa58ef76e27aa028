-- ===== src/Filter/Ast.antt =====
-- The syntax trees of filter patterns (src/worker/subscriptions/filter.ts). A text is the list of
-- its code points, which is what `Array.from` yields.
pub mod Ordered
use larafeed.Prelude.{ℕ, Bool, Option, List}

abbrev pub Text : Type 0
Text = List ℕ

pub data AssertionKind : Type 0 where
  start end word_boundary not_word_boundary : AssertionKind

pub data SimpleMatcher : Type 0 where
  literal : Text → SimpleMatcher
  range : ℕ → ℕ → SimpleMatcher
  digit word space : Bool → SimpleMatcher

pub data CharacterMatcher : Type 0 where
  simple : SimpleMatcher → CharacterMatcher
  any : CharacterMatcher
  class : Bool → List SimpleMatcher → CharacterMatcher

mutual
  pub data AstNode : Type 0 where
    empty : AstNode
    character : CharacterMatcher → AstNode
    assertion : AssertionKind → AstNode
    sequence : AstNodes → AstNode
    alternation : AstNodes → AstNode
    repeat : AstNode → ℕ → Option ℕ → AstNode

  pub data AstNodes : Type 0 where
    nil : AstNodes
    cons : AstNode → AstNodes → AstNodes
