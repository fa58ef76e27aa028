-- ===== src/Filter/Ast/Ordered.antt =====
-- Matchers of src/worker/subscriptions/filter.ts whose ranges are in order.
use larafeed.Prelude.{◌≤◌, List, [], ◌∷◌}
use larafeed.Filter.Ast.{
  SimpleMatcher, literal, range, digit, word, space, CharacterMatcher, simple, any, class,
}

-- The ends of a range are in order.
abbrev pub IsOrdered : SimpleMatcher → Type 0
IsOrdered (range minimum maximum) = minimum ≤ maximum
IsOrdered (literal _) = Unit
IsOrdered (digit _) = Unit
IsOrdered (word _) = Unit
IsOrdered (space _) = Unit

abbrev pub AllOrdered : List SimpleMatcher → Type 0
AllOrdered [] = Unit
AllOrdered (term ∷ terms) = IsOrdered term × AllOrdered terms

abbrev pub IsOrderedMatcher : CharacterMatcher → Type 0
IsOrderedMatcher (simple m) = IsOrdered m
IsOrderedMatcher any = Unit
IsOrderedMatcher (class _ terms) = AllOrdered terms
