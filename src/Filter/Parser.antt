-- ===== src/Filter/Parser.antt =====
-- The grammar of filter patterns: `PatternParser` in src/worker/subscriptions/filter.ts, from
-- character classes up to `parse`. A group may nest to any depth, so each call costs a unit of fuel;
-- a loop that pushes onto an array is a recursion that returns the items.
pub mod WellFormed
pub mod Pieces
pub mod Total
use mathlib.Core.List.{tail}
use larafeed.Prelude.{
  ℕ, zero, suc, ◌+◌, ◌*◌, Bool, true, false, not, ◌&&◌, ◌||◌, Option, none, some, List, [], ◌∷◌,
  leb, ltb, ◌==◌, if◌then◌else◌, length,
}
use larafeed.Result.{Result, ok, thrown, out_of_fuel, ◌>>=◌}
use larafeed.Filter.Ast.{
  Text, start, end, SimpleMatcher, literal, range, digit, word, space, CharacterMatcher, simple,
  any, class, AstNode, AstNodes, empty, character, assertion, sequence, alternation, repeat, nil,
  cons,
}
use larafeed.Filter.Escape.{
  starts, includes, parse_bounded_quantifier, Escaped, matched, asserted, parse_escape,
}

abbrev pub max_repeat_count : ℕ
max_repeat_count = 256

-- `singleCodePoint`
unfoldable pub single_code_point : Text → Result ℕ
single_code_point [] = thrown
single_code_point (c ∷ []) = ok c
single_code_point (_ ∷ _ ∷ _) = thrown

-- the range between two terms of a class
range_of : SimpleMatcher → SimpleMatcher → Result SimpleMatcher
unfolding single_code_point
range_of (literal left) (literal right) = single_code_point left >>= λ minimum.
    single_code_point right >>= λ maximum.
    if ltb maximum minimum then thrown else ok (range minimum maximum)
range_of _ _ = thrown

-- `this.peek() !== ']'` behind a dash
dash_before_term : Text → Bool
unfolding starts
dash_before_term rest = starts b'-' rest && not (starts b']' (tail rest))

-- `parseRepeatedAtom` behind its atom: the quantifier's bounds, or `none` where there is none
quantifier : Text → Result (Option (ℕ × Option ℕ) × Text)
unfolding parse_bounded_quantifier
quantifier [] = ok (none, [])
quantifier (c ∷ cs) =
    if c == b'?'
    then ok (some (0, some 1), cs)
    else if c == b'*'
    then ok (some (0, none), cs)
    else if c == b'+'
    then ok (some (1, none), cs)
    else if c == b'{'
    then (parse_bounded_quantifier cs >>= λ (bounds, r). ok (some bounds, r))
    else ok (none, c ∷ cs)

abbrev above_repeat_count : Option ℕ → Bool
above_repeat_count none = false
above_repeat_count (some maximum) = ltb max_repeat_count maximum

-- the rest of `parseRepeatedAtom`
repeat_of : AstNode × Bool → Option (ℕ × Option ℕ) → Text → Result (AstNode × Text)
unfolding starts
repeat_of (node, quantifiable) none rest = ok (node, rest)
repeat_of (node, quantifiable) (some (minimum, maximum)) rest =
    if not quantifiable
    then thrown
    else if ltb max_repeat_count minimum || above_repeat_count maximum
    then thrown
    else ok (repeat node minimum maximum, if starts b'?' rest then tail rest else rest)

pub quantify : AstNode × Bool → Text → Result (AstNode × Text)
unfolding quantifier repeat_of
quantify atom rest = quantifier rest >>= λ (bounds, r). repeat_of atom bounds r

alternation_of : AstNode → AstNodes → AstNode
alternation_of node nil = node
alternation_of node (cons other more) = alternation (cons node (cons other more))

sequence_of : AstNodes → AstNode
sequence_of nil = empty
sequence_of (cons node nil) = node
sequence_of (cons node (cons other more)) = sequence (cons node (cons other more))

-- an opened group up to its alternatives, `?:` taken
group_body : Text → Result Text
unfolding starts
group_body rest =
    if starts b'?' rest
    then (if starts b':' (tail rest) then ok (tail (tail rest)) else thrown)
    else ok rest

close_group : AstNode × Text → Result ((AstNode × Bool) × Text)
unfolding starts
close_group (node, rest) = if starts b')' rest then ok ((node, true), tail rest) else thrown

-- ?*+{})]
abbrev reserved : Text
reserved = b'?' ∷ b'*' ∷ b'+' ∷ b'{' ∷ b'}' ∷ b')' ∷ b']' ∷ []

class_term_of : Escaped → Text → Result (SimpleMatcher × Text)
class_term_of (asserted a) rest = thrown
class_term_of (matched (simple m)) rest = ok (m, rest)
class_term_of (matched any) rest = thrown
class_term_of (matched (class negated terms)) rest = thrown

atom_of : Escaped → Text → Result ((AstNode × Bool) × Text)
atom_of (asserted a) rest = ok ((assertion a, false), rest)
atom_of (matched m) rest = ok ((character m, true), rest)

at_end : AstNode × Text → Result AstNode
at_end (node, []) = ok node
at_end (node, _ ∷ _) = thrown

module _ (fold : Text → Text) where
  -- `parseClassTerm`
  unfoldable pub parse_class_term : Text → Result (SimpleMatcher × Text)
  unfolding parse_escape class_term_of
  parse_class_term [] = thrown
  parse_class_term (c ∷ cs) =
      if c == b']'
      then thrown
      else if c == 92
      then (parse_escape fold true cs >>= λ (escaped, r). class_term_of escaped r)
      else ok (literal (fold (c ∷ [])), cs)

  -- one round of the loop of `parseCharacterClass`
  class_item : Text → Result (SimpleMatcher × Text)
  unfolding dash_before_term range_of parse_class_term
  class_item rest = parse_class_term rest >>= λ (left, r).
      if dash_before_term r
      then (parse_class_term (tail r) >>= λ (right, r').
          range_of left right >>= λ term. ok (term, r'))
      else ok (left, r)

  class_terms : ℕ → Text → Result (List SimpleMatcher × Text)
  class_terms zero rest = out_of_fuel
  class_terms (suc f) [] = thrown
  class_terms (suc f) (c ∷ cs) =
      let more = class_item (c ∷ cs) >>= λ (term, r).
      class_terms f r >>= λ (terms, r'). ok (term ∷ terms, r') in
      if c == b']' then ok ([], cs) else more

  -- `parseCharacterClass`
  unfoldable pub parse_character_class : Text → Result (CharacterMatcher × Text)
  unfolding class_terms class_item
  parse_character_class rest =
      let negated = starts b'^' rest in
      let body = if negated then tail rest else rest in
      class_terms (suc (length body)) body >>= λ (terms, r). ok (class negated terms, r)

  -- the atoms of `parseAtom` that hold no group
  pub simple_atom : ℕ → Text → Result ((AstNode × Bool) × Text)
  unfolding parse_character_class includes parse_escape atom_of
  simple_atom c cs =
      if c == b'^'
      then ok ((assertion start, false), cs)
      else if c == b'$'
      then ok ((assertion end, false), cs)
      else if c == b'.'
      then ok ((character any, true), cs)
      else if c == b'['
      then (parse_character_class cs >>= λ (matcher, r). ok ((character matcher, true), r))
      else if c == 92
      then (parse_escape fold false cs >>= λ (escaped, r). atom_of escaped r)
      else if includes c reserved
      then thrown
      else ok ((character (simple (literal (fold (c ∷ [])))), true), cs)

  mutual
    pub parse_alternation : ℕ → Text → Result (AstNode × Text)
    parse_alternation zero rest = out_of_fuel
    parse_alternation (suc f) rest = parse_sequence f rest >>= λ (first, r).
        parse_alternatives f r >>= λ (others, r'). ok (alternation_of first others, r')

    -- the loop of `parseAlternation`
    pub parse_alternatives : ℕ → Text → Result (AstNodes × Text)
    parse_alternatives zero rest = out_of_fuel
    parse_alternatives (suc f) rest =
        let more = parse_sequence f (tail rest) >>= λ (node, r).
        parse_alternatives f r >>= λ (nodes, r'). ok (cons node nodes, r') in
        if starts b'|' rest then more else ok (nil, rest)

    pub parse_sequence : ℕ → Text → Result (AstNode × Text)
    parse_sequence zero rest = out_of_fuel
    parse_sequence (suc f) rest = parse_items f rest >>= λ (nodes, r). ok (sequence_of nodes, r)

    -- the loop of `parseSequence`
    pub parse_items : ℕ → Text → Result (AstNodes × Text)
    parse_items zero rest = out_of_fuel
    parse_items (suc f) [] = ok (nil, [])
    parse_items (suc f) (c ∷ cs) =
        let more = parse_repeated_atom f (c ∷ cs) >>= λ (node, r).
        parse_items f r >>= λ (nodes, r'). ok (cons node nodes, r') in
        if c == b')' || c == b'|' then ok (nil, c ∷ cs) else more

    pub parse_repeated_atom : ℕ → Text → Result (AstNode × Text)
    parse_repeated_atom zero rest = out_of_fuel
    parse_repeated_atom (suc f) rest = parse_atom f rest >>= λ (atom, r). quantify atom r

    pub parse_atom : ℕ → Text → Result ((AstNode × Bool) × Text)
    parse_atom zero rest = out_of_fuel
    parse_atom (suc f) [] = thrown
    parse_atom (suc f) (c ∷ cs) =
        let group = group_body cs >>= λ body. parse_alternation f body >>= close_group in
        let other = simple_atom c cs in if c == b'(' then group else other

  -- `new PatternParser(pattern).parse()`
  unfoldable pub parse : Text → Result AstNode
  unfolding parse_alternation quantify alternation_of sequence_of group_body close_group simple_atom
      at_end
  parse pattern = parse_alternation (6 * length pattern + 5) pattern >>= at_end
