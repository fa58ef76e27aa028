-- ===== src/Filter/Simulation.antt =====
-- The simulation of a pattern automaton, and the match of an entry against a user's rules:
-- src/worker/subscriptions/filter.ts from `isAsciiWordCharacter` on. A read of a state that is not
-- there is an exception.
pub mod Paths
pub mod Expand
pub mod Closure
pub mod Rounds
pub mod Correct
use mathlib.Core.List.{reverse}
use larafeed.Prelude.{
  ℕ, zero, suc, ◌+◌, ◌-◌, ◌*◌, Bool, true, false, not, ◌&&◌, ◌||◌, Option, none, some, List, [],
  ◌∷◌, ◌++◌, map, leb, ◌==◌, if◌then◌else◌, length, get_elem?, set, replicate,
}
use larafeed.Result.{Result, ok, thrown, out_of_fuel, ◌>>=◌}
use larafeed.Filter.Ast.{
  Text, AssertionKind, start, end, word_boundary, not_word_boundary, SimpleMatcher, literal, range,
  digit, word, space, CharacterMatcher, simple, any, class,
}
use larafeed.Filter.Nfa.{NfaState, character, assertion, epsilon, split, match, SafePattern}

abbrev pub text_eq : Text → Text → Bool
text_eq [] [] = true
text_eq (a ∷ as') (b ∷ bs) = a == b && text_eq as' bs
text_eq _ _ = false

unfoldable pub is_ascii_word_character : Option ℕ → Bool
is_ascii_word_character none = false
is_ascii_word_character (some c) =
    (leb b'a' c && leb c b'z')
    || (leb b'A' c && leb c b'Z')
    || (leb b'0' c && leb c b'9')
    || c == b'_'

unfoldable pub is_whitespace_character : ℕ → Bool
is_whitespace_character c =
    (leb 0x0009 c && leb c 0x000d)
    || c == 0x0020
    || c == 0x00a0
    || c == 0x1680
    || (leb 0x2000 c && leb c 0x200a)
    || c == 0x2028
    || c == 0x2029
    || c == 0x202f
    || c == 0x205f
    || c == 0x3000
    || c == 0xfeff

-- `negated ? !matched : matched`
abbrev negate_if : Bool → Bool → Bool
negate_if negated matched = if negated then not matched else matched

-- the range test of `matchesSimpleMatcher`, on the folded character
within : ℕ → ℕ → Text → Bool
within minimum maximum (c ∷ []) = leb minimum c && leb c maximum
within minimum maximum _ = false

unfoldable pub matches_simple_matcher : SimpleMatcher → ℕ → Text → Bool
unfolding within is_ascii_word_character is_whitespace_character
matches_simple_matcher (literal value) c folded = text_eq folded value
matches_simple_matcher (range minimum maximum) c folded = within minimum maximum folded
matches_simple_matcher (digit negated) c folded = negate_if negated (leb b'0' c && leb c b'9')
matches_simple_matcher (word negated) c folded =
    negate_if negated (is_ascii_word_character (some c))
matches_simple_matcher (space negated) c folded = negate_if negated (is_whitespace_character c)

some_term : List SimpleMatcher → ℕ → Text → Bool
unfolding matches_simple_matcher
some_term [] c folded = false
some_term (term ∷ terms) c folded = matches_simple_matcher term c folded || some_term terms c folded

unfoldable pub is_line_terminator : ℕ → Bool
is_line_terminator c = c == 10 || c == 13 || c == 0x2028 || c == 0x2029

unfoldable pub matches_character : CharacterMatcher → ℕ → Text → Bool
unfolding some_term matches_simple_matcher is_line_terminator
matches_character any c folded = not (is_line_terminator c)
matches_character (class negated terms) c folded = negate_if negated (some_term terms c folded)
matches_character (simple matcher) c folded = matches_simple_matcher matcher c folded

-- `characters[position - 1]`
abbrev before : Text → ℕ → Option ℕ
before characters zero = none
before characters (suc position) = get_elem? characters position

abbrev differ : Bool → Bool → Bool
differ a b = if a then not b else b

unfoldable pub assertion_matches : AssertionKind → ℕ → Text → Bool
unfolding is_ascii_word_character
assertion_matches start position characters = position == 0
assertion_matches end position characters = position == length characters
assertion_matches word_boundary position characters =
    differ (is_ascii_word_character (before characters position))
      (is_ascii_word_character (get_elem? characters position))
assertion_matches not_word_boundary position characters = not (
    differ (is_ascii_word_character (before characters position))
      (is_ascii_word_character (get_elem? characters position)))

-- What the loops change. The top of `stack` is its head, and `consuming` has its last item first.
pub record Scan : Type 0 where
  pub marks : List ℕ
  pub stack : List ℕ
  pub consuming : List ℕ
  pub accepted : Bool

abbrev pub push : Option ℕ → List ℕ → List ℕ
push none stack = stack
push (some state) stack = state ∷ stack

module _ (pattern : SafePattern) (fold : Text → Text) (characters : Text) where
  -- the body of the inner loop for a state that is not marked yet
  pub expand : ℕ → ℕ → NfaState → Scan → Scan
  unfolding assertion_matches
  expand position index match s = record s { accepted = true }
  expand position index (character m target) s = record s { consuming = index ∷ s.consuming }
  expand position index (split left right) s = record s { stack = push right (push left s.stack) }
  expand position index (epsilon target) s = record s { stack = push target s.stack }
  expand position index (assertion kind target) s =
      if assertion_matches kind position characters
      then record s { stack = push target s.stack }
      else s

  -- one round of `while (stack.length > 0)`, for the popped index; `s.stack` is what is left
  pub visit : ℕ → ℕ → ℕ → Scan → Result Scan
  unfolding expand
  visit generation position index s = elim (get_elem? s.marks index) [
    | none ↦ thrown
    | some mark ↦ if mark == generation then ok s else elim (get_elem? pattern.states index) [
      | none ↦ thrown
      | some state ↦
          ok (expand position index state (record s { marks = set s.marks index generation }))
    ]
  ]

  pub closure : ℕ → ℕ → ℕ → Scan → Result Scan
  closure zero generation position s = elim s.stack [ [] ↦ ok s | _ ∷ _ ↦ out_of_fuel ]
  closure (suc fuel) generation position s = elim s.stack [
    | [] ↦ ok s
    | index ∷ rest ↦ visit generation position index (record s { stack = rest }) >>= λ s'.
        closure fuel generation position s'
  ]

  -- one round of the loop over `consuming`, at the character `c`
  pub add_target : ℕ → Option NfaState → List ℕ → List ℕ
  unfolding matches_character
  add_target c (some (character m (some target))) later =
      if matches_character m c (fold (c ∷ [])) then target ∷ later else later
  add_target c _ later = later

  pub carry_over : ℕ → List ℕ → List ℕ
  unfolding add_target
  carry_over c [] = []
  carry_over c (index ∷ indices) =
      add_target c (get_elem? pattern.states index) (carry_over c indices)

  -- the inner loop from its first stack on; `carry` has its last item on top
  pub scan : ℕ → ℕ → List ℕ → List ℕ → Result Scan
  unfolding closure visit
  scan generation position marks carry =
      let stack = reverse (pattern.start ∷ carry) in
      closure (length stack + 2 * length pattern.states) generation position
        (record { marks = marks; stack = stack; consuming = []; accepted = false })

  -- the loop over the positions, at the characters that are left
  pub run_from : Text → ℕ → ℕ → List ℕ → List ℕ → Result Bool
  unfolding scan carry_over
  run_from [] generation position marks carry =
      scan (suc generation) position marks carry >>= λ s. ok s.accepted
  run_from (c ∷ cs) generation position marks carry =
      scan (suc generation) position marks carry >>= λ s.
      let next = carry_over c (reverse s.consuming) in
      let more = run_from cs (suc generation) (suc position) s.marks next in
      if s.accepted then ok true else more

  -- `matchesSafePattern`
  unfoldable pub matches_safe_pattern : Result Bool
  unfolding run_from
  matches_safe_pattern = run_from characters 0 0 (replicate (length pattern.states) 0) []
