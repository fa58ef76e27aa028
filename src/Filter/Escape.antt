-- ===== src/Filter/Escape.antt =====
-- Character tests, decimal numbers, quantifiers and escapes of the pattern parser: the methods of
-- `PatternParser` in src/worker/subscriptions/filter.ts that call no other part of the grammar. The
-- parser's state, `characters` with `index`, is the list of the characters from `index` on, so that
-- `current()` is its head and `index += 1` takes its tail. `fold` is `foldCase`, that is the
-- platform's `toLowerCase`.
pub mod Total
use mathlib.Core.List.{tail}
use larafeed.Prelude.{
  ℕ, zero, suc, ◌+◌, ◌-◌, ◌*◌, Bool, true, false, not, ◌&&◌, ◌||◌, Option, none, some, List, [],
  ◌∷◌, ◌++◌, leb, ltb, ◌==◌, if◌then◌else◌, length,
}
use larafeed.Result.{Result, ok, thrown, ◌>>=◌}
use larafeed.Filter.Ast.{
  Text, AssertionKind, word_boundary, not_word_boundary, SimpleMatcher, literal, digit, word, space,
  CharacterMatcher, simple,
}

abbrev pub max_safe_integer : ℕ
max_safe_integer = 9007199254740991

-- `this.current() === character`
unfoldable pub starts : ℕ → Text → Bool
starts c [] = false
starts c (d ∷ _) = d == c

-- `text.includes(character)` for one character
unfoldable pub includes : ℕ → Text → Bool
includes c [] = false
includes c (d ∷ ds) = d == c || includes c ds

unfoldable pub is_ascii_digit : ℕ → Bool
is_ascii_digit c = leb b'0' c && leb c b'9'

-- `this.isAsciiDigit(this.current())`
unfoldable pub starts_with_digit : Text → Bool
unfolding is_ascii_digit
starts_with_digit [] = false
starts_with_digit (c ∷ _) = is_ascii_digit c

-- `folded >= 'a' && folded <= 'f'`, the order of strings by their code units
unfoldable pub within_a_f : Text → Bool
within_a_f [] = false
within_a_f (c ∷ []) = leb b'a' c && leb c b'f'
within_a_f (c ∷ _ ∷ _) = leb b'a' c && ltb c b'f'

-- the value of a digit in `Number.parseInt(text, 16)`; a character that is none ends the number
hex_value : ℕ → Option ℕ
unfolding is_ascii_digit
hex_value c =
    if is_ascii_digit c
    then some (c - b'0')
    else if leb b'a' c && leb c b'f'
    then some (c - 87)
    else if leb b'A' c && leb c b'F'
    then some (c - 55)
    else none

hex_from : ℕ → Text → ℕ
unfolding hex_value
hex_from acc [] = acc
hex_from acc (c ∷ cs) = elim (hex_value c) [ none ↦ acc | some d ↦ hex_from (acc * 16 + d) cs ]

-- `none` is NaN
unfoldable pub parse_int_hex : Text → Option ℕ
unfolding hex_from
parse_int_hex [] = none
parse_int_hex (c ∷ cs) = elim (hex_value c) [ none ↦ none | some d ↦ some (hex_from d cs) ]

-- `String.fromCodePoint(Number.parseInt(hexadecimal, 16))`, a RangeError for NaN and beyond 0x10ffff
unfoldable pub from_code_point : Option ℕ → Result Text
from_code_point none = thrown
from_code_point (some n) = if leb n 0x10ffff then ok (n ∷ []) else thrown

-- the loop of `parseDecimal`
unfoldable pub decimal_from : ℕ → Text → Result (ℕ × Text)
unfolding is_ascii_digit
decimal_from result [] = ok (result, [])
decimal_from result (c ∷ cs) =
    let next = result * 10 + (c - b'0') in
    let more = decimal_from next cs in
    let checked = if leb next max_safe_integer then more else thrown in
    if is_ascii_digit c then checked else ok (result, c ∷ cs)

unfoldable pub parse_decimal : Text → Result (Option ℕ × Text)
unfolding decimal_from starts_with_digit
parse_decimal rest =
    if starts_with_digit rest
    then (decimal_from 0 rest >>= λ (n, r). ok (some n, r))
    else ok (none, rest)

-- `maximum !== null && maximum < minimum`
abbrev below_minimum : Option ℕ → ℕ → Bool
below_minimum none minimum = false
below_minimum (some maximum) minimum = ltb maximum minimum

quantifier_upto : ℕ → Text → Result ((ℕ × Option ℕ) × Text)
unfolding parse_decimal starts
quantifier_upto minimum rest = parse_decimal rest >>= λ (maximum, r).
    if not (starts b'}' r) || below_minimum maximum minimum
    then thrown
    else ok ((minimum, maximum), tail r)

-- `parseBoundedQuantifier`, from behind the brace
unfoldable pub parse_bounded_quantifier : Text → Result ((ℕ × Option ℕ) × Text)
unfolding quantifier_upto
parse_bounded_quantifier rest = parse_decimal rest >>= λ (minimum, r). elim minimum [
  | none ↦ thrown
  | some m ↦
      if starts b'}' r
      then ok ((m, some m), tail r)
      else if starts b',' r
      then quantifier_upto m (tail r)
      else thrown
]

pub data Escaped : Type 0 where
  matched : CharacterMatcher → Escaped
  asserted : AssertionKind → Escaped

abbrev literal_of : Text → Escaped
literal_of text = matched (simple (literal text))

-- `escapedCharacters`
unfoldable pub escaped_character : ℕ → Option ℕ
escaped_character c =
    if c == b'n'
    then some 10
    else if c == b'r'
    then some 13
    else if c == b't'
    then some 9
    else if c == b'f'
    then some 12
    else if c == b'v'
    then some 11
    else none

-- ^$\.*+?()[]{}|/
abbrev escapable : Text
escapable =
    b'^' ∷ b'$' ∷ 92 ∷ b'.' ∷ b'*' ∷ b'+' ∷ b'?' ∷ b'(' ∷ b')' ∷ b'[' ∷ b']' ∷ b'{' ∷ b'}' ∷ b'|'
    ∷ b'/' ∷ []

module _ (fold : Text → Text) where
  unfoldable pub is_hex_digit : ℕ → Bool
  unfolding is_ascii_digit within_a_f
  is_hex_digit c = is_ascii_digit c || within_a_f (fold (c ∷ []))

  -- the loop of `parseHexCharacter`
  hex_digits : ℕ → Text → Text → Result (Text × Text)
  hex_digits zero acc rest = ok (acc, rest)
  hex_digits (suc n) acc [] = thrown
  hex_digits (suc n) acc (c ∷ cs) =
      let more = hex_digits n (acc ++ c ∷ []) cs in if is_hex_digit c then more else thrown

  unfoldable pub parse_hex_character : ℕ → Text → Result (Text × Text)
  unfolding hex_digits is_hex_digit parse_int_hex from_code_point
  parse_hex_character n rest = hex_digits n [] rest >>= λ (hexadecimal, r).
      from_code_point (parse_int_hex hexadecimal) >>= λ text. ok (text, r)

  -- the loop of `parseUnicodeEscape`, and the closing brace
  unicode_digits : Text → Text → Result (Text × Text)
  unicode_digits acc [] = thrown
  unicode_digits acc (c ∷ cs) =
      let more = unicode_digits (acc ++ c ∷ []) cs in
      let checked = if leb 6 (length acc) || not (is_hex_digit c) then thrown else more in
      if c == b'}' then ok (acc, cs) else checked

  unfoldable pub parse_unicode_escape : Text → Result (Text × Text)
  unfolding unicode_digits parse_hex_character
  parse_unicode_escape rest =
      if starts b'{' rest
      then (unicode_digits [] (tail rest) >>= λ (hexadecimal, r).
          if length hexadecimal == 0
          then thrown
          else from_code_point (parse_int_hex hexadecimal) >>= λ text. ok (text, r))
      else parse_hex_character 4 rest

  -- the escapes of `parseEscape` that are no letter of its tables
  numeric_or_punctuation : Bool → ℕ → Text → Result (Escaped × Text)
  unfolding parse_unicode_escape includes starts_with_digit
  numeric_or_punctuation in_class c cs =
      if c == b'0'
      then (if starts_with_digit cs then thrown else ok (literal_of (0 ∷ []), cs))
      else if c == b'x'
      then (parse_hex_character 2 cs >>= λ (text, r). ok (literal_of (fold text), r))
      else if c == b'u'
      then (parse_unicode_escape cs >>= λ (text, r). ok (literal_of (fold text), r))
      else if includes c escapable || (in_class && c == b'-')
      then ok (literal_of (fold (c ∷ [])), cs)
      else thrown

  table_or_other : Option ℕ → Bool → ℕ → Text → Result (Escaped × Text)
  unfolding numeric_or_punctuation
  table_or_other (some e) in_class c cs = ok (literal_of (e ∷ []), cs)
  table_or_other none in_class c cs = numeric_or_punctuation in_class c cs

  -- `parseEscape`
  unfoldable pub parse_escape : Bool → Text → Result (Escaped × Text)
  unfolding table_or_other escaped_character
  parse_escape in_class [] = thrown
  parse_escape in_class (c ∷ cs) =
      if not in_class && (c == b'b' || c == b'B')
      then ok (asserted (if c == b'b' then word_boundary else not_word_boundary), cs)
      else if in_class && c == b'b'
      then ok (literal_of (8 ∷ []), cs)
      else if c == b'd' || c == b'D'
      then ok (matched (simple (digit (c == b'D'))), cs)
      else if c == b'w' || c == b'W'
      then ok (matched (simple (word (c == b'W'))), cs)
      else if c == b's' || c == b'S'
      then ok (matched (simple (space (c == b'S'))), cs)
      else table_or_other (escaped_character c) in_class c cs
