-- ===== src/Filter/Tests.antt =====
-- Runs of the pattern compiler and of the matcher.
use larafeed.Prelude.{
  ◌≡◌, ◌↔◌, ◌⊎◌, ◌≤◌, ◌<◌, refl, [], ◌∷◌, if◌then◌else◌, leb, ◌&&◌, map, ◌+◌, none, some, true,
  false, Bool, length, arith,
}
use larafeed.Result.{Result, ok, thrown, Ensures}
use larafeed.Filter.Ast.{
  Text, AstNode, simple, class, literal, range, digit, cons, nil, sequence, repeat, character,
}
use larafeed.Filter.Parser.{parse}
use larafeed.Filter.Parser.WellFormed.{IsWellFormed}
use larafeed.Filter.Parser.Total.{parse-ends}
use larafeed.Filter.Nfa.{NfaState, SafePattern, max_nfa_states, compile, compile_safe_pattern}
use larafeed.Filter.Nfa.Total.{size, HasSize, compile-HasSize, compile_safe_pattern-IsClosed}
use larafeed.Filter.Simulation.{matches_safe_pattern}
use larafeed.Filter.Simulation.Paths.{Accepts, IsClosed}
use larafeed.Filter.Simulation.Correct.{matches_safe_pattern-Accepts}
use larafeed.Filter.Matching.{
  FilterRules, FilterCandidate, compile_pattern, compile_filter_rules, matches_pattern,
  matches_subscription_filter,
}
use larafeed.Filter.Matching.Decides.{Excludes, matches_subscription_filter-Excludes}

-- the lower case of ASCII letters
abbrev lower : Text → Text
lower = map (λ c. if leb b'A' c && leb c b'Z' then c + 32 else c)

-- [A-f\d]{2,}?(x)
abbrev hex_run : Text
hex_run =
    b'[' ∷ b'A' ∷ b'-' ∷ b'f' ∷ 92 ∷ b'd' ∷ b']' ∷ b'{' ∷ b'2' ∷ b',' ∷ b'}' ∷ b'?' ∷ b'(' ∷ b'x'
    ∷ b')' ∷ []

parse-hex_run :
    parse lower hex_run
    ≡ ok (
        sequence (
          cons
            (repeat (character (class false (range 97 102 ∷ digit false ∷ []))) 2 none)
            (cons (character (simple (literal (b'x' ∷ [])))) nil)))
unfolding parse
parse-hex_run = refl

parse_open_group : parse lower (b'(' ∷ b'a' ∷ []) ≡ thrown
unfolding parse
parse_open_group = refl

abbrev run : Text → Text → Result Bool
run pattern value = matches_pattern lower (compile_pattern lower pattern) value

-- ^a|(?:bc)+$
abbrev two_ways : Text
two_ways = b'^' ∷ b'a' ∷ b'|' ∷ b'(' ∷ b'?' ∷ b':' ∷ b'b' ∷ b'c' ∷ b')' ∷ b'+' ∷ b'$' ∷ []

matches_tests :
    (run hex_run (b'z' ∷ b'B' ∷ b'0' ∷ b'X' ∷ []) ≡ ok true)
    × (run hex_run (b'z' ∷ b'0' ∷ b'X' ∷ []) ≡ ok false)
    × (run two_ways (b'A' ∷ b'b' ∷ []) ≡ ok true)
    × (run two_ways (b'x' ∷ b'B' ∷ b'c' ∷ b'b' ∷ b'c' ∷ []) ≡ ok true)
    × (run two_ways (b'b' ∷ b'c' ∷ b'b' ∷ []) ≡ ok false)
    × (run (b'(' ∷ b'A' ∷ []) (b'1' ∷ b'(' ∷ b'a' ∷ []) ≡ ok true)
unfolding compile_pattern matches_pattern
matches_tests = (refl, refl, refl, refl, refl, refl)

-- the automaton of the pattern `a`
abbrev letter : SafePattern
letter = record {
  start = 0;
  states = NfaState.character (simple (literal (b'a' ∷ []))) (some 1) ∷ NfaState.match ∷ [];
}

compile_letter : compile_safe_pattern lower (b'a' ∷ []) ≡ some letter
unfolding compile_safe_pattern
compile_letter = refl

-- a{2,3}
abbrev twice : AstNode
twice = repeat (character (simple (literal (b'a' ∷ [])))) 2 (some 3)

abbrev rules : FilterRules
rules = record { exclude_title = two_ways ∷ []; exclude_content = []; exclude_author = [] }

abbrev candidate : FilterCandidate
candidate = record { title = b'A' ∷ b'b' ∷ []; author = none; content_html = none }

matches_subscription_filter-Excludes_example :
    (b : Bool) × (matches_subscription_filter lower candidate (compile_filter_rules lower rules)
      ≡ ok b)
    × ((b ≡ true) ↔ Excludes lower rules candidate)
matches_subscription_filter-Excludes_example =
    matches_subscription_filter-Excludes lower rules candidate

matches_safe_pattern-Accepts_example :
    (b : Bool) × (matches_safe_pattern letter lower (b'b' ∷ b'A' ∷ []) ≡ ok b)
    × ((b ≡ true) ↔ Accepts letter lower (b'b' ∷ b'A' ∷ []))
matches_safe_pattern-Accepts_example =
    matches_safe_pattern-Accepts letter lower (b'b' ∷ b'A' ∷ [])
      (compile_safe_pattern-IsClosed lower (b'a' ∷ []) letter compile_letter).0

compile-HasSize_example :
    ((compile twice ≡ none) × (max_nfa_states < size twice + 1))
    ⊎ ((pattern : SafePattern) × (compile twice ≡ some pattern)
        × HasSize (size twice + 1) pattern
        × (size twice + 1 ≤ max_nfa_states))
compile-HasSize_example = compile-HasSize twice (tt, (omega arith, omega arith))

compile_safe_pattern-IsClosed_example : IsClosed letter × (length letter.states ≤ max_nfa_states)
compile_safe_pattern-IsClosed_example =
    compile_safe_pattern-IsClosed lower (b'a' ∷ []) letter compile_letter

parse-ends_example : Ensures IsWellFormed (parse lower hex_run)
parse-ends_example = parse-ends lower hex_run
