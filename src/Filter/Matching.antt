-- ===== src/Filter/Matching.antt =====
-- Compiled rules, and the match of an entry against them: the end of
-- src/worker/subscriptions/filter.ts. Texts are lists of code points, on which `includes` agrees with the
-- source's on UTF-16 units as long as no surrogate stands alone.
pub mod Decides
use larafeed.Prelude.{
  Bool, true, false, ◌&&◌, ◌||◌, Option, none, some, List, [], ◌∷◌, map, ◌==◌, if◌then◌else◌,
}
use larafeed.Result.{Result, ok, ◌>>=◌}
use larafeed.Filter.Ast.{Text}
use larafeed.Filter.Nfa.{SafePattern, compile_safe_pattern}
use larafeed.Filter.Simulation.{matches_safe_pattern}

pub record FilterRules : Type 0 where
  pub exclude_title : List Text
  pub exclude_content : List Text
  pub exclude_author : List Text

pub record FilterCandidate : Type 0 where
  pub title : Text
  pub author : Option Text
  pub content_html : Option Text

pub record CompiledPattern : Type 0 where
  pub safe_pattern : Option SafePattern
  pub literal : Text

pub record CompiledRules : Type 0 where
  pub title : List CompiledPattern
  pub content : List CompiledPattern
  pub author : List CompiledPattern

-- `value.includes(text)`
abbrev pub is_prefix : Text → Text → Bool
is_prefix [] value = true
is_prefix (c ∷ cs) [] = false
is_prefix (c ∷ cs) (d ∷ ds) = c == d && is_prefix cs ds

unfoldable pub includes_text : Text → Text → Bool
includes_text [] text = is_prefix text []
includes_text (c ∷ cs) text = is_prefix text (c ∷ cs) || includes_text cs text

-- `value ?? ''`
abbrev pub or_empty : Option Text → Text
or_empty none = []
or_empty (some text) = text

-- `a || b` of two calls that may throw
abbrev pub or_else : Result Bool → Result Bool → Result Bool
or_else a b = a >>= λ found. if found then ok true else b

module _ (fold : Text → Text) where
  literal_of : Option SafePattern → Text → Text
  literal_of none pattern = fold pattern
  literal_of (some _) pattern = []

  unfoldable pub compile_pattern : Text → CompiledPattern
  unfolding compile_safe_pattern literal_of
  compile_pattern pattern =
      let safe = compile_safe_pattern fold pattern in
      record { safe_pattern = safe; literal = literal_of safe pattern }

  unfoldable pub compile_filter_rules : FilterRules → CompiledRules
  unfolding compile_pattern
  compile_filter_rules rules = record {
    title = map compile_pattern rules.exclude_title;
    content = map compile_pattern rules.exclude_content;
    author = map compile_pattern rules.exclude_author;
  }

  -- the test of one pattern in `matches`
  unfoldable pub matches_pattern : CompiledPattern → Text → Result Bool
  unfolding includes_text matches_safe_pattern
  matches_pattern pattern value = elim pattern.safe_pattern [
    | none ↦ ok (includes_text (fold value) pattern.literal)
    | some safe ↦ matches_safe_pattern safe fold value
  ]

  unfoldable pub matches : List CompiledPattern → Text → Result Bool
  unfolding matches_pattern
  matches [] value = ok false
  matches (pattern ∷ patterns) value =
      let more = matches patterns value in
      matches_pattern pattern value >>= λ found. if found then ok true else more

  unfoldable pub matches_subscription_filter : FilterCandidate → CompiledRules → Result Bool
  unfolding matches
  matches_subscription_filter candidate rules = or_else (matches rules.title candidate.title) (
      or_else (matches rules.content (or_empty candidate.content_html))
        (matches rules.author (or_empty candidate.author)))
