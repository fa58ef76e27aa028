-- ===== src/Filter/Matching/Decides.antt =====
-- A user's filter decides whether an entry is excluded
-- (src/worker/subscriptions/filter.ts).
use mathlib.Core.Bool.{false≢true}
use larafeed.Prelude.{
  ◌≡◌, ◌↔◌, ◌⊎◌, inl, inr, refl, Bool, true, false, Option, none, some, List, [], ◌∷◌, map,
}
use larafeed.Result.{Result, ok, Returns, Returns-bind, Returns-weaken, Returns-ok}
use larafeed.Filter.Ast.{Text}
use larafeed.Filter.Nfa.{SafePattern, compile_safe_pattern}
use larafeed.Filter.Nfa.Total.{compile_safe_pattern-IsClosed}
use larafeed.Filter.Simulation.Paths.{Accepts, IsClosed}
use larafeed.Filter.Simulation.Correct.{matches_safe_pattern-Accepts}
use larafeed.Filter.Matching.{
  FilterRules, FilterCandidate, includes_text, or_empty, literal_of, or_else, compile_pattern,
  compile_filter_rules, matches_pattern, matches, matches_subscription_filter,
}

-- What a pattern means for a text: a path through its automaton, or an occurrence of its lower case
-- where it does not compile.
abbrev pub MatchesAs : (Text → Text) → Option SafePattern → Text → Text → Type 0
MatchesAs fold (some safe) pattern value = Accepts safe fold value
MatchesAs fold none pattern value = includes_text (fold value) (fold pattern) ≡ true

abbrev pub Matches : (Text → Text) → Text → Text → Type 0
Matches fold pattern value = MatchesAs fold (compile_safe_pattern fold pattern) pattern value

abbrev pub SomeMatches : (Text → Text) → List Text → Text → Type 0
SomeMatches fold [] value = ⊥
SomeMatches fold (pattern ∷ patterns) value =
    Matches fold pattern value ⊎ SomeMatches fold patterns value

-- One of the rules names the entry.
abbrev pub Excludes : (Text → Text) → FilterRules → FilterCandidate → Type 0
Excludes fold rules candidate =
    SomeMatches fold rules.exclude_title candidate.title
    ⊎ (SomeMatches fold rules.exclude_content (or_empty candidate.content_html)
        ⊎ SomeMatches fold rules.exclude_author (or_empty candidate.author))

abbrev Says : Type 0 → Bool → Type 0
Says P b = (b ≡ true) ↔ P

or_else-Says :
    (P Q : Type 0) (a b : Result Bool)
    → Returns (Says P) a
    → Returns (Says Q) b
    → Returns (Says (P ⊎ Q)) (or_else a b)
or_else-Says P Q a b h k = Returns-bind (Says P) (Says (P ⊎ Q)) a _ h (elim [
  | true ↦ λ (to, from). (λ e. inl (to e), λ _. refl)
  | false ↦ λ (to, from).
      Returns-weaken (Says Q) (Says (P ⊎ Q)) b
        (λ c (to', from'). (
          λ e. inr (to' e),
          λ d. elim d [ inl p ↦ absurd (false≢true (from p)) | inr q ↦ from' q ],
        ))
        k
])

module _ (fold : Text → Text) where
  pattern-Says :
      (safe : Option SafePattern) (pattern value : Text)
      → ((p : SafePattern) → safe ≡ some p → IsClosed p)
      → Returns (Says (MatchesAs fold safe pattern value)) (
          matches_pattern fold
            (record { safe_pattern = safe; literal = literal_of fold safe pattern })
            value)
  unfolding matches_pattern literal_of
  pattern-Says none pattern value closed = ((λ h. h), (λ h. h))
  pattern-Says (some p) pattern value closed =
      let (b, e, says) = matches_safe_pattern-Accepts p fold value (closed p refl) in rw e says

  matches_pattern-Says :
      (pattern value : Text)
      → Returns
          (Says (Matches fold pattern value))
          (matches_pattern fold (compile_pattern fold pattern) value)
  unfolding compile_pattern
  matches_pattern-Says pattern value =
      pattern-Says (compile_safe_pattern fold pattern) pattern value
        (λ p e. (compile_safe_pattern-IsClosed fold pattern p e).0)

  matches-Says :
      (patterns : List Text) (value : Text)
      → Returns
          (Says (SomeMatches fold patterns value))
          (matches fold (map (compile_pattern fold) patterns) value)
  unfolding matches
  matches-Says [] value = ((λ e. absurd (false≢true e)), (λ h. absurd h))
  matches-Says (pattern ∷ patterns) value =
      or_else-Says _ _ _ _ (matches_pattern-Says pattern value) (matches-Says patterns value)

  -- Testing an entry against a user's rules ends without an exception, whatever the rules and the
  -- entry; and the entry is excluded exactly if its title, its content or its author (a missing one
  -- counts as empty) matches some pattern of that field: through the pattern's automaton if it
  -- compiles, and as a literal text without regard to case if it does not.
  pub matches_subscription_filter-Excludes :
      (rules : FilterRules) (candidate : FilterCandidate)
      → (b : Bool) × (matches_subscription_filter fold candidate (compile_filter_rules fold rules)
          ≡ ok b)
        × ((b ≡ true) ↔ Excludes fold rules candidate)
  unfolding matches_subscription_filter compile_filter_rules
  matches_subscription_filter-Excludes rules candidate =
      Returns-ok (Says (Excludes fold rules candidate)) _ (
        or_else-Says _ _ _ _ (matches-Says rules.exclude_title candidate.title) (
          or_else-Says _ _ _ _
            (matches-Says rules.exclude_content (or_empty candidate.content_html))
            (matches-Says rules.exclude_author (or_empty candidate.author))))
