-- ===== src/Filter/Rules/Limits.antt =====
-- The limits of filter rules (for src/worker/subscriptions/filter.ts).
use larafeed.Prelude.{
  ◌⊎◌, ◌≤◌, ◌≡◌, refl, sym, ap, ◌∙◌, subst, Bool, true, false, ◌&&◌, Option, none, some, List, [],
  ◌∷◌, ◌++◌, ltb, ◌==◌, if◌then◌else◌, length, Bool-cases, inl, inr, arith, some-injective,
}
use larafeed.Filter.Ast.{Text}
use larafeed.Filter.Matching.{FilterRules}
use larafeed.Filter.Rules.{
  max_filter_patterns_per_field, max_filter_pattern_length, null, scalar, array, object,
  text_length, object, array, scalar, parsed_rules, Json, Items, nil, cons, text, with_item,
  collect, string_array, rules_from, rules_of, empty_rules, parse_stored_filter_rules,
  is_safe_filter_pattern, all_safe, validate_filter_rules,
}

pub all_safe-append : (xs ys : List Text) → all_safe (xs ++ ys) ≡ (all_safe xs && all_safe ys)
all_safe-append [] ys = refl
all_safe-append (x ∷ xs) ys =
    let rest = all_safe-append xs ys in
    elim (Bool-cases (is_safe_filter_pattern x)) [ inl t ↦ cc | inr f ↦ cc ]

-- The texts of a field respect the limits.
abbrev pub IsWithin : List Text → Type 0
IsWithin texts = (all_safe texts ≡ true) × (length texts ≤ 20)

and_true : (a b : Bool) → (a && b) ≡ true → (a ≡ true) × (b ≡ true)
and_true true b h = (refl, h)
and_true false b h = cc

abbrev pub AllWithin : FilterRules → Type 0
AllWithin rules =
    IsWithin rules.exclude_title × IsWithin rules.exclude_content × IsWithin rules.exclude_author

safe_parts :
    (t c a : List Text)
    → all_safe (t ++ (c ++ a)) ≡ true
    → (all_safe t ≡ true) × (all_safe c ≡ true) × (all_safe a ≡ true)
safe_parts t c a h =
    let (x, y) = and_true (all_safe t) (all_safe (c ++ a)) (sym (all_safe-append t (c ++ a)) ∙ h) in
    let (z, w) = and_true (all_safe c) (all_safe a) (sym (all_safe-append c a) ∙ y) in (x, z, w)

pub validate_filter_rules-AllWithin :
    (rules : FilterRules) → validate_filter_rules rules ≡ true → AllWithin rules
unfolding validate_filter_rules
validate_filter_rules-AllWithin rules h =
    let s : all_safe (rules.exclude_title ++ (rules.exclude_content ++ rules.exclude_author))
        ≡ true =
      ground arith in
    let (x, y, z) = safe_parts rules.exclude_title rules.exclude_content rules.exclude_author s in
    ((x, ground arith), (y, ground arith), (z, ground arith))

all_together :
    (t c a : List Text)
    → all_safe t ≡ true
    → all_safe c ≡ true
    → all_safe a ≡ true
    → all_safe (t ++ (c ++ a)) ≡ true
all_together t c a x y z =
    let e = all_safe-append t (c ++ a) in
    let e' = all_safe-append c a in
    e ∙ ap (λ b. b && all_safe (c ++ a)) x ∙ e' ∙ ap (λ b. b && all_safe a) y ∙ z

AllWithin-validate_filter_rules :
    (rules : FilterRules) → AllWithin rules → validate_filter_rules rules ≡ true
unfolding validate_filter_rules
AllWithin-validate_filter_rules rules ((x, l), (y, m), (z, n)) =
    let s = all_together rules.exclude_title rules.exclude_content rules.exclude_author x y z in
    ground arith

kept_or_added :
    (empty long many : Bool) (result added next : List Text)
    → (if empty then some result else if long then none else if many then none else some added)
      ≡ some next
    → (result ≡ next) ⊎ ((empty ≡ false) × (long ≡ false) × (many ≡ false) × (added ≡ next))
kept_or_added true long many result added next h = inl (some-injective h)
kept_or_added false true many result added next h = cc
kept_or_added false false true result added next h = cc
kept_or_added false false false result added next h = inr (refl, refl, refl, some-injective h)

one_safe :
    (item : Text)
    → (text_length item == 0) ≡ false
    → ltb max_filter_pattern_length (text_length item) ≡ false
    → all_safe (item ∷ []) ≡ true
unfolding is_safe_filter_pattern
one_safe item e l = ground arith

-- what is kept so far respects the limits
with_item-IsWithin :
    (result next : List Text) (item : Json)
    → IsWithin result
    → with_item result item ≡ some next
    → IsWithin next
with_item-IsWithin result next null v h = cc
with_item-IsWithin result next (scalar n) v h = cc
with_item-IsWithin result next (array items) v h = cc
with_item-IsWithin result next (object fields) v h = cc
with_item-IsWithin result next (text item) (s, l) h =
    elim (kept_or_added (text_length item == 0) (ltb max_filter_pattern_length (text_length item))
      (ltb max_filter_patterns_per_field (length (result ++ item ∷ []))) result
      (result ++ item ∷ []) next h) [
        | inl e ↦ subst IsWithin e (s, l)
        | inr (e, long, many, e') ↦ subst IsWithin e' (
          all_safe-append result (item ∷ [])
              ∙ ap (λ b. b && all_safe (item ∷ [])) s
              ∙ one_safe item e long,
          ground arith,
        )
      ]

collect-IsWithin :
    (state : Option (List Text)) (texts : List Text) (items : Items)
    → ((result : List Text) → state ≡ some result → IsWithin result)
    → collect state items ≡ some texts
    → IsWithin texts
collect-IsWithin none texts items v h = cc
collect-IsWithin (some result) texts nil v h = v texts h
collect-IsWithin (some result) texts (cons item items) v h =
    collect-IsWithin (with_item result item) texts items
      (λ next e. with_item-IsWithin result next item (v result refl) e) h

string_array-IsWithin :
    (json : Json) (texts : List Text) → string_array json ≡ some texts → IsWithin texts
string_array-IsWithin (array items) texts h =
    collect-IsWithin (some []) texts items
      (λ r e. subst IsWithin (some-injective e) (refl, omega arith)) h
string_array-IsWithin null texts h = cc
string_array-IsWithin (scalar n) texts h = cc
string_array-IsWithin (text t) texts h = cc
string_array-IsWithin (object fields) texts h = cc

empty-AllWithin : AllWithin empty_rules
empty-AllWithin = ((refl, omega arith), (refl, omega arith), (refl, omega arith))

rules_from-AllWithin :
    (t c a : Option (List Text))
    → ((texts : List Text) → t ≡ some texts → IsWithin texts)
    → ((texts : List Text) → c ≡ some texts → IsWithin texts)
    → ((texts : List Text) → a ≡ some texts → IsWithin texts)
    → AllWithin (rules_from t c a)
rules_from-AllWithin none c a x y z = empty-AllWithin
rules_from-AllWithin (some t) none a x y z = empty-AllWithin
rules_from-AllWithin (some t) (some c) none x y z = empty-AllWithin
rules_from-AllWithin (some t) (some c) (some a) x y z = (x t refl, y c refl, z a refl)

rules_of-AllWithin : (json : Json) → AllWithin (rules_of json)
unfolding rules_of
rules_of-AllWithin (object fields) =
    rules_from-AllWithin _ _ _ (string_array-IsWithin _) (string_array-IsWithin _)
      (string_array-IsWithin _)
rules_of-AllWithin null = empty-AllWithin
rules_of-AllWithin (scalar n) = empty-AllWithin
rules_of-AllWithin (array items) = empty-AllWithin
rules_of-AllWithin (text t) = empty-AllWithin

module _ (parse_json : Text → Option Json) (stringify : Json → Text) where
  parsed_rules-AllWithin :
      (found : Option Json) → AllWithin (parsed_rules parse_json stringify found)
  parsed_rules-AllWithin none = empty-AllWithin
  parsed_rules-AllWithin (some json) = rules_of-AllWithin json

  -- Whatever is stored, JSON or not, the rules that are read from it pass the validation: at most 20
  -- patterns in a field, each of 1 to 200 units of text.
  pub parse_stored-valid :
      (stored : Option Text)
      → validate_filter_rules (parse_stored_filter_rules parse_json stringify stored) ≡ true
  unfolding parse_stored_filter_rules
  parse_stored-valid none = AllWithin-validate_filter_rules empty_rules empty-AllWithin
  parse_stored-valid (some value) =
      AllWithin-validate_filter_rules (parsed_rules parse_json stringify (parse_json value))
        (parsed_rules-AllWithin (parse_json value))
