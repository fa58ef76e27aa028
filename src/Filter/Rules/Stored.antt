-- ===== src/Filter/Rules/Stored.antt =====
-- What the stored form of filter rules keeps (for src/worker/subscriptions/filter.ts).
use larafeed.Filter.Rules.Limits.{validate_filter_rules-AllWithin, AllWithin}
use larafeed.Prelude.{
  ◌+◌, ◌≤◌, ◌≡◌, refl, sym, ap, ◌∙◌, true, ◌&&◌, Option, none, some, List, [], ◌∷◌, ◌++◌, ◌==◌,
  if◌then◌else◌, length, length-append, Bool-cases, inl, inr, arith,
}
use larafeed.Filter.Ast.{Text}
use larafeed.Filter.Matching.{FilterRules}
use larafeed.Filter.Rules.{
  parsed_rules, Json, text, with_item, collect, rules_of, items_of, json_of, empty_rules,
  parse_stored_filter_rules, serialize_filter_rules, is_safe_filter_pattern, all_safe,
  validate_filter_rules,
}

append_assoc : (xs : List Text) (y : Text) (zs : List Text) → (xs ++ y ∷ []) ++ zs ≡ xs ++ y ∷ zs
append_assoc [] y zs = refl
append_assoc (x ∷ xs) y zs = ap (◌∷◌ x) (append_assoc xs y zs)

append_nil : (xs : List Text) → xs ++ [] ≡ xs
append_nil [] = refl
append_nil (x ∷ xs) = ap (◌∷◌ x) (append_nil xs)

-- Safe items within the limit are all kept, in their order.
with_item-keeps :
    (result : List Text) (item : Text)
    → is_safe_filter_pattern item ≡ true
    → length result + 1 ≤ 20
    → with_item result (text item) ≡ some (result ++ item ∷ [])
unfolding is_safe_filter_pattern
with_item-keeps result item s l = let n = length-append result (item ∷ []) in ground arith

collect-items_of :
    (result texts : List Text)
    → all_safe texts ≡ true
    → length result + length texts ≤ 20
    → collect (some result) (items_of texts) ≡ some (result ++ texts)
unfolding items_of
collect-items_of result [] s l = ap some (sym (append_nil result))
collect-items_of result (item ∷ texts) s l =
    let kept = with_item-keeps result item (ground arith) (ground arith) in
    let n = length-append result (item ∷ []) in
    ap (λ r. collect r (items_of texts)) kept
    ∙ collect-items_of (result ++ item ∷ []) texts (ground arith) (ground arith)
    ∙ ap some (append_assoc result item texts)

rules_of-json_of : (rules : FilterRules) → AllWithin rules → rules_of (json_of rules) ≡ rules
unfolding rules_of json_of
rules_of-json_of rules ((x, l), (y, m), (z, n)) =
    let t = collect-items_of [] rules.exclude_title x (omega arith) in
    let c = collect-items_of [] rules.exclude_content y (omega arith) in
    let a = collect-items_of [] rules.exclude_author z (omega arith) in rw (t, c, a)

no_texts : (texts : List Text) → (length texts == 0) ≡ true → texts ≡ []
no_texts [] h = refl
no_texts (t ∷ texts) h = absurd (ground arith)

empty_parts :
    (t c a : List Text)
    → (length t == 0 && length c == 0 && length a == 0) ≡ true
    → (t ≡ []) × (c ≡ []) × (a ≡ [])
empty_parts [] [] [] h = (refl, refl, refl)
empty_parts (x ∷ t) c a h = absurd (ground arith)
empty_parts [] (x ∷ c) a h = absurd (ground arith)
empty_parts [] [] (x ∷ a) h = absurd (ground arith)

no_rules :
    (rules : FilterRules)
    → (length rules.exclude_title == 0
        && length rules.exclude_content == 0
        && length rules.exclude_author == 0)
      ≡ true
    → empty_rules ≡ rules
no_rules rules h =
    let (x, y, z) = empty_parts rules.exclude_title rules.exclude_content rules.exclude_author h in
    λ i. record { exclude_title = sym x i; exclude_content = sym y i; exclude_author = sym z i }

module _ (parse_json : Text → Option Json) (stringify : Json → Text) where
  -- Where `parse_json` reads back what `stringify` wrote of the objects of rules, rules that pass the validation are
  -- read back from their stored form as they were: the same patterns in the same order, also where
  -- all the fields are empty and nothing is stored.
  pub parse_stored-serialize :
      (rules : FilterRules)
      → ((r : FilterRules) → parse_json (stringify (json_of r)) ≡ some (json_of r))
      → validate_filter_rules rules ≡ true
      → parse_stored_filter_rules parse_json stringify
          (serialize_filter_rules parse_json stringify rules)
        ≡ rules
  unfolding parse_stored_filter_rules serialize_filter_rules
  parse_stored-serialize rules back h =
      let empty =
        length rules.exclude_title == 0
        && length rules.exclude_content == 0
        && length rules.exclude_author == 0 in
      let stored = some (stringify (json_of rules)) in
      elim (Bool-cases empty) [
        | inl t ↦
            ap (λ b. parse_stored_filter_rules parse_json stringify (if b then none else stored)) t
            ∙ no_rules rules t
        | inr f ↦
            ap (λ b. parse_stored_filter_rules parse_json stringify (if b then none else stored)) f
            ∙ ap (parsed_rules parse_json stringify) (back rules)
            ∙ rules_of-json_of rules (validate_filter_rules-AllWithin rules h)
      ]
