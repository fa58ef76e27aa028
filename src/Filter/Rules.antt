-- ===== src/Filter/Rules.antt =====
-- The stored form of filter rules and their limits (`parseStoredFilterRules`, `serializeFilterRules` and
-- `validateFilterRules` of src/worker/subscriptions/filter.ts).
pub mod Stored
pub mod Limits
mod Tests
use larafeed.Prelude.{
  ℕ, ◌+◌, Bool, true, false, ◌&&◌, not, Option, none, some, List, [], ◌∷◌, ◌++◌, ltb, leb, ◌==◌,
  if◌then◌else◌, length, String, str_eq,
}
use larafeed.Filter.Ast.{Text}
use larafeed.Filter.Matching.{FilterRules}

abbrev pub max_filter_patterns_per_field : ℕ
max_filter_patterns_per_field = 20

abbrev pub max_filter_pattern_length : ℕ
max_filter_pattern_length = 200

-- What `JSON.parse` makes: the code tells texts, arrays, objects and null from one another and from all
-- else (`scalar`). An object has each of its keys once.
mutual
  pub data Json : Type 0 where
    null : Json
    scalar : ℕ → Json
    text : Text → Json
    array : Items → Json
    object : Fields → Json

  pub data Items : Type 0 where
    nil : Items
    cons : Json → Items → Items

  pub data Fields : Type 0 where
    end : Fields
    field : String → Json → Fields → Fields

abbrev pub empty_rules : FilterRules
empty_rules = record { exclude_title = []; exclude_content = []; exclude_author = [] }

-- `length` of a text: a character beyond U+FFFF counts twice
unfoldable pub text_length : Text → ℕ
text_length [] = 0
text_length (c ∷ rest) = (if ltb c 65_536 then 1 else 2) + text_length rest

-- one round of the loop of `stringArray`: the texts so far, with the item
abbrev pub with_item : List Text → Json → Option (List Text)
with_item result (text item) =
    if text_length item == 0
    then some result
    else if ltb max_filter_pattern_length (text_length item)
    then none
    else if ltb max_filter_patterns_per_field (length (result ++ item ∷ []))
    then none
    else some (result ++ item ∷ [])
with_item result null = none
with_item result (scalar n) = none
with_item result (array items) = none
with_item result (object fields) = none

abbrev pub collect : Option (List Text) → Items → Option (List Text)
collect none items = none
collect (some result) nil = some result
collect (some result) (cons item items) = collect (with_item result item) items

abbrev pub string_array : Json → Option (List Text)
string_array (array items) = collect (some []) items
string_array null = none
string_array (scalar n) = none
string_array (text t) = none
string_array (object fields) = none

-- `record[key] ?? fallback`
abbrev pub or_json : Json → Json → Json
or_json null fallback = fallback
or_json (scalar n) fallback = scalar n
or_json (text t) fallback = text t
or_json (array items) fallback = array items
or_json (object fields) fallback = object fields

abbrev pub property : Fields → String → Json → Json
property end key fallback = fallback
property (field k v fields) key fallback =
    let rest = property fields key fallback in if str_eq k key then or_json v fallback else rest

abbrev pub property_of : Fields → String → String → Option (List Text)
property_of fields key old_key =
    string_array (property fields key (property fields old_key (array nil)))

abbrev pub rules_from : Option (List Text) → Option (List Text) → Option (List Text) → FilterRules
rules_from none content author = empty_rules
rules_from (some title) none author = empty_rules
rules_from (some title) (some content) none = empty_rules
rules_from (some title) (some content) (some author) = record {
  exclude_title = title;
  exclude_content = content;
  exclude_author = author;
}

-- An array is an object that has none of the keys.
unfoldable pub rules_of : Json → FilterRules
rules_of (object fields) =
    rules_from (property_of fields "excludeTitle" "exclude_title")
      (property_of fields "excludeContent" "exclude_content")
      (property_of fields "excludeAuthor" "exclude_author")
rules_of (array items) = empty_rules
rules_of null = empty_rules
rules_of (scalar n) = empty_rules
rules_of (text t) = empty_rules

unfoldable pub items_of : List Text → Items
items_of [] = nil
items_of (t ∷ texts) = cons (text t) (items_of texts)

unfoldable pub json_of : FilterRules → Json
json_of rules = object (
    field "exclude_title" (array (items_of rules.exclude_title)) (
      field "exclude_content" (array (items_of rules.exclude_content))
        (field "exclude_author" (array (items_of rules.exclude_author)) end)))

-- `JSON.parse`, which may throw, and `JSON.stringify`
module _ (parse_json : Text → Option Json) (stringify : Json → Text) where
  abbrev pub parsed_rules : Option Json → FilterRules
  parsed_rules none = empty_rules
  parsed_rules (some json) = rules_of json

  unfoldable pub parse_stored_filter_rules : Option Text → FilterRules
  parse_stored_filter_rules none = empty_rules
  parse_stored_filter_rules (some value) = parsed_rules (parse_json value)

  unfoldable pub serialize_filter_rules : FilterRules → Option Text
  serialize_filter_rules rules =
      if length rules.exclude_title == 0
        && length rules.exclude_content == 0
        && length rules.exclude_author == 0
      then none
      else some (stringify (json_of rules))

unfoldable pub is_safe_filter_pattern : Text → Bool
unfolding text_length
is_safe_filter_pattern pattern =
    ltb 0 (text_length pattern) && leb (text_length pattern) max_filter_pattern_length

abbrev pub all_safe : List Text → Bool
all_safe [] = true
all_safe (pattern ∷ patterns) = is_safe_filter_pattern pattern && all_safe patterns

unfoldable pub validate_filter_rules : FilterRules → Bool
unfolding is_safe_filter_pattern
validate_filter_rules rules =
    leb (length rules.exclude_title) max_filter_patterns_per_field
    && leb (length rules.exclude_content) max_filter_patterns_per_field
    && leb (length rules.exclude_author) max_filter_patterns_per_field
    && all_safe (rules.exclude_title ++ (rules.exclude_content ++ rules.exclude_author))
