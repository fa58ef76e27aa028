-- ===== src/Filter/Rules/Tests.antt =====
-- The stored form of filter rules, written and read in a code of numbers: 0 begins a field, 1 a text, and
-- 2 and more are the characters of a text.
use larafeed.Filter.Rules.Limits.{parse_stored-valid}
use larafeed.Prelude.{
  ℕ, ◌+◌, ◌-◌, ◌≡◌, refl, ap, ◌∙◌, Option, none, some, List, [], ◌∷◌, ◌==◌, if◌then◌else◌, arith,
}
use larafeed.Filter.Ast.{Text}
use larafeed.Filter.Matching.{FilterRules}
use larafeed.Filter.Rules.{
  true, validate_filter_rules, Json, Items, nil, cons, text, array, object, field, items_of,
  json_of, parse_stored_filter_rules, serialize_filter_rules,
}
use larafeed.Filter.Rules.Stored.{parse_stored-serialize}

record Read : Type 0 where
  characters : Text
  texts : List Text
  fields : List (List Text)

abbrev read_one : ℕ → Read → Read
read_one n r =
    if n == 0
    then record { characters = []; texts = []; fields = r.texts ∷ r.fields }
    else if n == 1
    then record { characters = []; texts = r.characters ∷ r.texts; fields = r.fields }
    else record r { characters = (n - 2) ∷ r.characters }

abbrev read : Text → Read
read [] = record { characters = []; texts = []; fields = [] }
read (n ∷ rest) = read_one n (read rest)

abbrev write_characters : Text → Text → Text
write_characters [] rest = rest
write_characters (c ∷ cs) rest = (c + 2) ∷ write_characters cs rest

abbrev write_texts : List Text → Text → Text
write_texts [] rest = rest
write_texts (t ∷ ts) rest = 1 ∷ write_characters t (write_texts ts rest)

abbrev texts_in : Items → List Text
texts_in nil = []
texts_in (cons (text t) items) = t ∷ texts_in items
texts_in (cons other items) = texts_in items

abbrev write : Json → Text
write (object (field k (array t) (field l (array c) (field m (array a) fields)))) =
    0 ∷ write_texts (texts_in t) (0 ∷ write_texts (texts_in c) (0 ∷ write_texts (texts_in a) []))
write other = []

abbrev json_from : List (List Text) → Option Json
json_from (t ∷ c ∷ a ∷ []) =
    some (json_of (record { exclude_title = t; exclude_content = c; exclude_author = a }))
json_from other = none

abbrev read_json : Text → Option Json
read_json t = json_from (read t).fields

read-write_characters :
    (t rest : Text) (ts : List Text) (fs : List (List Text))
    → read rest ≡ record { characters = []; texts = ts; fields = fs }
    → read (write_characters t rest) ≡ record { characters = t; texts = ts; fields = fs }
read-write_characters [] rest ts fs h = h
read-write_characters (c ∷ cs) rest ts fs h =
    ap (read_one (c + 2)) (read-write_characters cs rest ts fs h) ∙ added
  where
    added :
        read_one (c + 2) (record { characters = cs; texts = ts; fields = fs })
        ≡ record { characters = c ∷ cs; texts = ts; fields = fs }
    added = ground arith

read-write_texts :
    (texts : List Text) (rest : Text) (fs : List (List Text))
    → read rest ≡ record { characters = []; texts = []; fields = fs }
    → read (write_texts texts rest) ≡ record { characters = []; texts = texts; fields = fs }
read-write_texts [] rest fs h = h
read-write_texts (t ∷ ts) rest fs h =
    ap (read_one 1)
      (read-write_characters t (write_texts ts rest) ts fs (read-write_texts ts rest fs h))

texts_in-items_of : (texts : List Text) → texts_in (items_of texts) ≡ texts
unfolding items_of
texts_in-items_of [] = refl
texts_in-items_of (t ∷ ts) = ap (◌∷◌ t) (texts_in-items_of ts)

abbrev recode : List Text → List Text → List Text → Option Json
recode t c a = read_json (0 ∷ write_texts t (0 ∷ write_texts c (0 ∷ write_texts a [])))

read_json-write : (rules : FilterRules) → read_json (write (json_of rules)) ≡ some (json_of rules)
unfolding json_of
read_json-write rules =
    let t = texts_in-items_of rules.exclude_title in
    let c = texts_in-items_of rules.exclude_content in
    let a = texts_in-items_of rules.exclude_author in
    let x = read-write_texts rules.exclude_author [] [] refl in
    let y = read-write_texts rules.exclude_content _ _ (ap (read_one 0) x) in
    let z = read-write_texts rules.exclude_title _ _ (ap (read_one 0) y) in
    ap
      (λ l.
        recode l (texts_in (items_of rules.exclude_content))
          (texts_in (items_of rules.exclude_author)))
      t
    ∙ ap (λ l. recode rules.exclude_title l (texts_in (items_of rules.exclude_author))) c
    ∙ ap (recode rules.exclude_title rules.exclude_content) a
    ∙ ap (λ (r : Read). json_from (r.texts ∷ r.fields)) z

abbrev spam : FilterRules
spam = record {
  exclude_title = (b's' ∷ b'p' ∷ []) ∷ (b'a' ∷ []) ∷ [];
  exclude_content = [];
  exclude_author = (b'x' ∷ []) ∷ [];
}

parse_stored-serialize_example :
    parse_stored_filter_rules read_json write (serialize_filter_rules read_json write spam) ≡ spam
unfolding validate_filter_rules
parse_stored-serialize_example = parse_stored-serialize read_json write spam read_json-write refl

parse_stored-valid_example :
    validate_filter_rules (parse_stored_filter_rules read_json write (some (write (json_of spam))))
    ≡ true
parse_stored-valid_example = parse_stored-valid read_json write (some (write (json_of spam)))
