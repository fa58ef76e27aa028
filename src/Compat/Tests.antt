-- ===== src/Compat/Tests.antt =====
-- Runs on small identifiers.
use larafeed.Compat.Tags.{parse_compatibility_item_id-google_item_tag}
use larafeed.Prelude.{arith, ◌≡◌, refl, some, none}
use larafeed.Compat.{codes, parse_compatibility_item_id, google_item_tag}

tag_small : google_item_tag 26 ≡ codes "tag:google.com,2005:reader/item/000000000000001a"
unfolding google_item_tag
tag_small = refl

parse_decimal : parse_compatibility_item_id (codes " 26 ") ≡ some 26
unfolding parse_compatibility_item_id
parse_decimal = refl

parse_hex : parse_compatibility_item_id (codes "0x1A") ≡ some 26
unfolding parse_compatibility_item_id
parse_hex = refl

parse_zero : parse_compatibility_item_id (codes "0") ≡ none
unfolding parse_compatibility_item_id
parse_zero = refl

parse_compatibility_item_id-google_item_tag_example :
    parse_compatibility_item_id (google_item_tag 9_007_199_254_740_991) ≡ some 9_007_199_254_740_991
parse_compatibility_item_id-google_item_tag_example =
    parse_compatibility_item_id-google_item_tag 9_007_199_254_740_991 (omega arith) (omega arith)
