-- ===== src/Compat.antt =====
-- The item identifiers of the compatibility APIs (src/worker/compat/protocol.ts).
pub mod Tags
mod Tests
use Prim.Native.Char.{code}
use Prim.Native.String.{String}
use larafeed.Prelude.{
  ℕ, zero, suc, ◌+◌, ◌-◌, ◌*◌, ◌/◌, ◌%◌, Bool, true, false, not, ◌&&◌, ◌||◌, Option, none, some,
  List, [], ◌∷◌, ◌++◌, ltb, leb, ◌==◌, if◌then◌else◌, length, replicate,
}
use larafeed.Filter.Ast.{Text}
use larafeed.Filter.Simulation.{is_whitespace_character}

abbrev pub codes : String → Text
codes String.[] = []
codes (String.◌∷◌ c s) = code c ∷ codes s

abbrev pub google_item_prefix : Text
google_item_prefix = codes "tag:google.com,2005:reader/item/"

-- `value.trim()`
abbrev pub trim_start : Text → Text
trim_start [] = []
trim_start (c ∷ cs) = let rest = trim_start cs in if is_whitespace_character c then rest else c ∷ cs

abbrev pub is_blank : Text → Bool
is_blank [] = true
is_blank (c ∷ cs) = false

abbrev pub trim_end : Text → Text
trim_end [] = []
trim_end (c ∷ cs) =
    let rest = trim_end cs in if is_blank rest && is_whitespace_character c then [] else c ∷ rest

-- what stands after a prefix, if the text starts with it
abbrev pub after_prefix : Text → Text → Option Text
after_prefix [] text = some text
after_prefix (p ∷ prefix) [] = none
after_prefix (p ∷ prefix) (c ∷ text) =
    let rest = after_prefix prefix text in if p == c then rest else none

abbrev pub is_decimal : ℕ → Bool
is_decimal c = leb b'0' c && leb c b'9'

abbrev pub is_letter : ℕ → Bool
is_letter c = (leb b'a' c && leb c b'f') || (leb b'A' c && leb c b'F')

abbrev pub is_hex : ℕ → Bool
is_hex c = is_decimal c || is_letter c

abbrev pub all_of : (ℕ → Bool) → Text → Bool
all_of test [] = true
all_of test (c ∷ text) = test c && all_of test text

abbrev pub some_of : (ℕ → Bool) → Text → Bool
some_of test [] = false
some_of test (c ∷ text) = test c || some_of test text

abbrev pub digit_value : ℕ → ℕ
digit_value c = if leb c b'9' then c - b'0' else if leb c b'F' then c - 55 else c - 87

abbrev pub parse_from : ℕ → ℕ → Text → ℕ
parse_from radix n [] = n
parse_from radix n (c ∷ text) = parse_from radix (n * radix + digit_value c) text

abbrev pub max_safe_integer : ℕ
max_safe_integer = 9_007_199_254_740_991

-- `Number.parseInt` of digits; what is rounded above the safe integers stays above them
abbrev pub safe_id : ℕ → Option ℕ
safe_id n = if leb n max_safe_integer && ltb 0 n then some n else none

abbrev pub in_radix : (ℕ → Bool) → ℕ → Text → Option ℕ
in_radix test radix [] = none
in_radix test radix (c ∷ text) =
    if all_of test (c ∷ text) then safe_id (parse_from radix 0 (c ∷ text)) else none

-- `/^0x[0-9a-f]+$/iu`
abbrev pub after_0x : Text → Option Text
after_0x (z ∷ x ∷ c ∷ text) =
    if z == b'0' && (x == b'x' || x == b'X') && all_of is_hex (c ∷ text)
    then some (c ∷ text)
    else none
after_0x (z ∷ x ∷ []) = none
after_0x (z ∷ []) = none
after_0x [] = none

abbrev pub parse_untagged : Option Text → Text → Option ℕ
parse_untagged (some digits) candidate = in_radix is_hex 16 digits
parse_untagged none candidate =
    if all_of is_hex candidate && some_of is_letter candidate
    then in_radix is_hex 16 candidate
    else in_radix is_decimal 10 candidate

abbrev pub parse_candidate : Option Text → Text → Option ℕ
parse_candidate (some digits) candidate = in_radix is_hex 16 digits
parse_candidate none candidate = parse_untagged (after_0x candidate) candidate

unfoldable pub parse_compatibility_item_id : Text → Option ℕ
unfolding is_whitespace_character
parse_compatibility_item_id value =
    let candidate = trim_start (trim_end value) in
    parse_candidate (after_prefix google_item_prefix candidate) candidate

abbrev pub hex_digit : ℕ → ℕ
hex_digit d = if ltb d 10 then d + b'0' else d + 87

-- `id.toString(16)`; each round divides by 16
abbrev pub to_hex : ℕ → ℕ → Text
to_hex zero n = []
to_hex (suc fuel) n =
    let rest = to_hex fuel (n / 16) in
    if ltb n 16 then hex_digit n ∷ [] else rest ++ hex_digit (n % 16) ∷ []

-- `padStart(16, '0')`
abbrev pub pad_start : Text → Text
pad_start text = replicate (16 - length text) b'0' ++ text

-- 14 digits are enough for safe integers.
unfoldable pub google_item_tag : ℕ → Text
google_item_tag id = google_item_prefix ++ pad_start (to_hex 14 id)
