-- ===== src/Feeds/Ipv6.antt =====
-- IPv6 addresses in the host names of feeds (`parseIpv6` and `isForbiddenIpv6` of
-- src/worker/feeds/policy.ts).
pub mod Groups
use larafeed.Prelude.{
  ℕ, zero, suc, ◌+◌, ◌-◌, ◌*◌, ◌/◌, ◌%◌, Bool, true, false, not, ◌&&◌, ◌||◌, Option, none, some,
  List, [], ◌∷◌, ◌++◌, map, leb, ltb, ◌==◌, if◌then◌else◌, length, take, drop, replicate, get_elem?,
}
use larafeed.Filter.Ast.{Text}
use larafeed.Filter.Escape.{includes}
use larafeed.Feeds.Ipv4.{split_on, every, is_digit, short_digits, ipv4_number}

abbrev pub last_is : ℕ → Text → Bool
last_is c [] = false
last_is c (d ∷ []) = d == c
last_is c (d ∷ e ∷ ds) = last_is c (e ∷ ds)

abbrev pub starts_with : ℕ → Text → Bool
starts_with c [] = false
starts_with c (d ∷ ds) = d == c

-- the host name without its brackets
abbrev pub unwrapped : Text → Text
unwrapped hostname =
    if starts_with b'[' hostname && last_is b']' hostname
    then take (length hostname - 2) (drop 1 hostname)
    else hostname

abbrev pub last_part : List Text → Text
last_part [] = []
last_part (part ∷ []) = part
last_part (part ∷ next ∷ parts) = last_part (next ∷ parts)

abbrev pub all_parts : (Text → Bool) → List Text → Bool
all_parts test [] = true
all_parts test (part ∷ parts) = test part && all_parts test parts

-- what `/(?:^|:)(\d{1,3}(?:\.\d{1,3}){3})$/u` captures: the text after the last colon, if it is four
-- groups of digits
unfoldable pub embedded_ipv4 : Text → Option Text
unfolding split_on
embedded_ipv4 value =
    let part = last_part (split_on b':' value) in
    let groups = split_on b'.' part in
    if length groups == 4 && all_parts short_digits groups then some part else none

abbrev hex_digit : ℕ → ℕ
hex_digit n = if ltb n 10 then b'0' + n else b'a' + (n - 10)

-- `n.toString(16)` of a number below 0x10000: four digits without leading zeros
abbrev pub to_hex : ℕ → Text
to_hex n =
    if ltb n 0x10
    then hex_digit n ∷ []
    else if ltb n 0x100
    then hex_digit (n / 0x10) ∷ hex_digit (n % 0x10) ∷ []
    else if ltb n 0x1000
    then hex_digit (n / 0x100) ∷ hex_digit (n / 0x10 % 0x10) ∷ hex_digit (n % 0x10) ∷ []
    else hex_digit (n / 0x1000)
      ∷ hex_digit (n / 0x100 % 0x10)
      ∷ hex_digit (n / 0x10 % 0x10)
      ∷ hex_digit (n % 0x10)
      ∷ []

-- the value with its embedded address in hexadecimal groups, `none` where that is no address
abbrev pub replaced_ipv4 : Text → Option Text → Option ℕ → Option Text
replaced_ipv4 value none ipv4 = some value
replaced_ipv4 value (some embedded) none = none
replaced_ipv4 value (some embedded) (some ipv4) = some (
    take (length value - length embedded) value
    ++ to_hex (ipv4 / 0x10000 % 0x10000)
    ++ (b':' ∷ to_hex (ipv4 % 0x10000)))

unfoldable pub parsed_embedded : Option Text → Option ℕ
unfolding ipv4_number
parsed_embedded none = none
parsed_embedded (some embedded) = ipv4_number embedded

-- the number of matches of `/::/gu`
abbrev pub double_colons : Text → ℕ
double_colons [] = 0
double_colons (c ∷ []) = 0
double_colons (c ∷ d ∷ cs) =
    let after_both = double_colons cs in
    let after_one = double_colons (d ∷ cs) in
    if c == b':' && d == b':' then suc after_both else after_one

-- `value.split('::')`: what stands before the first `::`, and what stands after it. Where this is
-- called there is no second one.
abbrev pub before_double : Text → Text
before_double [] = []
before_double (c ∷ []) = c ∷ []
before_double (c ∷ d ∷ cs) =
    let rest = before_double (d ∷ cs) in if c == b':' && d == b':' then [] else c ∷ rest

abbrev pub after_double : Text → Option Text
after_double [] = none
after_double (c ∷ []) = none
after_double (c ∷ d ∷ cs) =
    let rest = after_double (d ∷ cs) in if c == b':' && d == b':' then some cs else rest

unfoldable pub groups_of : Text → List Text
unfolding split_on
groups_of [] = []
groups_of (c ∷ cs) = split_on b':' (c ∷ cs)

unfoldable pub groups_after : Option Text → List Text
unfolding groups_of
groups_after none = []
groups_after (some rest) = groups_of rest

abbrev pub is_hex_digit : ℕ → Bool
is_hex_digit c = is_digit c || (leb b'a' c && leb c b'f')

-- `/^[0-9a-f]{1,4}$/u`
abbrev pub short_hex : Text → Bool
short_hex part = leb 1 (length part) && leb (length part) 4 && every is_hex_digit part

abbrev pub hex_value : ℕ → ℕ
hex_value c = if is_digit c then c - b'0' else c - b'a' + 10

-- `Number.parseInt(part, 16)` of such digits
abbrev pub hex_from : ℕ → Text → ℕ
hex_from acc [] = acc
hex_from acc (c ∷ cs) = hex_from (acc * 16 + hex_value c) cs

-- `omitted` is 8 less the number of groups; it may be negative, so that the tests are on the sum.
abbrev pub omits : Option Text → ℕ → Bool
omits none groups = groups == 8
omits (some rest) groups = ltb groups 8

unfoldable pub groups_from : Text → Option Text → Option (List ℕ)
unfolding groups_of groups_after
groups_from left_text right_text =
    let left = groups_of left_text in
    let right = groups_after right_text in
    if all_parts short_hex (left ++ right) && omits right_text (length left + length right)
    then some (
        map (hex_from 0) left
        ++ replicate (8 - length left - length right) 0
        ++ map (hex_from 0) right)
    else none

unfoldable pub groups_in : Option Text → Option (List ℕ)
unfolding groups_from
groups_in none = none
groups_in (some value) =
    if ltb 1 (double_colons value)
    then none
    else groups_from (before_double value) (after_double value)

unfoldable pub parse_lower : Text → Option (List ℕ)
unfolding groups_in embedded_ipv4 parsed_embedded
parse_lower value =
    let embedded = embedded_ipv4 value in
    groups_in (replaced_ipv4 value embedded (parsed_embedded embedded))

unfoldable pub parse_ipv6 : (Text → Text) → Text → Option (List ℕ)
unfolding includes parse_lower
parse_ipv6 to_lower_case hostname =
    let value = unwrapped hostname in
    if includes b':' value && not (includes b'%' value)
    then parse_lower (to_lower_case value)
    else none

-- `parts[index] ?? 0`
abbrev pub group_at : List ℕ → ℕ → ℕ
group_at [] index = 0
group_at (part ∷ parts) zero = part
group_at (part ∷ parts) (suc index) = group_at parts index

abbrev pub all_zero : List ℕ → Bool
all_zero [] = true
all_zero (part ∷ parts) = part == 0 && all_zero parts

-- The comparisons of `parts[0]`, `parts[1]` and `parts[5]` are with numbers other than 0, so that
-- `?? 0` changes none of them.
unfoldable pub is_forbidden_ipv6 : List ℕ → Bool
is_forbidden_ipv6 parts =
    if all_zero (take 5 parts) && group_at parts 5 == 0xffff
    then true
    else let first = group_at parts 0 in
      let second = group_at parts 1 in
      not (leb 0x2000 first && leb first 0x3fff)
      || (first == 0x2001 && leb second 0x01ff)
      || (first == 0x2001 && second == 0x0db8)
      || (first == 0x3fff && leb second 0x0fff)
