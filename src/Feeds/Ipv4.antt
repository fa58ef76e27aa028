-- ===== src/Feeds/Ipv4.antt =====
-- IPv4 addresses in the host names of feeds (`ipv4Number` and `isForbiddenIpv4` of
-- src/worker/feeds/policy.ts). A text is the list of its code points.
pub mod Reserved
use larafeed.Prelude.{
  ℕ, zero, suc, ◌+◌, ◌-◌, ◌*◌, Bool, true, false, ◌&&◌, ◌||◌, Option, none, some, List, [], ◌∷◌,
  leb, ◌==◌, if◌then◌else◌, length,
}
use larafeed.Filter.Ast.{Text}

abbrev pub forbidden_ipv4_ranges : List (ℕ × ℕ)
forbidden_ipv4_ranges =
    (0x00000000, 0x00ffffff)
    ∷ (0x0a000000, 0x0affffff)
    ∷ (0x64400000, 0x647fffff)
    ∷ (0x7f000000, 0x7fffffff)
    ∷ (0xa9fe0000, 0xa9feffff)
    ∷ (0xac100000, 0xac1fffff)
    ∷ (0xc0000000, 0xc00000ff)
    ∷ (0xc0000200, 0xc00002ff)
    ∷ (0xc01fc400, 0xc01fc4ff)
    ∷ (0xc034c100, 0xc034c1ff)
    ∷ (0xc0586300, 0xc05863ff)
    ∷ (0xc0a80000, 0xc0a8ffff)
    ∷ (0xc0af3000, 0xc0af30ff)
    ∷ (0xc6120000, 0xc613ffff)
    ∷ (0xc6336400, 0xc63364ff)
    ∷ (0xcb007100, 0xcb0071ff)
    ∷ (0xe0000000, 0xffffffff)
    ∷ []

abbrev cons_first : ℕ → List Text → List Text
cons_first c [] = (c ∷ []) ∷ []
cons_first c (part ∷ parts) = (c ∷ part) ∷ parts

-- `text.split(separator)` for a separator of one character
unfoldable pub split_on : ℕ → Text → List Text
split_on separator [] = [] ∷ []
split_on separator (c ∷ cs) =
    let parts = split_on separator cs in if c == separator then [] ∷ parts else cons_first c parts

abbrev pub every : (ℕ → Bool) → Text → Bool
every test [] = true
every test (c ∷ cs) = test c && every test cs

abbrev pub is_digit : ℕ → Bool
is_digit c = leb b'0' c && leb c b'9'

-- `/^\d{1,3}$/u`
abbrev pub short_digits : Text → Bool
short_digits part = leb 1 (length part) && leb (length part) 3 && every is_digit part

-- `Number(part)` of digits
abbrev pub decimal_from : ℕ → Text → ℕ
decimal_from acc [] = acc
decimal_from acc (c ∷ cs) = decimal_from (acc * 10 + (c - b'0')) cs

abbrev pub checked_octet : ℕ → Option ℕ
checked_octet octet = if leb octet 255 then some octet else none

-- the checks on one part in `ipv4Number`
abbrev pub octet_of : Text → Option ℕ
octet_of part = if short_digits part then checked_octet (decimal_from 0 part) else none

unfoldable pub octets_from : ℕ → List Text → Option ℕ
octets_from result [] = some result
octets_from result (part ∷ parts) = elim (octet_of part) [
  | none ↦ none
  | some octet ↦ octets_from (result * 256 + octet) parts
]

unfoldable pub four_octets : List Text → Option ℕ
unfolding octets_from
four_octets parts = if length parts == 4 then octets_from 0 parts else none

unfoldable pub ipv4_number : Text → Option ℕ
unfolding split_on four_octets
ipv4_number hostname = four_octets (split_on b'.' hostname)

abbrev pub within_ranges : List (ℕ × ℕ) → ℕ → Bool
within_ranges [] address = false
within_ranges ((start, end) ∷ ranges) address =
    (leb start address && leb address end) || within_ranges ranges address

unfoldable pub is_forbidden_ipv4 : ℕ → Bool
is_forbidden_ipv4 address = within_ranges forbidden_ipv4_ranges address
