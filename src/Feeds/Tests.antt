-- ===== src/Feeds/Tests.antt =====
-- Runs of the policy on feed addresses.
use larafeed.Prelude.{false, ℕ, ◌≡◌, ◌↔◌, refl, Option, some, [], ◌∷◌, true, length, arith}
use larafeed.Filter.Ast.{Text}
use larafeed.Feeds.Ipv4.{is_forbidden_ipv4}
use larafeed.Feeds.Ipv4.Reserved.{address_of, IsReserved, is_forbidden_ipv4-IsReserved}
use larafeed.Feeds.Ipv6.{parse_ipv6, is_forbidden_ipv6}
use larafeed.Feeds.Ipv6.Groups.{parse_ipv6-length, IsGlobal, is_forbidden_ipv6-IsGlobal}
use larafeed.Feeds.Policy.{Url, url_text, rejected, forbidden_ip_address, https, validate_feed_url}
use larafeed.Feeds.Policy.Allowed.{Allowed}

-- [2606::1.2.3.4]
abbrev address : Text
address =
    b'[' ∷ b'2' ∷ b'6' ∷ b'0' ∷ b'6' ∷ b':' ∷ b':' ∷ b'1' ∷ b'.' ∷ b'2' ∷ b'.' ∷ b'3' ∷ b'.' ∷ b'4'
    ∷ b']' ∷ []

-- a parser that takes the text for the host name of an address with https
abbrev parse_url : Text → Option Url
parse_url input = some (record {
  protocol = https;
  username = [];
  password = [];
  hash = [];
  port = [];
  hostname = input;
})

abbrev set_hostname : Url → Text → Url
set_hostname url hostname = record url { hostname = hostname }

abbrev keep : Text → Text
keep text = text

abbrev url : Url
url = record {
  protocol = https;
  username = [];
  password = [];
  hash = [];
  port = [];
  hostname = address;
}

read_address : parse_ipv6 keep address ≡ some (0x2606 ∷ 0 ∷ 0 ∷ 0 ∷ 0 ∷ 0 ∷ 0x0102 ∷ 0x0304 ∷ [])
unfolding parse_ipv6
read_address = refl

-- 10.0.0.1
reject_private :
    validate_feed_url parse_url set_hostname keep
      (url_text (b'1' ∷ b'0' ∷ b'.' ∷ b'0' ∷ b'.' ∷ b'0' ∷ b'.' ∷ b'1' ∷ []))
    ≡ rejected forbidden_ip_address
unfolding validate_feed_url
reject_private = refl

is_forbidden_ipv4-IsReserved_example :
    (is_forbidden_ipv4 (address_of 192 168 1 1) ≡ true) ↔ IsReserved 192 168 1 1
is_forbidden_ipv4-IsReserved_example =
    is_forbidden_ipv4-IsReserved 192 168 1 1 (omega arith) (omega arith) (omega arith) (omega arith)

parse_ipv6-length_example : length {A = ℕ} (0x2606 ∷ 0 ∷ 0 ∷ 0 ∷ 0 ∷ 0 ∷ 0x0102 ∷ 0x0304 ∷ []) ≡ 8
parse_ipv6-length_example = parse_ipv6-length keep address _ read_address

allowed : is_forbidden_ipv6 (0x2606 ∷ 0 ∷ 0 ∷ 0 ∷ 0 ∷ 0 ∷ 0x0102 ∷ 0x0304 ∷ []) ≡ false
unfolding is_forbidden_ipv6
allowed = refl

is_forbidden_ipv6-IsGlobal_example : IsGlobal (0x2606 ∷ 0 ∷ 0 ∷ 0 ∷ 0 ∷ 0 ∷ 0x0102 ∷ 0x0304 ∷ [])
is_forbidden_ipv6-IsGlobal_example =
    is_forbidden_ipv6-IsGlobal (0x2606 ∷ 0 ∷ 0 ∷ 0 ∷ 0 ∷ 0 ∷ 0x0102 ∷ 0x0304 ∷ []) allowed
