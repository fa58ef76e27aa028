-- ===== src/Feeds/Policy.antt =====
-- The policy on feed addresses: `validateFeedUrl` of src/worker/feeds/policy.ts. The platform's URL
-- parser, its setter of the host name and `toLowerCase` are parameters; the parser is run on the text
-- given, or on the `href` of the URL object given.
pub mod Allowed
use larafeed.Prelude.{
  ℕ, ◌+◌, Bool, true, false, not, ◌&&◌, ◌||◌, Option, none, some, List, [], ◌∷◌, ◌==◌,
  if◌then◌else◌, length, drop, take, ◌-◌,
}
use larafeed.Filter.Ast.{Text}
use larafeed.Filter.Escape.{includes}
use larafeed.Filter.Simulation.{text_eq}
use larafeed.Feeds.Ipv4.{ipv4_number, is_forbidden_ipv4}
use larafeed.Feeds.Ipv6.{parse_ipv6, is_forbidden_ipv6, last_is}

pub data Reason : Type 0 where
  invalid_url unsupported_protocol credentials_forbidden fragment_forbidden : Reason
  nonstandard_port forbidden_ip_address forbidden_hostname : Reason

-- `string | URL`; of a URL object the source reads the `href` alone.
pub data Input : Type 0 where
  url_text : Text → Input
  url_object : Text → Input

abbrev pub address_of_input : Input → Text
address_of_input (url_text address) = address
address_of_input (url_object href) = href

pub record Url : Type 0 where
  pub protocol : Text
  pub username : Text
  pub password : Text
  pub hash : Text
  pub port : Text
  pub hostname : Text

pub data Verdict : Type 0 where
  accepted : Url → Verdict
  rejected : Reason → Verdict

abbrev pub http : Text
http = b'h' ∷ b't' ∷ b't' ∷ b'p' ∷ b':' ∷ []

abbrev pub https : Text
https = b'h' ∷ b't' ∷ b't' ∷ b'p' ∷ b's' ∷ b':' ∷ []

-- `STANDARD_PORTS[protocol]`
abbrev pub standard_port : Text → Option Text
standard_port protocol =
    if text_eq protocol http
    then some (b'8' ∷ b'0' ∷ [])
    else if text_eq protocol https
    then some (b'4' ∷ b'4' ∷ b'3' ∷ [])
    else none

abbrev pub localhost : Text
localhost = b'l' ∷ b'o' ∷ b'c' ∷ b'a' ∷ b'l' ∷ b'h' ∷ b'o' ∷ b's' ∷ b't' ∷ []

abbrev pub local : Text
local = b'l' ∷ b'o' ∷ b'c' ∷ b'a' ∷ b'l' ∷ []

-- `text.endsWith(suffix)`
abbrev pub ends_with : Text → Text → Bool
ends_with [] suffix = text_eq suffix []
ends_with (c ∷ cs) suffix = text_eq suffix (c ∷ cs) || ends_with cs suffix

-- `.replace(/\.$/u, '')`
abbrev pub without_dot : Text → Text
without_dot hostname =
    if last_is b'.' hostname then take (length hostname - 1) hostname else hostname

unfoldable pub forbidden_name : Text → Bool
unfolding includes
forbidden_name hostname =
    text_eq hostname localhost
    || ends_with hostname (b'.' ∷ localhost)
    || ends_with hostname (b'.' ∷ local)
    || not (includes b'.' hostname)

abbrev pub is_empty : Text → Bool
is_empty [] = true
is_empty (c ∷ cs) = false

abbrev pub has_credentials : Url → Bool
has_credentials url = not (is_empty url.username) || not (is_empty url.password)

-- `url.port !== '' && url.port !== STANDARD_PORTS[url.protocol]`
abbrev pub wrong_port : Text → Text → Bool
wrong_port port standard = not (is_empty port) && not (text_eq port standard)

abbrev pub on_ip : Bool → Url → Verdict
on_ip true url = rejected forbidden_ip_address
on_ip false url = accepted url

module _ (parse_url : Text → Option Url) (set_hostname : Url → Text → Url)
    (to_lower_case : Text → Text) where
  unfoldable pub on_name : Url → Text → Verdict
  unfolding forbidden_name
  on_name url hostname =
      if forbidden_name hostname
      then rejected forbidden_hostname
      else accepted (set_hostname url hostname)

  unfoldable pub on_ipv6 : Url → Text → Option (List ℕ) → Verdict
  unfolding is_forbidden_ipv6 on_name
  on_ipv6 url hostname none = on_name url hostname
  on_ipv6 url hostname (some parts) = on_ip (is_forbidden_ipv6 parts) url

  unfoldable pub on_ipv4 : Url → Text → Option ℕ → Verdict
  unfolding is_forbidden_ipv4 parse_ipv6 on_ipv6
  on_ipv4 url hostname none = on_ipv6 url hostname (parse_ipv6 to_lower_case hostname)
  on_ipv4 url hostname (some address) = on_ip (is_forbidden_ipv4 address) url

  unfoldable pub on_host : Url → Text → Verdict
  unfolding ipv4_number on_ipv4
  on_host url hostname = on_ipv4 url hostname (ipv4_number hostname)

  unfoldable pub checked_url : Url → Option Text → Verdict
  unfolding on_host
  checked_url url none = rejected unsupported_protocol
  checked_url url (some standard) =
      if has_credentials url
      then rejected credentials_forbidden
      else if not (is_empty url.hash)
      then rejected fragment_forbidden
      else if wrong_port url.port standard
      then rejected nonstandard_port
      else on_host url (without_dot (to_lower_case url.hostname))

  unfoldable pub validate_parsed : Option Url → Verdict
  unfolding checked_url
  validate_parsed none = rejected invalid_url
  validate_parsed (some url) = checked_url url (standard_port url.protocol)

  -- A URL object is parsed again, from its `href`.
  unfoldable pub validate_feed_url : Input → Verdict
  unfolding validate_parsed
  validate_feed_url input = validate_parsed (parse_url (address_of_input input))
