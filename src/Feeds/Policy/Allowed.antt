-- ===== src/Feeds/Policy/Allowed.antt =====
-- The addresses that the policy lets through (`validateFeedUrl` of src/worker/feeds/policy.ts).
use larafeed.Prelude.{
  ℕ, ◌≤◌, ◌≡◌, ◌⊎◌, Bool, true, false, Option, none, some, List, [], ◌∷◌, length,
}
use larafeed.Filter.Ast.{Text}
use larafeed.Filter.Escape.{includes}
use larafeed.Filter.Simulation.{text_eq}
use larafeed.Feeds.Ipv4.{ipv4_number}
use larafeed.Feeds.Ipv4.Reserved.{address_of, IsReserved}
use larafeed.Feeds.Ipv6.{parse_ipv6}
use larafeed.Feeds.Ipv6.Groups.{IsGlobal}
use larafeed.Feeds.Policy.{
  Url, http, https, standard_port, localhost, local, ends_with, without_dot,
}

-- `n` is the address of four octets, each at most 255, outside the reserved networks.
abbrev pub IsPublic : ℕ → Type 0
IsPublic n =
    (a b c d : ℕ) × (a ≤ 255)
    × (b ≤ 255)
    × (c ≤ 255)
    × (d ≤ 255)
    × (n ≡ address_of a b c d)
    × (IsReserved a b c d → ⊥)

module _ (parse_url : Text → Option Url) (set_hostname : Url → Text → Url)
    (to_lower_case : Text → Text) where
  -- The host is a public IPv4 address, a global IPv6 address, or a name with a dot in it that is not
  -- local; only for a name is the host name written again.
  abbrev pub HostAllowed : Url → Text → Url → Type 0
  HostAllowed url hostname result =
      ((n : ℕ) × (ipv4_number hostname ≡ some n) × IsPublic n × (result ≡ url))
      ⊎ (((parts : List ℕ) × (parse_ipv6 to_lower_case hostname ≡ some parts)
            × (length parts ≡ 8)
            × IsGlobal parts
            × (result ≡ url))
          ⊎ ((ipv4_number hostname ≡ none)
              × (parse_ipv6 to_lower_case hostname ≡ none)
              × (includes b'.' hostname ≡ true)
              × (text_eq hostname localhost ≡ false)
              × (ends_with hostname (b'.' ∷ localhost) ≡ false)
              × (ends_with hostname (b'.' ∷ local) ≡ false)
              × (result ≡ set_hostname url hostname)))

  -- `parsed` has the standard port of its protocol, or none.
  abbrev pub PortAllowed : Url → Type 0
  PortAllowed parsed = (parsed.port ≡ []) ⊎ (standard_port parsed.protocol ≡ some parsed.port)

  -- What the checks on an address ensure.
  abbrev pub Allowed : Url → Url → Type 0
  Allowed parsed result =
      ((parsed.protocol ≡ http) ⊎ (parsed.protocol ≡ https))
      × (parsed.username ≡ [])
      × (parsed.password ≡ [])
      × (parsed.hash ≡ [])
      × PortAllowed parsed
      × HostAllowed parsed (without_dot (to_lower_case parsed.hostname)) result
