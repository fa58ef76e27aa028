-- ===== src/Feeds/Ipv4/Reserved.antt =====
-- The forbidden IPv4 addresses by their octets (`isForbiddenIpv4` of src/worker/feeds/policy.ts).
use mathlib.Core.Bool.{false≢true}
use larafeed.Prelude.{
  some-injective, ℕ, ◌+◌, ◌*◌, ◌≤◌, ◌≡◌, ◌↔◌, ◌⊎◌, inl, inr, refl, Bool, true, false, ◌&&◌, ◌||◌,
  Option, none, some, List, [], ◌∷◌, leb, if◌then◌else◌, arith,
}
use larafeed.Filter.Ast.{Text}
use larafeed.Feeds.Ipv4.{
  short_digits, decimal_from, forbidden_ipv4_ranges, within_ranges, is_forbidden_ipv4, octet_of,
  checked_octet, octets_from, four_octets, ipv4_number, split_on,
}

-- the address of four octets
abbrev pub address_of : ℕ → ℕ → ℕ → ℕ → ℕ
address_of a b c d = ((a * 256 + b) * 256 + c) * 256 + d

-- The networks that are not on the public Internet, by their prefixes: this network, private use,
-- shared and loopback addresses, link-local, private use, the IETF's protocols, documentation,
-- AS112, AMT, 6to4, private use, AS112, benchmarks, documentation twice, and all from multicast on.
abbrev pub IsReserved : ℕ → ℕ → ℕ → ℕ → Type 0
IsReserved a b c d =
    (a ≡ 0)
    ⊎ (a ≡ 10)
    ⊎ ((a ≡ 100) × (64 ≤ b) × (b ≤ 127))
    ⊎ (a ≡ 127)
    ⊎ ((a ≡ 169) × (b ≡ 254))
    ⊎ ((a ≡ 172) × (16 ≤ b) × (b ≤ 31))
    ⊎ ((a ≡ 192) × (b ≡ 0) × (c ≡ 0))
    ⊎ ((a ≡ 192) × (b ≡ 0) × (c ≡ 2))
    ⊎ ((a ≡ 192) × (b ≡ 31) × (c ≡ 196))
    ⊎ ((a ≡ 192) × (b ≡ 52) × (c ≡ 193))
    ⊎ ((a ≡ 192) × (b ≡ 88) × (c ≡ 99))
    ⊎ ((a ≡ 192) × (b ≡ 168))
    ⊎ ((a ≡ 192) × (b ≡ 175) × (c ≡ 48))
    ⊎ ((a ≡ 198) × (18 ≤ b) × (b ≤ 19))
    ⊎ ((a ≡ 198) × (b ≡ 51) × (c ≡ 100))
    ⊎ ((a ≡ 203) × (b ≡ 0) × (c ≡ 113))
    ⊎ (224 ≤ a)
    ⊎ ⊥

abbrev InSome : List (ℕ × ℕ) → ℕ → Type 0
InSome [] n = ⊥
InSome ((low, high) ∷ ranges) n = ((low ≤ n) × (n ≤ high)) ⊎ InSome ranges n

range_or :
    (low high n : ℕ) (rest : Bool) (Q : Type 0)
    → (rest ≡ true → Q)
    → (Q → rest ≡ true)
    → (((leb low n && leb n high) || rest) ≡ true) ↔ (((low ≤ n) × (n ≤ high)) ⊎ Q)
range_or low high n true Q to from = (λ _. inr (to refl), λ _. ground arith)
range_or low high n false Q to from = (
  λ h. inl (ground arith),
  elim [ inl (h, k) ↦ ground arith | inr q ↦ absurd (false≢true (from q)) ],
)

within_ranges-InSome :
    (ranges : List (ℕ × ℕ)) (n : ℕ) → (within_ranges ranges n ≡ true) ↔ InSome ranges n
within_ranges-InSome [] n = (λ h. cc, λ h. absurd h)
within_ranges-InSome ((low, high) ∷ ranges) n =
    let (to, from) = within_ranges-InSome ranges n in
    range_or low high n (within_ranges ranges n) _ to from

iff_trans : {P Q R : Type 0} → (P ↔ Q) → (Q ↔ R) → P ↔ R
iff_trans (f, g) (h, k) = (λ p. h (f p), λ r. g (k r))

either_iff : {P P' Q Q' : Type 0} → (P ↔ P') → (Q ↔ Q') → (P ⊎ Q) ↔ (P' ⊎ Q')
either_iff (f, g) (h, k) =
    (elim [ inl p ↦ inl (f p) | inr q ↦ inr (h q) ], elim [ inl p ↦ inl (g p) | inr q ↦ inr (k q) ])

-- An address is forbidden exactly if its octets lie in one of the reserved networks.
pub is_forbidden_ipv4-IsReserved :
    (a b c d : ℕ)
    → a ≤ 255
    → b ≤ 255
    → c ≤ 255
    → d ≤ 255
    → (is_forbidden_ipv4 (address_of a b c d) ≡ true) ↔ IsReserved a b c d
unfolding is_forbidden_ipv4
is_forbidden_ipv4-IsReserved a b c d ha hb hc hd =
    iff_trans (within_ranges-InSome forbidden_ipv4_ranges (address_of a b c d)) (
      either_iff (λ h. omega arith, λ h. omega arith)
        (either_iff (λ h. omega arith, λ h. omega arith)
          (either_iff (λ h. omega arith, λ h. omega arith)
            (either_iff (λ h. omega arith, λ h. omega arith)
              (either_iff (λ h. omega arith, λ h. omega arith)
                (either_iff (λ h. omega arith, λ h. omega arith)
                  (either_iff (λ h. omega arith, λ h. omega arith)
                    (either_iff (λ h. omega arith, λ h. omega arith)
                      (either_iff (λ h. omega arith, λ h. omega arith)
                        (either_iff (λ h. omega arith, λ h. omega arith)
                          (either_iff (λ h. omega arith, λ h. omega arith)
                            (either_iff (λ h. omega arith, λ h. omega arith)
                              (either_iff (λ h. omega arith, λ h. omega arith)
                                (either_iff (λ h. omega arith, λ h. omega arith)
                                  (either_iff (λ h. omega arith, λ h. omega arith)
                                    (either_iff (λ h. omega arith, λ h. omega arith)
                                      (either_iff (λ h. omega arith, λ h. omega arith)
                                        (λ h. h, λ h. h))))))))))))))))))

octet-bound : (b : Bool) (m o : ℕ) → (if b then checked_octet m else none) ≡ some o → o ≤ 255
octet-bound b m o h = ground arith

first_octet :
    (octet : Option ℕ) (result n : ℕ) (parts : List Text)
    → ((o : ℕ) → octet ≡ some o → o ≤ 255)
    → (elim octet [ none ↦ none | some o ↦ octets_from (result * 256 + o) parts ]) ≡ some n
    → (o : ℕ) × (o ≤ 255) × (octets_from (result * 256 + o) parts ≡ some n)
first_octet none result n parts bound h = cc
first_octet (some o) result n parts bound h = (o, bound o refl, h)

next_octet :
    (part : Text) (parts : List Text) (result n : ℕ)
    → octets_from result (part ∷ parts) ≡ some n
    → (o : ℕ) × (o ≤ 255) × (octets_from (result * 256 + o) parts ≡ some n)
unfolding octets_from
next_octet part parts result n h =
    first_octet (octet_of part) result n parts
      (λ o e. octet-bound (short_digits part) (decimal_from 0 part) o e) h

-- `n` is the address of four octets.
abbrev pub IsAddress : ℕ → Type 0
IsAddress n =
    (a b c d : ℕ) × (a ≤ 255) × (b ≤ 255) × (c ≤ 255) × (d ≤ 255) × (n ≡ address_of a b c d)

four_octets-IsAddress : (parts : List Text) (n : ℕ) → four_octets parts ≡ some n → IsAddress n
unfolding octets_from four_octets
four_octets-IsAddress (p ∷ q ∷ r ∷ s ∷ []) n h =
    let (a, ha, h1) = next_octet p (q ∷ r ∷ s ∷ []) 0 n h in
    let (b, hb, h2) = next_octet q (r ∷ s ∷ []) _ n h1 in
    let (c, hc, h3) = next_octet r (s ∷ []) _ n h2 in
    let (d, hd, h4) = next_octet s [] _ n h3 in
    (a, b, c, d, ha, hb, hc, hd, omega (arith, some-injective h4))
four_octets-IsAddress _ n h = absurd (ground arith)

pub ipv4_number-IsAddress : (hostname : Text) (n : ℕ) → ipv4_number hostname ≡ some n → IsAddress n
unfolding ipv4_number
ipv4_number-IsAddress hostname n h = four_octets-IsAddress (split_on b'.' hostname) n h
