-- ===== src/Feeds/Ipv6/Groups.antt =====
-- IPv6 addresses by their groups (`parseIpv6` and `isForbiddenIpv6` of src/worker/feeds/policy.ts).
use larafeed.Prelude.{
  some-injective, ℕ, ◌+◌, ◌-◌, ◌≤◌, ◌≡◌, refl, Bool, true, false, not, ◌&&◌, ◌||◌, Option, none,
  some, List, ◌++◌, map, leb, ltb, length, replicate, ◌==◌, if◌then◌else◌, arith, sym, ap, ◌∙◌,
  length-append, length-map, length-replicate, ◌≢◌,
}
use larafeed.Filter.Ast.{Text}
use larafeed.Filter.Escape.{includes}
use larafeed.Feeds.Ipv6.{
  parse_lower, replaced_ipv4, embedded_ipv4, parsed_embedded, unwrapped, hex_from, groups_of,
  groups_after, groups_from, groups_in, omits, parse_ipv6, group_at, is_forbidden_ipv6,
  double_colons, before_double, after_double,
}

-- The address is in the block of global unicast addresses, and in none of the special blocks there.
pub record IsGlobal (parts : List ℕ) : Type 0 where
  pub low : 0x2000 ≤ group_at parts 0
  pub high : group_at parts 0 ≤ 0x3fff
  pub no_assignment : group_at parts 0 ≡ 0x2001 → 0x200 ≤ group_at parts 1
  pub no_documentation : group_at parts 0 ≡ 0x2001 → group_at parts 1 ≢ 0x0db8
  pub no_documentation' : group_at parts 0 ≡ 0x3fff → 0x1000 ≤ group_at parts 1

tests :
    (mapped : Bool) (first second : ℕ)
    → (if mapped
        then true
        else not (leb 0x2000 first && leb first 0x3fff)
          || (first == 0x2001 && leb second 0x01ff)
          || (first == 0x2001 && second == 0x0db8)
          || (first == 0x3fff && leb second 0x0fff))
      ≡ false
    → (0x2000 ≤ first)
      × (first ≤ 0x3fff)
      × (first ≡ 0x2001 → 0x200 ≤ second)
      × (first ≡ 0x2001 → second ≢ 0x0db8)
      × (first ≡ 0x3fff → 0x1000 ≤ second)
tests mapped first second h =
    (ground arith, ground arith, λ e. ground arith, λ e k. ground arith, λ e. ground arith)

-- An IPv6 address that is not forbidden is global.
pub is_forbidden_ipv6-IsGlobal : (parts : List ℕ) → is_forbidden_ipv6 parts ≡ false → IsGlobal parts
unfolding is_forbidden_ipv6
is_forbidden_ipv6-IsGlobal parts h =
    let (a, b, c, d, e) = tests _ (group_at parts 0) (group_at parts 1) h in
    record { low = a; high = b; no_assignment = c; no_documentation = d; no_documentation' = e }

omits-bound : (right : Option Text) (n : ℕ) → omits right n ≡ true → n ≤ 8
omits-bound none n h = ground arith
omits-bound (some rest) n h = ground arith

some_when :
    {A : Type 0} (b c : Bool) (x y : A)
    → (if b && c then some x else none) ≡ some y
    → (c ≡ true) × (x ≡ y)
some_when true true x y h = (refl, some-injective h)
some_when true false x y h = cc
some_when false c x y h = cc

eight_groups :
    (l r a b c all' : ℕ) {rest : ℕ}
    → all' ≡ rest + b
    → rest ≡ a + c
    → a ≡ l
    → b ≡ r
    → c ≡ 8 - l - r
    → l + r ≤ 8
    → all' ≡ 8
eight_groups l r a b c all' h1 h2 h3 h4 h5 h6 = omega arith

groups_from-length :
    (left : Text) (right : Option Text) (parts : List ℕ)
    → groups_from left right ≡ some parts
    → length parts ≡ 8
unfolding groups_from
groups_from-length left right parts h =
    let (fits, e) = some_when _ _ _ _ h in
    let l = groups_of left in
    let r = groups_after right in
    let bound = omits-bound right _ fits in
    let total =
      length-append (map (hex_from 0) l ++ replicate (8 - length l - length r) 0)
        (map (hex_from 0) r) in
    let rest = length-append (map (hex_from 0) l) (replicate (8 - length l - length r) 0) in
    ap length (sym e)
    ∙ eight_groups _ _ _ _ _ _ total rest (length-map l (hex_from 0)) (length-map r (hex_from 0))
        (length-replicate (8 - length l - length r) 0) bound

unless :
    {A : Type 0} (b : Bool) (o : Option A) (y : A)
    → (if b then none else o) ≡ some y
    → (b ≡ false) × (o ≡ some y)
unless true o y h = cc
unless false o y h = (refl, h)

when :
    {A : Type 0} (b : Bool) (o : Option A) (y : A)
    → (if b then o else none) ≡ some y
    → (b ≡ true) × (o ≡ some y)
when true o y h = (refl, h)
when false o y h = cc

groups_in-length :
    (value : Option Text) (parts : List ℕ) → groups_in value ≡ some parts → length parts ≡ 8
unfolding groups_in
groups_in-length none parts h = cc
groups_in-length (some value) parts h =
    let (_, e) = unless (ltb 1 (double_colons value)) _ parts h in
    groups_from-length (before_double value) (after_double value) parts e

parse_lower-length :
    (value : Text) (parts : List ℕ) → parse_lower value ≡ some parts → length parts ≡ 8
unfolding parse_lower
parse_lower-length value parts h =
    groups_in-length
      (replaced_ipv4 value (embedded_ipv4 value) (parsed_embedded (embedded_ipv4 value))) parts h

-- An address that `parseIpv6` reads has eight groups.
pub parse_ipv6-length :
    (to_lower_case : Text → Text) (hostname : Text) (parts : List ℕ)
    → parse_ipv6 to_lower_case hostname ≡ some parts
    → length parts ≡ 8
unfolding parse_ipv6
parse_ipv6-length to_lower_case hostname parts h =
    let (_, e) =
      when (includes b':' (unwrapped hostname) && not (includes b'%' (unwrapped hostname))) _ parts
        h in
    parse_lower-length (to_lower_case (unwrapped hostname)) parts e
