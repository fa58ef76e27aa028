-- ===== src/Compat/Tags.antt =====
-- Tags are read back (src/worker/compat/protocol.ts).
use larafeed.Prelude.{
  not, ℕ, zero, suc, ◌+◌, ◌-◌, ◌*◌, ◌^◌, ◌≤◌, ◌<◌, ◌≡◌, refl, ap, ◌∙◌, inl, inr, arith, Bool, true,
  false, Bool-cases, Option, none, some, [], ◌∷◌, ◌++◌, ◌&&◌, ltb, if◌then◌else◌, length, replicate,
  ◌/◌, ◌%◌,
}
use larafeed.Filter.Ast.{Text}
use larafeed.Filter.Simulation.{is_whitespace_character}
use larafeed.Compat.{
  parse_candidate, hex_digit, digit_value, is_hex, to_hex, parse_from, all_of, pad_start,
  parse_compatibility_item_id, google_item_tag, max_safe_integer, google_item_prefix, trim_start,
  trim_end, is_blank, after_prefix, in_radix, safe_id,
}

parse_from-append :
    (n : ℕ) (xs : Text) (c : ℕ)
    → parse_from 16 n (xs ++ c ∷ []) ≡ parse_from 16 n xs * 16 + digit_value c
parse_from-append n [] c = refl
parse_from-append n (x ∷ xs) c = parse_from-append (n * 16 + digit_value x) xs c

all_of-append :
    (test : ℕ → Bool) (xs ys : Text)
    → all_of test xs ≡ true
    → all_of test ys ≡ true
    → all_of test (xs ++ ys) ≡ true
all_of-append test [] ys h k = k
all_of-append test (x ∷ xs) ys h k =
    let rest = all_of-append test xs ys (ground arith) k in ground arith

hex_digit-value : (d : ℕ) → d < 16 → digit_value (hex_digit d) ≡ d
hex_digit-value d h = ground arith

hex_digit-hex : (d : ℕ) → d < 16 → is_hex (hex_digit d) ≡ true
hex_digit-hex d h = ground arith

first : (d : ℕ) → d < 16 → 0 * 16 + digit_value (hex_digit d) ≡ d
first d h = let e = hex_digit-value d h in omega arith

-- the digits of a number give the number
to_hex-value : (fuel n : ℕ) → n < 16 ^ fuel → parse_from 16 0 (to_hex fuel n) ≡ n
to_hex-value zero n h = omega arith
to_hex-value (suc fuel) n h = elim (Bool-cases (ltb n 16)) [
  | inl t ↦
      ap
        (λ b.
          parse_from 16 0
            (if b then hex_digit n ∷ [] else to_hex fuel (n / 16) ++ hex_digit (n % 16) ∷ []))
        t
      ∙ first n (ground arith)
  | inr f ↦
      ap
        (λ b.
          parse_from 16 0
            (if b then hex_digit n ∷ [] else to_hex fuel (n / 16) ++ hex_digit (n % 16) ∷ []))
        f
      ∙ parse_from-append 0 (to_hex fuel (n / 16)) (hex_digit (n % 16))
      ∙ last (to_hex-value fuel (n / 16) (omega arith))
]
  where
    last :
        parse_from 16 0 (to_hex fuel (n / 16)) ≡ n / 16
        → parse_from 16 0 (to_hex fuel (n / 16)) * 16 + digit_value (hex_digit (n % 16)) ≡ n
    last e = let d = hex_digit-value (n % 16) (omega arith) in omega arith

to_hex-hex : (fuel n : ℕ) → all_of is_hex (to_hex fuel n) ≡ true
to_hex-hex zero n = refl
to_hex-hex (suc fuel) n = elim (Bool-cases (ltb n 16)) [
  | inl t ↦
      ap
        (λ b.
          all_of is_hex
            (if b then hex_digit n ∷ [] else to_hex fuel (n / 16) ++ hex_digit (n % 16) ∷ []))
        t
      ∙ one n (ground arith)
  | inr f ↦
      ap
        (λ b.
          all_of is_hex
            (if b then hex_digit n ∷ [] else to_hex fuel (n / 16) ++ hex_digit (n % 16) ∷ []))
        f
      ∙ all_of-append is_hex (to_hex fuel (n / 16)) _ (to_hex-hex fuel (n / 16))
          (one (n % 16) (omega arith))
]
  where
    one : (d : ℕ) → d < 16 → all_of is_hex (hex_digit d ∷ []) ≡ true
    one d h = let e = hex_digit-hex d h in cc

zeros-value :
    (k : ℕ) (text : Text) → parse_from 16 0 (replicate k b'0' ++ text) ≡ parse_from 16 0 text
zeros-value zero text = refl
zeros-value (suc k) text = zeros-value k text

zeros-hex : (k : ℕ) → all_of is_hex (replicate k b'0') ≡ true
zeros-hex zero = refl
zeros-hex (suc k) = zeros-hex k

hex-visible : (c : ℕ) → is_hex c ≡ true → is_whitespace_character c ≡ false
unfolding is_whitespace_character
hex-visible c h = ground arith

abbrev is_visible : ℕ → Bool
is_visible c = not (is_whitespace_character c)

all_hex-visible : (xs : Text) → all_of is_hex xs ≡ true → all_of is_visible xs ≡ true
all_hex-visible [] h = refl
all_hex-visible (x ∷ xs) h =
    let rest = all_hex-visible xs (ground arith) in let v = hex-visible x (ground arith) in cc

trim_start-visible : (xs : Text) → all_of is_visible xs ≡ true → trim_start xs ≡ xs
trim_start-visible [] h = refl
trim_start-visible (x ∷ xs) h = elim (Bool-cases (is_whitespace_character x)) [
  | inl t ↦ cc
  | inr f ↦ cc
]

trim_end-visible : (xs : Text) → all_of is_visible xs ≡ true → trim_end xs ≡ xs
trim_end-visible [] h = refl
trim_end-visible (x ∷ xs) h = elim (Bool-cases (is_whitespace_character x)) [
  | inl t ↦ cc
  | inr f ↦
      let rest = trim_end-visible xs (ground arith) in
      shown x (trim_end xs) (is_whitespace_character x) f ∙ ap (◌∷◌ x) rest
]
  where
    shown :
        (x : ℕ) (rest : Text) (white : Bool)
        → white ≡ false
        → (if is_blank rest && white then [] else x ∷ rest) ≡ x ∷ rest
    shown x [] true e = cc
    shown x [] false e = refl
    shown x (c ∷ cs) white e = refl

after_prefix-append : (prefix text : Text) → after_prefix prefix (prefix ++ text) ≡ some text
after_prefix-append [] text = refl
after_prefix-append (p ∷ prefix) text = let rest = after_prefix-append prefix text in ground arith

in_radix-safe :
    (text : Text) (n : ℕ)
    → all_of is_hex text ≡ true
    → parse_from 16 0 text ≡ n
    → 1 ≤ n
    → n ≤ max_safe_integer
    → in_radix is_hex 16 text ≡ some n
in_radix-safe [] n h e l m = absurd (omega arith)
in_radix-safe (c ∷ text) n h e l m =
    ap (λ b. if b then safe_id (parse_from 16 0 (c ∷ text)) else none) h ∙ ap safe_id e ∙ safe n l m
  where
    safe : (n : ℕ) → 1 ≤ n → n ≤ max_safe_integer → safe_id n ≡ some n
    safe n l m = ground arith

prefix-visible : all_of is_visible google_item_prefix ≡ true
unfolding is_whitespace_character
prefix-visible = refl

-- The tag of an identifier from 1 to the greatest safe integer is read back as the identifier.
pub parse_compatibility_item_id-google_item_tag :
    (id : ℕ)
    → 1 ≤ id
    → id ≤ max_safe_integer
    → parse_compatibility_item_id (google_item_tag id) ≡ some id
unfolding parse_compatibility_item_id google_item_tag
parse_compatibility_item_id-google_item_tag id l m =
    let digits = to_hex 14 id in
    let zeros = 16 - length digits in
    let hex =
      all_of-append is_hex (replicate zeros b'0') digits (zeros-hex zeros) (to_hex-hex 14 id) in
    let value = zeros-value zeros digits ∙ to_hex-value 14 id (omega arith) in
    let text = pad_start digits in
    let shown =
      all_of-append is_visible google_item_prefix text prefix-visible (all_hex-visible text hex) in
    let trimmed =
      ap trim_start (trim_end-visible (google_item_prefix ++ text) shown)
      ∙ trim_start-visible (google_item_prefix ++ text) shown in
    let read : Text → Option ℕ = λ c. parse_candidate (after_prefix google_item_prefix c) c in
    ap read trimmed
    ∙ ap (λ found. parse_candidate found (google_item_prefix ++ text))
        (after_prefix-append google_item_prefix text)
    ∙ in_radix-safe text id hex value l m
