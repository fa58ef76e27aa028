-- ===== src/Filter/Escape/Total.antt =====
-- Number and escape parsing (src/worker/subscriptions/filter.ts) ends and never gives characters
-- back.
use mathlib.Core.List.{tail}
use larafeed.Prelude.{
  ℕ, zero, suc, ◌+◌, ◌-◌, ◌*◌, ◌≤◌, ◌≡◌, refl, Bool, true, false, Option, none, some, [], ◌∷◌, ◌++◌,
  ◌==◌, ◌&&◌, if◌then◌else◌, length, arith, leb, not, ◌||◌,
}
use larafeed.Result.{
  Result, ok, thrown, out_of_fuel, ◌>>=◌, Ensures, Ensures-weaken, Ensures-bind, Ensures-if,
}
use larafeed.Filter.Ast.{Text}
use larafeed.Filter.Ast.Ordered.{IsOrderedMatcher}
use larafeed.Filter.Escape.{
  literal_of, Escaped, matched, asserted, starts, is_ascii_digit, starts_with_digit,
  from_code_point, decimal_from, parse_decimal, below_minimum, quantifier_upto,
  parse_bounded_quantifier, escaped_character, hex_digits, parse_hex_character, parse_int_hex,
  unicode_digits, parse_unicode_escape, parse_escape, numeric_or_punctuation, table_or_other,
  escapable, includes, is_hex_digit, max_safe_integer,
}

-- The text that a step leaves is no longer than the one it began with.
abbrev pub Leaves {ℓ} : {A : Type ℓ} → ℕ → A × Text → Type 0
Leaves n (_, rest) = length rest ≤ n

pub Leaves-le {ℓ} :
    {A : Type ℓ} (m n : ℕ) (r : Result (A × Text))
    → m ≤ n
    → Ensures (Leaves m) r
    → Ensures (Leaves n) r
Leaves-le m n r le h =
    Ensures-weaken (Leaves m) (Leaves n) r (λ (_, rest) k. omega (arith, le, k)) h

pub length-tail : (rest : Text) → length (tail rest) ≤ length rest
length-tail [] = omega arith
length-tail (_ ∷ rest) = omega arith

decimal_from-Leaves : (n : ℕ) (rest : Text) → Ensures (Leaves (length rest)) (decimal_from n rest)
unfolding decimal_from
decimal_from-Leaves n [] = omega arith
decimal_from-Leaves n (c ∷ cs) =
    let next = n * 10 + (c - b'0') in
    Ensures-if _ (is_ascii_digit c) _ _
      (λ _.
        Ensures-if _ (leb next max_safe_integer) _ _
          (λ _.
            Leaves-le (length cs) _ (decimal_from next cs) (omega arith)
              (decimal_from-Leaves next cs))
          (λ _. tt))
      (λ _. omega arith)

pub parse_decimal-Leaves : (rest : Text) → Ensures (Leaves (length rest)) (parse_decimal rest)
unfolding parse_decimal
parse_decimal-Leaves rest =
    Ensures-if _ (starts_with_digit rest) _ _
      (λ _. Ensures-bind _ _ (decimal_from 0 rest) _ (decimal_from-Leaves 0 rest) (λ (_, r) h. h))
      (λ _. omega arith)

-- The bounds of a quantifier are in order.
abbrev pub InOrder : ℕ × Option ℕ → Type 0
InOrder (minimum, none) = Unit
InOrder (minimum, some maximum) = minimum ≤ maximum

abbrev pub LeavesInOrder : ℕ → (ℕ × Option ℕ) × Text → Type 0
LeavesInOrder n (bounds, rest) = InOrder bounds × (length rest ≤ n)

InOrder-of_below_minimum :
    (maximum : Option ℕ) (minimum : ℕ)
    → below_minimum maximum minimum ≡ false
    → InOrder (minimum, maximum)
InOrder-of_below_minimum none minimum h = tt
InOrder-of_below_minimum (some m) minimum h = ground arith

pub or-false : (a b : Bool) → (a || b) ≡ false → (a ≡ false) × (b ≡ false)
or-false true b h = cc
or-false false b h = (refl, h)

quantifier_upto-InOrder :
    (minimum : ℕ) (rest : Text)
    → Ensures (LeavesInOrder (length rest)) (quantifier_upto minimum rest)
unfolding quantifier_upto
quantifier_upto-InOrder minimum rest =
    Ensures-bind _ _ (parse_decimal rest) _ (parse_decimal-Leaves rest) λ (maximum, r) h.
      Ensures-if _ (not (starts b'}' r) || below_minimum maximum minimum) _ _ (λ _. tt)
        (λ e. (
          InOrder-of_below_minimum maximum minimum (or-false _ _ e).1,
          omega (arith, length-tail r, h),
        ))

LeavesInOrder-le :
    (m n : ℕ) → m ≤ n → (b : (ℕ × Option ℕ) × Text) → LeavesInOrder m b → LeavesInOrder n b
LeavesInOrder-le m n le (b, r) (o, h) = (o, omega arith)

pub parse_bounded_quantifier-InOrder :
    (rest : Text) → Ensures (LeavesInOrder (length rest)) (parse_bounded_quantifier rest)
unfolding parse_bounded_quantifier
parse_bounded_quantifier-InOrder rest =
    Ensures-bind _ _ (parse_decimal rest) _ (parse_decimal-Leaves rest) after
  where
    after :
        (a : Option ℕ × Text)
        → Leaves (length rest) a
        → Ensures (LeavesInOrder (length rest)) (elim a.0 [
          | none ↦ thrown
          | some m ↦
              if starts b'}' a.1
              then ok ((m, some m), tail a.1)
              else if starts b',' a.1
              then quantifier_upto m (tail a.1)
              else thrown
        ])
    after (none, r) h = tt
    after (some m, r) h =
        Ensures-if _ (starts b'}' r) _ _ (λ _. (omega arith, omega (arith, length-tail r)))
          (λ _.
            Ensures-if _ (starts b',' r) _ _
              (λ _.
                Ensures-weaken _ _ _ (LeavesInOrder-le _ _ (omega (arith, length-tail r)))
                  (quantifier_upto-InOrder m (tail r)))
              (λ _. tt))

abbrev pub IsOrderedEscaped : Escaped → Type 0
IsOrderedEscaped (matched m) = IsOrderedMatcher m
IsOrderedEscaped (asserted _) = Unit

abbrev pub LeavesOrdered : ℕ → Escaped × Text → Type 0
LeavesOrdered n (e, rest) = IsOrderedEscaped e × (length rest ≤ n)

LeavesOrdered-le :
    (m n : ℕ) (r : Result (Escaped × Text))
    → m ≤ n
    → Ensures (LeavesOrdered m) r
    → Ensures (LeavesOrdered n) r
LeavesOrdered-le m n r le h =
    Ensures-weaken (LeavesOrdered m) (LeavesOrdered n) r
      (λ (e, rest) (o, k). (o, omega (arith, le, k))) h

module _ (fold : Text → Text) where
  hex_digits-Leaves :
      (n : ℕ) (acc rest : Text) → Ensures (Leaves (length rest)) (hex_digits fold n acc rest)
  unfolding hex_digits
  hex_digits-Leaves zero acc rest = omega arith
  hex_digits-Leaves (suc n) acc [] = tt
  hex_digits-Leaves (suc n) acc (c ∷ cs) =
      Ensures-if _ (is_hex_digit fold c) _ _
        (λ _.
          Leaves-le (length cs) _ (hex_digits fold n (acc ++ c ∷ []) cs) (omega arith)
            (hex_digits-Leaves n (acc ++ c ∷ []) cs))
        (λ _. tt)

  from_code_point-ends : (o : Option ℕ) → Ensures (λ _. Unit {0}) (from_code_point o)
  unfolding from_code_point
  from_code_point-ends none = tt
  from_code_point-ends (some n) = Ensures-if _ (leb n 0x10ffff) _ _ (λ _. tt) (λ _. tt)

  -- A step that reads no character leaves the text as it is.
  ends-Leaves {ℓ} :
      {A : Type ℓ} (n : ℕ) (t : Result Text) (f : Text → A) (r : Text)
      → length r ≤ n
      → Ensures (λ _. Unit {0}) t
      → Ensures (Leaves n) (t >>= λ text. ok (f text, r))
  ends-Leaves n (ok text) f r h _ = h
  ends-Leaves n thrown f r h _ = tt
  ends-Leaves n out_of_fuel f r h e = e

  pub parse_hex_character-Leaves :
      (n : ℕ) (rest : Text) → Ensures (Leaves (length rest)) (parse_hex_character fold n rest)
  unfolding parse_hex_character
  parse_hex_character-Leaves n rest =
      Ensures-bind (Leaves (length rest)) _ (hex_digits fold n [] rest) _
        (hex_digits-Leaves n [] rest)
        λ (hexadecimal, r) h.
          ends-Leaves _ (from_code_point (parse_int_hex hexadecimal)) (λ text. text) r h
            (from_code_point-ends (parse_int_hex hexadecimal))

  unicode_digits-Leaves :
      (acc rest : Text) → Ensures (Leaves (length rest)) (unicode_digits fold acc rest)
  unfolding unicode_digits
  unicode_digits-Leaves acc [] = tt
  unicode_digits-Leaves acc (c ∷ cs) =
      Ensures-if _ (c == b'}') _ _ (λ _. omega arith)
        (λ _.
          Ensures-if _ (leb 6 (length acc) || not (is_hex_digit fold c)) _ _ (λ _. tt)
            (λ _.
              Leaves-le (length cs) _ (unicode_digits fold (acc ++ c ∷ []) cs) (omega arith)
                (unicode_digits-Leaves (acc ++ c ∷ []) cs)))

  pub parse_unicode_escape-Leaves :
      (rest : Text) → Ensures (Leaves (length rest)) (parse_unicode_escape fold rest)
  unfolding parse_unicode_escape
  parse_unicode_escape-Leaves rest =
      Ensures-if _ (starts b'{' rest) _ _
        (λ _.
          Ensures-bind (Leaves (length (tail rest))) _ (unicode_digits fold [] (tail rest)) _
            (unicode_digits-Leaves [] (tail rest))
            λ (hexadecimal, r) h.
              Ensures-if _ (length hexadecimal == 0) _ _ (λ _. tt)
                (λ _.
                  ends-Leaves _ (from_code_point (parse_int_hex hexadecimal)) (λ text. text) r
                    (omega (arith, h, length-tail rest))
                    (from_code_point-ends (parse_int_hex hexadecimal))))
        (λ _. parse_hex_character-Leaves 4 rest)

  literal_of-Leaves :
      (n : ℕ) (p : Result (Text × Text))
      → Ensures (Leaves n) p
      → Ensures (LeavesOrdered n) (p >>= λ (text, r). ok (literal_of (fold text), r))
  literal_of-Leaves n (ok (text, r)) h = (tt, h)
  literal_of-Leaves n thrown h = tt
  literal_of-Leaves n out_of_fuel h = h

  numeric_or_punctuation-Leaves :
      (in_class : Bool) (c : ℕ) (cs : Text)
      → Ensures (LeavesOrdered (length cs)) (numeric_or_punctuation fold in_class c cs)
  unfolding numeric_or_punctuation
  numeric_or_punctuation-Leaves in_class c cs =
      Ensures-if _ (c == b'0') _ _
        (λ _. Ensures-if _ (starts_with_digit cs) _ _ (λ _. tt) (λ _. (tt, omega arith)))
        (λ _.
          Ensures-if _ (c == b'x') _ _
            (λ _.
              literal_of-Leaves _ (parse_hex_character fold 2 cs) (parse_hex_character-Leaves 2 cs))
            (λ _.
              Ensures-if _ (c == b'u') _ _
                (λ _.
                  literal_of-Leaves _ (parse_unicode_escape fold cs)
                    (parse_unicode_escape-Leaves cs))
                (λ _.
                  Ensures-if _ (includes c escapable || (in_class && c == b'-')) _ _
                    (λ _. (tt, omega arith)) (λ _. tt))))

  table_or_other-Leaves :
      (e : Option ℕ) (in_class : Bool) (c : ℕ) (cs : Text)
      → Ensures (LeavesOrdered (length cs)) (table_or_other fold e in_class c cs)
  unfolding table_or_other
  table_or_other-Leaves (some e) in_class c cs = (tt, omega arith)
  table_or_other-Leaves none in_class c cs = numeric_or_punctuation-Leaves in_class c cs

  pub parse_escape-Leaves :
      (in_class : Bool) (rest : Text)
      → Ensures (LeavesOrdered (length rest)) (parse_escape fold in_class rest)
  unfolding parse_escape
  parse_escape-Leaves in_class [] = tt
  parse_escape-Leaves in_class (c ∷ cs) =
      Ensures-if _ (not in_class && (c == b'b' || c == b'B')) _ _ (λ _. (tt, omega arith))
        (λ _.
          Ensures-if _ (in_class && c == b'b') _ _ (λ _. (tt, omega arith))
            (λ _.
              Ensures-if _ (c == b'd' || c == b'D') _ _ (λ _. (tt, omega arith))
                (λ _.
                  Ensures-if _ (c == b'w' || c == b'W') _ _ (λ _. (tt, omega arith))
                    (λ _.
                      Ensures-if _ (c == b's' || c == b'S') _ _ (λ _. (tt, omega arith))
                        (λ _.
                          LeavesOrdered-le (length cs) _
                            (table_or_other fold (escaped_character c) in_class c cs) (omega arith)
                            (table_or_other-Leaves (escaped_character c) in_class c cs))))))
