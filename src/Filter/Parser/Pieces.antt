-- ===== src/Filter/Parser/Pieces.antt =====
-- The parts of the grammar that hold no group (src/worker/subscriptions/filter.ts) end, leave no
-- more characters than they got, and return what is well formed.
use mathlib.Core.List.{tail}
use larafeed.Prelude.{
  ℕ, zero, suc, ◌≤◌, ◌<◌, ◌≡◌, Bool, true, false, not, ◌||◌, Option, none, some, [], ◌∷◌, ltb, ◌==◌,
  if◌then◌else◌, length, arith,
}
use larafeed.Result.{Result, Ensures, Ensures-weaken, Ensures-bind, Ensures-if}
use larafeed.Filter.Ast.{
  Text, SimpleMatcher, literal, range, digit, word, space, simple, any, class, AstNode,
}
use larafeed.Filter.Escape.{
  starts, includes, parse_bounded_quantifier, Escaped, matched, asserted, parse_escape,
}
use larafeed.Filter.Escape.Total.{
  length-tail, InOrder, parse_bounded_quantifier-InOrder, parse_escape-Leaves, IsOrderedEscaped,
  or-false,
}
use larafeed.Filter.Ast.Ordered.{IsOrdered, AllOrdered, IsOrderedMatcher}
use larafeed.Filter.Parser.WellFormed.{IsBounded, IsWellFormed}
use larafeed.Filter.Parser.{
  max_repeat_count, single_code_point, range_of, dash_before_term, quantifier, above_repeat_count,
  repeat_of, quantify, class_term_of, parse_class_term, class_item, class_terms,
  parse_character_class, atom_of, simple_atom, reserved,
}

-- A result with the property `P`, and a text with less than `n` characters behind it.
abbrev pub Below : {A : Type 0} → (A → Type 0) → ℕ → A × Text → Type 0
Below P n (a, rest) = P a × (length rest < n)

pub Below-le :
    {A : Type 0} (P : A → Type 0) (m n : ℕ) (r : Result (A × Text))
    → m ≤ n
    → Ensures (Below P m) r
    → Ensures (Below P n) r
Below-le P m n r le h =
    Ensures-weaken (Below P m) (Below P n) r (λ (_, rest) (p, k). (p, omega (arith, le, k))) h

single_code_point-ends : (text : Text) → Ensures (λ _. Unit {0}) (single_code_point text)
unfolding single_code_point
single_code_point-ends [] = tt
single_code_point-ends (_ ∷ []) = tt
single_code_point-ends (_ ∷ _ ∷ _) = tt

range_of-IsOrdered : (left right : SimpleMatcher) → Ensures IsOrdered (range_of left right)
unfolding range_of
range_of-IsOrdered (literal left) (literal right) =
    Ensures-bind _ _ (single_code_point left) _ (single_code_point-ends left) λ minimum _.
      Ensures-bind _ _ (single_code_point right) _ (single_code_point-ends right)
        λ maximum _. Ensures-if _ (ltb maximum minimum) _ _ (λ _. tt) (λ e. ground arith)
range_of-IsOrdered (literal left) (range _ _) = tt
range_of-IsOrdered (literal left) (digit _) = tt
range_of-IsOrdered (literal left) (word _) = tt
range_of-IsOrdered (literal left) (space _) = tt
range_of-IsOrdered (range _ _) right = tt
range_of-IsOrdered (digit _) right = tt
range_of-IsOrdered (word _) right = tt
range_of-IsOrdered (space _) right = tt

abbrev OptionInOrder : Option (ℕ × Option ℕ) → Type 0
OptionInOrder none = Unit
OptionInOrder (some bounds) = InOrder bounds

quantifier-InOrder :
    (rest : Text) → Ensures (Below OptionInOrder (suc (length rest))) (quantifier rest)
unfolding quantifier
quantifier-InOrder [] = (tt, omega arith)
quantifier-InOrder (c ∷ cs) =
    Ensures-if _ (c == b'?') _ _ (λ _. (omega arith, omega arith))
      (λ _.
        Ensures-if _ (c == b'*') _ _ (λ _. (tt, omega arith))
          (λ _.
            Ensures-if _ (c == b'+') _ _ (λ _. (tt, omega arith))
              (λ _.
                Ensures-if _ (c == b'{') _ _
                  (λ _.
                    Ensures-bind _ _ (parse_bounded_quantifier cs) _
                      (parse_bounded_quantifier-InOrder cs) λ (bounds, r) (o, h). (o, omega arith))
                  (λ _. (tt, omega arith)))))

repeat_of-IsWellFormed :
    (node : AstNode) (quantifiable : Bool) (bounds : Option (ℕ × Option ℕ)) (rest : Text)
    → IsWellFormed node
    → OptionInOrder bounds
    → Ensures (Below IsWellFormed (suc (length rest))) (repeat_of (node, quantifiable) bounds rest)
unfolding repeat_of
repeat_of-IsWellFormed node quantifiable none rest w o = (w, omega arith)
repeat_of-IsWellFormed node quantifiable (some (minimum, maximum)) rest w o =
    Ensures-if _ (not quantifiable) _ _ (λ _. tt)
      (λ _.
        Ensures-if _ (ltb max_repeat_count minimum || above_repeat_count maximum) _ _ (λ _. tt)
          (λ e. ((w, bounded maximum o (or-false _ _ e)), shorter)))
  where
    bounded :
        (maximum : Option ℕ)
        → InOrder (minimum, maximum)
        → (ltb max_repeat_count minimum ≡ false) × (above_repeat_count maximum ≡ false)
        → IsBounded minimum maximum
    bounded none o e = ground arith
    bounded (some m) o e = ground arith

    shorter : length (if starts b'?' rest then tail rest else rest) < suc (length rest)
    shorter = ground (arith, length-tail rest)

pub quantify-IsWellFormed :
    (atom : AstNode × Bool) (rest : Text)
    → IsWellFormed atom.0
    → Ensures (Below IsWellFormed (suc (length rest))) (quantify atom rest)
unfolding quantify
quantify-IsWellFormed (node, quantifiable) rest w =
    Ensures-bind _ _ (quantifier rest) _ (quantifier-InOrder rest) λ (bounds, r) (o, h).
      Below-le IsWellFormed (suc (length r)) (suc (length rest))
        (repeat_of (node, quantifiable) bounds r) (omega arith)
        (repeat_of-IsWellFormed node quantifiable bounds r w o)

abbrev pub IsWellFormedAtom : AstNode × Bool → Type 0
IsWellFormedAtom (node, _) = IsWellFormed node

module _ (fold : Text → Text) where
  class_term_of-IsOrdered :
      (n : ℕ) (e : Escaped) (r : Text)
      → IsOrderedEscaped e
      → length r < n
      → Ensures (Below IsOrdered n) (class_term_of e r)
  unfolding class_term_of
  class_term_of-IsOrdered n (asserted a) r o h = tt
  class_term_of-IsOrdered n (matched any) r o h = tt
  class_term_of-IsOrdered n (matched (class negated terms)) r o h = tt
  class_term_of-IsOrdered n (matched (simple m)) r o h = (o, h)

  parse_class_term-IsOrdered :
      (rest : Text) → Ensures (Below IsOrdered (length rest)) (parse_class_term fold rest)
  unfolding parse_class_term
  parse_class_term-IsOrdered [] = tt
  parse_class_term-IsOrdered (c ∷ cs) =
      Ensures-if _ (c == b']') _ _ (λ _. tt)
        (λ _.
          Ensures-if _ (c == 92) _ _
            (λ _.
              Ensures-bind _ _ (parse_escape fold true cs) _ (parse_escape-Leaves fold true cs)
                λ (escaped, r) (o, h). class_term_of-IsOrdered _ escaped r o (omega arith))
            (λ _. (tt, omega arith)))

  class_item-IsOrdered :
      (rest : Text) → Ensures (Below IsOrdered (length rest)) (class_item fold rest)
  unfolding class_item
  class_item-IsOrdered rest =
      Ensures-bind _ _ (parse_class_term fold rest) _ (parse_class_term-IsOrdered rest)
        λ (left, r) (o, h).
          Ensures-if _ (dash_before_term r) _ _
            (λ _.
              Ensures-bind _ _ (parse_class_term fold (tail r)) _
                (parse_class_term-IsOrdered (tail r))
                λ (right, r') (_, k).
                  Ensures-bind _ _ (range_of left right) _ (range_of-IsOrdered left right)
                    λ term ordered. (ordered, omega (arith, length-tail r, h, k)))
            (λ _. (o, h))

  class_terms-AllOrdered :
      (f : ℕ) (rest : Text)
      → length rest < f
      → Ensures (Below AllOrdered (suc (length rest))) (class_terms fold f rest)
  unfolding class_terms
  class_terms-AllOrdered zero rest h = absurd (omega arith)
  class_terms-AllOrdered (suc f) [] h = tt
  class_terms-AllOrdered (suc f) (c ∷ cs) h =
      Ensures-if _ (c == b']') _ _ (λ _. (tt, omega arith))
        (λ _.
          Ensures-bind _ _ (class_item fold (c ∷ cs)) _ (class_item-IsOrdered (c ∷ cs))
            λ (term, r) (o, k).
              Ensures-bind _ _ (class_terms fold f r) _ (class_terms-AllOrdered f r (omega arith))
                λ (terms, r') (os, k'). ((o, os), omega arith))

  parse_character_class-IsOrdered :
      (rest : Text)
      → Ensures (Below IsOrderedMatcher (suc (length rest))) (parse_character_class fold rest)
  unfolding parse_character_class
  parse_character_class-IsOrdered rest =
      let body = if starts b'^' rest then tail rest else rest in
      let shorter : length body ≤ length rest = ground (arith, length-tail rest) in
      Ensures-bind _ _ (class_terms fold (suc (length body)) body) _
        (class_terms-AllOrdered (suc (length body)) body (omega arith))
        λ (terms, r) (os, k). (os, omega arith)

  atom_of-IsWellFormed :
      (n : ℕ) (e : Escaped) (r : Text)
      → IsOrderedEscaped e
      → length r < n
      → Ensures (Below IsWellFormedAtom n) (atom_of e r)
  unfolding atom_of
  atom_of-IsWellFormed n (asserted a) r o h = (tt, h)
  atom_of-IsWellFormed n (matched m) r o h = (o, h)

  pub simple_atom-IsWellFormed :
      (c : ℕ) (cs : Text)
      → Ensures (Below IsWellFormedAtom (suc (length cs))) (simple_atom fold c cs)
  unfolding simple_atom
  simple_atom-IsWellFormed c cs =
      Ensures-if _ (c == b'^') _ _ (λ _. (tt, omega arith))
        (λ _.
          Ensures-if _ (c == b'$') _ _ (λ _. (tt, omega arith))
            (λ _.
              Ensures-if _ (c == b'.') _ _ (λ _. (tt, omega arith))
                (λ _.
                  Ensures-if _ (c == b'[') _ _
                    (λ _.
                      Ensures-bind _ _ (parse_character_class fold cs) _
                        (parse_character_class-IsOrdered cs) λ (m, r) (o, h). (o, h))
                    (λ _.
                      Ensures-if _ (c == 92) _ _
                        (λ _.
                          Ensures-bind _ _ (parse_escape fold false cs) _
                            (parse_escape-Leaves fold false cs)
                            λ (escaped, r) (o, h). atom_of-IsWellFormed _ escaped r o (omega arith))
                        (λ _.
                          Ensures-if _ (includes c reserved) _ _ (λ _. tt)
                            (λ _. (tt, omega arith)))))))
