-- ===== src/Filter/Parser/Total.antt =====
-- The fuel of `parse` (src/worker/subscriptions/filter.ts) is enough for every pattern.
use mathlib.Core.List.{tail}
use larafeed.Prelude.{ℕ, zero, suc, ◌+◌, ◌*◌, ◌≤◌, [], ◌∷◌, ◌==◌, ◌||◌, length, arith}
use larafeed.Result.{Ensures, Ensures-bind, Ensures-if}
use larafeed.Filter.Ast.{Text, AstNode, AstNodes, nil, cons}
use larafeed.Filter.Escape.{starts}
use larafeed.Filter.Escape.Total.{length-tail}
use larafeed.Filter.Parser.{
  alternation_of, sequence_of, group_body, close_group, quantify, parse_alternation,
  parse_alternatives, parse_sequence, parse_items, parse_repeated_atom, parse_atom, at_end, parse,
}
use larafeed.Filter.Parser.WellFormed.{IsWellFormed, AllWellFormed}
use larafeed.Filter.Parser.Pieces.{
  Below, Below-le, quantify-IsWellFormed, IsWellFormedAtom, simple_atom-IsWellFormed,
}

alternation_of-IsWellFormed :
    (node : AstNode) (nodes : AstNodes)
    → IsWellFormed node
    → AllWellFormed nodes
    → IsWellFormed (alternation_of node nodes)
unfolding alternation_of
alternation_of-IsWellFormed node nil h hs = h
alternation_of-IsWellFormed node (cons other more) h hs = (λ e. cc, (h, hs))

sequence_of-IsWellFormed :
    (nodes : AstNodes) → AllWellFormed nodes → IsWellFormed (sequence_of nodes)
unfolding sequence_of
sequence_of-IsWellFormed nil h = tt
sequence_of-IsWellFormed (cons node nil) h = h.0
sequence_of-IsWellFormed (cons node (cons other more)) h = h

group_body-ends : (rest : Text) → Ensures (λ body. length body ≤ length rest) (group_body rest)
unfolding group_body
group_body-ends rest =
    Ensures-if _ (starts b'?' rest) _ _
      (λ _.
        Ensures-if _ (starts b':' (tail rest)) _ _
          (λ _. omega (arith, length-tail rest, length-tail (tail rest))) (λ _. tt))
      (λ _. omega arith)

close_group-ends :
    (n : ℕ) (p : AstNode × Text)
    → Below IsWellFormed n p
    → Ensures (Below IsWellFormedAtom n) (close_group p)
unfolding close_group
close_group-ends n (node, rest) (w, h) =
    Ensures-if _ (starts b')' rest) _ _ (λ _. (w, omega (arith, length-tail rest, h))) (λ _. tt)

module _ (fold : Text → Text) where
  mutual
    unfolding parse_alternation parse_alternatives parse_sequence parse_items parse_repeated_atom
        parse_atom starts

    parse_alternation-ends :
        (f : ℕ) (rest : Text)
        → 6 * length rest + 5 ≤ f
        → Ensures (Below IsWellFormed (suc (length rest))) (parse_alternation fold f rest)
    parse_alternation-ends zero rest h = absurd (omega arith)
    parse_alternation-ends (suc f) rest h =
        Ensures-bind _ _ (parse_sequence fold f rest) _ (parse_sequence-ends f rest (omega arith))
          λ (first, r) (w, k).
            Ensures-bind _ _ (parse_alternatives fold f r) _
              (parse_alternatives-ends f r (omega (arith, h, k)))
              λ (others, r') (ws, k').
                (alternation_of-IsWellFormed first others w ws, omega (arith, k, k'))

    parse_alternatives-ends :
        (f : ℕ) (rest : Text)
        → 6 * length rest + 4 ≤ f
        → Ensures (Below AllWellFormed (suc (length rest))) (parse_alternatives fold f rest)
    parse_alternatives-ends zero rest h = absurd (omega arith)
    parse_alternatives-ends (suc f) [] h = (tt, omega arith)
    parse_alternatives-ends (suc f) (c ∷ cs) h =
        Ensures-if _ (starts b'|' (c ∷ cs)) _ _
          (λ _.
            Ensures-bind _ _ (parse_sequence fold f cs) _ (parse_sequence-ends f cs (omega arith))
              λ (node, r) (w, k).
                Ensures-bind _ _ (parse_alternatives fold f r) _
                  (parse_alternatives-ends f r (omega (arith, h, k)))
                  λ (nodes, r') (ws, k'). ((w, ws), omega (arith, k, k')))
          (λ _. (tt, omega arith))

    parse_sequence-ends :
        (f : ℕ) (rest : Text)
        → 6 * length rest + 4 ≤ f
        → Ensures (Below IsWellFormed (suc (length rest))) (parse_sequence fold f rest)
    parse_sequence-ends zero rest h = absurd (omega arith)
    parse_sequence-ends (suc f) rest h =
        Ensures-bind _ _ (parse_items fold f rest) _ (parse_items-ends f rest (omega arith))
          λ (nodes, r) (ws, k). (sequence_of-IsWellFormed nodes ws, k)

    parse_items-ends :
        (f : ℕ) (rest : Text)
        → 6 * length rest + 3 ≤ f
        → Ensures (Below AllWellFormed (suc (length rest))) (parse_items fold f rest)
    parse_items-ends zero rest h = absurd (omega arith)
    parse_items-ends (suc f) [] h = (tt, omega arith)
    parse_items-ends (suc f) (c ∷ cs) h =
        Ensures-if _ (c == b')' || c == b'|') _ _ (λ _. (tt, omega arith))
          (λ _.
            Ensures-bind _ _ (parse_repeated_atom fold f (c ∷ cs)) _
              (parse_repeated_atom-ends f (c ∷ cs) (omega arith))
              λ (node, r) (w, k).
                Ensures-bind _ _ (parse_items fold f r) _
                  (parse_items-ends f r (omega (arith, h, k)))
                  λ (nodes, r') (ws, k'). ((w, ws), omega (arith, k, k')))

    parse_repeated_atom-ends :
        (f : ℕ) (rest : Text)
        → 6 * length rest + 2 ≤ f
        → Ensures (Below IsWellFormed (length rest)) (parse_repeated_atom fold f rest)
    parse_repeated_atom-ends zero rest h = absurd (omega arith)
    parse_repeated_atom-ends (suc f) rest h =
        Ensures-bind _ _ (parse_atom fold f rest) _ (parse_atom-ends f rest (omega arith))
          λ (atom, r) (w, k).
            Below-le IsWellFormed (suc (length r)) _ (quantify atom r) (omega (arith, k))
              (quantify-IsWellFormed atom r w)

    parse_atom-ends :
        (f : ℕ) (rest : Text)
        → 6 * length rest + 1 ≤ f
        → Ensures (Below IsWellFormedAtom (length rest)) (parse_atom fold f rest)
    parse_atom-ends zero rest h = absurd (omega arith)
    parse_atom-ends (suc f) [] h = tt
    parse_atom-ends (suc f) (c ∷ cs) h =
        Ensures-if _ (c == b'(') _ _
          (λ _. Ensures-bind _ _ (group_body cs) _ (group_body-ends cs) λ body k.
            Ensures-bind (Below IsWellFormed (suc (length cs))) _ (parse_alternation fold f body)
              close_group
              (Below-le IsWellFormed (suc (length body)) _ (parse_alternation fold f body)
                (omega (arith, k)) (parse_alternation-ends f body (omega (arith, h, k))))
              (close_group-ends (suc (length cs))))
          (λ _. simple_atom-IsWellFormed fold c cs)

-- Parsing ends for every pattern: it returns a tree, whose repetitions have bounds in order and at
-- most 256, whose ranges have ends in order and whose alternations are not empty, or it throws.
pub parse-ends : (fold : Text → Text) (pattern : Text) → Ensures IsWellFormed (parse fold pattern)
unfolding parse at_end
parse-ends fold pattern =
    Ensures-bind (Below IsWellFormed (suc (length pattern))) _
      (parse_alternation fold (6 * length pattern + 5) pattern) at_end
      (parse_alternation-ends fold _ pattern (omega arith)) (λ p. at_end-ends p)
  where
    at_end-ends :
        (p : AstNode × Text)
        → Below IsWellFormed (suc (length pattern)) p
        → Ensures IsWellFormed (at_end p)
    at_end-ends (node, []) (w, _) = w
    at_end-ends (node, _ ∷ _) _ = tt
