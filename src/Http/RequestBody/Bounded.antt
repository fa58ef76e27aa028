-- ===== src/Http/RequestBody/Bounded.antt =====
-- What a bounded reading returns (src/worker/http/request-body.ts).
use mathlib.Core.List.{append-nil, append_assoc}
use larafeed.Prelude.{
  ℕ, ◌+◌, ◌≤◌, ◌≡◌, refl, Bool, true, false, Option, none, some, List, [], ◌∷◌, ◌++◌, ltb, leb,
  length, length-append, if◌then◌else◌, arith, sym, ap, ◌∙◌, subst,
}
use larafeed.Filter.Ast.{Text}
use larafeed.Http.RequestBody.{
  Read, chunk, failing, Reading, body, refused, died, BodyError, Declared, declared, invalid,
  concat, read_stream, read_body, exceeds, after_declared, declared_body_length,
  read_bounded_request_body, max_safe_integer,
}

-- All reads yield chunks, and `bytes` is their concatenation.
abbrev pub Yields : List Read → List ℕ → Type 0
Yields [] bytes = bytes ≡ []
Yields (failing ∷ reads) bytes = ⊥
Yields (chunk part ∷ reads) bytes = (rest : List ℕ) × Yields reads rest × (bytes ≡ part ++ rest)

body-injective : {x y : List ℕ} → body x ≡ body y → x ≡ y
body-injective e = cc

concat-snoc :
    (chunks : List (List ℕ)) (part rest : List ℕ)
    → concat (chunks ++ part ∷ []) ++ rest ≡ concat chunks ++ (part ++ rest)
concat-snoc [] part rest = ap (λ l. l ++ rest) (append-nil part)
concat-snoc (c ∷ chunks) part rest =
    append_assoc c (concat (chunks ++ part ∷ [])) rest
    ∙ ap (λ l. c ++ l) (concat-snoc chunks part rest)
    ∙ sym (append_assoc c (concat chunks) (part ++ rest))

unless :
    (b : Bool) (r : Reading) (e : BodyError) (bytes : List ℕ)
    → (if b then refused e else r) ≡ body bytes
    → (b ≡ false) × (r ≡ body bytes)
unless true r e bytes h = cc
unless false r e bytes h = (refl, h)

read_stream-Yields :
    (max_bytes : ℕ) (reads : List Read) (total : ℕ) (chunks : List (List ℕ)) (bytes : List ℕ)
    → total ≤ max_bytes
    → read_stream max_bytes reads total chunks ≡ body bytes
    → (rest : List ℕ) × Yields reads rest
      × (bytes ≡ concat chunks ++ rest)
      × (total + length rest ≤ max_bytes)
unfolding read_stream
read_stream-Yields max_bytes [] total chunks bytes fits h =
    ([], refl, sym (body-injective h) ∙ sym (append-nil (concat chunks)), omega arith)
read_stream-Yields max_bytes (failing ∷ reads) total chunks bytes fits h = cc
read_stream-Yields max_bytes (chunk part ∷ reads) total chunks bytes fits h =
    let (small, more) = unless (ltb max_bytes (total + length part)) _ _ bytes h in
    let (rest, yields, same, bound) =
      read_stream-Yields max_bytes reads (total + length part) (chunks ++ part ∷ []) bytes
        (ground arith) more in
    let l = length-append part rest in
    (part ++ rest, (rest, yields, refl), same ∙ concat-snoc chunks part rest, omega arith)

-- The bytes of a body: none without a stream, and else all that the stream yields.
abbrev pub BytesOf : Option (List Read) → List ℕ → Type 0
BytesOf none bytes = bytes ≡ []
BytesOf (some reads) bytes = Yields reads bytes

read_body-BytesOf :
    (stream : Option (List Read)) (max_bytes : ℕ) (bytes : List ℕ)
    → read_body stream max_bytes ≡ body bytes
    → BytesOf stream bytes × (length bytes ≤ max_bytes)
unfolding read_body
read_body-BytesOf none max_bytes bytes h =
    (sym (body-injective h), subst (λ l. length l ≤ max_bytes) (body-injective h) (omega arith))
read_body-BytesOf (some reads) max_bytes bytes h =
    let (rest, yields, same, bound) =
      read_stream-Yields max_bytes reads 0 [] bytes (omega arith) h in
    (
      subst (Yields reads) (sym same) yields,
      subst (λ l. length l ≤ max_bytes) (sym same) (omega arith),
    )

after_declared-BytesOf :
    (n : Declared) (stream : Option (List Read)) (max_bytes : ℕ) (bytes : List ℕ)
    → after_declared n stream max_bytes ≡ body bytes
    → BytesOf stream bytes × (length bytes ≤ max_bytes)
unfolding after_declared
after_declared-BytesOf invalid stream max_bytes bytes h = cc
after_declared-BytesOf (declared n) stream max_bytes bytes h =
    let (_, more) = unless (exceeds n max_bytes) _ _ bytes h in
    read_body-BytesOf stream max_bytes bytes more

alive :
    (b : Bool) (r : Reading) (bytes : List ℕ)
    → (if b then r else died) ≡ body bytes
    → r ≡ body bytes
alive true r bytes h = h
alive false r bytes h = cc

-- A reading that returns a body returns all bytes of the stream, in order, with no read that failed,
-- and never more bytes than its limit, whatever length was declared.
pub read_bounded_request_body-BytesOf :
    (content_length : Option Text) (stream : Option (List Read)) (max_bytes : ℕ) (bytes : List ℕ)
    → read_bounded_request_body content_length stream max_bytes ≡ body bytes
    → BytesOf stream bytes × (length bytes ≤ max_bytes)
unfolding read_bounded_request_body
read_bounded_request_body-BytesOf content_length stream max_bytes bytes h =
    after_declared-BytesOf (declared_body_length content_length) stream max_bytes bytes
      (alive (leb max_bytes max_safe_integer) _ bytes h)
