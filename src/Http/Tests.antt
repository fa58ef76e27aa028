-- ===== src/Http/Tests.antt =====
-- Runs of the bounded reading of request bodies.
use larafeed.Prelude.{ℕ, ◌≤◌, ◌≡◌, refl, none, some, List, [], ◌∷◌, length}
use larafeed.Http.RequestBody.{Read, chunk, body, refused, too_large, read_bounded_request_body}
use larafeed.Http.RequestBody.Bounded.{BytesOf, read_bounded_request_body-BytesOf}

abbrev reads : List Read
reads = chunk (1 ∷ 2 ∷ []) ∷ chunk (3 ∷ []) ∷ []

three_bytes : read_bounded_request_body (some (b'3' ∷ [])) (some reads) 3 ≡ body (1 ∷ 2 ∷ 3 ∷ [])
unfolding read_bounded_request_body
three_bytes = refl

two_at_most : read_bounded_request_body none (some reads) 2 ≡ refused too_large
unfolding read_bounded_request_body
two_at_most = refl

read_bounded_request_body-BytesOf_example :
    BytesOf (some reads) (1 ∷ 2 ∷ 3 ∷ []) × (length {A = ℕ} (1 ∷ 2 ∷ 3 ∷ []) ≤ 3)
read_bounded_request_body-BytesOf_example =
    read_bounded_request_body-BytesOf (some (b'3' ∷ [])) (some reads) 3 (1 ∷ 2 ∷ 3 ∷ []) three_bytes
