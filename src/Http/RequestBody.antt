-- ===== src/Http/RequestBody.antt =====
-- The bounded reading of request bodies: `declaredBodyLength`, `readStream` and
-- `readBoundedRequestBody` of src/worker/http/request-body.ts. A stream is the list of what its reads
-- yield, up to its end; a read that rejects, as after an abort, is `failing`.
pub mod Bounded
use larafeed.Prelude.{
  ℕ, zero, suc, ◌+◌, ◌-◌, ◌*◌, Bool, true, false, not, ◌&&◌, ◌||◌, Option, none, some, List, [],
  ◌∷◌, ◌++◌, leb, ltb, ◌==◌, if◌then◌else◌, length,
}
use larafeed.Filter.Ast.{Text}

pub data BodyError : Type 0 where
  invalid_content_length too_large unreadable : BodyError

pub data Read : Type 0 where
  chunk : List ℕ → Read
  failing : Read

pub data Reading : Type 0 where
  body : List ℕ → Reading
  refused : BodyError → Reading
  died : Reading

pub data Declared : Type 0 where
  declared : Option ℕ → Declared
  invalid : Declared

abbrev pub max_safe_integer : ℕ
max_safe_integer = 9007199254740991

abbrev pub is_digit : ℕ → Bool
is_digit c = leb b'0' c && leb c b'9'

abbrev pub every_digit : Text → Bool
every_digit [] = true
every_digit (c ∷ cs) = is_digit c && every_digit cs

-- `/^(?:0|[1-9]\d*)$/u`
abbrev pub is_numeral : Text → Bool
is_numeral [] = false
is_numeral (c ∷ []) = is_digit c
is_numeral (c ∷ d ∷ cs) = leb b'1' c && leb c b'9' && every_digit (d ∷ cs)

abbrev pub number_from : ℕ → Text → ℕ
number_from acc [] = acc
number_from acc (c ∷ cs) = number_from (acc * 10 + (c - b'0')) cs

-- A numeral beyond the safe integers is rounded to a number beyond them.
abbrev pub declared_body_length : Option Text → Declared
declared_body_length none = declared none
declared_body_length (some value) =
    if is_numeral value && leb (number_from 0 value) max_safe_integer
    then declared (some (number_from 0 value))
    else invalid

-- the copy of the chunks into one array
abbrev pub concat : List (List ℕ) → List ℕ
concat [] = []
concat (bytes ∷ chunks) = bytes ++ concat chunks

unfoldable pub read_stream : ℕ → List Read → ℕ → List (List ℕ) → Reading
read_stream max_bytes [] total chunks = body (concat chunks)
read_stream max_bytes (failing ∷ reads) total chunks = refused unreadable
read_stream max_bytes (chunk bytes ∷ reads) total chunks =
    let rest = read_stream max_bytes reads (total + length bytes) (chunks ++ bytes ∷ []) in
    if ltb max_bytes (total + length bytes) then refused too_large else rest

unfoldable pub read_body : Option (List Read) → ℕ → Reading
unfolding read_stream
read_body none max_bytes = body []
read_body (some reads) max_bytes = read_stream max_bytes reads 0 []

abbrev pub exceeds : Option ℕ → ℕ → Bool
exceeds none max_bytes = false
exceeds (some n) max_bytes = ltb max_bytes n

unfoldable pub after_declared : Declared → Option (List Read) → ℕ → Reading
unfolding read_body
after_declared invalid stream max_bytes = refused invalid_content_length
after_declared (declared n) stream max_bytes =
    if exceeds n max_bytes then refused too_large else read_body stream max_bytes

unfoldable pub read_bounded_request_body : Option Text → Option (List Read) → ℕ → Reading
unfolding after_declared
read_bounded_request_body content_length stream max_bytes =
    if leb max_bytes max_safe_integer
    then after_declared (declared_body_length content_length) stream max_bytes
    else died
