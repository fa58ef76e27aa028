-- ===== src/Jobs/Decision/Messages.antt =====
-- The messages that the queue's consumer accepts (`decodeRefreshQueueMessage` of
-- src/worker/jobs/orchestration.ts).
use larafeed.Prelude.{
  str_eq, str_eq-eq, str_eq_refl, ℕ, ◌≤◌, ◌≡◌, ◌≢◌, inl, inr, ◌↔◌, not, ◌&&◌, ◌==◌, leb,
  if◌then◌else◌, Option, none, some, List, [], ◌∷◌, String, length, arith, ap, Bool-cases, subst,
  sym, ◌∙◌,
}
use larafeed.Jobs.Decision.{
  Field, text, no_text, Body, object, no_object, field_of, utf16_length, valid_id,
  decode_refresh_queue_message, valid_field,
}

-- the bounds, for a length of `n`
in_bounds :
    (n keys : ℕ) (i s : String)
    → (if not (n == 0) && leb n 256 && keys == 1 then some i else none) ≡ some s
    → (i ≡ s) × (1 ≤ n) × (n ≤ 256) × (keys ≡ 1)
in_bounds n keys i s h = ground arith

valid_id-some :
    (operation_id : String) (keys : ℕ) (s : String)
    → valid_id operation_id keys ≡ some s
    → (operation_id ≡ s) × (1 ≤ utf16_length s) × (utf16_length s ≤ 256) × (keys ≡ 1)
valid_id-some operation_id keys s h =
    let (e, low, high, one) = in_bounds (utf16_length operation_id) keys operation_id s h in
    (e, subst (λ t. 1 ≤ utf16_length t) e low, subst (λ t. utf16_length t ≤ 256) e high, one)

valid_id-bounds :
    (n : ℕ) (s : String)
    → 1 ≤ n
    → n ≤ 256
    → (if not (n == 0) && leb n 256 && 1 == 1 then some s else none) ≡ some s
valid_id-bounds n s h k = ground arith

valid_field-some :
    (field : Option Field) (keys : ℕ) (s : String)
    → valid_field field keys ≡ some s
    → (field ≡ some (text s)) × (1 ≤ utf16_length s) × (utf16_length s ≤ 256) × (keys ≡ 1)
valid_field-some none keys s h = cc
valid_field-some (some no_text) keys s h = cc
valid_field-some (some (text operation_id)) keys s h =
    let (e, low, high, one) = valid_id-some operation_id keys s h in
    (ap (λ t. some (text t)) e, low, high, one)

single_value :
    (key : String) (v : Field) (s : String)
    → key ≡ "operationId"
    → some v ≡ some (text s)
    → object ((key, v) ∷ []) ≡ object (("operationId", text s) ∷ [])
single_value key v s e h = cc

no_field : (s : String) → none ≢ some (text s)
no_field s h = cc

single_field :
    (key : String) (v : Field) (s : String)
    → field_of ((key, v) ∷ []) "operationId" ≡ some (text s)
    → object ((key, v) ∷ []) ≡ object (("operationId", text s) ∷ [])
single_field key v s h = elim (Bool-cases (str_eq key "operationId")) [
  | inl e ↦
      single_value key v s (str_eq-eq key "operationId" e)
        (sym (ap (λ b. if b then some v else none) e) ∙ h)
  | inr e ↦ absurd (no_field s (sym (ap (λ b. if b then some v else none) e) ∙ h))
]

one_field :
    (fields : List (String × Field)) (s : String)
    → length fields ≡ 1
    → field_of fields "operationId" ≡ some (text s)
    → object fields ≡ object (("operationId", text s) ∷ [])
one_field [] s h k = cc
one_field ((key, v) ∷ []) s h k = single_field key v s k
one_field (x ∷ y ∷ fields) s h k = absurd (omega arith)

accepted :
    (body : Body) (s : String)
    → decode_refresh_queue_message body ≡ some s
    → (body ≡ object (("operationId", text s) ∷ [])) × (1 ≤ utf16_length s) × (utf16_length s ≤ 256)
unfolding decode_refresh_queue_message
accepted no_object s h = cc
accepted (object fields) s h =
    let (found, low, high, one) = valid_field-some _ _ s h in
    (one_field fields s one found, low, high)

-- The consumer accepts exactly the objects with the one key `operationId`, whose value is a text of
-- 1 to 256 UTF-16 code units, and reads that text.
pub decode_refresh_queue_message-accepts :
    (body : Body) (operation_id : String)
    → (decode_refresh_queue_message body ≡ some operation_id) ↔ (
        (body ≡ object (("operationId", text operation_id) ∷ []))
        × (1 ≤ utf16_length operation_id)
        × (utf16_length operation_id ≤ 256))
unfolding decode_refresh_queue_message
decode_refresh_queue_message-accepts body s = (
  accepted body s,
  λ (e, low, high).
      ap decode_refresh_queue_message e
      ∙ (ap (λ b. valid_field (if b then some (text s) else none) 1) (str_eq_refl "operationId")
          ∙ valid_id-bounds (utf16_length s) s low high),
)
