-- ===== src/Jobs/Decision.antt =====
-- The pure part of the orchestrator (src/worker/jobs/orchestration.ts, lines 97-158): limits, retry
-- delays and the reading of queue messages.
pub mod Bounds
pub mod Messages
use Prim.Native.Char.{code}
use Prim.Native.String as Text
use Prim.Native.Nat.{Ordering}
use larafeed.Prelude.{
  str_eq, ℕ, ◌+◌, ◌-◌, ◌*◌, ◌/◌, ◌^◌, min, max, Bool, true, false, ◌&&◌, not, Option, none, some,
  List, [], ◌∷◌, ltb, leb, ◌==◌, if◌then◌else◌, length, String,
}
use larafeed.Effect.{Cause, error, other}
use larafeed.Jobs.Types.{Decision, retry, ProcessorResult, failure, max_backoff_ms}

-- `value ?? fallback`
abbrev pub or_default {ℓ} : {A : Type ℓ} → Option A → A → A
or_default none fallback = fallback
or_default (some a) fallback = a

-- Limits are whole numbers, on which `Math.trunc` does nothing.
abbrev pub limit : Option ℕ → ℕ → ℕ
limit value maximum = max 1 (min maximum (or_default value maximum))

-- An attempt is a whole number; below 1 the source's difference is negative, and the maximum with 0
-- is what the subtraction of natural numbers gives.
unfoldable pub retry_backoff_ms : ℕ → ℕ
retry_backoff_ms attempt =
    let exponent = max 0 (min 20 (attempt - 1)) in min max_backoff_ms (30_000 * 2 ^ exponent)

-- `Math.ceil(ms / 1_000)` of the milliseconds from `now` to `retry_at`, which is at most 0 where
-- `retry_at` is past
abbrev pub seconds_until : ℕ → ℕ → ℕ
seconds_until now retry_at = (retry_at - now + 999) / 1_000

abbrev pub retry_decision : String → ℕ → ℕ → Decision
retry_decision reason now retry_at = retry reason (max 1 (seconds_until now retry_at))

-- A queue message's body, as the platform gives it: an object with its keys, or any other value.
pub data Field : Type 0 where
  text : String → Field
  no_text : Field

pub data Body : Type 0 where
  object : List (String × Field) → Body
  no_object : Body

abbrev pub field_of : List (String × Field) → String → Option Field
field_of [] key = none
field_of ((k, v) ∷ fields) key =
    let rest = field_of fields key in if str_eq k key then some v else rest

-- `length` of a JavaScript string: a character beyond U+FFFF counts twice
abbrev pub utf16_length : String → ℕ
utf16_length String.[] = 0
utf16_length (String.◌∷◌ c s) = (if ltb (code c) 65_536 then 1 else 2) + utf16_length s

abbrev pub valid_id : String → ℕ → Option String
valid_id operation_id keys =
    if not (utf16_length operation_id == 0) && leb (utf16_length operation_id) 256 && keys == 1
    then some operation_id
    else none

abbrev pub valid_field : Option Field → ℕ → Option String
valid_field none keys = none
valid_field (some no_text) keys = none
valid_field (some (text operation_id)) keys = valid_id operation_id keys

unfoldable pub decode_refresh_queue_message : Body → Option String
decode_refresh_queue_message no_object = none
decode_refresh_queue_message (object fields) =
    valid_field (field_of fields "operationId") (length fields)

-- `error.name ? error.name : 'processor_error'`
abbrev name_or_default : String → String
name_or_default String.[] = "processor_error"
name_or_default (String.◌∷◌ c s) = String.◌∷◌ c s

abbrev pub processor_failure : {Entry : Type 0} → Cause → ProcessorResult Entry
processor_failure (error name message numbers) = failure (record {
  retryable = true;
  mark_gone = none;
  retry_after_ms = none;
  error_class = name_or_default name;
  error_message = message;
  http_status = none;
  duration_ms = none;
})
processor_failure other = failure (record {
  retryable = true;
  mark_gone = none;
  retry_after_ms = none;
  error_class = "processor_error";
  error_message = "Feed refresh processor failed";
  http_status = none;
  duration_ms = none;
})
