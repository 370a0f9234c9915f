-- ===== src/Anthropic.antt =====
-- providers/anthropic/src/anthropic_model.cpp: how the answers of the Messages API are read, whole and
-- as a stream. The exceptions of boost::json are `none`. A token count goes through a cast to int,
-- which is an argument, and of the usage the model keeps the totals.
pub mod Agree
pub mod Body
pub mod Events
pub mod Payloads
pub mod Stream
pub mod Onto
pub mod Response
pub mod Says
pub mod Structured
pub mod Told
pub mod Wire
mod Tests
use ai_sdk_cpp.Prelude.{
  ℕ, Bool, true, false, List, Option, none, some, Bytes, codes, str_eq, is_empty, ℤ, if◌then◌else◌,
}
use ai_sdk_cpp.Prompt.{Json}
use ai_sdk_cpp.JsonView.{JsonView, is_null, as_int64}
use ai_sdk_cpp.Generate.{FinishReason, Usage}

-- `stop_reason`.
unfoldable pub finish_reason_of : Bytes → FinishReason
finish_reason_of reason =
    if str_eq reason (codes "end_turn")
    then FinishReason.stop
    else if str_eq reason (codes "stop_sequence")
    then FinishReason.stop
    else if str_eq reason (codes "max_tokens")
    then FinishReason.length
    else if str_eq reason (codes "model_context_window_exceeded")
    then FinishReason.length
    else if str_eq reason (codes "tool_use")
    then FinishReason.tool_calls
    else if str_eq reason (codes "refusal")
    then FinishReason.content_filter
    else FinishReason.other

module _ {J : Json} (V : JsonView J) (to_int : ℤ → ℕ) where
  -- `if (auto it = usage.find(key); it != usage.end()) total = static_cast<int>(it->value().as_int64())`.
  abbrev pub count_of : Option J.Value → Option (Option ℕ)
  count_of none = some none
  count_of (some v) = elim (as_int64 V v) [ none ↦ none | some n ↦ some (some (to_int n)) ]

  -- The counts that the model does not keep, which are read all the same unless they are null.
  abbrev pub readable : Option J.Value → Bool
  readable none = true
  readable (some v) =
      if is_null (V.kind v) then true else (elim (as_int64 V v) [ none ↦ false | some n ↦ true ])

  -- An exception at a count that is not kept is an exception all the same.
  abbrev pub when_readable : {A : Type 0} → Bool → Bool → Option A → Option A
  when_readable true true o = o
  when_readable _ _ o = none

  abbrev pub cache_readable : J.Object → Option (Option ℕ) → Option (Option ℕ)
  cache_readable usage o =
      when_readable (readable (V.member usage (codes "cache_read_input_tokens")))
        (readable (V.member usage (codes "cache_creation_input_tokens"))) o
