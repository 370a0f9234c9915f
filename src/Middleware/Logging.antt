-- ===== src/Middleware/Logging.antt =====
-- include/ai/model/logging_middleware.hpp. A world has what the model changes and the log beside it.
use ai_sdk_cpp.Prelude.{ℕ, Option, none, some, Bytes, codes, ◌++◌}
use ai_sdk_cpp.Tools.{ok, threw}
use ai_sdk_cpp.Generate.{FinishReason, GenerateResult}
use ai_sdk_cpp.Prompt.{Json}
use ai_sdk_cpp.Permission.{to_string}
use ai_sdk_cpp.Middleware.{Frame, Call, Middleware}

unfoldable pub finish_reason_str : FinishReason → Bytes
finish_reason_str FinishReason.stop = codes "stop"
finish_reason_str FinishReason.length = codes "length"
finish_reason_str FinishReason.content_filter = codes "content_filter"
finish_reason_str FinishReason.tool_calls = codes "tool_calls"
finish_reason_str FinishReason.error = codes "error"
finish_reason_str FinishReason.other = codes "other"

-- ` | name=total`, if there is a total.
abbrev total_str : Bytes → Option ℕ → Bytes
total_str name none = codes ""
total_str name (some n) = name ++ to_string n

unfoldable pub completed : {J : Json} → ℕ → GenerateResult J → Bytes
unfolding to_string finish_reason_str
completed duration result =
    codes "[generate] Completed in "
    ++ (to_string duration
        ++ (codes "ms"
            ++ (total_str (codes " | input_tokens=") result.usage.input_total
                ++ (total_str (codes " | output_tokens=") result.usage.output_total
                    ++ (codes " | finish_reason=" ++ finish_reason_str result.finish_reason)))))

module _ {O M L : Type 0} where
  -- `log`, by the function that is set or to the standard error.
  abbrev pub with_log : (L → L) → Frame O (M × L) → Frame O (M × L)
  with_log change f = record f { world = (f.world.0, change f.world.1) }

-- `elapsed_ms` is the time between two worlds.
module _ {J : Json} {O R M L : Type 0} (log : Bytes → L → L) (elapsed_ms : M × L → M × L → ℕ) where
  unfoldable pub logging_generate :
      Call O (M × L) (GenerateResult J) → Call O (M × L) R → Call O (M × L) (GenerateResult J)
  unfolding completed
  logging_generate do_generate do_stream f =
      let (attempt, f') = do_generate (with_log (log (codes "[generate] Starting call...")) f) in
      elim attempt [
        | threw e ↦ (threw e, f')
        | ok result ↦
            (ok result, with_log (log (completed (elapsed_ms f.world f'.world) result)) f')
      ]

  unfoldable pub logging_stream :
      Call O (M × L) (GenerateResult J) → Call O (M × L) R → Call O (M × L) R
  logging_stream do_generate do_stream f =
      let (attempt, f') = do_stream (with_log (log (codes "[stream] Starting call...")) f) in
      elim attempt [
        | threw e ↦ (threw e, f')
        | ok result ↦ (ok result, with_log (log (codes "[stream] Stream opened")) f')
      ]

  unfoldable pub logging_middleware : Middleware O (GenerateResult J) R (M × L)
  unfolding logging_generate logging_stream
  logging_middleware = record { wrap_generate = logging_generate; wrap_stream = logging_stream }
