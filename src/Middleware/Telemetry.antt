-- ===== src/Middleware/Telemetry.antt =====
-- include/ai/model/telemetry_middleware.hpp and telemetry.hpp: spans around the calls of a model.
use ai_sdk_cpp.Prelude.{ℕ, Option, none, some, Bytes, codes, List, []}
use ai_sdk_cpp.Tools.{ok, threw}
use ai_sdk_cpp.Generate.{FinishReason, GenerateResult}
use ai_sdk_cpp.Prompt.{Json}
use ai_sdk_cpp.Middleware.{Call, Middleware}
use ai_sdk_cpp.Middleware.Logging.{with_log}

-- A duration is a value of a type `D`.
pub record SpanAttributes (D : Type 0) : Type 0 where
  pub operation : Bytes
  pub model_id : Bytes
  pub provider : Bytes
  pub input_tokens : Option ℕ
  pub output_tokens : Option ℕ
  pub duration_ms : Option D
  pub finish_reason : Option Bytes
  pub error : Option Bytes
  pub extra : List (Bytes × Bytes)

abbrev pub no_attributes : {D : Type 0} → Bytes → SpanAttributes D
no_attributes operation = record {
  operation = operation;
  model_id = [];
  provider = [];
  input_tokens = none;
  output_tokens = none;
  duration_ms = none;
  finish_reason = none;
  error = none;
  extra = [];
}

-- What a tracer does with a span is a change of the log.
pub record Tracer (D L : Type 0) : Type 0 where
  pub on_start : SpanAttributes D → L → L
  pub on_end : SpanAttributes D → L → L
  pub on_error : SpanAttributes D → L → L

unfoldable pub span_reason : FinishReason → Bytes
span_reason FinishReason.stop = codes "stop"
span_reason FinishReason.length = codes "length"
span_reason FinishReason.tool_calls = codes "tool_calls"
span_reason FinishReason.content_filter = codes "content_filter"
span_reason _ = codes "other"

abbrev pub failed_span : {D : Type 0} → SpanAttributes D → D → Bytes → SpanAttributes D
failed_span attrs duration what = record attrs { duration_ms = some duration; error = some what }

module _ {J : Json} {D : Type 0} where
  abbrev pub ended_span : SpanAttributes D → D → GenerateResult J → SpanAttributes D
  ended_span attrs duration result = record attrs {
    duration_ms = some duration;
    input_tokens = result.usage.input_total;
    output_tokens = result.usage.output_total;
    finish_reason = some (span_reason result.finish_reason);
  }

-- The global tracer is a part of the world that a call finds; `elapsed` is the time between two worlds.
-- `try` with a tracer.
module _ {J : Json} {O M L D : Type 0} (elapsed : M × L → M × L → D) where
  unfoldable pub traced_generate :
      Tracer D L → Call O (M × L) (GenerateResult J) → Call O (M × L) (GenerateResult J)
  unfolding span_reason
  traced_generate tracer do_generate f =
      let attrs = no_attributes (codes "ai.generateText") in
      let started = with_log (tracer.on_start attrs) f in
      let (attempt, f') = do_generate started in
      elim attempt [
        | ok result ↦ (
          ok result,
          with_log (tracer.on_end (ended_span attrs (elapsed started.world f'.world) result)) f',
        )
        | threw e ↦ (
          threw e,
          with_log (tracer.on_error (failed_span attrs (elapsed started.world f'.world) e)) f',
        )
      ]

module _ {J : Json} {O R M L D : Type 0} (get_tracer : M × L → Option (Tracer D L))
    (elapsed : M × L → M × L → D) where
  unfoldable pub telemetry_generate :
      Call O (M × L) (GenerateResult J) → Call O (M × L) R → Call O (M × L) (GenerateResult J)
  unfolding traced_generate
  telemetry_generate do_generate do_stream f = elim (get_tracer f.world) [
    | none ↦ do_generate f
    | some tracer ↦ traced_generate elapsed tracer do_generate f
  ]

  -- The span of a stream is started and never ended.
  unfoldable pub telemetry_stream :
      Call O (M × L) (GenerateResult J) → Call O (M × L) R → Call O (M × L) R
  telemetry_stream do_generate do_stream f = elim (get_tracer f.world) [
    | none ↦ do_stream f
    | some tracer ↦ do_stream (with_log (tracer.on_start (no_attributes (codes "ai.streamText"))) f)
  ]

  unfoldable pub telemetry_middleware : Middleware O (GenerateResult J) R (M × L)
  unfolding telemetry_generate telemetry_stream
  telemetry_middleware = record {
    wrap_generate = telemetry_generate;
    wrap_stream = telemetry_stream;
  }
