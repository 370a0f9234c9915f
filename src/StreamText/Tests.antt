-- ===== src/StreamText/Tests.antt =====
-- Runs of stream_text: a model that streams a call in two deltas, a tool, a second answer.
use ai_sdk_cpp.Prelude.{ℕ, zero, suc, ◌≡◌, refl, false, [], ◌∷◌, none, some, codes, str_eq}
use ai_sdk_cpp.Prompt.{plain_json}
use ai_sdk_cpp.Tools.{Attempt, ok, threw, ToolDefinition}
use ai_sdk_cpp.Generate.{
  FinishReason, CallOptions, GenerateTextResult, is_tool_calls, execute_tools, execute_one_tool,
  executor, generate_text,
}
use ai_sdk_cpp.StreamText.{StreamPart, ModelStream, nothing_yet, consume, StreamTextOptions}
use ai_sdk_cpp.StreamText.Collect.{collected}
use ai_sdk_cpp.StreamText.Equivalence.{unseen, without_messages, stream_text-generate_text}
use ai_sdk_cpp.StreamText.Loop.{stream_text, stream_loop, finish_stream_step}
use ai_sdk_cpp.StreamText.Blocks.{StreamedStep, streamed, accumulated}
use ai_sdk_cpp.StreamText.Render.{consume-streamed}
use ai_sdk_cpp.StreamText.Simple.{simple_result, stream_text_simple}

-- The world counts the calls of the model and of the tools.
abbrev list_files : ToolDefinition plain_json ℕ
list_files = record {
  name = codes "ls";
  description = none;
  input_schema = tt;
  strict = false;
  execute = some (λ input context n. (ok (codes "a b"), suc n));
}

abbrev thinking_step : StreamedStep
thinking_step = record {
  warnings = [];
  reasoning = record {
    block = record { id = codes "r"; deltas = codes "Look" ∷ codes "." ∷ [] };
    signature = some (codes "s");
    redacted = none;
  };
  text = record { id = codes "t"; deltas = codes "He" ∷ codes "re" ∷ [] };
  calls =
      record {
        block = record { id = codes "c1"; deltas = codes "{" ∷ codes "}" ∷ [] };
        name = codes "ls";
      }
      ∷ [];
  reason = FinishReason.tool_calls;
  usage = record { input_total = some 3; output_total = none };
}

abbrev call_stream : ModelStream plain_json
call_stream = record { parts = streamed thinking_step; failure = none }

abbrev answer_stream : ModelStream plain_json
answer_stream = record {
  parts = StreamPart.text_delta (codes "t") (codes "done") ∷ [];
  failure = none;
}

abbrev model : CallOptions plain_json (Unit {0}) → ℕ → Attempt (ModelStream plain_json) × ℕ
model options zero = (ok call_stream, 1)
model options (suc n) = (ok answer_stream, suc (suc n))

abbrev options : ℕ → StreamTextOptions plain_json ℕ (Unit {0})
options max_steps = record {
  do_stream = model;
  tools = list_files ∷ [];
  tool_choice = codes "auto";
  prompt = some (codes "list");
  messages = none;
  system = none;
  settings = tt;
  max_steps = max_steps;
  on_step_finish = none;
  is_cancelled = λ n. false;
}

abbrev returned : Attempt (GenerateTextResult plain_json) → GenerateTextResult plain_json
returned (ok r) = r
returned (threw e) = simple_result nothing_yet

-- The tool has run once and the model twice.
streams_world : (stream_text (options 5) 0).2 ≡ 3
unfolding stream_text stream_loop finish_stream_step is_tool_calls execute_tools execute_one_tool
    executor str_eq consume
streams_world = refl

streams_text : (returned (stream_text (options 5) 0).0).text ≡ codes "done"
unfolding stream_text stream_loop finish_stream_step is_tool_calls execute_tools execute_one_tool
    executor str_eq consume
streams_text = refl

-- With one step the call is not answered.
simple_world : (stream_text (options 1) 0).2 ≡ 1
unfolding stream_text
simple_world = refl

stream_text-generate_text_example :
    unseen (stream_text (options 5) 0) ≡ without_messages (generate_text (collected (options 5)) 0)
stream_text-generate_text_example = stream_text-generate_text (options 5) 0 refl

consume-streamed_example :
    consume {J = plain_json} nothing_yet (streamed thinking_step) ≡ accumulated thinking_step
consume-streamed_example = consume-streamed plain_json thinking_step

stream_text_simple_example :
    stream_text (options 1) 0
    ≡ (ok (simple_result (consume nothing_yet call_stream.parts)), call_stream.parts, 1)
stream_text_simple_example = stream_text_simple (options 1) call_stream 0 1 refl refl refl
