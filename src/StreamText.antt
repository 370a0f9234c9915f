-- ===== src/StreamText.antt =====
-- src/core/stream_text.cpp with include/ai/stream/stream_part.hpp: the loop of generate_text over a
-- model that streams. A stream is the list of its parts and the exception that ends it, if any; the
-- consumer drains it. The full result is what the sink holds then. The tools of a step run one after
-- the other, and Generate has the functions that both sources spell alike.
pub mod Blocks
pub mod Loop
pub mod Collect
pub mod Equivalence
pub mod Render
pub mod Simple
mod Tests
use ai_sdk_cpp.Prelude.{
  ℕ, zero, suc, Bool, true, false, not, ◌&&◌, ◌||◌, List, [], ◌∷◌, ◌++◌, map, Option, none, some,
  is_some, Bytes, codes, str_eq, is_empty, leb, ℤ, if◌then◌else◌,
}
use ai_sdk_cpp.Prompt.{Json, AssistantPart, UserPart, Message, Prompt, text_part, system_message}
use ai_sdk_cpp.Tools.{Attempt, ok, threw, Task, ToolSet, ToolCallResult}
use ai_sdk_cpp.Generate.{
  FinishReason, is_tool_calls, Usage, no_usage, add_usage, ToolCallContent, ReasoningContent,
  Content, Warning, GenerateResult, CallOptions, StepResult, GenerateTextResult, Progress,
  function_tool, parse_or_text, append_tool_results, execute_tools, last_step, text_of,
}

-- The parts; a point of time is a number.
pub data StreamPart (J : Json) : Type 0 where
  stream_start : List Warning → StreamPart J
  text_start : Bytes → StreamPart J
  text_delta : Bytes → Bytes → StreamPart J
  text_end : Bytes → StreamPart J
  reasoning_start : Bytes → StreamPart J
  reasoning_delta : Bytes → Bytes → StreamPart J
  reasoning_end : Bytes → Option Bytes → Option Bytes → StreamPart J
  tool_input_start : Bytes → Bytes → Bool → StreamPart J
  tool_input_delta : Bytes → Bytes → StreamPart J
  tool_input_end : Bytes → StreamPart J
  response_metadata : Option Bytes → Option Bytes → Option ℕ → StreamPart J
  finish : FinishReason → Usage → Option J.Object → StreamPart J
  error_part : Bytes → Option ℤ → StreamPart J
  raw : J.Value → StreamPart J

-- What `do_stream` returns: the parts, and how the stream ends.
pub record ModelStream (J : Json) : Type 0 where
  pub parts : List (StreamPart J)
  pub failure : Option Bytes

-- `pending_tool_calls`, by id.
unfoldable pub set_pending : ToolCallContent → List ToolCallContent → List ToolCallContent
set_pending c [] = c ∷ []
set_pending c (p ∷ ps) =
    if str_eq p.tool_call_id c.tool_call_id then c ∷ ps else p ∷ set_pending c ps

unfoldable pub find_pending : Bytes → List ToolCallContent → Option ToolCallContent
find_pending id [] = none
find_pending id (p ∷ ps) = if str_eq p.tool_call_id id then some p else find_pending id ps

unfoldable pub erase_pending : Bytes → List ToolCallContent → List ToolCallContent
erase_pending id [] = []
erase_pending id (p ∷ ps) = if str_eq p.tool_call_id id then ps else p ∷ erase_pending id ps

-- The variables of a step that the parts change.
pub record Accumulated : Type 0 where
  pub text : Bytes
  pub tool_calls : List ToolCallContent
  pub reasoning : Bytes
  pub signature : Option Bytes
  pub redacted : Option Bytes
  pub finish_reason : FinishReason
  pub usage : Usage
  pub warnings : List Warning
  pub pending : List ToolCallContent

abbrev pub nothing_yet : Accumulated
nothing_yet = record {
  text = [];
  tool_calls = [];
  reasoning = [];
  signature = none;
  redacted = none;
  finish_reason = FinishReason.stop;
  usage = no_usage;
  warnings = [];
  pending = [];
}

abbrev pub or_else : Option Bytes → Option Bytes → Option Bytes
or_else none old = old
or_else (some new) old = some new

-- A delta for a call that is not pending is dropped.
abbrev pub add_delta : Option ToolCallContent → Bytes → List ToolCallContent → List ToolCallContent
add_delta none delta ps = ps
add_delta (some c) delta ps = set_pending (record c { input = c.input ++ delta }) ps

abbrev pub end_call : Option ToolCallContent → Accumulated → Accumulated
end_call none a = a
end_call (some c) a = record a {
  tool_calls = a.tool_calls ++ c ∷ [];
  pending = erase_pending c.tool_call_id a.pending;
}

module _ {J : Json} where
  unfoldable pub accumulate : Accumulated → StreamPart J → Accumulated
  unfolding set_pending find_pending erase_pending
  accumulate a (StreamPart.text_delta id delta) = record a { text = a.text ++ delta }
  accumulate a (StreamPart.tool_input_start id name provider_executed) = record a {
    pending = set_pending (record { tool_call_id = id; tool_name = name; input = [] }) a.pending;
  }
  accumulate a (StreamPart.tool_input_delta id delta) = record a {
    pending = add_delta (find_pending id a.pending) delta a.pending;
  }
  accumulate a (StreamPart.tool_input_end id) = end_call (find_pending id a.pending) a
  accumulate a (StreamPart.reasoning_start id) = record a {
    reasoning = [];
    signature = none;
    redacted = none;
  }
  accumulate a (StreamPart.reasoning_delta id delta) = record a { reasoning = a.reasoning ++ delta }
  accumulate a (StreamPart.reasoning_end id signature redacted) = record a {
    signature = or_else signature a.signature;
    redacted = or_else redacted a.redacted;
  }
  accumulate a (StreamPart.finish reason usage metadata) = record a {
    finish_reason = reason;
    usage = usage;
  }
  accumulate a (StreamPart.stream_start warnings) = record a { warnings = warnings }
  accumulate a _ = a

  -- The loop over the parts of a step.
  unfoldable pub consume : Accumulated → List (StreamPart J) → Accumulated
  unfolding accumulate
  consume a [] = a
  consume a (part ∷ parts) = consume (accumulate a part) parts

-- `!accumulated_reasoning.empty() || reasoning_redacted`.
abbrev pub reasoning_of : Accumulated → List ReasoningContent
reasoning_of a =
    if not (is_empty a.reasoning) || is_some a.redacted
    then record { text = a.reasoning; signature = a.signature; redacted_data = a.redacted } ∷ []
    else []

module _ {J : Json} where
  -- The content of a step's result: the reasoning, the text if there is any, the calls.
  unfoldable pub step_content : Accumulated → List (Content J)
  step_content a =
      map Content.reasoning (reasoning_of a)
      ++ ((if not (is_empty a.text) then Content.text a.text ∷ [] else [])
          ++ map Content.tool_call a.tool_calls)

  unfoldable pub step_gen_result : Accumulated → GenerateResult J
  unfolding step_content
  step_gen_result a = record {
    content = step_content a;
    finish_reason = a.finish_reason;
    usage = a.usage;
    warnings = a.warnings;
  }

  abbrev pub reasoning_part : ReasoningContent → AssistantPart J
  reasoning_part r = AssistantPart.reasoning (record {
    text = r.text;
    signature = r.signature;
    redacted_data = r.redacted_data;
    provider_options = J.empty_object;
  })

  abbrev pub call_part : ToolCallContent → AssistantPart J
  call_part c = AssistantPart.tool_call (record {
    tool_call_id = c.tool_call_id;
    tool_name = c.tool_name;
    input = parse_or_text J c.input;
    provider_executed = false;
    provider_options = J.empty_object;
  })

  -- `append_assistant_message` of this source.
  unfoldable pub append_streamed_message :
      Prompt J → Bytes → List ToolCallContent → List ReasoningContent → Prompt J
  append_streamed_message prompt text tool_calls reasoning =
      prompt
      ++ Message.assistant (record {
        content =
            map reasoning_part reasoning
            ++ ((if not (is_empty text) then AssistantPart.text (text_part J text) ∷ [] else [])
                ++ map call_part tool_calls);
        provider_options = J.empty_object;
      })
        ∷ []

-- The options that stream_text reads: `do_stream` is the model behind its middleware, `settings` are
-- those that it hands on. `on_chunk` and `max_retries` are never read.
pub record StreamTextOptions (J : Json) (W S : Type 0) : Type 0 where
  pub do_stream : CallOptions J S → Task W (ModelStream J)
  pub tools : ToolSet J W
  pub tool_choice : Bytes
  pub prompt : Option Bytes
  pub messages : Option (Prompt J)
  pub system : Option Bytes
  pub settings : S
  pub max_steps : ℕ
  pub on_step_finish : Option (StepResult J → W → W)
  pub is_cancelled : W → Bool
