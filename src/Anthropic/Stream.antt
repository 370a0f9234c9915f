-- ===== src/Anthropic/Stream.antt =====
-- The generator in `do_stream`: from events to the parts of a stream.
use ai_sdk_cpp.Prelude.{
  ℕ, Bool, true, false, List, [], ◌∷◌, ◌++◌, Option, none, some, value_or, Bytes, codes, is_empty,
  ℤ, if◌then◌else◌,
}
use ai_sdk_cpp.Prompt.{Json}
use ai_sdk_cpp.JsonView.{JsonView}
use ai_sdk_cpp.Sse.{SseEvent, parse}
use ai_sdk_cpp.Generate.{FinishReason, Usage, no_usage}
use ai_sdk_cpp.StreamText.{StreamPart, ModelStream}
use ai_sdk_cpp.Anthropic.{finish_reason_of}
use ai_sdk_cpp.Anthropic.Events.{Event, read_event}

-- The variables of the generator.
pub record StreamState : Type 0 where
  pub usage : Usage
  pub finish_reason : FinishReason
  pub current_tool_id : Bytes
  pub current_tool_name : Bytes
  pub in_text : Bool
  pub in_tool_input : Bool
  pub in_thinking : Bool
  pub current_signature : Bytes

abbrev pub initial_state : StreamState
initial_state = record {
  usage = no_usage;
  finish_reason = FinishReason.stop;
  current_tool_id = [];
  current_tool_name = [];
  in_text = false;
  in_tool_input = false;
  in_thinking = false;
  current_signature = [];
}

-- A total is set if the event has one.
abbrev pub set_input : Option ℕ → Usage → Usage
set_input none usage = usage
set_input (some n) usage = record usage { input_total = some n }

abbrev pub set_output : Option ℕ → Usage → Usage
set_output none usage = usage
set_output (some n) usage = record usage { output_total = some n }

-- An empty reason changes nothing.
abbrev pub set_reason : Option Bytes → FinishReason → FinishReason
set_reason none reason = reason
set_reason (some text) reason = if is_empty text then reason else finish_reason_of text

abbrev pub zero_id : Bytes
zero_id = codes "0"

abbrev pub signature_of : Bytes → Option Bytes
signature_of text = if is_empty text then none else some text

module _ (J : Json) where
  -- The parts that an event yields, and the variables behind it.
  abbrev pub open_tool : Bool → StreamState → List (StreamPart J) × StreamState
  open_tool true s = (StreamPart.text_start zero_id ∷ [], record s { in_text = true })
  open_tool false s = (
    StreamPart.tool_input_start s.current_tool_id s.current_tool_name false ∷ [],
    record s { in_tool_input = true },
  )

  abbrev pub tool_delta : Bool → StreamState → Bytes → StreamPart J
  tool_delta true s json = StreamPart.text_delta zero_id json
  tool_delta false s json = StreamPart.tool_input_delta s.current_tool_id json

  unfoldable pub close_block : StreamState → List (StreamPart J) × StreamState
  close_block s =
      if s.in_text
      then (StreamPart.text_end zero_id ∷ [], record s { in_text = false })
      else if s.in_tool_input
      then (StreamPart.tool_input_end s.current_tool_id ∷ [], record s { in_tool_input = false })
      else if s.in_thinking
      then (
        StreamPart.reasoning_end zero_id (signature_of s.current_signature) none ∷ [],
        record s { in_thinking = false; current_signature = [] },
      )
      else ([], s)

  unfoldable pub on_event : Bool → StreamState → Event → List (StreamPart J) × StreamState
  unfolding close_block
  on_event structured s Event.skipped = ([], s)
  on_event structured s (Event.message_start none) = (StreamPart.stream_start [] ∷ [], s)
  on_event structured s (Event.message_start (some (total, (id, model_id)))) = (
    StreamPart.response_metadata id model_id none ∷ StreamPart.stream_start [] ∷ [],
    record s { usage = set_input total s.usage },
  )
  on_event structured s Event.text_block =
      (StreamPart.text_start zero_id ∷ [], record s { in_text = true })
  on_event structured s (Event.tool_block id name) = open_tool structured (record s {
    current_tool_id = value_or id s.current_tool_id;
    current_tool_name = value_or name s.current_tool_name;
  })
  on_event structured s Event.thinking_block = (
    StreamPart.reasoning_start zero_id ∷ [],
    record s { in_thinking = true; current_signature = [] },
  )
  on_event structured s (Event.redacted_block opaque) =
      (StreamPart.reasoning_start zero_id ∷ StreamPart.reasoning_end zero_id none opaque ∷ [], s)
  on_event structured s (Event.text_delta text) = (StreamPart.text_delta zero_id text ∷ [], s)
  on_event structured s (Event.json_delta json) = (tool_delta structured s json ∷ [], s)
  on_event structured s (Event.thinking_delta text) =
      (StreamPart.reasoning_delta zero_id text ∷ [], s)
  on_event structured s (Event.signature_delta text) =
      ([], record s { current_signature = s.current_signature ++ text })
  on_event structured s Event.block_stop = close_block s
  on_event structured s (Event.message_delta reason total) = (
    [],
    record s {
      finish_reason = set_reason reason s.finish_reason;
      usage = set_output total s.usage;
    },
  )
  on_event structured s Event.message_stop =
      (StreamPart.finish s.finish_reason s.usage none ∷ [], s)
  on_event structured s (Event.error_event message) = (StreamPart.error_part message none ∷ [], s)

  -- The events one after the other.
  unfoldable pub on_events : Bool → StreamState → List Event → List (StreamPart J)
  unfolding on_event
  on_events structured s [] = []
  on_events structured s (e ∷ es) =
      let (parts, s') = on_event structured s e in parts ++ on_events structured s' es

-- The loop of the generator. `bad_json` is the exception of boost::json, which ends the stream.
module _ {J : Json} (V : JsonView J) (to_int : ℤ → ℕ) (bad_json : Bytes) where
  abbrev pub before : List (StreamPart J) → ModelStream J → ModelStream J
  before parts rest = record rest { parts = parts ++ rest.parts }

  unfoldable pub generator : Bool → StreamState → List SseEvent → Option Bytes → ModelStream J
  unfolding on_event read_event
  generator structured s [] failure = record { parts = []; failure = failure }
  generator structured s (event ∷ events) failure = elim (read_event V to_int event.payload) [
    | none ↦ record { parts = []; failure = some bad_json }
    | some e ↦
        let (parts, s') = on_event J structured s e in
        before parts (generator structured s' events failure)
  ]

  -- The body of the answer, in the chunks in which it arrives, through the parser of events.
  unfoldable pub do_stream : Bool → List Bytes → Option (ModelStream J)
  unfolding parse generator
  do_stream structured chunks = elim (parse chunks) [
    | none ↦ none
    | some events ↦ some (generator structured initial_state events none)
  ]
