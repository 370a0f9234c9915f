-- ===== src/StreamText/Blocks.antt =====
-- A step as a provider streams it: blocks in any number of deltas.
use ai_sdk_cpp.Prelude.{false, List, [], ◌∷◌, ◌++◌, map, Option, none, Bytes}
use ai_sdk_cpp.Prompt.{Json}
use ai_sdk_cpp.Generate.{FinishReason, Usage, ToolCallContent, Warning}
use ai_sdk_cpp.StreamText.{StreamPart, Accumulated}

abbrev pub joined : List Bytes → Bytes
joined [] = []
joined (c ∷ cs) = c ++ joined cs

-- A block of a stream: its id and the text of its deltas.
pub record Block : Type 0 where
  pub id : Bytes
  pub deltas : List Bytes

pub record ReasoningBlock : Type 0 where
  pub block : Block
  pub signature : Option Bytes
  pub redacted : Option Bytes

pub record CallBlock : Type 0 where
  pub block : Block
  pub name : Bytes

pub record StreamedStep : Type 0 where
  pub warnings : List Warning
  pub reasoning : ReasoningBlock
  pub text : Block
  pub calls : List CallBlock
  pub reason : FinishReason
  pub usage : Usage

abbrev pub call_of : CallBlock → ToolCallContent
call_of c = record { tool_call_id = c.block.id; tool_name = c.name; input = joined c.block.deltas }

-- One call is pending.
abbrev pub with_pending : Accumulated → Bytes → Bytes → Bytes → Accumulated
with_pending a id name input = record a {
  pending = record { tool_call_id = id; tool_name = name; input = input } ∷ [];
}

module _ {J : Json} where
  abbrev pub text_deltas : Bytes → List Bytes → List (StreamPart J)
  text_deltas id [] = []
  text_deltas id (d ∷ ds) = StreamPart.text_delta id d ∷ text_deltas id ds

  abbrev pub reasoning_deltas : Bytes → List Bytes → List (StreamPart J)
  reasoning_deltas id [] = []
  reasoning_deltas id (d ∷ ds) = StreamPart.reasoning_delta id d ∷ reasoning_deltas id ds

  abbrev pub input_deltas : Bytes → List Bytes → List (StreamPart J)
  input_deltas id [] = []
  input_deltas id (d ∷ ds) = StreamPart.tool_input_delta id d ∷ input_deltas id ds

  abbrev pub call_parts : CallBlock → List (StreamPart J)
  call_parts c =
      StreamPart.tool_input_start c.block.id c.name false ∷ input_deltas c.block.id c.block.deltas
      ++ StreamPart.tool_input_end c.block.id ∷ []

  abbrev pub calls_parts : List CallBlock → List (StreamPart J)
  calls_parts [] = []
  calls_parts (c ∷ cs) = call_parts c ++ calls_parts cs

  abbrev pub text_parts : Block → List (StreamPart J)
  text_parts b =
      StreamPart.text_start b.id ∷ text_deltas b.id b.deltas ++ StreamPart.text_end b.id ∷ []

  abbrev pub reasoning_parts : ReasoningBlock → List (StreamPart J)
  reasoning_parts r =
      StreamPart.reasoning_start r.block.id ∷ reasoning_deltas r.block.id r.block.deltas
      ++ StreamPart.reasoning_end r.block.id r.signature r.redacted ∷ []

  abbrev pub streamed : StreamedStep → List (StreamPart J)
  streamed s =
      StreamPart.stream_start s.warnings ∷ reasoning_parts s.reasoning
      ++ (text_parts s.text
          ++ (calls_parts s.calls ++ StreamPart.finish s.reason s.usage none ∷ []))

-- What a step should come to, whatever its deltas are.
abbrev pub accumulated : StreamedStep → Accumulated
accumulated s = record {
  text = joined s.text.deltas;
  tool_calls = map call_of s.calls;
  reasoning = joined s.reasoning.block.deltas;
  signature = s.reasoning.signature;
  redacted = s.reasoning.redacted;
  finish_reason = s.reason;
  usage = s.usage;
  warnings = s.warnings;
  pending = [];
}
