-- ===== src/Prompt.antt =====
-- include/ai/prompt/message.hpp and content_part.hpp: the messages of a conversation. The types of
-- boost::json are a parameter, with the operations on them that the code calls.
use ai_sdk_cpp.Prelude.{Bool, true, false, List, [], Option, none, Bytes}

-- boost::json, and the parser of util/json.hpp around it.
pub record Json : Type 1 where
  pub Value : Type 0
  pub Object : Type 0
  -- `json::object{}`, the default of every `provider_options`.
  pub empty_object : Object
  -- `json::value(std::string)`.
  pub string : Bytes → Value
  -- `object[key] = value`, and `json::value(object)`.
  pub set : Object → Bytes → Value → Object
  pub object : Object → Value
  pub serialize : Value → Bytes
  pub safe_parse : Bytes → Option Value

pub data FileData (J : Json) : Type 0 where
  data_file : Bytes → FileData J
  url_file : Bytes → FileData J
  reference_file : J.Object → FileData J
  text_file : Bytes → FileData J

pub record TextPart (J : Json) : Type 0 where
  pub text : Bytes
  pub provider_options : J.Object

pub record FilePart (J : Json) : Type 0 where
  pub file_data : FileData J
  pub media_type : Bytes
  pub filename : Option Bytes
  pub provider_options : J.Object

pub record ReasoningPart (J : Json) : Type 0 where
  pub text : Bytes
  pub signature : Option Bytes
  pub redacted_data : Option Bytes
  pub provider_options : J.Object

pub record ToolCallPart (J : Json) : Type 0 where
  pub tool_call_id : Bytes
  pub tool_name : Bytes
  pub input : J.Value
  pub provider_executed : Bool
  pub provider_options : J.Object

pub data ContentOutputPart (J : Json) : Type 0 where
  text : TextPart J → ContentOutputPart J
  file : FilePart J → ContentOutputPart J

pub data ToolResultOutput (J : Json) : Type 0 where
  text_output : Bytes → ToolResultOutput J
  json_output : J.Value → ToolResultOutput J
  error_text_output : Bytes → ToolResultOutput J
  error_json_output : J.Value → ToolResultOutput J
  execution_denied : Option Bytes → ToolResultOutput J
  content_output : List (ContentOutputPart J) → ToolResultOutput J

pub record ToolResultPart (J : Json) : Type 0 where
  pub tool_call_id : Bytes
  pub tool_name : Bytes
  pub output : ToolResultOutput J
  pub provider_options : J.Object

pub data UserPart (J : Json) : Type 0 where
  text : TextPart J → UserPart J
  file : FilePart J → UserPart J

pub data AssistantPart (J : Json) : Type 0 where
  text : TextPart J → AssistantPart J
  file : FilePart J → AssistantPart J
  reasoning : ReasoningPart J → AssistantPart J
  tool_call : ToolCallPart J → AssistantPart J
  tool_result : ToolResultPart J → AssistantPart J

pub record SystemMessage (J : Json) : Type 0 where
  pub content : Bytes
  pub provider_options : J.Object

pub record UserMessage (J : Json) : Type 0 where
  pub content : List (UserPart J)
  pub provider_options : J.Object

pub record AssistantMessage (J : Json) : Type 0 where
  pub content : List (AssistantPart J)
  pub provider_options : J.Object

pub record ToolMessage (J : Json) : Type 0 where
  pub content : List (ToolResultPart J)
  pub provider_options : J.Object

pub data Message (J : Json) : Type 0 where
  system : SystemMessage J → Message J
  user : UserMessage J → Message J
  assistant : AssistantMessage J → Message J
  tool : ToolMessage J → Message J

abbrev pub Prompt : Json → Type 0
Prompt J = List (Message J)

-- `std::holds_alternative<SystemMessage>`.
abbrev pub is_system : {J : Json} → Message J → Bool
is_system (Message.system m) = true
is_system _ = false

-- A text part with default options, `TextPart{.text = s}`.
abbrev pub text_part : (J : Json) → Bytes → TextPart J
text_part J s = record { text = s; provider_options = J.empty_object }

abbrev pub system_message : (J : Json) → Bytes → Message J
system_message J s = Message.system (record { content = s; provider_options = J.empty_object })

-- A JSON library over plain text, for the runs of the model.
abbrev pub plain_json : Json
plain_json = record {
  Value = Bytes;
  Object = Unit {0};
  empty_object = tt;
  string = λ s. s;
  set = λ o key v. o;
  object = λ o. [];
  serialize = λ v. v;
  safe_parse = λ s. none;
}
