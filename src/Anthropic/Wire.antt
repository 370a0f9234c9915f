-- ===== src/Anthropic/Wire.antt =====
-- The conversion of messages in `build_request_body`, up to the spelling of the blocks as JSON.
pub mod Answered
pub mod System
mod Tests
use ai_sdk_cpp.Prelude.{
  Bool, true, false, List, [], ◌∷◌, ◌++◌, map, Option, none, some, is_some, Bytes, codes, str_eq,
  if◌then◌else◌,
}
use ai_sdk_cpp.Prompt.{
  Json, FileData, FilePart, UserPart, AssistantPart, ReasoningPart, ToolResultOutput,
  ToolResultPart, Message, Prompt,
}
use ai_sdk_cpp.JsonView.{JsonView, object_at}
use ai_sdk_cpp.Base64.{base64_encode}

-- The blocks; the last flag of a block is its cache control.
pub data WireBlock (J : Json) : Type 0 where
  text_block : Bytes → Bool → WireBlock J
  document_block : Bytes → Bytes → Bool → WireBlock J
  image_block : Bytes → Bytes → Bool → WireBlock J
  url_block : Bytes → Bool → WireBlock J
  tool_use_block : Bytes → Bytes → J.Value → Bool → WireBlock J
  thinking_block : Bytes → Option Bytes → WireBlock J
  redacted_block : Bytes → WireBlock J
  tool_result_block : Bytes → Bytes → Bool → Bool → WireBlock J

pub data Role : Type 0 where
  user_role assistant_role : Role

pub record WireMessage (J : Json) : Type 0 where
  pub role : Role
  pub content : List (WireBlock J)
  pub cached : Bool

module _ {J : Json} (V : JsonView J) where
  -- The test of `maybe_add_cache_control`.
  unfoldable pub is_cached : J.Object → Bool
  is_cached provider_options = elim (object_at V provider_options (codes "anthropic")) [
    | none ↦ false
    | some anthropic_opts ↦ is_some (V.member anthropic_opts (codes "cache_control"))
  ]

  -- A file with its bytes, or with a location; the other files are left out.
  unfoldable pub file_blocks : FilePart J → FileData J → List (WireBlock J)
  unfolding base64_encode is_cached
  file_blocks p (FileData.data_file bytes) =
      (if str_eq p.media_type (codes "application/pdf")
        then WireBlock.document_block p.media_type (base64_encode bytes)
            (is_cached p.provider_options)
        else WireBlock.image_block p.media_type (base64_encode bytes)
            (is_cached p.provider_options))
      ∷ []
  file_blocks p (FileData.url_file url) =
      WireBlock.url_block url (is_cached p.provider_options) ∷ []
  file_blocks p _ = []

  unfoldable pub user_blocks : List (UserPart J) → List (WireBlock J)
  unfolding file_blocks
  user_blocks [] = []
  user_blocks (UserPart.text p ∷ ps) =
      WireBlock.text_block p.text (is_cached p.provider_options) ∷ user_blocks ps
  user_blocks (UserPart.file p ∷ ps) = file_blocks p p.file_data ++ user_blocks ps

  abbrev pub reasoning_block : ReasoningPart J → Option Bytes → WireBlock J
  reasoning_block p (some opaque) = WireBlock.redacted_block opaque
  reasoning_block p none = WireBlock.thinking_block p.text p.signature

  unfoldable pub assistant_blocks : List (AssistantPart J) → List (WireBlock J)
  unfolding is_cached
  assistant_blocks [] = []
  assistant_blocks (AssistantPart.text p ∷ ps) =
      WireBlock.text_block p.text (is_cached p.provider_options) ∷ assistant_blocks ps
  assistant_blocks (AssistantPart.tool_call p ∷ ps) =
      WireBlock.tool_use_block p.tool_call_id p.tool_name p.input (is_cached p.provider_options)
      ∷ assistant_blocks ps
  assistant_blocks (AssistantPart.reasoning p ∷ ps) =
      reasoning_block p p.redacted_data ∷ assistant_blocks ps
  assistant_blocks (_ ∷ ps) = assistant_blocks ps

  -- The content of a result and whether it is an error; a denial and a content of parts are empty.
  unfoldable pub output_text : ToolResultOutput J → Bytes × Bool
  output_text (ToolResultOutput.text_output s) = (s, false)
  output_text (ToolResultOutput.json_output v) = (J.serialize v, false)
  output_text (ToolResultOutput.error_text_output s) = (s, true)
  output_text (ToolResultOutput.error_json_output v) = (J.serialize v, true)
  output_text _ = ([], false)

  unfoldable pub result_block : ToolResultPart J → WireBlock J
  unfolding output_text is_cached
  result_block p =
      let (content, is_error) = output_text p.output in
      WireBlock.tool_result_block p.tool_call_id content is_error (is_cached p.provider_options)

  -- The loop over the prompt, without the system messages.
  unfoldable pub wire_messages : Prompt J → List (WireMessage J)
  unfolding user_blocks assistant_blocks result_block
  wire_messages [] = []
  wire_messages (Message.system m ∷ ms) = wire_messages ms
  wire_messages (Message.user m ∷ ms) =
      record {
        role = Role.user_role;
        content = user_blocks m.content;
        cached = is_cached m.provider_options;
      }
      ∷ wire_messages ms
  wire_messages (Message.assistant m ∷ ms) =
      record {
        role = Role.assistant_role;
        content = assistant_blocks m.content;
        cached = is_cached m.provider_options;
      }
      ∷ wire_messages ms
  wire_messages (Message.tool m ∷ ms) =
      record {
        role = Role.user_role;
        content = map result_block m.content;
        cached = is_cached m.provider_options;
      }
      ∷ wire_messages ms

-- `system_text` and `system_provider_options`: each system message overwrites them.
unfoldable pub system_from : {J : Json} → Bytes × J.Object → Prompt J → Bytes × J.Object
system_from s [] = s
system_from s (Message.system m ∷ ms) = system_from (m.content, m.provider_options) ms
system_from s (_ ∷ ms) = system_from s ms
