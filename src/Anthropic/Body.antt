-- ===== src/Anthropic/Body.antt =====
-- `build_request_body`: the JSON of a request.
pub mod Budget
pub mod Request
pub mod Thinking
mod Tests
use ai_sdk_cpp.Prelude.{
  ℕ, zero, suc, ◌-◌, Bool, true, false, not, ◌&&◌, ◌||◌, List, [], ◌∷◌, ◌++◌, map, Option, none,
  some, is_some, value_or, Bytes, codes, str_eq, is_empty, leb, ltb, ◌==◌, ℤ, pos, negsuc,
  if◌then◌else◌,
}
use ai_sdk_cpp.Prompt.{Json, Prompt}
use ai_sdk_cpp.JsonView.{JsonView, as_object, as_string, object_at, string_at, array_at}
use ai_sdk_cpp.Generate.{FunctionTool}
use ai_sdk_cpp.GenerateObject.{ResponseFormat}
use ai_sdk_cpp.Anthropic.Wire.{
  WireBlock, WireMessage, Role, user_role, assistant_role, is_cached, wire_messages, system_from,
}

-- What else the code makes of boost::json.
pub record JsonMaker (J : Json) (V : JsonView J) : Type 0 where
  pub int : ℤ → J.Value
  pub double : V.Double → J.Value
  pub bool : Bool → J.Value
  pub array : List J.Value → J.Value

pub data ToolChoice : Type 0 where
  choose_auto choose_none choose_required : ToolChoice
  choose_specific : Bytes → ToolChoice

-- `CallOptions` as far as the body goes.
pub record RequestOptions (J : Json) (V : JsonView J) : Type 0 where
  pub prompt : Prompt J
  pub max_output_tokens : Option ℤ
  pub temperature : Option V.Double
  pub top_p : Option V.Double
  pub top_k : Option ℤ
  pub stop_sequences : Option (List Bytes)
  pub response_format : Option (Bytes × Option J.Object × Option Bytes × Option Bytes)
  pub tools : List (FunctionTool J)
  pub tool_choice : Option ToolChoice
  pub reasoning : Option Bytes
  pub user_id : Option Bytes
  pub provider_options : J.Object

-- `model_id_.find(part) != npos`.
unfoldable pub starts_with : Bytes → Bytes → Bool
starts_with [] s = true
starts_with (c ∷ cs) [] = false
starts_with (c ∷ cs) (d ∷ ds) = c == d && starts_with cs ds

unfoldable pub contains : Bytes → Bytes → Bool
unfolding starts_with
contains part [] = starts_with part []
contains part (c ∷ cs) = starts_with part (c ∷ cs) || contains part cs

unfoldable pub default_max_tokens : Bytes → ℤ
unfolding contains
default_max_tokens model_id = if contains (codes "opus") model_id then pos 32000 else pos 64000

unfoldable pub reasoning_to_budget : Bytes → ℕ
reasoning_to_budget level =
    if str_eq level (codes "minimal") || str_eq level (codes "low")
    then 1024
    else if str_eq level (codes "medium")
    then 10000
    else if str_eq level (codes "high")
    then 50000
    else if str_eq level (codes "xhigh")
    then 100000
    else 0

-- `if (budget >= max_tok) budget = (max_tok > 1024) ? (max_tok - 1) : 1024;`; a limit below zero is
-- passed by each budget.
abbrev pub below_limit : ℤ → ℕ → ℕ
below_limit (pos max_tok) budget =
    if leb max_tok budget then (if ltb 1024 max_tok then max_tok - 1 else 1024) else budget
below_limit (negsuc n) budget = 1024

-- `if (budget < 1024) budget = 1024;`
unfoldable pub clamp_budget : ℤ → ℕ → ℕ
clamp_budget max_tok budget =
    if ltb (below_limit max_tok budget) 1024 then 1024 else below_limit max_tok budget

module _ {J : Json} (V : JsonView J) (M : JsonMaker J V) where
  -- `object[key] = value` for each, in order.
  abbrev pub with_members : J.Object → List (Bytes × J.Value) → J.Object
  with_members o [] = o
  with_members o ((k, v) ∷ ms) = with_members (J.set o k v) ms

  abbrev pub object_of : List (Bytes × J.Value) → J.Value
  object_of ms = J.object (with_members J.empty_object ms)

  abbrev pub text_member : Bytes → Bytes → Bytes × J.Value
  text_member key value = (key, J.string value)

  abbrev pub optional : {A : Type 0} → Bytes → (A → J.Value) → Option A → List (Bytes × J.Value)
  optional key make none = []
  optional key make (some a) = (key, make a) ∷ []

  abbrev pub when : Bool → List (Bytes × J.Value) → List (Bytes × J.Value)
  when b ms = if b then ms else []

  abbrev pub typed : Bytes → Bytes × J.Value
  typed type = text_member (codes "type") type

  abbrev pub cache_control : Bool → List (Bytes × J.Value)
  cache_control cached =
      when cached ((codes "cache_control", object_of (typed (codes "ephemeral") ∷ [])) ∷ [])

  abbrev pub base64_source : Bytes → Bytes → Bytes × J.Value
  base64_source media_type b64 = (
    codes "source",
    object_of (
        typed (codes "base64")
        ∷ text_member (codes "media_type") media_type
        ∷ text_member (codes "data") b64
        ∷ []),
  )

  -- The JSON of a block.
  unfoldable pub block_members : WireBlock J → List (Bytes × J.Value)
  block_members (WireBlock.text_block text cached) =
      typed (codes "text") ∷ text_member (codes "text") text ∷ cache_control cached
  block_members (WireBlock.document_block media_type b64 cached) =
      typed (codes "document") ∷ base64_source media_type b64 ∷ cache_control cached
  block_members (WireBlock.image_block media_type b64 cached) =
      typed (codes "image") ∷ base64_source media_type b64 ∷ cache_control cached
  block_members (WireBlock.url_block url cached) =
      typed (codes "image")
      ∷ (codes "source", object_of (typed (codes "url") ∷ text_member (codes "url") url ∷ []))
      ∷ cache_control cached
  block_members (WireBlock.tool_use_block id name input cached) =
      typed (codes "tool_use")
      ∷ text_member (codes "id") id
      ∷ text_member (codes "name") name
      ∷ (codes "input", input)
      ∷ cache_control cached
  block_members (WireBlock.thinking_block text signature) =
      typed (codes "thinking")
      ∷ text_member (codes "thinking") text
      ∷ optional (codes "signature") J.string signature
  block_members (WireBlock.redacted_block opaque) =
      typed (codes "redacted_thinking") ∷ text_member (codes "data") opaque ∷ []
  block_members (WireBlock.tool_result_block id content is_error cached) =
      typed (codes "tool_result")
      ∷ text_member (codes "tool_use_id") id
      ∷ text_member (codes "content") content
      ∷ (when is_error ((codes "is_error", M.bool true) ∷ []) ++ cache_control cached)

  abbrev pub role_name : Role → Bytes
  role_name Role.user_role = codes "user"
  role_name Role.assistant_role = codes "assistant"

  unfoldable pub message_json : WireMessage J → J.Value
  unfolding block_members
  message_json m = object_of (
      text_member (codes "role") (role_name m.role)
      ∷ (codes "content", M.array (map (λ b. object_of (block_members b)) m.content))
      ∷ cache_control m.cached)

  -- `body["system"]`.
  unfoldable pub system_members : Bytes × J.Object → List (Bytes × J.Value)
  unfolding is_cached
  system_members (text, provider_options) = when (not (is_empty text)) (
      (
        codes "system",
        (if is_cached V provider_options
            then M.array (
                object_of
                  (typed (codes "text") ∷ text_member (codes "text") text ∷ cache_control true)
                ∷ [])
            else J.string text),
      )
      ∷ [])
