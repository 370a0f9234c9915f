-- ===== src/CachingMiddleware/Key.antt =====
-- compute_cache_key of include/ai/model/caching_middleware.hpp.
use ai_sdk_cpp.Prelude.{
  ◌≡◌, refl, ap, ap₂, List, [], ◌∷◌, map, Option, none, some, Bytes, codes, is_empty, if◌then◌else◌,
}
use ai_sdk_cpp.Prompt.{
  Json, UserPart, AssistantPart, ToolResultPart, ToolResultOutput, Message, Prompt,
}
use ai_sdk_cpp.Generate.{CallOptions}

-- What the key reads of the settings, as JSON.
pub record KeySettings (J : Json) : Type 0 where
  pub max_output_tokens : Option J.Value
  pub temperature : Option J.Value
  pub top_p : Option J.Value
  pub seed : Option J.Value

module _ {J : Json} where
  -- A conversation with other outputs of its tools.
  abbrev pub with_output :
      (ToolResultPart J → ToolResultOutput J) → List (ToolResultPart J) → List (ToolResultPart J)
  with_output f [] = []
  with_output f (r ∷ rs) = record r { output = f r } ∷ with_output f rs

  abbrev pub with_outputs : (ToolResultPart J → ToolResultOutput J) → Prompt J → Prompt J
  with_outputs f [] = []
  with_outputs f (Message.tool m ∷ ms) =
      Message.tool (record m { content = with_output f m.content }) ∷ with_outputs f ms
  with_outputs f (m ∷ ms) = m ∷ with_outputs f ms

-- `json_array` makes a value of a `boost::json::array`.
module _ (J : Json) (json_array : List J.Value → J.Value) where
  -- `p["type"] = "text"; p["text"] = …`.
  abbrev pub text_key : Bytes → J.Value
  text_key text = J.object (
      J.set (J.set J.empty_object (codes "type") (J.string (codes "text"))) (codes "text")
        (J.string text))

  unfoldable pub user_parts_key : List (UserPart J) → List J.Value
  user_parts_key [] = []
  user_parts_key (UserPart.text t ∷ ps) = text_key t.text ∷ user_parts_key ps
  user_parts_key (UserPart.file f ∷ ps) = user_parts_key ps

  unfoldable pub assistant_parts_key : List (AssistantPart J) → List J.Value
  assistant_parts_key [] = []
  assistant_parts_key (AssistantPart.text t ∷ ps) = text_key t.text ∷ assistant_parts_key ps
  assistant_parts_key (AssistantPart.tool_call c ∷ ps) =
      J.object (
        J.set
          (J.set (J.set J.empty_object (codes "type") (J.string (codes "tool_call"))) (codes "name")
            (J.string c.tool_name))
          (codes "input") c.input)
      ∷ assistant_parts_key ps
  assistant_parts_key (_ ∷ ps) = assistant_parts_key ps

  abbrev pub first_id : List (ToolResultPart J) → Bytes
  first_id [] = []
  first_id (r ∷ rs) = r.tool_call_id

  abbrev pub with_role : Bytes → Bytes → J.Value → J.Value
  with_role role name v =
      J.object (J.set (J.set J.empty_object (codes "role") (J.string role)) name v)

  unfoldable pub message_key : Message J → J.Value
  unfolding user_parts_key assistant_parts_key
  message_key (Message.system m) = with_role (codes "system") (codes "content") (J.string m.content)
  message_key (Message.user m) =
      with_role (codes "user") (codes "content") (json_array (user_parts_key m.content))
  message_key (Message.assistant m) =
      with_role (codes "assistant") (codes "content") (json_array (assistant_parts_key m.content))
  message_key (Message.tool m) =
      with_role (codes "tool") (codes "id") (J.string (first_id m.content))

  abbrev pub set_some : Bytes → Option J.Value → J.Object → J.Object
  set_some name none o = o
  set_some name (some v) o = J.set o name v

  -- The object, with the array of the messages given.
  abbrev pub serialize_key : CallOptions J (KeySettings J) → List J.Value → Bytes
  serialize_key options messages =
      let s = options.settings in
      let filled = set_some (codes "seed") s.seed (
        set_some (codes "top_p") s.top_p (
          set_some (codes "temperature") s.temperature (
            set_some (codes "max_output_tokens") s.max_output_tokens
              (J.set J.empty_object (codes "messages") (json_array messages))))) in
      let tools = json_array (map (λ t. J.string t.name) options.tools) in
      J.serialize
        (J.object (if is_empty options.tools then filled else J.set filled (codes "tools") tools))

  unfoldable pub compute_cache_key : CallOptions J (KeySettings J) → Bytes
  unfolding message_key
  compute_cache_key options = serialize_key options (map message_key options.prompt)

  first_id-with_output :
      (f : ToolResultPart J → ToolResultOutput J) (rs : List (ToolResultPart J))
      → first_id (with_output f rs) ≡ first_id rs
  first_id-with_output f [] = refl
  first_id-with_output f (r ∷ rs) = refl

  message_keys-with_outputs :
      (f : ToolResultPart J → ToolResultOutput J) (ms : Prompt J)
      → map message_key (with_outputs f ms) ≡ map message_key ms
  unfolding message_key
  message_keys-with_outputs f [] = refl
  message_keys-with_outputs f (Message.tool m ∷ ms) =
      ap₂ (λ id ks. with_role (codes "tool") (codes "id") (J.string id) ∷ ks)
        (first_id-with_output f m.content) (message_keys-with_outputs f ms)
  message_keys-with_outputs f (m ∷ ms) = ap (◌∷◌ (message_key m)) (message_keys-with_outputs f ms)

  pub key-with_outputs :
      (f : ToolResultPart J → ToolResultOutput J) (o : CallOptions J (KeySettings J))
      → compute_cache_key (record o { prompt = with_outputs f o.prompt }) ≡ compute_cache_key o
  unfolding compute_cache_key
  key-with_outputs f o = ap (serialize_key o) (message_keys-with_outputs f o.prompt)
