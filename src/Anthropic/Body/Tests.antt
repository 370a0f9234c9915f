-- ===== src/Anthropic/Body/Tests.antt =====
-- A request as JSON, and the thinking that it asks for.
use ai_sdk_cpp.Prelude.{◌≡◌, refl, true, [], ◌∷◌, none, some, codes, str_eq, pos}
use ai_sdk_cpp.Prompt.{Json, system_message}
use ai_sdk_cpp.JsonView.{JsonView, as_object, as_array, as_string, object_at, string_at, array_at}
use ai_sdk_cpp.JsonView.Trees.{
  nil, flag, num, text, arr, obj, items_of, fields_of, no_field, lookup, assign, tree_json,
  tree_view,
}
use ai_sdk_cpp.Session.{user_text}
use ai_sdk_cpp.Anthropic.Body.{JsonMaker, RequestOptions}
use ai_sdk_cpp.Anthropic.Body.Request.{build_request_body}

abbrev json : Json
json = tree_json (λ s. none) (λ v. codes "{}")

abbrev view : JsonView json
view = tree_view (λ s. none) (λ v. codes "{}")

abbrev maker : JsonMaker json view
maker = record { int = num; double = λ d. nil; bool = flag; array = λ ts. arr (items_of ts) }

abbrev options : RequestOptions json view
options = record {
  prompt =
      system_message json (codes "be kind")
      ∷ user_text (codes "hi")
      ∷ system_message json (codes "be brief")
      ∷ [];
  max_output_tokens = some (pos 4096);
  temperature = none;
  top_p = none;
  top_k = none;
  stop_sequences = none;
  response_format = none;
  tools = [];
  tool_choice = none;
  reasoning = some (codes "medium");
  user_id = none;
  provider_options = no_field;
}

-- The later of two system messages is the system text.
body :
    build_request_body view maker (codes "claude-opus-4") (codes "anthropic") options true
    ≡ obj (
        fields_of (
          (codes "model", text (codes "claude-opus-4"))
          ∷ (codes "max_tokens", num (pos 4096))
          ∷ (codes "stream", flag true)
          ∷ (
            codes "thinking",
            obj (
                fields_of (
                  (codes "type", text (codes "enabled"))
                  ∷ (codes "budget_tokens", num (pos 4095))
                  ∷ [])),
          )
          ∷ (
            codes "messages",
            arr (
                items_of (
                  obj (
                    fields_of (
                      (codes "role", text (codes "user"))
                      ∷ (
                        codes "content",
                        arr (
                            items_of (
                              obj (
                                fields_of (
                                  (codes "type", text (codes "text"))
                                  ∷ (codes "text", text (codes "hi"))
                                  ∷ []))
                              ∷ [])),
                      )
                      ∷ []))
                  ∷ [])),
          )
          ∷ (codes "system", text (codes "be brief"))
          ∷ []))
unfolding build_request_body lookup assign str_eq object_at string_at array_at as_object as_string
    as_array
body = refl
