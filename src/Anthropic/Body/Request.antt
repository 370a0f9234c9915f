-- ===== src/Anthropic/Body/Request.antt =====
-- `build_request_body` as a whole.
use ai_sdk_cpp.Prelude.{
  ℕ, Bool, true, not, ◌||◌, List, [], ◌∷◌, ◌++◌, map, Option, none, some, value_or, Bytes, codes,
  str_eq, is_empty, ltb, ℤ, pos, if◌then◌else◌,
}
use ai_sdk_cpp.Prompt.{Json}
use ai_sdk_cpp.JsonView.{JsonView, as_object, object_at, string_at, array_at}
use ai_sdk_cpp.Generate.{FunctionTool}
use ai_sdk_cpp.Anthropic.Wire.{wire_messages, system_from}
use ai_sdk_cpp.Anthropic.Body.{
  JsonMaker, ToolChoice, RequestOptions, contains, default_max_tokens, reasoning_to_budget,
  clamp_budget, object_of, text_member, optional, when, typed, message_json, system_members,
}

abbrev pub first_of : {A : Type 0} → Option A → Option A → Option A
first_of none b = b
first_of (some a) b = some a

module _ {J : Json} (V : JsonView J) (M : JsonMaker J V) (model_id namespace : Bytes) where
  -- `po`, if it is an object.
  unfoldable pub own_options : J.Object → Option J.Object
  own_options provider_options =
      elim (first_of (V.member provider_options namespace) (
        if str_eq namespace (codes "anthropic")
        then none
        else V.member provider_options (codes "anthropic"))) [
          | none ↦ none
          | some po ↦ as_object V po
        ]

  abbrev pub thinking_override : Option J.Object → Option J.Value
  thinking_override none = none
  thinking_override (some ao) = V.member ao (codes "thinking")

  abbrev pub own_effort : Option J.Object → Bytes
  own_effort none = []
  own_effort (some ao) =
      value_or
        (first_of (string_at V ao (codes "reasoningEffort"))
          (string_at V ao (codes "reasoning_effort")))
        []

  unfoldable pub effort_of : Option J.Object → Option Bytes → Bytes
  effort_of ao reasoning = if is_empty (own_effort ao) then value_or reasoning [] else own_effort ao

  abbrev pub enabled : ℕ → Bytes × J.Value
  enabled budget = (
    codes "thinking",
    object_of V M (typed V M (codes "enabled") ∷ (codes "budget_tokens", M.int (pos budget)) ∷ []),
  )

  unfoldable pub thinking_for : ℤ → Bytes → List (Bytes × J.Value)
  unfolding reasoning_to_budget clamp_budget contains
  thinking_for max_tok effort =
      if is_empty effort || str_eq effort (codes "none")
      then []
      else if contains (codes "4-6") model_id || contains (codes "4.6") model_id
      then (
        codes "thinking",
        object_of V M (typed V M (codes "adaptive") ∷ text_member V M (codes "effort") effort ∷ []),
      )
        ∷ []
      else if ltb 0 (reasoning_to_budget effort)
      then enabled (clamp_budget max_tok (reasoning_to_budget effort)) ∷ []
      else []

  unfoldable pub thinking_members : ℤ → Option J.Object → Option Bytes → List (Bytes × J.Value)
  unfolding thinking_for effort_of
  thinking_members max_tok ao reasoning = elim (thinking_override ao) [
    | some thinking ↦ (codes "thinking", thinking) ∷ []
    | none ↦ thinking_for max_tok (effort_of ao reasoning)
  ]

  abbrev pub function_tool_json : FunctionTool J → J.Value
  function_tool_json t = object_of V M (
      text_member V M (codes "name") t.name
      ∷ (optional V M (codes "description") J.string t.description
          ++ (codes "input_schema", J.object t.input_schema) ∷ []))

  -- A string member is passed on as it is.
  abbrev pub passed_string : J.Object → Bytes → List (Bytes × J.Value)
  passed_string o key = elim (string_at V o key) [
    | none ↦ []
    | some s ↦ optional V M key (λ v. v) (V.member o key)
  ]

  abbrev pub config_members : Option J.Object → List (Bytes × J.Value)
  config_members none = []
  config_members (some config) = V.members config

  unfoldable pub builtin_tools : List J.Value → List J.Value
  builtin_tools [] = []
  builtin_tools (bt ∷ bts) = elim (as_object V bt) [
    | none ↦ builtin_tools bts
    | some o ↦
        object_of V M (
          passed_string o (codes "type")
          ++ (passed_string o (codes "name") ++ config_members (object_at V o (codes "config"))))
        ∷ builtin_tools bts
  ]

  abbrev pub builtins_in : Option J.Object → List J.Value
  builtins_in none = []
  builtins_in (some anthropic_opts) = elim (array_at V anthropic_opts (codes "builtinTools")) [
    | none ↦ []
    | some bts ↦ builtin_tools bts
  ]

  abbrev pub choice_json : ToolChoice → J.Value
  choice_json ToolChoice.choose_auto = object_of V M (typed V M (codes "auto") ∷ [])
  choice_json ToolChoice.choose_required = object_of V M (typed V M (codes "any") ∷ [])
  choice_json (ToolChoice.choose_specific name) =
      object_of V M (typed V M (codes "tool") ∷ text_member V M (codes "name") name ∷ [])
  choice_json ToolChoice.choose_none = object_of V M (typed V M (codes "none") ∷ [])

  unfoldable pub tool_members : List J.Value → Option ToolChoice → List (Bytes × J.Value)
  tool_members tools choice =
      when V M (not (is_empty tools))
        ((codes "tools", M.array tools) ∷ optional V M (codes "tool_choice") choice_json choice)

  -- The tool that is forced for structured output; the array of the other tools has been moved away by then, and is empty.
  abbrev pub forced_tool : J.Object → Option Bytes → Option Bytes → List (Bytes × J.Value)
  forced_tool schema name description =
      (
        codes "tools",
        M.array (
            object_of V M (
              text_member V M (codes "name") (value_or name (codes "json"))
              ∷ (codes "input_schema", J.object schema)
              ∷ text_member V M (codes "description")
                  (value_or description (codes "Respond with a JSON object matching this schema."))
              ∷ [])
            ∷ []),
      )
      ∷ (
        codes "tool_choice",
        choice_json (ToolChoice.choose_specific (value_or name (codes "json"))),
      )
      ∷ []

  unfoldable pub structured_members :
      Option (Bytes × Option J.Object × Option Bytes × Option Bytes) → List (Bytes × J.Value)
  structured_members none = []
  structured_members (some (type, none, name, description)) = []
  structured_members (some (type, some schema, name, description)) =
      when V M (str_eq type (codes "json")) (forced_tool schema name description)

  abbrev pub stop_members : Option (List Bytes) → List (Bytes × J.Value)
  stop_members none = []
  stop_members (some stops) =
      when V M (not (is_empty stops)) ((codes "stop_sequences", M.array (map J.string stops)) ∷ [])

  unfoldable pub build_request_body : RequestOptions J V → Bool → J.Value
  unfolding thinking_members own_options wire_messages message_json system_from system_members
      builtin_tools tool_members structured_members
  build_request_body o stream =
      let max_tokens = value_or o.max_output_tokens (default_max_tokens model_id) in
      object_of V M (
        text_member V M (codes "model") model_id
        ∷ (codes "max_tokens", M.int max_tokens)
        ∷ (when V M stream ((codes "stream", M.bool true) ∷ [])
            ++ (optional V M (codes "temperature") M.double o.temperature
                ++ (optional V M (codes "top_p") M.double o.top_p
                    ++ (optional V M (codes "top_k") M.int o.top_k
                        ++ (stop_members o.stop_sequences
                            ++ (thinking_members max_tokens (own_options o.provider_options)
                                  o.reasoning
                                ++ (optional V M (codes "metadata")
                                      (λ id.
                                        object_of V M (text_member V M (codes "user_id") id ∷ []))
                                      o.user_id
                                    ++ ((
                                      codes "messages",
                                      M.array (map (message_json V M) (wire_messages V o.prompt)),
                                    )
                                        ∷ (system_members V M
                                              (system_from ([], J.empty_object) o.prompt)
                                            ++ (tool_members
                                                  (map function_tool_json o.tools
                                                    ++ builtins_in (
                                                        object_at V o.provider_options
                                                          (codes "anthropic")))
                                                  o.tool_choice
                                                ++ structured_members o.response_format)))))))))))
