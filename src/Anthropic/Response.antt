-- ===== src/Anthropic/Response.antt =====
-- `parse_response` and what `do_generate` makes of it. The reason of a result that no one has set is
-- whatever the memory holds, and an argument.
use ai_sdk_cpp.Prelude.{
  ℕ, Bool, true, false, List, [], ◌∷◌, ◌++◌, Option, none, some, value_or, Bytes, codes, str_eq,
  is_empty, ℤ, if◌then◌else◌,
}
use ai_sdk_cpp.Prompt.{Json}
use ai_sdk_cpp.JsonView.{JsonView, as_object, as_int64, object_at, string_at, array_at}
use ai_sdk_cpp.Generate.{
  FinishReason, Usage, no_usage, Content, ToolCallContent, GenerateResult, calls_of,
}
use ai_sdk_cpp.Anthropic.{finish_reason_of, count_of, cache_readable}

module _ {J : Json} (V : JsonView J) (to_int : ℤ → ℕ) where
  -- A block of content; a block that the SDK does not know, or that misses its text or its name, is left
  -- out.
  unfoldable pub read_text : J.Object → List (Content J)
  read_text block = elim (string_at V block (codes "text")) [
    | none ↦ []
    | some t ↦ Content.text t ∷ []
  ]

  abbrev pub input_text : Option J.Value → Bytes
  input_text none = codes "{}"
  input_text (some v) = J.serialize v

  unfoldable pub read_tool_use : J.Object → List (Content J)
  read_tool_use block = elim (string_at V block (codes "id")) [
    | none ↦ []
    | some id ↦ elim (string_at V block (codes "name")) [
      | none ↦ []
      | some name ↦
          Content.tool_call (record {
            tool_call_id = id;
            tool_name = name;
            input = input_text (V.member block (codes "input"));
          })
          ∷ []
    ]
  ]

  unfoldable pub read_thinking : J.Object → List (Content J)
  read_thinking block =
      Content.reasoning (record {
        text = value_or (string_at V block (codes "thinking")) [];
        signature = string_at V block (codes "signature");
        redacted_data = none;
      })
      ∷ []

  unfoldable pub read_redacted : J.Object → List (Content J)
  read_redacted block =
      Content.reasoning
        (record { text = []; signature = none; redacted_data = string_at V block (codes "data") })
      ∷ []

  unfoldable pub read_typed_block : Bytes → J.Object → List (Content J)
  unfolding read_text read_tool_use read_thinking read_redacted
  read_typed_block type block =
      if str_eq type (codes "text")
      then read_text block
      else if str_eq type (codes "tool_use")
      then read_tool_use block
      else if str_eq type (codes "thinking")
      then read_thinking block
      else if str_eq type (codes "redacted_thinking")
      then read_redacted block
      else []

  unfoldable pub read_block : J.Value → List (Content J)
  unfolding read_typed_block
  read_block v = elim (as_object V v) [
    | none ↦ []
    | some block ↦ elim (string_at V block (codes "type")) [
      | none ↦ []
      | some type ↦ read_typed_block type block
    ]
  ]

  unfoldable pub read_blocks : List J.Value → List (Content J)
  unfolding read_block
  read_blocks [] = []
  read_blocks (v ∷ vs) = read_block v ++ read_blocks vs

  -- `output_tokens_details.thinking_tokens`, which the model does not keep.
  abbrev pub details_readable : Option J.Object → Bool
  details_readable none = true
  details_readable (some details) = elim (V.member details (codes "thinking_tokens")) [
    | none ↦ true
    | some v ↦ elim (as_int64 V v) [ none ↦ false | some n ↦ true ]
  ]

  -- The totals, unless some count is an exception.
  abbrev pub usage_of : Option (Option ℕ) → Option (Option ℕ) → Bool → Option Usage
  usage_of (some input) (some output) true =
      some (record { input_total = input; output_total = output })
  usage_of _ _ _ = none

  unfoldable pub read_usage : Option J.Object → Option Usage
  read_usage none = some no_usage
  read_usage (some usage) =
      usage_of (count_of V to_int (V.member usage (codes "input_tokens")))
        (cache_readable V to_int usage (count_of V to_int (V.member usage (codes "output_tokens"))))
        (details_readable (object_at V usage (codes "output_tokens_details")))

  abbrev pub contents_of : Option (List J.Value) → List (Content J)
  contents_of none = []
  contents_of (some blocks) = read_blocks blocks

  abbrev pub reason_of : FinishReason → Option Bytes → FinishReason
  reason_of unset none = unset
  reason_of unset (some reason) = finish_reason_of reason

  abbrev pub result_of :
      FinishReason → Option Usage → Option (List J.Value) → Option Bytes → Option (GenerateResult J)
  result_of unset none content reason = none
  result_of unset (some usage) content reason = some (record {
    content = contents_of content;
    finish_reason = reason_of unset reason;
    usage = usage;
    warnings = [];
  })

  unfoldable pub parse_response : FinishReason → J.Value → Option (GenerateResult J)
  unfolding read_blocks read_usage
  parse_response unset response = elim (as_object V response) [
    | none ↦ none
    | some obj ↦
        result_of unset (read_usage (object_at V obj (codes "usage")))
          (array_at V obj (codes "content")) (string_at V obj (codes "stop_reason"))
  ]

-- The input of the forced tool, as a text.
abbrev pub first_input : List ToolCallContent → Bytes
first_input [] = []
first_input (c ∷ cs) = c.input

module _ {J : Json} where
  unfoldable pub surfaced : GenerateResult J → GenerateResult J
  surfaced r = if is_empty (first_input (calls_of r.content)) then r else record r {
    content = Content.text (first_input (calls_of r.content)) ∷ [];
    finish_reason = FinishReason.stop;
  }

  unfoldable pub read_response :
      (V : JsonView J) → (ℤ → ℕ) → FinishReason → Bool → Bytes → Option (GenerateResult J)
  unfolding parse_response surfaced
  read_response V to_int unset structured body = elim (J.safe_parse body) [
    | none ↦ none
    | some v ↦ elim (parse_response V to_int unset v) [
      | none ↦ none
      | some r ↦ some (if structured then surfaced r else r)
    ]
  ]
