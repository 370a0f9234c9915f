-- ===== src/Generate.antt =====
-- src/core/generate_text.cpp with include/ai/model/generate_result.hpp and stream_part.hpp: the loop
-- that calls the model and its tools. The model, the tools and the callbacks are functions over the
-- state `W` of the world; the calls of one step run one after the other, in the order in which they
-- are launched and awaited. Sampling settings are passed on unread, as one value of a type `S`.
pub mod Execute
pub mod Sums
pub mod Rounds
pub mod Steps
pub mod Pairing
mod Tests
use ai_sdk_cpp.Prelude.{
  ℕ, zero, suc, ◌+◌, Bool, true, false, not, ◌&&◌, List, [], ◌∷◌, ◌++◌, map, Option, none, some,
  is_some, value_or, Bytes, codes, is_empty, if◌then◌else◌,
}
use ai_sdk_cpp.Prompt.{
  Json, FileData, AssistantPart, UserPart, ToolResultOutput, ToolResultPart, Message, Prompt,
  text_part, system_message,
}
use ai_sdk_cpp.Tools.{
  Attempt, ok, threw, Task, ToolExecutionContext, ToolDefinition, ToolSet, find, ToolCallResult,
}

pub data FinishReason : Type 0 where
  stop length content_filter tool_calls error other : FinishReason

unfoldable pub is_tool_calls : FinishReason → Bool
is_tool_calls FinishReason.tool_calls = true
is_tool_calls _ = false

-- `struct Usage` as far as totals go.
pub record Usage : Type 0 where
  pub input_total : Option ℕ
  pub output_total : Option ℕ

abbrev pub no_usage : Usage
no_usage = record { input_total = none; output_total = none }

-- `total = total.value_or(0) + *other.total`, if the other total is there.
unfoldable pub add_total : Option ℕ → Option ℕ → Option ℕ
add_total a none = a
add_total a (some b) = some (value_or a 0 + b)

-- `Usage::operator+=`.
unfoldable pub add_usage : Usage → Usage → Usage
unfolding add_total
add_usage u v = record {
  input_total = add_total u.input_total v.input_total;
  output_total = add_total u.output_total v.output_total;
}

pub record ToolCallContent : Type 0 where
  pub tool_call_id : Bytes
  pub tool_name : Bytes
  pub input : Bytes

pub record ReasoningContent : Type 0 where
  pub text : Bytes
  pub signature : Option Bytes
  pub redacted_data : Option Bytes

pub data Content (J : Json) : Type 0 where
  text : Bytes → Content J
  reasoning : ReasoningContent → Content J
  tool_call : ToolCallContent → Content J
  file : FileData J → Bytes → Option Bytes → Content J

pub record Warning : Type 0 where
  pub kind : Bytes
  pub message : Bytes
  pub details : Option Bytes

-- `struct GenerateResult` without the provider's metadata, which nothing here reads.
pub record GenerateResult (J : Json) : Type 0 where
  pub content : List (Content J)
  pub finish_reason : FinishReason
  pub usage : Usage
  pub warnings : List Warning

module _ {J : Json} where
  -- `GenerateResult::text()` and `tool_calls()`.
  unfoldable pub text_of : List (Content J) → Bytes
  text_of [] = []
  text_of (Content.text t ∷ cs) = t ++ text_of cs
  text_of (_ ∷ cs) = text_of cs

  abbrev pub calls_of : List (Content J) → List ToolCallContent
  calls_of [] = []
  calls_of (Content.tool_call c ∷ cs) = c ∷ calls_of cs
  calls_of (_ ∷ cs) = calls_of cs

-- What the model is told of a tool.
pub record FunctionTool (J : Json) : Type 0 where
  pub name : Bytes
  pub description : Option Bytes
  pub input_schema : J.Object
  pub strict : Bool

-- `struct CallOptions`; `tool_choice` is set only beside tools.
pub record CallOptions (J : Json) (S : Type 0) : Type 0 where
  pub prompt : Prompt J
  pub settings : S
  pub tools : List (FunctionTool J)
  pub tool_choice : Option Bytes

pub record StepResult (J : Json) : Type 0 where
  pub result : GenerateResult J
  pub tool_results : List (ToolCallResult J)
  pub step_number : ℕ

-- `repair_tool_call`, when set: from the bad input and an error message to a corrected text.
abbrev pub Repair : Type 0 → Type 0
Repair W = Option (Bytes → Bytes → Task W Bytes)

pub record GenerateTextOptions (J : Json) (W S : Type 0) : Type 0 where
  pub do_generate : CallOptions J S → Task W (GenerateResult J)
  pub tools : ToolSet J W
  pub tool_choice : Bytes
  pub prompt : Option Bytes
  pub messages : Option (Prompt J)
  pub system : Option Bytes
  pub settings : S
  pub max_steps : ℕ
  -- A callback that returns; one that throws would end the call with its exception.
  pub on_step_finish : Option (StepResult J → W → W)
  pub repair_tool_call : Repair W
  pub is_cancelled : W → Bool

pub record GenerateTextResult (J : Json) : Type 0 where
  pub text : Bytes
  pub tool_calls : List (ToolCallResult J)
  pub finish_reason : FinishReason
  pub usage : Usage
  pub steps : List (StepResult J)
  pub response_messages : Prompt J
  pub warnings : List Warning

abbrev pub function_tool : {J : Json} {W : Type 0} → ToolDefinition J W → FunctionTool J
function_tool t = record {
  name = t.name;
  description = t.description;
  input_schema = t.input_schema;
  strict = t.strict;
}

module _ {J : Json} {W S : Type 0} where
  unfoldable pub build_prompt : GenerateTextOptions J W S → Prompt J
  build_prompt o =
      (elim o.system [ none ↦ [] | some s ↦ system_message J s ∷ [] ]) ++ (elim o.messages [
        | some ms ↦ ms
        | none ↦ elim o.prompt [
          | none ↦ []
          | some p ↦
              Message.user (record {
                content = UserPart.text (text_part J p) ∷ [];
                provider_options = J.empty_object;
              })
              ∷ []
        ]
      ])

  unfoldable pub build_call_options : GenerateTextOptions J W S → Prompt J → CallOptions J S
  build_call_options o prompt = record {
    prompt = prompt;
    settings = o.settings;
    tools = map function_tool o.tools;
    tool_choice = if is_empty o.tools then none else some o.tool_choice;
  }

-- `safe_parse(input).value_or(json::value(input))`.
abbrev pub parse_or_text : (J : Json) → Bytes → J.Value
parse_or_text J s = value_or (J.safe_parse s) (J.string s)

module _ {J : Json} where
  -- The parts that `append_assistant_message` makes; a file leaves none.
  unfoldable pub assistant_parts : List (Content J) → List (AssistantPart J)
  assistant_parts [] = []
  assistant_parts (Content.text t ∷ cs) = AssistantPart.text (text_part J t) ∷ assistant_parts cs
  assistant_parts (Content.reasoning r ∷ cs) =
      AssistantPart.reasoning (record {
        text = r.text;
        signature = r.signature;
        redacted_data = r.redacted_data;
        provider_options = J.empty_object;
      })
      ∷ assistant_parts cs
  assistant_parts (Content.tool_call c ∷ cs) =
      AssistantPart.tool_call (record {
        tool_call_id = c.tool_call_id;
        tool_name = c.tool_name;
        input = parse_or_text J c.input;
        provider_executed = false;
        provider_options = J.empty_object;
      })
      ∷ assistant_parts cs
  assistant_parts (Content.file d m f ∷ cs) = assistant_parts cs

  unfoldable pub append_assistant_message : Prompt J → GenerateResult J → Prompt J
  unfolding assistant_parts
  append_assistant_message prompt result =
      prompt
      ++ Message.assistant
          (record { content = assistant_parts result.content; provider_options = J.empty_object })
        ∷ []

  abbrev pub result_part : ToolCallResult J → ToolResultPart J
  result_part r = record {
    tool_call_id = r.tool_call_id;
    tool_name = r.tool_name;
    output =
        if r.is_error
        then ToolResultOutput.error_json_output r.output
        else ToolResultOutput.json_output r.output;
    provider_options = J.empty_object;
  }

  unfoldable pub append_tool_results : Prompt J → List (ToolCallResult J) → Prompt J
  append_tool_results prompt results =
      prompt
      ++ Message.tool
          (record { content = map result_part results; provider_options = J.empty_object })
        ∷ []

-- The input of a call: parsed, or repaired if that is set, or else the text itself. An exception
-- of the repair function is caught.
unfoldable pub tool_input : (J : Json) {W : Type 0} → ToolCallContent → Repair W → W → J.Value × W
tool_input J tc repair w = elim (J.safe_parse tc.input) [
  | some v ↦ (v, w)
  | none ↦ elim repair [
    | none ↦ (J.string tc.input, w)
    | some f ↦
        let error =
          codes "Invalid JSON in tool call input for tool '"
          ++ (tc.tool_name ++ codes "': failed to parse input") in
        let (attempt, w') = f tc.input error w in
        elim attempt [
          | ok repaired ↦ (parse_or_text J repaired, w')
          | threw e ↦ (J.string tc.input, w')
        ]
  ]
]

-- `if (!tool_def || !tool_def->execute)`.
unfoldable pub not_executable : (J : Json) → ToolCallContent → ToolCallResult J
not_executable J tc = record {
  tool_call_id = tc.tool_call_id;
  tool_name = tc.tool_name;
  input = parse_or_text J tc.input;
  output = J.string (codes "Tool not found or not executable: " ++ tc.tool_name);
  is_error = true;
}

module _ {J : Json} {W : Type 0} where
  -- Running the tool; an exception becomes an error result.
  unfoldable pub run_tool :
      (J.Value → ToolExecutionContext J → Task W J.Value)
      → ToolCallContent
      → J.Value
      → Prompt J
      → W
      → ToolCallResult J × W
  run_tool execute tc input messages w =
      let (attempt, w') =
        execute input
          (record { tool_call_id = tc.tool_call_id; tool_name = tc.tool_name; messages = messages })
          w in
      elim attempt [
        | ok output ↦ (
          record {
            tool_call_id = tc.tool_call_id;
            tool_name = tc.tool_name;
            input = input;
            output = output;
            is_error = false;
          },
          w',
        )
        | threw what ↦ (
          record {
            tool_call_id = tc.tool_call_id;
            tool_name = tc.tool_name;
            input = input;
            output = J.string (codes "Error: " ++ what);
            is_error = true;
          },
          w',
        )
      ]

  unfoldable pub executor :
      ToolSet J W → Bytes → Option (J.Value → ToolExecutionContext J → Task W J.Value)
  unfolding find
  executor tools name = elim (find tools name) [ none ↦ none | some t ↦ t.execute ]

  unfoldable pub execute_one_tool :
      ToolCallContent → ToolSet J W → Prompt J → Repair W → W → ToolCallResult J × W
  unfolding tool_input run_tool not_executable
  execute_one_tool tc tools messages repair w = elim (executor tools tc.tool_name) [
    | none ↦ (not_executable J tc, w)
    | some execute ↦
        let (input, w') = tool_input J tc repair w in run_tool execute tc input messages w'
  ]

  unfoldable pub execute_tools :
      List ToolCallContent → ToolSet J W → Prompt J → Repair W → W → List (ToolCallResult J) × W
  execute_tools [] tools messages repair w = ([], w)
  execute_tools (tc ∷ tcs) tools messages repair w =
      let (r, w') = execute_one_tool tc tools messages repair w in
      let (rs, w'') = execute_tools tcs tools messages repair w' in (r ∷ rs, w'')

-- The variables of the loop.
pub record Progress (J : Json) : Type 0 where
  pub prompt : Prompt J
  pub steps : List (StepResult J)
  pub total_usage : Usage
  pub all_tool_calls : List (ToolCallResult J)

module _ {J : Json} {W S : Type 0} (o : GenerateTextOptions J W S) where
  -- `result.finish_reason == ToolCalls && !tool_calls_content.empty()`.
  abbrev pub runs_tools : GenerateResult J → Bool
  runs_tools r = is_tool_calls r.finish_reason && not (is_empty (calls_of r.content))

  -- `should_continue`.
  abbrev pub should_continue : GenerateResult J → Bool
  should_continue r = is_tool_calls r.finish_reason && not (is_empty o.tools)

  -- One round behind the answer of the model.
  unfoldable pub finish_step : ℕ → Progress J → GenerateResult J → W → Progress J × W
  unfolding add_usage append_assistant_message append_tool_results
  finish_step step p result w =
      let asked = append_assistant_message p.prompt result in
      let (executed, w') =
        execute_tools (calls_of result.content) o.tools asked o.repair_tool_call w in
      let results = if runs_tools result then executed else [] in
      let world = if runs_tools result then w' else w in
      let step_result : StepResult J = record {
        result = result;
        tool_results = results;
        step_number = step;
      } in
      (
        record {
          prompt = if runs_tools result then append_tool_results asked results else p.prompt;
          steps = p.steps ++ step_result ∷ [];
          total_usage = add_usage p.total_usage result.usage;
          all_tool_calls = p.all_tool_calls ++ results;
        },
        elim o.on_step_finish [ none ↦ world | some f ↦ f step_result world ],
      )

  -- The loop; the first argument counts the rounds left, `max_steps - step`.
  unfoldable pub generate_loop : ℕ → ℕ → Progress J → Task W (Progress J)
  generate_loop zero step p w = (ok p, w)
  generate_loop (suc rounds) step p w = elim (o.is_cancelled w) [
    | true ↦ (threw (codes "Operation cancelled"), w)
    | false ↦
        let (attempt, w') = o.do_generate (build_call_options o p.prompt) w in
        elim attempt [
          | threw e ↦ (threw e, w')
          | ok result ↦
              let (p', w'') = finish_step step p result w' in
              elim (should_continue result) [
                | true ↦ generate_loop rounds (suc step) p' w''
                | false ↦ (ok p', w'')
              ]
        ]
  ]

  abbrev pub start : Progress J
  start = record {
    prompt = build_prompt o;
    steps = [];
    total_usage = no_usage;
    all_tool_calls = [];
  }

module _ {J : Json} where
  unfoldable pub last_step : List (StepResult J) → Option (StepResult J)
  last_step [] = none
  last_step (s ∷ []) = some s
  last_step (s ∷ t ∷ ss) = last_step (t ∷ ss)

  unfoldable pub summarize : Progress J → GenerateTextResult J
  unfolding last_step text_of
  summarize p = record {
    text = elim (last_step p.steps) [ none ↦ [] | some s ↦ text_of s.result.content ];
    tool_calls = p.all_tool_calls;
    finish_reason = elim (last_step p.steps) [
      | none ↦ FinishReason.stop
      | some s ↦ s.result.finish_reason
    ];
    usage = p.total_usage;
    steps = p.steps;
    response_messages = p.prompt;
    warnings = elim (last_step p.steps) [ none ↦ [] | some s ↦ s.result.warnings ];
  }

unfoldable pub generate_text :
    {J : Json} {W S : Type 0} → GenerateTextOptions J W S → Task W (GenerateTextResult J)
unfolding summarize
generate_text o w =
    let (attempt, w') = generate_loop o o.max_steps 0 (start o) w in
    (elim attempt [ ok p ↦ ok (summarize p) | threw e ↦ threw e ], w')
