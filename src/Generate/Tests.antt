-- ===== src/Generate/Tests.antt =====
-- A run of the loop: a model that calls a tool, a tool that throws and a second answer.
use ai_sdk_cpp.Prelude.{
  ℕ, zero, suc, ◌≤◌, ◌≡◌, refl, false, List, [], ◌∷◌, none, some, Bytes, codes, str_eq,
}
use ai_sdk_cpp.Prompt.{plain_json}
use ai_sdk_cpp.Tools.{Attempt, ok, threw, ToolDefinition}
use ai_sdk_cpp.Context.Pairing.{Paired}
use ai_sdk_cpp.Generate.{
  FinishReason, Content, ToolCallContent, GenerateResult, CallOptions, GenerateTextOptions,
  GenerateTextResult, no_usage, execute_tools, execute_one_tool, executor, generate_text,
  build_prompt, generate_loop, is_tool_calls, finish_step,
}
use ai_sdk_cpp.Generate.Steps.{Consistent, generate_text-Consistent}
use ai_sdk_cpp.Generate.Pairing.{generate_text-Paired}

abbrev list_call : ToolCallContent
list_call = record { tool_call_id = codes "c1"; tool_name = codes "ls"; input = codes "{}" }

abbrev unknown_call : ToolCallContent
unknown_call = record { tool_call_id = codes "c2"; tool_name = codes "rm"; input = codes "x" }

-- The world counts the calls of the model and of the tools.
abbrev list_files : ToolDefinition plain_json ℕ
list_files = record {
  name = codes "ls";
  description = none;
  input_schema = tt;
  strict = false;
  execute = some (λ input context n. (ok (codes "a b"), suc n));
}

abbrev answer : List (Content plain_json) → FinishReason → GenerateResult plain_json
answer content reason = record {
  content = content;
  finish_reason = reason;
  usage = record { input_total = some 3; output_total = none };
  warnings = [];
}

abbrev model : CallOptions plain_json (Unit {0}) → ℕ → Attempt (GenerateResult plain_json) × ℕ
model options zero = (
  ok (
      answer (Content.tool_call list_call ∷ Content.tool_call unknown_call ∷ [])
        FinishReason.tool_calls),
  1,
)
model options (suc n) =
    (ok (answer (Content.text (codes "done") ∷ []) FinishReason.stop), suc (suc n))

abbrev options : GenerateTextOptions plain_json ℕ (Unit {0})
options = record {
  do_generate = model;
  tools = list_files ∷ [];
  tool_choice = codes "auto";
  prompt = some (codes "list");
  messages = none;
  system = some (codes "brief");
  settings = tt;
  max_steps = 5;
  on_step_finish = none;
  repair_tool_call = none;
  is_cancelled = λ n. false;
}

abbrev returned : Attempt (GenerateTextResult plain_json) → GenerateTextResult plain_json
returned (ok r) = r
returned (threw e) = record {
  text = e;
  tool_calls = [];
  finish_reason = FinishReason.error;
  usage = no_usage;
  steps = [];
  response_messages = [];
  warnings = [];
}

abbrev result : GenerateTextResult plain_json
result = returned (generate_text options 0).0

run_returns : generate_text options 0 ≡ (ok result, 3)
unfolding generate_text generate_loop is_tool_calls finish_step execute_tools execute_one_tool
    executor str_eq
run_returns = refl

run_text : result.text ≡ codes "done"
unfolding generate_text generate_loop is_tool_calls finish_step execute_tools execute_one_tool
    executor str_eq
run_text = refl

abbrev list_run : Bytes → ℕ → Attempt Bytes × ℕ
list_run input n = (ok (codes "a b"), suc n)

ls_found :
    executor {J = plain_json} (list_files ∷ []) (codes "ls")
    ≡ some (λ input context n. list_run input n)
unfolding executor str_eq
ls_found = refl

generate_text-Consistent_example :
    (k : ℕ) × (k ≤ 5) × Consistent k result.steps result.tool_calls result.usage
generate_text-Consistent_example = generate_text-Consistent options 0 3 run_returns

options-Paired : Paired [] (build_prompt options)
unfolding build_prompt
options-Paired = tt

generate_text-Paired_example : Paired [] result.response_messages
generate_text-Paired_example = generate_text-Paired options 0 3 options-Paired run_returns
