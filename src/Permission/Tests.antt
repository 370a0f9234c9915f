-- ===== src/Permission/Tests.antt =====
-- The gate's theorems for an editor's tools: reading is allowed, writing is asked for, and the rest
-- is denied. The world counts the questions to the user and the runs of tools.
use ai_sdk_cpp.Prelude.{
  ℕ, suc, ◌≡◌, refl, ◌⊎◌, true, false, [], ◌∷◌, none, some, Bytes, codes, mem_str, str_eq,
  if◌then◌else◌,
}
use ai_sdk_cpp.Prompt.{Json, plain_json}
use ai_sdk_cpp.Tools.{ok, ToolExecutionContext, ToolDefinition, ToolSet, find}
use ai_sdk_cpp.Generate.{ToolCallContent, execute_one_tool}
use ai_sdk_cpp.Permission.{
  PermissionDecision, PermissionPolicy, Approver, ExecuteFn, gate, with_permissions, run_original,
  rationale_for, to_string,
}
use ai_sdk_cpp.Permission.Gate.{
  Ended, Granted, refusal, GatedCall, run_session, gate-Ended, run_session-Granted,
}
use ai_sdk_cpp.Permission.Wrapped.{execute_one_tool-denied}

-- Every text is JSON, as it stands.
abbrev text_json : Json
text_json = record plain_json { safe_parse = λ s. some s }

abbrev policy : PermissionPolicy text_json
policy tool input =
    if str_eq tool (codes "read")
    then record { decision = PermissionDecision.allow; reason = [] }
    else if str_eq tool (codes "write")
    then record { decision = PermissionDecision.ask; reason = codes "writes a file" }
    else record { decision = PermissionDecision.deny; reason = codes "not here" }

abbrev approver : Approver text_json ℕ
approver tool input rationale n =
    (ok (record { decision = PermissionDecision.allow; always_allow = true; reason = [] }), suc n)

abbrev run : ExecuteFn text_json ℕ
run input ctx n = (ok (codes "done"), suc n)

abbrev tool : Bytes → ToolDefinition text_json ℕ
tool n = record {
  name = n;
  description = none;
  input_schema = tt;
  strict = false;
  execute = some run;
}

abbrev tools : ToolSet text_json ℕ
tools = tool (codes "read") ∷ tool (codes "write") ∷ tool (codes "rm") ∷ []

abbrev context : ToolExecutionContext text_json
context = record { tool_call_id = codes "c1"; tool_name = codes "write"; messages = [] }

abbrev write_call : GatedCall text_json (some policy) (some approver)
write_call = record { tool = codes "write"; original = run; input = codes "a"; ctx = context }

rationale_short :
    rationale_for text_json (codes "rm") (codes "{}") ≡ codes "Allow tool 'rm' to run with input {}"
unfolding rationale_for
rationale_short = refl

size_digits : to_string 2048 ≡ codes "2048"
unfolding to_string
size_digits = refl

-- The second call of the tool asks nobody: one question and two runs.
asked_once :
    run_session text_json (some policy) (some approver) (write_call ∷ write_call ∷ []) ([], 0)
    ≡ (codes "write" ∷ [], 3)
unfolding run_session gate run_original mem_str str_eq
asked_once = refl

gate-Ended_example :
    Ended text_json
      (some policy)
      (some approver)
      (codes "write")
      run
      (codes "a")
      context
      []
      0
      (gate (some policy) (some approver) (codes "write") run (codes "a") context ([], 0))
gate-Ended_example =
    gate-Ended text_json (some policy) (some approver) (codes "write") run (codes "a") context [] 0

run_session-Granted_example :
    (mem_str (codes "write") [] ≡ true)
    ⊎ Granted text_json (some policy) (some approver) (codes "write")
unfolding run_session gate run_original mem_str str_eq
run_session-Granted_example =
    run_session-Granted text_json (some policy) (some approver) (write_call ∷ []) [] 0
      (codes "write") refl

abbrev rm_call : ToolCallContent
rm_call = record { tool_call_id = codes "c1"; tool_name = codes "rm"; input = codes "/" }

execute_one_tool-denied_example :
    execute_one_tool rm_call (with_permissions tools (some policy) (some approver)) [] none ([], 0)
    ≡ (
      record {
        tool_call_id = codes "c1";
        tool_name = codes "rm";
        input = codes "/";
        output = refusal text_json (codes "rm") (codes "not here");
        is_error = false;
      },
      ([], 0),
    )
unfolding find mem_str str_eq
execute_one_tool-denied_example =
    execute_one_tool-denied policy (some approver) tools rm_call [] none [] 0 (tool (codes "rm"))
      run (codes "/") refl refl refl refl refl
