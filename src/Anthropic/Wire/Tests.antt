-- ===== src/Anthropic/Wire/Tests.antt =====
-- Requests of a conversation with a call, and of one behind a compaction.
use ai_sdk_cpp.Prelude.{
  ℕ, ◌≡◌, refl, false, not, filter, drop, [], ◌∷◌, ◌++◌, none, some, codes, str_eq, mem_str,
}
use ai_sdk_cpp.Prompt.{
  Json, AssistantPart, ToolResultOutput, Message, Prompt, system_message, is_system,
}
use ai_sdk_cpp.JsonView.{JsonView}
use ai_sdk_cpp.JsonView.Trees.{nil, tree_json, tree_view, no_field}
use ai_sdk_cpp.Tools.{threw}
use ai_sdk_cpp.Generate.{GenerateTextOptions, build_prompt}
use ai_sdk_cpp.Context.Pairing.{Paired}
use ai_sdk_cpp.Context.Summarize.{with_summary}
use ai_sdk_cpp.Session.{user_text, assistant_text}
use ai_sdk_cpp.Anthropic.Wire.{wire_messages, system_from}
use ai_sdk_cpp.Anthropic.Wire.Answered.{Answered, wire_messages-Answered}
use ai_sdk_cpp.Anthropic.Wire.System.{kept, compacted-system_from}

abbrev json : Json
json = tree_json (λ s. none) (λ v. codes "{}")

abbrev view : JsonView json
view = tree_view (λ s. none) (λ v. codes "{}")

abbrev conversation : Prompt json
conversation =
    system_message json (codes "be brief")
    ∷ user_text (codes "list")
    ∷ Message.assistant (record {
      content =
          AssistantPart.tool_call (record {
            tool_call_id = codes "t1";
            tool_name = codes "ls";
            input = nil;
            provider_executed = false;
            provider_options = no_field;
          })
          ∷ [];
      provider_options = no_field;
    })
    ∷ Message.tool (record {
      content =
          record {
            tool_call_id = codes "t1";
            tool_name = codes "ls";
            output = ToolResultOutput.text_output (codes "a b");
            provider_options = no_field;
          }
          ∷ [];
      provider_options = no_field;
    })
    ∷ []

conversation-Paired : Paired [] conversation
unfolding mem_str str_eq
conversation-Paired = ((refl, (refl, tt)), tt)

wire_messages-Answered_example : Answered [] (wire_messages view conversation)
wire_messages-Answered_example = wire_messages-Answered view conversation conversation-Paired

abbrev history : Prompt json
history =
    system_message json (codes "be brief")
    ∷ user_text (codes "old")
    ∷ assistant_text (codes "yes")
    ∷ user_text (codes "new")
    ∷ []

abbrev options : GenerateTextOptions json ℕ (Unit {0})
options = record {
  do_generate = λ call n. (threw [], n);
  tools = [];
  tool_choice = codes "auto";
  prompt = none;
  messages = some (with_summary (codes "he asked") history 1 3);
  system = some (codes "never delete");
  settings = tt;
  max_steps = 5;
  on_step_finish = none;
  repair_tool_call = none;
  is_cancelled = λ n. false;
}

compacted-system_from_example :
    (system_from ([], no_field) (build_prompt options)
      ≡ (codes "## Earlier in this session\n" ++ codes "he asked", no_field))
    × (wire_messages view (build_prompt options)
        ≡ wire_messages view (filter (λ m. not (is_system m)) (kept options history 1))
          ++ wire_messages view (drop 3 history))
compacted-system_from_example =
    compacted-system_from view options (codes "he asked") history 1 3 refl refl (refl, tt)
