-- ===== src/Session/Tests.antt =====
-- The session's theorems at a session with a sliding window and an agent that answers at once.
use ai_sdk_cpp.Prelude.{ℕ, suc, ◌≡◌, subst, false, [], ◌∷◌, none, codes, pos}
use ai_sdk_cpp.Prompt.{Prompt, plain_json, system_message}
use ai_sdk_cpp.TokenCount.{ContextWindow, approximate}
use ai_sdk_cpp.Tools.{Attempt, ok}
use ai_sdk_cpp.Context.{sliding_window}
use ai_sdk_cpp.Context.Pairing.{Paired, sliding_window-Paired}
use ai_sdk_cpp.Generate.{FinishReason, Content, GenerateResult, StepResult, no_usage}
use ai_sdk_cpp.Agent.{ToolLoopAgentOptions, tool_loop_agent}
use ai_sdk_cpp.Session.{Session, user_text, assistant_text, send}
use ai_sdk_cpp.Session.State.{Sent, asked_session, send-Sent}
use ai_sdk_cpp.Session.Turn.{send-Paired}

abbrev window : ContextWindow
window = record { max_tokens = pos 60; reserved_output_tokens = pos 20 }

-- The world counts the calls of the model.
abbrev manage : Prompt plain_json → ℕ → Attempt (Prompt plain_json) × ℕ
manage ms w = (ok (sliding_window ms window (approximate plain_json)), w)

abbrev answer : GenerateResult plain_json
answer = record {
  content = Content.text (codes "yes") ∷ [];
  finish_reason = FinishReason.stop;
  usage = no_usage;
  warnings = [];
}

abbrev options : ToolLoopAgentOptions plain_json ℕ (Unit {0})
options = record {
  do_generate = λ call n. (ok answer, suc n);
  tools = [];
  tool_choice = codes "auto";
  instructions = codes "be kind";
  settings = tt;
  max_steps = 5;
  on_step_finish = none;
}

abbrev session : Session plain_json
session = record {
  id = codes "s";
  history =
      system_message plain_json (codes "be brief")
      ∷ user_text (codes "is it done?")
      ∷ assistant_text (codes "no")
      ∷ [];
  metadata = record {
    turns = 1;
    total_input_tokens = 0;
    total_output_tokens = 0;
    compaction_summary = none;
  };
}

manage-keeps :
    (ms m : Prompt plain_json) (w1 w2 : ℕ) → Paired [] ms → manage ms w1 ≡ (ok m, w2) → Paired [] m
manage-keeps ms m w1 w2 h e =
    let same : sliding_window ms window (approximate plain_json) ≡ m = cc e in
    subst (Paired []) same (sliding_window-Paired ms window (approximate plain_json) h)

send-Paired_example :
    Paired []
      (send manage
        (tool_loop_agent options (λ n. false))
        none
        session
        (codes "and now?")
        0).1.history
send-Paired_example =
    send-Paired options (λ n. false) manage none manage-keeps session (codes "and now?") 0 tt

send-Sent_example :
    Sent manage
      (tool_loop_agent options (λ n. false))
      (asked_session session (codes "and now?"))
      0
      (send manage (tool_loop_agent options (λ n. false)) none session (codes "and now?") 0).0
      (send manage (tool_loop_agent options (λ n. false)) none session (codes "and now?") 0).1
send-Sent_example =
    send-Sent manage (tool_loop_agent options (λ n. false)) none session (codes "and now?") 0

abbrev cut_step : StepResult plain_json
cut_step = record {
  result = record {
    content =
        Content.tool_call
          (record { tool_call_id = codes "c1"; tool_name = codes "ls"; input = codes "{}" })
        ∷ [];
    finish_reason = FinishReason.length;
    usage = no_usage;
    warnings = [];
  };
  tool_results = [];
  step_number = 0;
}
