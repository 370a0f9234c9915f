-- ===== src/Agent.antt =====
-- src/agent/tool_loop_agent.cpp and include/ai/agent/agent.hpp: an agent is a function from messages
-- to a result; `ToolLoopAgent` is the one that runs `generate_text`. The model stands for the model
-- behind its middleware.
use ai_sdk_cpp.Prelude.{ℕ, Bool, Option, none, some, Bytes}
use ai_sdk_cpp.Prompt.{Json, Prompt}
use ai_sdk_cpp.Tools.{Task, ToolSet}
use ai_sdk_cpp.Generate.{
  CallOptions, GenerateResult, StepResult, GenerateTextOptions, GenerateTextResult, generate_text,
}

-- `Agent::call` with messages.
pub record Agent (J : Json) (W : Type 0) : Type 0 where
  pub call : Prompt J → Task W (GenerateTextResult J)

-- `struct ToolLoopAgentOptions`.
pub record ToolLoopAgentOptions (J : Json) (W S : Type 0) : Type 0 where
  pub do_generate : CallOptions J S → Task W (GenerateResult J)
  pub tools : ToolSet J W
  pub tool_choice : Bytes
  pub instructions : Bytes
  pub settings : S
  pub max_steps : ℕ
  pub on_step_finish : Option (StepResult J → W → W)

module _ {J : Json} {W S : Type 0} (a : ToolLoopAgentOptions J W S) (is_cancelled : W → Bool) where
  -- The options that both calls share; no repair function is passed on.
  unfoldable pub agent_options : Option Bytes → Option (Prompt J) → GenerateTextOptions J W S
  agent_options prompt messages = record {
    do_generate = a.do_generate;
    tools = a.tools;
    tool_choice = a.tool_choice;
    prompt = prompt;
    messages = messages;
    system = some a.instructions;
    settings = a.settings;
    max_steps = a.max_steps;
    on_step_finish = a.on_step_finish;
    repair_tool_call = none;
    is_cancelled = is_cancelled;
  }

  unfoldable pub call_prompt : Bytes → Task W (GenerateTextResult J)
  unfolding agent_options
  call_prompt prompt = generate_text (agent_options (some prompt) none)

  unfoldable pub call_messages : Prompt J → Task W (GenerateTextResult J)
  unfolding agent_options
  call_messages messages = generate_text (agent_options none (some messages))

  unfoldable pub tool_loop_agent : Agent J W
  unfolding call_messages
  tool_loop_agent = record { call = call_messages }
