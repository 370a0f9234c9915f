-- ===== src/Context/Tests.antt =====
-- The eviction theorems at a conversation with one tool call.
use ai_sdk_cpp.Prelude.{◌≡◌, refl, false, [], ◌∷◌, some, codes, pos, mem_str, str_eq, ◌-ℤ◌}
use ai_sdk_cpp.Prompt.{
  Message, Prompt, AssistantPart, ToolResultOutput, UserPart, plain_json, text_part, system_message,
}
use ai_sdk_cpp.TokenCount.{
  ContextWindow, approximate, available_input_tokens, add_message_tokens, count_message_tokens,
  text_to_tokens,
}
use ai_sdk_cpp.Context.{
  count_leading_system, turn_unit_end, evict_turns_from_front, sliding_window, erase, evict_loop,
}
use ai_sdk_cpp.Context.Pairing.{Paired, evict_turns_from_front-Paired}
use ai_sdk_cpp.Context.Sliding.{SlidesTo, sliding_window-SlidesTo}
use ai_sdk_cpp.Context.Summarize.{SummarizationStrategy, summarization, tail_start, assemble}
use ai_sdk_cpp.Context.Summarize.Pairing.{summarization-Paired}

abbrev question : Message plain_json
question = Message.user (record {
  content = UserPart.text (text_part plain_json (codes "what is it?")) ∷ [];
  provider_options = tt;
})

abbrev call : Message plain_json
call = Message.assistant (record {
  content =
      AssistantPart.tool_call (record {
        tool_call_id = codes "c1";
        tool_name = codes "ls";
        input = [];
        provider_executed = false;
        provider_options = tt;
      })
      ∷ [];
  provider_options = tt;
})

abbrev answer : Message plain_json
answer = Message.tool (record {
  content =
      record {
        tool_call_id = codes "c1";
        tool_name = codes "ls";
        output = ToolResultOutput.text_output (codes "a b");
        provider_options = tt;
      }
      ∷ [];
  provider_options = tt;
})

abbrev talk : Prompt plain_json
talk = system_message plain_json (codes "be brief") ∷ question ∷ call ∷ answer ∷ question ∷ []

abbrev small : ContextWindow
small = record { max_tokens = pos 40; reserved_output_tokens = pos 20 }

talk-Paired : Paired [] talk
unfolding mem_str str_eq
talk-Paired = ((refl, (refl, tt)), tt)

-- The call goes together with its result.
small_slides :
    sliding_window talk small (approximate plain_json)
    ≡ system_message plain_json (codes "be brief") ∷ question ∷ []
unfolding sliding_window evict_turns_from_front count_leading_system turn_unit_end erase approximate
    available_input_tokens add_message_tokens count_message_tokens text_to_tokens ◌-ℤ◌ evict_loop
    mem_str str_eq
small_slides = refl

evict_turns_from_front-Paired_example :
    Paired [] (evict_turns_from_front talk (approximate plain_json) (pos 20) 1)
evict_turns_from_front-Paired_example =
    evict_turns_from_front-Paired talk (approximate plain_json) (pos 20) 1 talk-Paired

sliding_window-SlidesTo_example :
    SlidesTo talk small
      (approximate plain_json)
      (sliding_window talk small (approximate plain_json))
sliding_window-SlidesTo_example = sliding_window-SlidesTo talk small (approximate plain_json)

-- Fractions of 70, 50 and 2 percent of a budget of 30.
abbrev strategy : SummarizationStrategy
strategy = record {
  kept_turns = 1;
  compaction_threshold = λ a. pos 21;
  target_utilization = λ a. pos 15;
  two_percent = λ a. pos 0;
}

abbrev middle : ContextWindow
middle = record { max_tokens = pos 50; reserved_output_tokens = pos 20 }

abbrev summarized : Prompt plain_json
summarized =
    system_message plain_json (codes "be brief")
    ∷ system_message plain_json (codes "## Earlier in this session\nls")
    ∷ question
    ∷ []

middle_summarizes :
    summarization strategy talk middle (approximate plain_json) (some (λ ms. some (codes "ls")))
    ≡ some summarized
unfolding summarization tail_start assemble evict_turns_from_front count_leading_system
    turn_unit_end erase approximate available_input_tokens add_message_tokens count_message_tokens
    text_to_tokens ◌-ℤ◌
middle_summarizes = refl

summarization-Paired_example : Paired [] summarized
summarization-Paired_example =
    summarization-Paired strategy talk middle (approximate plain_json)
      (some (λ ms. some (codes "ls"))) talk-Paired middle_summarizes
