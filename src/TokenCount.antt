-- ===== src/TokenCount.antt =====
-- src/util/token_count.cpp and include/ai/util/token_count.hpp. A count is a natural number: texts
-- and totals stay below 2^31, where the code's `int` agrees.
pub mod Trim
mod Tests
use ai_sdk_cpp.Prelude.{
  ℕ, zero, suc, ◌+◌, ◌/◌, max, Bool, true, false, not, ◌&&◌, List, [], ◌∷◌, Option, none, some,
  Bytes, ℤ, pos, ◌-ℤ◌, leb_ℤ, length, leb, if◌then◌else◌,
}
use ai_sdk_cpp.Prompt.{
  Json, UserPart, AssistantPart, ToolResultOutput, ToolResultPart, Message, Prompt, is_system,
}

unfoldable pub text_to_tokens : Bytes → ℕ
text_to_tokens text = max 1 ((length text + 3) / 4)

-- The abstract class: what a counter must offer.
pub record TokenCounter (J : Json) : Type 0 where
  pub count_tokens : Bytes → ℕ
  pub count_message_tokens : Message J → ℕ
  pub count_messages_tokens : Prompt J → ℕ

module _ (J : Json) where
  unfoldable pub content_tokens : List (UserPart J) → ℕ
  content_tokens [] = 0
  content_tokens (UserPart.text t ∷ parts) = text_to_tokens t.text + content_tokens parts
  content_tokens (UserPart.file f ∷ parts) = content_tokens parts

  unfoldable pub assistant_content_tokens : List (AssistantPart J) → ℕ
  assistant_content_tokens [] = 0
  assistant_content_tokens (AssistantPart.text t ∷ parts) =
      text_to_tokens t.text + assistant_content_tokens parts
  assistant_content_tokens (AssistantPart.tool_call c ∷ parts) =
      text_to_tokens c.tool_name
      + text_to_tokens (J.serialize c.input)
      + assistant_content_tokens parts
  assistant_content_tokens (_ ∷ parts) = assistant_content_tokens parts

  unfoldable pub output_tokens : ToolResultOutput J → ℕ
  output_tokens (ToolResultOutput.text_output s) = text_to_tokens s
  output_tokens (ToolResultOutput.json_output v) = text_to_tokens (J.serialize v)
  output_tokens (ToolResultOutput.error_text_output s) = text_to_tokens s
  output_tokens (ToolResultOutput.error_json_output v) = text_to_tokens (J.serialize v)
  output_tokens _ = 20

  unfoldable pub tool_content_tokens : List (ToolResultPart J) → ℕ
  unfolding output_tokens
  tool_content_tokens [] = 0
  tool_content_tokens (r ∷ rs) =
      text_to_tokens r.tool_name + 10 + output_tokens r.output + tool_content_tokens rs

  unfoldable pub count_message_tokens : Message J → ℕ
  unfolding content_tokens assistant_content_tokens tool_content_tokens
  count_message_tokens (Message.system m) = 4 + text_to_tokens m.content
  count_message_tokens (Message.user m) = 4 + content_tokens m.content
  count_message_tokens (Message.assistant m) = 4 + assistant_content_tokens m.content
  count_message_tokens (Message.tool m) = 4 + tool_content_tokens m.content

  -- The loop of `count_messages_tokens`, from the total so far.
  unfoldable pub add_message_tokens : ℕ → Prompt J → ℕ
  add_message_tokens total [] = total
  add_message_tokens total (m ∷ ms) = add_message_tokens (total + count_message_tokens m) ms

  -- `class ApproximateTokenCounter`.
  unfoldable pub approximate : TokenCounter J
  approximate = record {
    count_tokens = text_to_tokens;
    count_message_tokens = count_message_tokens;
    count_messages_tokens = add_message_tokens 3;
  }

pub record ContextWindow : Type 0 where
  pub max_tokens : ℤ
  pub reserved_output_tokens : ℤ

unfoldable pub available_input_tokens : ContextWindow → ℤ
available_input_tokens w = w.max_tokens -ℤ w.reserved_output_tokens

module _ {J : Json} where
  -- `ContextWindow::fits`.
  unfoldable pub fits : ContextWindow → TokenCounter J → Prompt J → Bool
  fits w counter messages =
      leb_ℤ (pos (counter.count_messages_tokens messages)) (available_input_tokens w)

  -- Erases the first message that is no system message; `none` if there is none.
  unfoldable pub erase_first : Prompt J → Option (Prompt J)
  erase_first [] = none
  erase_first (m ∷ ms) =
      if not (is_system m)
      then some ms
      else elim (erase_first ms) [ none ↦ none | some rest ↦ some (m ∷ rest) ]

  -- The loop of `trim_to_fit`; a round erases a message, so one round for each is enough.
  unfoldable pub trim_loop : ℕ → ContextWindow → TokenCounter J → Prompt J → Prompt J
  unfolding erase_first
  trim_loop zero w counter messages = messages
  trim_loop (suc fuel) w counter messages =
      if not (leb_ℤ (pos (counter.count_messages_tokens messages)) (available_input_tokens w))
        && leb 2 (length messages)
      then elim (erase_first messages) [
        | none ↦ messages
        | some rest ↦ trim_loop fuel w counter rest
      ]
      else messages

  unfoldable pub trim_to_fit : ContextWindow → TokenCounter J → Prompt J → Prompt J
  trim_to_fit w counter messages = trim_loop (length messages) w counter messages
