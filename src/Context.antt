-- ===== src/Context.antt =====
-- src/session/context_strategy.cpp and include/ai/session/context_strategy.hpp: how a conversation
-- is cut down to the window. The products of the window with the strategy's `double` fractions are
-- arguments (`Fractions`); the summarizer is an argument too, and `none` is its exception.
pub mod Evict
pub mod Pairing
pub mod Sliding
pub mod Summarize
mod Tests
use ai_sdk_cpp.Prelude.{
  ℕ, zero, suc, ◌+◌, ◌-◌, Bool, true, false, not, ◌&&◌, ◌||◌, List, [], ◌∷◌, ◌++◌, Option, none,
  some, Bytes, codes, ℤ, pos, ◌+ℤ◌, leb_ℤ, length, is_empty, take, drop, get_elem?, any_of, leb,
  ltb, mem_str, if◌then◌else◌,
}
use ai_sdk_cpp.Prompt.{
  Json, AssistantPart, ToolResultPart, ToolMessage, Message, Prompt, is_system, system_message,
}
use ai_sdk_cpp.TokenCount.{TokenCounter, ContextWindow, available_input_tokens}

-- Where the protected tail begins; never inside the system block.
unfoldable pub protected_from : ℕ → ℕ → ℕ → ℕ
protected_from size system_count protected_tail =
    let start = if ltb protected_tail size then size - protected_tail else system_count in
    if ltb start system_count then system_count else start

module _ {J : Json} where
  unfoldable pub count_leading_system : Prompt J → ℕ
  count_leading_system [] = 0
  count_leading_system (m ∷ ms) = if is_system m then suc (count_leading_system ms) else 0

  -- The tool_call_ids that an assistant message introduces.
  abbrev pub call_ids : List (AssistantPart J) → List Bytes
  call_ids [] = []
  call_ids (AssistantPart.tool_call c ∷ parts) = c.tool_call_id ∷ call_ids parts
  call_ids (_ ∷ parts) = call_ids parts

  -- A tool message with a result for one of the ids.
  abbrev pub belongs : List Bytes → ToolMessage J → Bool
  belongs ids t = any_of (λ (r : ToolResultPart J). mem_str r.tool_call_id ids) t.content

  -- `while (end < messages.size())`: the tool messages that follow and belong to the ids.
  unfoldable pub count_belonging : List Bytes → Prompt J → ℕ
  count_belonging ids (Message.tool t ∷ ms) =
      if belongs ids t then suc (count_belonging ids ms) else 0
  count_belonging ids _ = 0

  -- The length of the turn unit that begins with a message, given the messages behind it.
  unfoldable pub unit_length : Message J → Prompt J → ℕ
  unfolding count_belonging
  unit_length (Message.assistant a) rest =
      if not (is_empty (call_ids a.content))
      then suc (count_belonging (call_ids a.content) rest)
      else 1
  unit_length _ rest = 1

  unfoldable pub turn_unit_end : Prompt J → ℕ → ℕ
  unfolding unit_length
  turn_unit_end messages i =
      if leb (length messages) i
      then length messages
      else elim (drop i messages) [ [] ↦ length messages | m ∷ rest ↦ i + unit_length m rest ]

  unfoldable pub erase : Prompt J → ℕ → ℕ → Prompt J
  erase messages first last = take first messages ++ drop last messages

  -- The loop of `evict_turns_from_front`; a round erases a message at least.
  unfoldable pub evict_loop : ℕ → TokenCounter J → ℤ → ℕ → ℕ → Prompt J → Prompt J
  unfolding protected_from
  evict_loop zero counter available protected_tail start messages = messages
  evict_loop (suc fuel) counter available protected_tail start messages =
      let unit_end = turn_unit_end messages start in
      let end = if leb unit_end start then start + 1 else unit_end in
      let protected_start = protected_from (length messages) start protected_tail in
      let next =
        evict_loop fuel counter available protected_tail start (erase messages start end) in
      if leb_ℤ (pos (counter.count_messages_tokens messages)) available
      then messages
      else if leb protected_start start
      then messages
      else if ltb protected_start end
      then messages
      else next

  unfoldable pub evict_turns_from_front : Prompt J → TokenCounter J → ℤ → ℕ → Prompt J
  evict_turns_from_front messages counter available protected_tail =
      if leb_ℤ available (pos 0)
      then messages
      else evict_loop (length messages) counter available protected_tail
          (count_leading_system messages) messages

  -- `SlidingWindowStrategy::manage`.
  unfoldable pub sliding_window : Prompt J → ContextWindow → TokenCounter J → Prompt J
  sliding_window history window counter =
      let available = available_input_tokens window in
      if leb_ℤ (pos (counter.count_messages_tokens history)) available
      then history
      else evict_turns_from_front history counter available 1
