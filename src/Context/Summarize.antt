-- ===== src/Context/Summarize.antt =====
-- `SummarizationStrategy::manage` of src/session/context_strategy.cpp.
pub mod Pairing
use ai_sdk_cpp.Prelude.{
  ℕ, zero, suc, ◌+◌, ◌-◌, Bool, true, false, not, ◌&&◌, ◌||◌, List, [], ◌∷◌, ◌++◌, Option, none,
  some, Bytes, codes, ℤ, pos, ◌+ℤ◌, leb_ℤ, length, is_empty, take, drop, leb, ltb, if◌then◌else◌,
}
use ai_sdk_cpp.Prompt.{Json, Message, Prompt, system_message}
use ai_sdk_cpp.TokenCount.{TokenCounter, ContextWindow, available_input_tokens}
use ai_sdk_cpp.Context.{count_leading_system, turn_unit_end, evict_turns_from_front}

-- The strategy's fields. A fraction is given by what it does to the window: the product, truncated.
pub record SummarizationStrategy : Type 0 where
  pub kept_turns : ℕ
  pub compaction_threshold : ℤ → ℤ
  pub target_utilization : ℤ → ℤ
  -- `available * 0.02`.
  pub two_percent : ℤ → ℤ

-- `std::max(100, …)`.
abbrev pub summary_overhead : SummarizationStrategy → ℤ → ℤ
summary_overhead s available =
    if leb_ℤ (s.two_percent available) (pos 100) then pos 100 else s.two_percent available

-- A summarizer returns a text or throws (`none`).
abbrev pub Summarizer : Json → Type 0
Summarizer J = Prompt J → Option Bytes

module _ {J : Json} where
  -- `std::get_if<ToolMessage>(&history[i])`.
  abbrev pub is_tool_at : Prompt J → ℕ → Bool
  is_tool_at [] i = false
  is_tool_at (Message.tool t ∷ ms) zero = true
  is_tool_at (_ ∷ ms) zero = false
  is_tool_at (_ ∷ ms) (suc i) = is_tool_at ms i

  -- Back over the tool messages in front of index `i`.
  unfoldable pub roll_back : ℕ → Prompt J → ℕ → ℕ
  roll_back system_count history zero = zero
  roll_back system_count history (suc i) =
      if ltb system_count (suc i) && is_tool_at history i
      then roll_back system_count history i
      else suc i

  -- The start of the turn unit that ends behind index `i`.
  unfoldable pub unit_start : ℕ → Prompt J → ℕ → ℕ
  unfolding roll_back
  unit_start system_count history i =
      if is_tool_at history i
      then (let first = roll_back system_count history i in
          if ltb system_count first then first - 1 else first)
      else i

  -- The walk over the last turns; the first argument is `kept_turns_ - turns_kept`.
  unfoldable pub keep_turns : ℕ → ℕ → Prompt J → ℕ → ℕ
  unfolding unit_start
  keep_turns zero system_count history kept_start = kept_start
  keep_turns (suc turns) system_count history kept_start =
      let rest =
        keep_turns turns system_count history (unit_start system_count history (kept_start - 1)) in
      if ltb system_count kept_start then rest else kept_start

  -- Evicts further units while the tail is above the target; a round moves on by a message at least.
  unfoldable pub evict_more : ℕ → TokenCounter J → ℤ → ℤ → ℕ → Prompt J → ℕ → ℕ
  evict_more zero counter target overhead system_count history kept_start = kept_start
  evict_more (suc fuel) counter target overhead system_count history kept_start =
      let next = turn_unit_end history kept_start in
      let tentative = take system_count history ++ drop next history in
      let tokens = pos (counter.count_messages_tokens tentative) +ℤ overhead in
      let rest = evict_more fuel counter target overhead system_count history next in
      if not (ltb kept_start (length history))
      then kept_start
      else if leb next kept_start || leb (length history) next
      then kept_start
      else if leb_ℤ tokens target
      then rest
      else kept_start

  -- `history[system_count, kept_start)`.
  abbrev pub evicted : Prompt J → ℕ → ℕ → Prompt J
  evicted history system_count kept_start = drop system_count (take kept_start history)

  -- The safety net behind a summary.
  unfoldable pub refit : Prompt J → TokenCounter J → ℤ → Prompt J
  refit result counter available =
      if not (leb_ℤ (pos (counter.count_messages_tokens result)) available)
      then evict_turns_from_front result counter available 1
      else result

  -- The history with a summary, if it is not empty, in place of the evicted messages.
  unfoldable pub with_summary : Bytes → Prompt J → ℕ → ℕ → Prompt J
  with_summary summary history system_count kept_start =
      take system_count history
      ++ (if not (is_empty summary)
          then system_message J (codes "## Earlier in this session\n" ++ summary)
            ∷ drop kept_start history
          else drop kept_start history)

  -- What the summarizer returned, if it did, goes into the history.
  unfoldable pub place_summary :
      Option Bytes → Prompt J → TokenCounter J → ℤ → ℕ → ℕ → Option (Prompt J)
  unfolding refit with_summary
  place_summary none history counter available system_count kept_start = none
  place_summary (some summary) history counter available system_count kept_start =
      some (refit (with_summary summary history system_count kept_start) counter available)

  -- From where the kept tail begins.
  unfoldable pub assemble :
      Prompt J → TokenCounter J → ℤ → Option (Summarizer J) → ℕ → ℕ → Option (Prompt J)
  unfolding refit place_summary
  assemble history counter available summarizer system_count kept_start =
      if is_empty (evicted history system_count kept_start)
      then some (refit (take system_count history ++ drop kept_start history) counter available)
      else elim summarizer [
        | none ↦ some (
            evict_turns_from_front (take system_count history ++ drop kept_start history) counter
              available 1)
        | some summarize ↦
            place_summary (summarize (evicted history system_count kept_start)) history counter
              available system_count kept_start
      ]

  -- The first index of the kept tail.
  unfoldable pub tail_start : SummarizationStrategy → TokenCounter J → ℤ → Prompt J → ℕ
  unfolding keep_turns evict_more
  tail_start s counter available history =
      let system_count = count_leading_system history in
      let floor = keep_turns s.kept_turns system_count history (length history) in
      let clamped = if ltb floor system_count then system_count else floor in
      evict_more (length history) counter (s.target_utilization available)
        (summary_overhead s available) system_count history clamped

  unfoldable pub summarization :
      SummarizationStrategy
      → Prompt J
      → ContextWindow
      → TokenCounter J
      → Option (Summarizer J)
      → Option (Prompt J)
  unfolding assemble
  summarization s history window counter summarizer =
      let available = available_input_tokens window in
      if leb_ℤ (pos (counter.count_messages_tokens history)) (s.compaction_threshold available)
      then some history
      else assemble history counter available summarizer (count_leading_system history)
          (tail_start s counter available history)
