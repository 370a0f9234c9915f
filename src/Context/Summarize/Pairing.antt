-- ===== src/Context/Summarize/Pairing.antt =====
-- Summarization keeps each tool result with its call, wherever the walks end.
use ai_sdk_cpp.Prelude.{
  ℕ, zero, suc, ◌+◌, ◌-◌, ◌≤◌, ◌<◌, ◌≡◌, refl, sym, ap, subst, ◌∙◌, ◌⊎◌, inl, inr, true, false, not,
  List, [], ◌∷◌, ◌++◌, Option, none, some, value_or, ◌||◌, ◌+ℤ◌, Bytes, arith, ℤ, pos, leb_ℤ, leb,
  length, is_empty, take, drop, drop-drop, length-drop, Bool-cases, ltb, if_either,
}
use ai_sdk_cpp.Prompt.{Json, Message, Prompt}
use ai_sdk_cpp.TokenCount.{TokenCounter, ContextWindow, available_input_tokens}
use ai_sdk_cpp.Context.{
  count_leading_system, unit_length, turn_unit_end, evict_turns_from_front, call_ids,
}
use ai_sdk_cpp.Context.Evict.{count_leading_system-le, system_block}
use ai_sdk_cpp.Context.Pairing.{
  Paired, Paired-drop_unit, Paired-conversation, Paired-system_block, evict_turns_from_front-Paired,
}
use ai_sdk_cpp.Context.Summarize.{
  SummarizationStrategy, Summarizer, is_tool_at, roll_back, unit_start, keep_turns, evict_more,
  evicted, refit, with_summary, place_summary, assemble, tail_start, summarization,
}

module _ {J : Json} where
  -- A suffix that does not begin with a tool message is paired by itself.
  Paired-drop :
      (ids : List Bytes) (ms : Prompt J) (i : ℕ)
      → Paired ids ms
      → is_tool_at ms i ≡ false
      → Paired [] (drop i ms)
  Paired-drop ids [] zero h e = tt
  Paired-drop ids [] (suc i) h e = tt
  Paired-drop ids (Message.system m ∷ ms) zero h e = h
  Paired-drop ids (Message.user m ∷ ms) zero h e = h
  Paired-drop ids (Message.assistant a ∷ ms) zero h e = h
  Paired-drop ids (Message.tool t ∷ ms) zero h e = absurd (cc)
  Paired-drop ids (Message.system m ∷ ms) (suc i) h e = Paired-drop [] ms i h e
  Paired-drop ids (Message.user m ∷ ms) (suc i) h e = Paired-drop [] ms i h e
  Paired-drop ids (Message.assistant a ∷ ms) (suc i) h e = Paired-drop (call_ids a.content) ms i h e
  Paired-drop ids (Message.tool t ∷ ms) (suc i) h e = Paired-drop ids ms i h.1 e

  roll_back-stops :
      (n : ℕ) (ms : Prompt J) (i : ℕ)
      → n ≤ i
      → (roll_back n ms i ≡ n)
        ⊎ ((j : ℕ) × (roll_back n ms i ≡ suc j) × (n ≤ j) × (is_tool_at ms j ≡ false))
  unfolding roll_back
  roll_back-stops n ms zero h = inl (omega arith)
  roll_back-stops n ms (suc i) h = elim (Bool-cases (ltb n (suc i))) [
    | inr low ↦ inl (ground arith)
    | inl high ↦ elim (Bool-cases (is_tool_at ms i)) [
      | inl tool ↦ rw (high, tool) (roll_back-stops n ms i (ground arith))
      | inr other ↦ inr (i, rw (high, other), ground arith, other)
    ]
  ]

  drop-length : (ms : Prompt J) → drop (length ms) ms ≡ []
  drop-length [] = refl
  drop-length (m ∷ ms) = drop-length ms

  turn_unit_end-cons :
      (ms : Prompt J) (i : ℕ) (m : Message J) (rest : Prompt J)
      → i < length ms
      → drop i ms ≡ m ∷ rest
      → turn_unit_end ms i ≡ i + unit_length m rest
  unfolding turn_unit_end
  turn_unit_end-cons ms i m rest h e = ground (arith, e)

  turn_unit_end-past : (ms : Prompt J) (i : ℕ) → length ms ≤ i → turn_unit_end ms i ≡ length ms
  unfolding turn_unit_end
  turn_unit_end-past ms i h = ground arith

module _ {J : Json} (ms : Prompt J) (h : Paired [] ms) where
  abbrev n : ℕ
  n = count_leading_system ms

  -- Where a kept tail may begin.
  record IsCut (i : ℕ) : Type 0 where
    behind_block : n ≤ i
    tail_paired : Paired [] (drop i ms)

  block-IsCut : IsCut n
  block-IsCut = record { behind_block = omega arith; tail_paired = Paired-conversation ms h }

  end-IsCut : IsCut (length ms)
  end-IsCut = record {
    behind_block = count_leading_system-le ms;
    tail_paired = subst (Paired []) (sym (drop-length ms)) tt;
  }

  unit_start-IsCut : (i : ℕ) → n ≤ i → IsCut (unit_start n ms i)
  unit_start-IsCut i le = elim (Bool-cases (is_tool_at ms i)) [
    | inr other ↦
        (unfold unit_start in
          rw other (record { behind_block = le; tail_paired = Paired-drop [] ms i h other }))
    | inl tool ↦ elim (roll_back-stops n ms i le) [
      | inl e ↦ subst IsCut (sym (rolled_to_block tool e)) block-IsCut
      | inr (j, e, above, other) ↦
          subst IsCut (sym (rolled tool j e above))
            (record { behind_block = above; tail_paired = Paired-drop [] ms j h other })
    ]
  ]
    where
      rolled_to_block : is_tool_at ms i ≡ true → roll_back n ms i ≡ n → unit_start n ms i ≡ n
      rolled_to_block t e = (unfold unit_start in ground (arith, e, t))

      rolled :
          is_tool_at ms i ≡ true
          → (j : ℕ) → roll_back n ms i ≡ suc j
          → n ≤ j
          → unit_start n ms i ≡ j
      rolled t j e a = (unfold unit_start in ground (arith, e, t))

  keep_turns-IsCut : (turns i : ℕ) → IsCut i → IsCut (keep_turns turns n ms i)
  keep_turns-IsCut zero i c = (unfold keep_turns in c)
  keep_turns-IsCut (suc turns) i c = elim (Bool-cases (ltb n i)) [
    | inr low ↦ subst IsCut (sym (stays low)) c
    | inl high ↦
        subst IsCut (sym (moves high))
          (keep_turns-IsCut turns _ (unit_start-IsCut (i - 1) (ground arith)))
  ]
    where
      stays : ltb n i ≡ false → keep_turns (suc turns) n ms i ≡ i
      stays e = (unfold keep_turns in rw e)

      moves :
          ltb n i ≡ true
          → keep_turns (suc turns) n ms i ≡ keep_turns turns n ms (unit_start n ms (i - 1))
      moves e = (unfold keep_turns in rw e)

  turn_unit_end-IsCut : (i : ℕ) → IsCut i → IsCut (turn_unit_end ms i)
  turn_unit_end-IsCut i c = go (drop i ms) refl
    where
      past : (length ms ≤ i) → IsCut (turn_unit_end ms i)
      past e = rw (turn_unit_end-past ms i e) end-IsCut

      go : (xs : Prompt J) → drop i ms ≡ xs → IsCut (turn_unit_end ms i)
      go [] e = past (omega (arith, ap length e, length-drop i ms))
      go (m ∷ rest) e =
          rw (turn_unit_end-cons ms i m rest (omega (arith, ap length e, length-drop i ms)) e)
            (record {
              behind_block = omega (arith, c.behind_block);
              tail_paired =
                  subst (Paired [])
                    (ap (drop (unit_length m rest)) (sym e) ∙ drop-drop (unit_length m rest) i ms)
                    (Paired-drop_unit m rest (subst (Paired []) e c.tail_paired));
            })

  evict_more-IsCut :
      (fuel : ℕ) (counter : TokenCounter J) (target overhead : ℤ) (i : ℕ)
      → IsCut i
      → IsCut (evict_more fuel counter target overhead n ms i)
  unfolding evict_more
  evict_more-IsCut zero counter target overhead i c = c
  evict_more-IsCut (suc fuel) counter target overhead i c =
      if_either IsCut (not (ltb i (length ms))) c (
        if_either IsCut (leb (turn_unit_end ms i) i || leb (length ms) (turn_unit_end ms i)) c (
          if_either IsCut
            (leb_ℤ
              (pos (counter.count_messages_tokens (take n ms ++ drop (turn_unit_end ms i) ms))
                +ℤ overhead)
              target)
            (evict_more-IsCut fuel counter target overhead (turn_unit_end ms i)
              (turn_unit_end-IsCut i c))
            c))

  tail_start-IsCut :
      (s : SummarizationStrategy) (counter : TokenCounter J) (available : ℤ)
      → IsCut (tail_start s counter available ms)
  unfolding tail_start
  tail_start-IsCut s counter available =
      evict_more-IsCut (length ms) counter _ _ _
        (if_either IsCut _ block-IsCut (keep_turns-IsCut s.kept_turns (length ms) end-IsCut))

module _ {J : Json} where
  record IsPaired (ms : Prompt J) : Type 0 where
    paired : Paired [] ms

  record ReturnsPaired (o : Option (Prompt J)) : Type 0 where
    paired : (r : Prompt J) → o ≡ some r → IsPaired r

  returns : (ms : Prompt J) → IsPaired ms → ReturnsPaired (some ms)
  returns ms h = record { paired = λ r e. subst IsPaired (ap (λ o. value_or o ms) e) h }

  evict-IsPaired :
      (ms : Prompt J) (counter : TokenCounter J) (available : ℤ)
      → IsPaired ms
      → IsPaired (evict_turns_from_front ms counter available 1)
  evict-IsPaired ms counter available h = record {
    paired = evict_turns_from_front-Paired ms counter available 1 h.paired;
  }

  refit-IsPaired :
      (ms : Prompt J) (counter : TokenCounter J) (available : ℤ)
      → IsPaired ms
      → IsPaired (refit ms counter available)
  unfolding refit
  refit-IsPaired ms counter available h =
      if_either IsPaired _ (evict-IsPaired ms counter available h) h

  with_summary-IsPaired :
      (summary : Bytes) (ms : Prompt J) (k : ℕ)
      → Paired [] (drop k ms)
      → IsPaired (with_summary summary ms (count_leading_system ms) k)
  unfolding with_summary
  with_summary-IsPaired summary ms k h = record {
    paired =
        Paired-system_block ms _
          (if_either IsPaired (not (is_empty summary)) (record { paired = h })
            (record { paired = h })).paired;
  }

  module _ (ms : Prompt J) (counter : TokenCounter J) (available : ℤ) (k : ℕ)
      (h : Paired [] (drop k ms)) where
    plain : IsPaired (system_block ms ++ drop k ms)
    plain = record { paired = Paired-system_block ms (drop k ms) h }

    place_summary-ReturnsPaired :
        (o : Option Bytes)
        → ReturnsPaired (place_summary o ms counter available (count_leading_system ms) k)
    place_summary-ReturnsPaired none =
        (unfold place_summary in record { paired = λ r e. absurd (cc) })
    place_summary-ReturnsPaired (some summary) =
        (unfold place_summary in
          returns _ (refit-IsPaired _ counter available (with_summary-IsPaired summary ms k h)))

    assemble-ReturnsPaired :
        (summarizer : Option (Summarizer J))
        → ReturnsPaired (assemble ms counter available summarizer (count_leading_system ms) k)
    unfolding assemble
    assemble-ReturnsPaired none =
        if_either ReturnsPaired (is_empty (evicted ms (count_leading_system ms) k))
          (returns _ (refit-IsPaired _ counter available plain))
          (returns _ (evict-IsPaired _ counter available plain))
    assemble-ReturnsPaired (some f) =
        if_either ReturnsPaired (is_empty (evicted ms (count_leading_system ms) k))
          (returns _ (refit-IsPaired _ counter available plain))
          (place_summary-ReturnsPaired (f (evicted ms (count_leading_system ms) k)))

  summarization-ReturnsPaired :
      (s : SummarizationStrategy) (ms : Prompt J) (w : ContextWindow) (counter : TokenCounter J)
      (summarizer : Option (Summarizer J))
      → Paired [] ms
      → ReturnsPaired (summarization s ms w counter summarizer)
  unfolding summarization
  summarization-ReturnsPaired s ms w counter summarizer h =
      let available = available_input_tokens w in
      if_either ReturnsPaired
        (leb_ℤ (pos (counter.count_messages_tokens ms)) (s.compaction_threshold available))
        (returns ms (record { paired = h }))
        (assemble-ReturnsPaired ms counter available _
          (tail_start-IsCut ms h s counter available).tail_paired summarizer)

  -- Whatever the thresholds, the counter and the summarizer: if in the history that `manage` is given
  -- each tool message has a result, and each result is for a call of the assistant message that it
  -- stands behind, then so it is in a history that it returns.
  pub summarization-Paired :
      (s : SummarizationStrategy) (ms : Prompt J) (w : ContextWindow) (counter : TokenCounter J)
      (summarizer : Option (Summarizer J)) {r : Prompt J}
      → Paired [] ms
      → summarization s ms w counter summarizer ≡ some r
      → Paired [] r
  summarization-Paired s ms w counter summarizer {r} h e =
      ((summarization-ReturnsPaired s ms w counter summarizer h).paired r e).paired
