-- ===== src/Context/Pairing.antt =====
-- No tool result without its call: eviction keeps a paired conversation paired.
use ai_sdk_cpp.Prelude.{
  ℕ, suc, ◌≡◌, sym, inl, inr, true, false, not, [], ◌∷◌, ◌++◌, List, ℤ, pos, leb_ℤ, subst, is_empty,
  drop, refl, All, mem_str, any_of, Bool-cases, Bytes, if◌then◌else◌,
}
use ai_sdk_cpp.Prompt.{Json, Message, ToolMessage, ToolResultPart, Prompt}
use ai_sdk_cpp.TokenCount.{TokenCounter, ContextWindow, available_input_tokens}
use ai_sdk_cpp.Context.{
  call_ids, belongs, count_leading_system, count_belonging, unit_length, evict_turns_from_front,
  sliding_window,
}
use ai_sdk_cpp.Context.Evict.{
  Evicts, keep, evict, system_block, conversation, evict_turns_from_front-Evicts,
}

module _ {J : Json} where
  -- A tool message behind the calls `ids`: it has a result, and each of its results is for one of them.
  abbrev pub Belongs : List Bytes → ToolMessage J → Type 0
  Belongs ids t =
      (is_empty t.content ≡ false) × All (λ r. mem_str r.tool_call_id ids ≡ true) t.content

  -- Behind messages whose last assistant message introduced `ids`, each result of a tool message is for
  -- a call of the assistant message that its run follows, and there is such a result.
  abbrev pub Paired : List Bytes → Prompt J → Type 0
  Paired ids [] = Unit
  Paired ids (Message.system m ∷ ms) = Paired [] ms
  Paired ids (Message.user m ∷ ms) = Paired [] ms
  Paired ids (Message.assistant a ∷ ms) = Paired (call_ids a.content) ms
  Paired ids (Message.tool t ∷ ms) = Belongs ids t × Paired ids ms

  any_of_first :
      (ids : List Bytes) (rs : List (ToolResultPart J))
      → is_empty rs ≡ false
      → All (λ r. mem_str r.tool_call_id ids ≡ true) rs
      → any_of (λ (r : ToolResultPart J). mem_str r.tool_call_id ids) rs ≡ true
  any_of_first ids [] some_result h = absurd (cc)
  any_of_first ids (r ∷ rs) some_result h = rw h.0 refl

  pub Belongs-belongs :
      (ids : List Bytes) (t : ToolMessage J) → Belongs ids t → belongs ids t ≡ true
  Belongs-belongs ids t h = any_of_first ids t.content h.0 h.1

  -- Behind a run of tool messages that belong to the ids the conversation is paired by itself.
  Paired-drop_belonging :
      (ids : List Bytes) (ms : Prompt J)
      → Paired ids ms
      → Paired [] (drop (count_belonging ids ms) ms)
  unfolding count_belonging
  Paired-drop_belonging ids [] h = tt
  Paired-drop_belonging ids (Message.system m ∷ ms) h = h
  Paired-drop_belonging ids (Message.user m ∷ ms) h = h
  Paired-drop_belonging ids (Message.assistant a ∷ ms) h = h
  Paired-drop_belonging ids (Message.tool t ∷ ms) h =
      rw (Belongs-belongs ids t h.0) (Paired-drop_belonging ids ms h.1)

  Paired-drop_calls :
      (ids : List Bytes) (m : Message J) (ms : Prompt J)
      → Paired ids ms
      → Paired [] (drop (if not (is_empty ids) then suc (count_belonging ids ms) else 1) (m ∷ ms))
  Paired-drop_calls [] m ms h = h
  Paired-drop_calls (i ∷ ids) m ms h = Paired-drop_belonging (i ∷ ids) ms h

  -- A whole turn unit takes all answers to its calls along.
  pub Paired-drop_unit :
      (m : Message J) (ms : Prompt J)
      → Paired [] (m ∷ ms)
      → Paired [] (drop (unit_length m ms) (m ∷ ms))
  unfolding unit_length
  Paired-drop_unit (Message.system m) ms h = h
  Paired-drop_unit (Message.user m) ms h = h
  Paired-drop_unit (Message.assistant a) ms h =
      Paired-drop_calls (call_ids a.content) (Message.assistant a) ms h
  Paired-drop_unit (Message.tool t) ms h = h.1

  Evicts-Paired :
      {counter : TokenCounter J} {available : ℤ} {t : ℕ} {sys rest r : Prompt J}
      → Evicts counter available t sys rest r
      → Paired [] rest
      → Paired [] r
  Evicts-Paired (keep rest why) h = h
  Evicts-Paired (evict m ms over room d) h = Evicts-Paired d (Paired-drop_unit m ms h)

  pub Paired-conversation : (ms : Prompt J) → Paired [] ms → Paired [] (conversation ms)
  unfolding count_leading_system
  Paired-conversation [] h = tt
  Paired-conversation (Message.system m ∷ ms) h = Paired-conversation ms h
  Paired-conversation (Message.user m ∷ ms) h = h
  Paired-conversation (Message.assistant a ∷ ms) h = h
  Paired-conversation (Message.tool t ∷ ms) h = h

  pub Paired-system_block : (ms r : Prompt J) → Paired [] r → Paired [] (system_block ms ++ r)
  unfolding count_leading_system
  Paired-system_block [] r h = h
  Paired-system_block (Message.system m ∷ ms) r h = Paired-system_block ms r h
  Paired-system_block (Message.user m ∷ ms) r h = h
  Paired-system_block (Message.assistant a ∷ ms) r h = h
  Paired-system_block (Message.tool t ∷ ms) r h = h

  pub no_budget :
      (messages : Prompt J) (counter : TokenCounter J) (available : ℤ) (t : ℕ)
      → leb_ℤ available (pos 0) ≡ true
      → evict_turns_from_front messages counter available t ≡ messages
  unfolding evict_turns_from_front
  no_budget messages counter available t h = rw h

  -- If in a history each tool message has a result, and each result is for a call of the assistant
  -- message that it stands behind, then so it is in what eviction leaves of the history, for any token
  -- counter, budget and protected tail.
  pub evict_turns_from_front-Paired :
      (messages : Prompt J) (counter : TokenCounter J) (available : ℤ) (t : ℕ)
      → Paired [] messages
      → Paired [] (evict_turns_from_front messages counter available t)
  evict_turns_from_front-Paired messages counter available t h =
      elim (Bool-cases (leb_ℤ available (pos 0))) [
        | inl none_left ↦
            subst (Paired []) (sym (no_budget messages counter available t none_left)) h
        | inr some_left ↦
            let (r, e, d) = evict_turns_from_front-Evicts messages counter available t some_left in
            subst (Paired []) (sym e)
              (Paired-system_block messages r (Evicts-Paired d (Paired-conversation messages h)))
      ]

  sliding_window_under :
      (ms : Prompt J) (w : ContextWindow) (counter : TokenCounter J)
      → leb_ℤ (pos (counter.count_messages_tokens ms)) (available_input_tokens w) ≡ true
      → sliding_window ms w counter ≡ ms
  unfolding sliding_window
  sliding_window_under ms w counter e = rw e

  sliding_window_over :
      (ms : Prompt J) (w : ContextWindow) (counter : TokenCounter J)
      → leb_ℤ (pos (counter.count_messages_tokens ms)) (available_input_tokens w) ≡ false
      → sliding_window ms w counter ≡ evict_turns_from_front ms counter (available_input_tokens w) 1
  unfolding sliding_window
  sliding_window_over ms w counter e = rw e

  pub sliding_window-Paired :
      (ms : Prompt J) (w : ContextWindow) (counter : TokenCounter J)
      → Paired [] ms
      → Paired [] (sliding_window ms w counter)
  sliding_window-Paired ms w counter h =
      elim (Bool-cases
        (leb_ℤ (pos (counter.count_messages_tokens ms)) (available_input_tokens w))) [
          | inl e ↦ subst (Paired []) (sym (sliding_window_under ms w counter e)) h
          | inr e ↦
              subst (Paired []) (sym (sliding_window_over ms w counter e))
                (evict_turns_from_front-Paired ms counter (available_input_tokens w) 1 h)
        ]
