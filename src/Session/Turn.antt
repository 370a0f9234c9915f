-- ===== src/Session/Turn.antt =====
-- The messages of a turn, and the history that `send` leaves.
use ai_sdk_cpp.Prelude.{
  ◌≡◌, refl, sym, ap, subst, ◌∙◌, ◌⊎◌, inl, inr, Bool, true, false, not, ◌&&◌, List, [], ◌∷◌, ◌++◌,
  map, Option, none, some, Bytes, Bool-cases, All, is_empty, if_either,
}
use ai_sdk_cpp.Prompt.{Json, Message, AssistantMessage, Prompt}
use ai_sdk_cpp.Tools.{Attempt, ok, threw, Task, ToolCallResult}
use ai_sdk_cpp.Context.{call_ids}
use ai_sdk_cpp.Context.Pairing.{Paired, Belongs}
use ai_sdk_cpp.Generate.{
  Content, StepResult, GenerateTextResult, is_tool_calls, calls_of, result_part,
}
use ai_sdk_cpp.Generate.Execute.{call_key, result_key}
use ai_sdk_cpp.Generate.Steps.{Answered, generate_text-Consistent}
use ai_sdk_cpp.Generate.Pairing.{answered-Belongs}
use ai_sdk_cpp.Agent.{ToolLoopAgentOptions, agent_options, call_messages, tool_loop_agent}
use ai_sdk_cpp.Session.{
  Session, add_user, send, answered_turn, managed_turn, turn_parts, assistant_of, tool_of,
  step_messages, steps_messages, ends_with_assistant_text, extract_turn_messages,
}

module _ {J : Json} where
  -- Messages that can stand behind any conversation.
  pub record IsTurn (ms : Prompt J) : Type 0 where
    pub paired : (ids : List Bytes) → Paired ids ms

  nil-IsTurn : IsTurn []
  nil-IsTurn = record { paired = λ ids. tt }

  pub Paired-append :
      (ids : List Bytes) (ms rest : Prompt J)
      → Paired ids ms
      → IsTurn rest
      → Paired ids (ms ++ rest)
  Paired-append ids [] rest h t = t.paired ids
  Paired-append ids (Message.system m ∷ ms) rest h t = Paired-append [] ms rest h t
  Paired-append ids (Message.user m ∷ ms) rest h t = Paired-append [] ms rest h t
  Paired-append ids (Message.assistant a ∷ ms) rest h t =
      Paired-append (call_ids a.content) ms rest h t
  Paired-append ids (Message.tool u ∷ ms) rest h t = (h.0, Paired-append ids ms rest h.1 t)

  append-IsTurn : (ms rest : Prompt J) → IsTurn ms → IsTurn rest → IsTurn (ms ++ rest)
  append-IsTurn ms rest h t = record { paired = λ ids. Paired-append ids ms rest (h.paired ids) t }

  call_ids-turn_parts :
      (cs : List (Content J)) → call_ids (turn_parts cs) ≡ map (λ c. c.tool_call_id) (calls_of cs)
  unfolding turn_parts
  call_ids-turn_parts [] = refl
  call_ids-turn_parts (Content.text [] ∷ cs) = call_ids-turn_parts cs
  call_ids-turn_parts (Content.text (b ∷ t) ∷ cs) = call_ids-turn_parts cs
  call_ids-turn_parts (Content.reasoning r ∷ cs) = call_ids-turn_parts cs
  call_ids-turn_parts (Content.tool_call c ∷ cs) = ap (◌∷◌ c.tool_call_id) (call_ids-turn_parts cs)
  call_ids-turn_parts (Content.file d m f ∷ cs) = call_ids-turn_parts cs

  -- Where there is a call, the assistant message is not left out.
  assistant_of-turn_parts :
      (cs : List (Content J))
      → is_empty (calls_of cs) ≡ false
      → assistant_of (turn_parts cs)
        ≡ Message.assistant (record { content = turn_parts cs; provider_options = J.empty_object })
          ∷ []
  unfolding assistant_of turn_parts
  assistant_of-turn_parts [] h = absurd (cc)
  assistant_of-turn_parts (Content.text [] ∷ cs) h = assistant_of-turn_parts cs h
  assistant_of-turn_parts (Content.text (b ∷ t) ∷ cs) h = refl
  assistant_of-turn_parts (Content.reasoning r ∷ cs) h = refl
  assistant_of-turn_parts (Content.tool_call c ∷ cs) h = refl
  assistant_of-turn_parts (Content.file d m f ∷ cs) h = assistant_of-turn_parts cs h

  step_messages_idle :
      (s : StepResult J) → is_empty (calls_of s.result.content) ≡ true → step_messages s ≡ []
  unfolding step_messages
  step_messages_idle s h = rw h refl

  step_messages_calls :
      (s : StepResult J)
      → is_empty (calls_of s.result.content) ≡ false
      → step_messages s
        ≡ Message.assistant
            (record { content = turn_parts s.result.content; provider_options = J.empty_object })
          ∷ tool_of s.tool_results
  unfolding step_messages
  step_messages_calls s h = rw (h, assistant_of-turn_parts s.result.content h) refl

  tool_of-Paired :
      (cs : List (Content J)) (rs : List (ToolCallResult J))
      → is_empty (calls_of cs) ≡ false
      → (map result_key rs ≡ map call_key (calls_of cs)) ⊎ (rs ≡ [])
      → Paired (call_ids (turn_parts cs)) (tool_of rs)
  unfolding tool_of
  tool_of-Paired cs [] h a = tt
  tool_of-Paired cs (r ∷ rs) h (inl e) = (
    subst
        (λ ids.
          Belongs ids
            (record { content = map result_part (r ∷ rs); provider_options = J.empty_object }))
        (sym (call_ids-turn_parts cs))
        (answered-Belongs (calls_of cs) (r ∷ rs)
          (record { content = map result_part (r ∷ rs); provider_options = J.empty_object }) h e
          refl),
    tt,
  )
  tool_of-Paired cs (r ∷ rs) h (inr e) = absurd (cc e)

  keys_of :
      (s : StepResult J)
      → Answered s
      → (map result_key s.tool_results ≡ map call_key (calls_of s.result.content))
        ⊎ (s.tool_results ≡ [])
  keys_of s (inl h) = inl h.2
  keys_of s (inr h) = inr h.1

  step_messages-IsTurn : (s : StepResult J) → Answered s → IsTurn (step_messages s)
  step_messages-IsTurn s a = elim (Bool-cases (is_empty (calls_of s.result.content))) [
    | inl idle ↦ subst IsTurn (sym (step_messages_idle s idle)) nil-IsTurn
    | inr calls ↦ subst IsTurn (sym (step_messages_calls s calls)) (record {
      paired = λ ids. tool_of-Paired s.result.content s.tool_results calls (keys_of s a);
    })
  ]

  steps_messages-IsTurn : (ss : List (StepResult J)) → All Answered ss → IsTurn (steps_messages ss)
  unfolding steps_messages
  steps_messages-IsTurn [] h = nil-IsTurn
  steps_messages-IsTurn (s ∷ ss) h =
      append-IsTurn (step_messages s) (steps_messages ss) (step_messages-IsTurn s h.0)
        (steps_messages-IsTurn ss h.1)

  pub extract_turn_messages-IsTurn :
      (r : GenerateTextResult J) → All Answered r.steps → IsTurn (extract_turn_messages r)
  unfolding extract_turn_messages
  extract_turn_messages-IsTurn r h =
      let steps = steps_messages-IsTurn r.steps h in
      if_either IsTurn
        (not (ends_with_assistant_text (steps_messages r.steps)) && not (is_empty r.text))
        (append-IsTurn _ _ steps (record { paired = λ ids. tt })) steps

  -- A step that was cut off before its tools ran, because the model stopped for another reason, leaves
  -- its calls in the history without a result.
  pub step_messages_unanswered :
      (s : StepResult J)
      → Answered s
      → is_tool_calls s.result.finish_reason ≡ false
      → is_empty (calls_of s.result.content) ≡ false
      → (a : AssistantMessage J) × (step_messages s ≡ Message.assistant a ∷ [])
        × (call_ids a.content ≡ map (λ c. c.tool_call_id) (calls_of s.result.content))
  unfolding tool_of is_tool_calls
  step_messages_unanswered s (inl h) other calls = absurd (cc (ap is_tool_calls h.0, other))
  step_messages_unanswered s (inr (why, none_ran)) other calls =
      let m : AssistantMessage J = record {
        content = turn_parts s.result.content;
        provider_options = J.empty_object;
      } in
      (
        m,
        step_messages_calls s calls ∙ ap (λ rs. Message.assistant m ∷ tool_of rs) none_ran,
        call_ids-turn_parts s.result.content,
      )

module _ {J : Json} {W S : Type 0} (a : ToolLoopAgentOptions J W S) (is_cancelled : W → Bool) where
  agent-answers :
      (ms : Prompt J) (w w' : W) {r : GenerateTextResult J}
      → call_messages a is_cancelled ms w ≡ (ok r, w')
      → All Answered r.steps
  unfolding call_messages
  agent-answers ms w w' e =
      let (k, bound, c) =
        generate_text-Consistent (agent_options a is_cancelled none (some ms)) w w' e in
      c.answered

  module _ (manage : Prompt J → Task W (Prompt J))
      (hook : Option (Session J → Task W (Unit {0}))) where
    answered_turn-Paired :
        (asked : Session J) (m : Prompt J) (w : W)
        → Paired [] asked.history
        → Paired [] m
        → (x : Attempt (GenerateTextResult J) × W) → call_messages a is_cancelled m w ≡ x
        → Paired [] (answered_turn hook asked m x).1.history
    unfolding answered_turn
    answered_turn-Paired asked m w h k (threw e, w2) g = h
    answered_turn-Paired asked m w h k (ok r, w2) g =
        Paired-append [] m (extract_turn_messages r) k
          (extract_turn_messages-IsTurn r (agent-answers m w w2 g))

    managed_turn-Paired :
        ((ms m : Prompt J) (w1 w2 : W) → Paired [] ms → manage ms w1 ≡ (ok m, w2) → Paired [] m)
        → (asked : Session J) (w : W) → Paired [] asked.history
        → (x : Attempt (Prompt J) × W) → manage asked.history w ≡ x
        → Paired [] (managed_turn (tool_loop_agent a is_cancelled) hook asked x).1.history
    unfolding managed_turn tool_loop_agent
    managed_turn-Paired keeps asked w h (threw e, w1) f = h
    managed_turn-Paired keeps asked w h (ok m, w1) f =
        answered_turn-Paired asked m w1 h (keeps asked.history m w w1 h f)
          (call_messages a is_cancelled m w1) refl

    add_user-Paired :
        (s : Session J) (text : Bytes) → Paired [] s.history → Paired [] (add_user s text).history
    unfolding add_user
    add_user-Paired s text h = Paired-append [] s.history _ h (record { paired = λ ids. tt })

    -- With a context strategy that keeps a paired history paired, sending a message to a tool loop agent
    -- does too, when it returns, and when the strategy or the model throws: each tool message has a
    -- result, and each of its results is for a call of the assistant message that it stands behind,
    -- whatever was compacted and whatever the model answers.
    pub send-Paired :
        ((ms m : Prompt J) (w1 w2 : W) → Paired [] ms → manage ms w1 ≡ (ok m, w2) → Paired [] m)
        → (s : Session J) (text : Bytes) (w : W) → Paired [] s.history
        → Paired [] (send manage (tool_loop_agent a is_cancelled) hook s text w).1.history
    unfolding send
    send-Paired keeps s text w h =
        managed_turn-Paired keeps (add_user s text) w (add_user-Paired s text h)
          (manage (add_user s text).history w) refl
