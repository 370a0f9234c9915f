-- ===== src/Generate/Pairing.antt =====
-- The messages that `generate_text` returns: each tool result stands behind its call.
use ai_sdk_cpp.Prelude.{
  ℕ, ◌≡◌, refl, sym, ap, subst, inl, inr, true, false, List, [], ◌∷◌, ◌++◌, map, Bytes, Bool-cases,
  is_empty, arith, str_eq_refl, append_assoc, mem_str, All,
}
use ai_sdk_cpp.Prompt.{Json, Message, AssistantMessage, ToolMessage, ToolResultPart, Prompt}
use ai_sdk_cpp.Tools.{ok, ToolCallResult}
use ai_sdk_cpp.Context.{call_ids}
use ai_sdk_cpp.Context.Pairing.{Paired, Belongs}
use ai_sdk_cpp.Generate.{
  Content, ToolCallContent, GenerateResult, GenerateTextOptions, GenerateTextResult, Progress,
  calls_of, runs_tools, build_prompt, execute_tools, assistant_parts, append_assistant_message,
  result_part, finish_step, summarize, generate_text,
}
use ai_sdk_cpp.Generate.Execute.{call_key, result_key, execute_tools-keys}
use ai_sdk_cpp.Generate.Steps.{generate_text_inv}

module _ {J : Json} where
  -- The ids that an answer's message introduces are those of its calls.
  call_ids-assistant_parts :
      (cs : List (Content J))
      → call_ids (assistant_parts cs) ≡ map (λ c. c.tool_call_id) (calls_of cs)
  unfolding assistant_parts
  call_ids-assistant_parts [] = refl
  call_ids-assistant_parts (Content.text t ∷ cs) = call_ids-assistant_parts cs
  call_ids-assistant_parts (Content.reasoning r ∷ cs) = call_ids-assistant_parts cs
  call_ids-assistant_parts (Content.tool_call c ∷ cs) =
      ap (◌∷◌ c.tool_call_id) (call_ids-assistant_parts cs)
  call_ids-assistant_parts (Content.file d m f ∷ cs) = call_ids-assistant_parts cs

  -- A tool message behind the message with its calls ends a paired conversation in order.
  Paired-append_turn :
      (ids : List Bytes) (ms : Prompt J) (a : AssistantMessage J) (t : ToolMessage J)
      → Paired ids ms
      → Belongs (call_ids a.content) t
      → Paired ids (ms ++ Message.assistant a ∷ Message.tool t ∷ [])
  Paired-append_turn ids [] a t h b = (b, tt)
  Paired-append_turn ids (Message.system m ∷ ms) a t h b = Paired-append_turn [] ms a t h b
  Paired-append_turn ids (Message.user m ∷ ms) a t h b = Paired-append_turn [] ms a t h b
  Paired-append_turn ids (Message.assistant c ∷ ms) a t h b =
      Paired-append_turn (call_ids c.content) ms a t h b
  Paired-append_turn ids (Message.tool u ∷ ms) a t h b = (h.0, Paired-append_turn ids ms a t h.1 b)

  mem_later :
      (i : Bytes) (ids : List Bytes) (rs : List (ToolResultPart J))
      → All (λ r. mem_str r.tool_call_id ids ≡ true) rs
      → All (λ r. mem_str r.tool_call_id (i ∷ ids) ≡ true) rs
  unfolding mem_str
  mem_later i ids [] h = tt
  mem_later i ids (r ∷ rs) h = (ground (arith, h.0), mem_later i ids rs h.1)

  -- The results with the calls' ids are all for one of the calls.
  answered_all :
      (tcs : List ToolCallContent) (rs : List (ToolCallResult J))
      → map result_key rs ≡ map call_key tcs
      → All
          (λ r. mem_str r.tool_call_id (map (λ c. c.tool_call_id) tcs) ≡ true)
          (map result_part rs)
  unfolding mem_str
  answered_all [] [] e = tt
  answered_all [] (r ∷ rs) e = absurd (cc e)
  answered_all (tc ∷ tcs) [] e = tt
  answered_all (tc ∷ tcs) (r ∷ rs) e =
      let same : r.tool_call_id ≡ tc.tool_call_id = cc e in
      (
        ground (arith, same, str_eq_refl tc.tool_call_id),
        mem_later tc.tool_call_id _ (map result_part rs) (answered_all tcs rs (cc e)),
      )

  some_result :
      (tcs : List ToolCallContent) (rs : List (ToolCallResult J))
      → is_empty tcs ≡ false
      → map result_key rs ≡ map call_key tcs
      → is_empty (map result_part rs) ≡ false
  some_result [] rs some_call e = absurd (cc)
  some_result (tc ∷ tcs) [] some_call e = absurd (cc e)
  some_result (tc ∷ tcs) (r ∷ rs) some_call e = refl

  -- The results of some calls belong behind the message with the calls.
  pub answered-Belongs :
      (tcs : List ToolCallContent) (rs : List (ToolCallResult J)) (t : ToolMessage J)
      → is_empty tcs ≡ false
      → map result_key rs ≡ map call_key tcs
      → t.content ≡ map result_part rs
      → Belongs (map (λ c. c.tool_call_id) tcs) t
  answered-Belongs tcs rs t some_call e same =
      rw same (some_result tcs rs some_call e, answered_all tcs rs e)

module _ {J : Json} {W S : Type 0} (o : GenerateTextOptions J W S) where
  finish_step_idle :
      (k : ℕ) (p : Progress J) (r : GenerateResult J) (w : W)
      → runs_tools o r ≡ false
      → (finish_step o k p r w).0.prompt ≡ p.prompt
  unfolding finish_step
  finish_step_idle k p r w idle = rw idle refl

  -- The turn that a step with tools puts behind the conversation.
  turn_message : Progress J → GenerateResult J → W → ToolMessage J
  turn_message p r w = record {
    content =
        map result_part
          (execute_tools (calls_of r.content) o.tools (append_assistant_message p.prompt r)
            o.repair_tool_call w).0;
    provider_options = J.empty_object;
  }

  runs_tools-calls :
      (r : GenerateResult J) → runs_tools o r ≡ true → is_empty (calls_of r.content) ≡ false
  runs_tools-calls r runs = ground (arith, runs)

  turn_message-Belongs :
      (p : Progress J) (r : GenerateResult J) (w : W)
      → runs_tools o r ≡ true
      → Belongs (call_ids (assistant_parts r.content)) (turn_message p r w)
  unfolding turn_message
  turn_message-Belongs p r w runs = rw (call_ids-assistant_parts r.content) (
      answered-Belongs (calls_of r.content) _ (turn_message p r w) (runs_tools-calls r runs)
        (execute_tools-keys (calls_of r.content) o.tools _ o.repair_tool_call w) refl)

  finish_step_runs :
      (k : ℕ) (p : Progress J) (r : GenerateResult J) (w : W)
      → runs_tools o r ≡ true
      → (finish_step o k p r w).0.prompt
        ≡ p.prompt
          ++ Message.assistant
              (record { content = assistant_parts r.content; provider_options = J.empty_object })
            ∷ Message.tool (turn_message p r w)
            ∷ []
  unfolding finish_step turn_message
  finish_step_runs k p r w runs = rw runs (append_assoc p.prompt _ _)

  finish_step-Paired :
      (k : ℕ) (p : Progress J) (r : GenerateResult J) (w : W)
      → Paired [] p.prompt
      → Paired [] (finish_step o k p r w).0.prompt
  finish_step-Paired k p r w h = elim (Bool-cases (runs_tools o r)) [
    | inl runs ↦
        subst (Paired []) (sym (finish_step_runs k p r w runs)) (
          Paired-append_turn [] p.prompt _ (turn_message p r w) h (turn_message-Belongs p r w runs))
    | inr idle ↦ subst (Paired []) (sym (finish_step_idle k p r w idle)) h
  ]

  -- If the conversation the call starts from is paired, so are the messages it returns: each tool
  -- message has a result, and each of its results is for a call of the assistant message that it
  -- stands behind, whatever the model answers.
  pub generate_text-Paired :
      (w w' : W) {r : GenerateTextResult J}
      → Paired [] (build_prompt o)
      → generate_text o w ≡ (ok r, w')
      → Paired [] r.response_messages
  unfolding summarize
  generate_text-Paired w w' h e =
      let (k, p, bound, holds, same) =
        generate_text_inv o (λ k p. Paired [] p.prompt) (λ k p r w h. finish_step-Paired k p r w h)
          h w w' e in
      subst (λ r. Paired [] r.response_messages) same holds
