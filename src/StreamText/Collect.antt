-- ===== src/StreamText/Collect.antt =====
-- Streaming changes nothing: stream_text compared with generate_text over a model that first drains
-- its stream.
use ai_sdk_cpp.Prelude.{
  ℕ, ◌≡◌, refl, sym, ap, ◌∙◌, Bool, true, false, not, List, [], ◌∷◌, ◌++◌, map, none, some, Bytes,
  is_empty, if◌then◌else◌, arith,
}
use ai_sdk_cpp.Prompt.{Json, AssistantPart, Message, Prompt, text_part}
use ai_sdk_cpp.Tools.{Attempt, ok, threw}
use ai_sdk_cpp.Generate.{
  ToolCallContent, ReasoningContent, Content, GenerateResult, StepResult, GenerateTextOptions,
  Progress, calls_of, build_prompt, build_call_options, assistant_parts, append_assistant_message,
  append_tool_results, add_usage, execute_tools, runs_tools, finish_step,
}
use ai_sdk_cpp.StreamText.{
  ModelStream, Accumulated, nothing_yet, consume, reasoning_of, step_content, step_gen_result,
  reasoning_part, call_part, append_streamed_message, StreamTextOptions,
}
use ai_sdk_cpp.StreamText.Loop.{
  build_stream_prompt, build_stream_call_options, runs_streamed_tools, finish_stream_step,
}

-- The model's answer, once its stream is drained.
unfoldable pub collect :
    {J : Json} {W : Type 0} → Attempt (ModelStream J) × W → Attempt (GenerateResult J) × W
collect (threw e, w) = (threw e, w)
collect (ok s, w) = elim s.failure [
  | some e ↦ (threw e, w)
  | none ↦ (ok (step_gen_result (consume nothing_yet s.parts)), w)
]

module _ {J : Json} {W S : Type 0} where
  abbrev pub collected : StreamTextOptions J W S → GenerateTextOptions J W S
  collected o = record {
    do_generate = λ call w. collect (o.do_stream call w);
    tools = o.tools;
    tool_choice = o.tool_choice;
    prompt = o.prompt;
    messages = o.messages;
    system = o.system;
    settings = o.settings;
    max_steps = o.max_steps;
    on_step_finish = o.on_step_finish;
    repair_tool_call = none;
    is_cancelled = o.is_cancelled;
  }

module _ {J : Json} where
  assistant_parts-reasoning :
      (rs : List ReasoningContent) (cs : List (Content J))
      → assistant_parts (map Content.reasoning rs ++ cs)
        ≡ map reasoning_part rs ++ assistant_parts cs
  unfolding assistant_parts
  assistant_parts-reasoning [] cs = refl
  assistant_parts-reasoning (r ∷ rs) cs =
      ap (◌∷◌ (reasoning_part r)) (assistant_parts-reasoning rs cs)

  assistant_parts-calls :
      (tcs : List ToolCallContent)
      → assistant_parts {J = J} (map Content.tool_call tcs) ≡ map call_part tcs
  unfolding assistant_parts
  assistant_parts-calls [] = refl
  assistant_parts-calls (c ∷ tcs) = ap (◌∷◌ (call_part c)) (assistant_parts-calls tcs)

  assistant_parts-text :
      (b : Bool) (t : Bytes) (cs : List (Content J))
      → assistant_parts ((if b then Content.text t ∷ [] else []) ++ cs)
        ≡ (if b then AssistantPart.text (text_part J t) ∷ [] else []) ++ assistant_parts cs
  unfolding assistant_parts
  assistant_parts-text true t cs = refl
  assistant_parts-text false t cs = refl

  calls_of-reasoning :
      (rs : List ReasoningContent) (cs : List (Content J))
      → calls_of (map Content.reasoning rs ++ cs) ≡ calls_of cs
  calls_of-reasoning [] cs = refl
  calls_of-reasoning (r ∷ rs) cs = calls_of-reasoning rs cs

  calls_of-text :
      (b : Bool) (t : Bytes) (cs : List (Content J))
      → calls_of ((if b then Content.text t ∷ [] else []) ++ cs) ≡ calls_of cs
  calls_of-text true t cs = refl
  calls_of-text false t cs = refl

  -- Both sources make the same message of a step.
  append_assistant_message-streamed :
      (prompt : Prompt J) (a : Accumulated)
      → append_assistant_message prompt (step_gen_result a)
        ≡ append_streamed_message prompt a.text a.tool_calls (reasoning_of a)
  unfolding append_assistant_message append_streamed_message step_gen_result step_content
  append_assistant_message-streamed prompt a =
      ap
        (λ ps.
          prompt
          ++ Message.assistant (record { content = ps; provider_options = J.empty_object }) ∷ [])
        (assistant_parts-reasoning (reasoning_of a) _
          ∙ ap (◌++◌ (map reasoning_part (reasoning_of a))) (
              assistant_parts-text (not (is_empty a.text)) a.text _
              ∙ ap
                  (◌++◌ (
                    if not (is_empty a.text)
                    then AssistantPart.text (text_part J a.text) ∷ []
                    else []))
                  (assistant_parts-calls a.tool_calls)))

calls_of-calls :
    (J : Json) (tcs : List ToolCallContent) → calls_of {J = J} (map Content.tool_call tcs) ≡ tcs
calls_of-calls J [] = refl
calls_of-calls J (c ∷ tcs) = ap (◌∷◌ c) (calls_of-calls J tcs)

pub calls_of-step_content :
    (J : Json) (a : Accumulated) → calls_of {J = J} (step_content a) ≡ a.tool_calls
unfolding step_content
calls_of-step_content J a =
    calls_of-reasoning (reasoning_of a) _
    ∙ (calls_of-text (not (is_empty a.text)) a.text _ ∙ calls_of-calls J a.tool_calls)

same_calls :
    (J : Json) (a : Accumulated) → calls_of (step_gen_result {J = J} a).content ≡ a.tool_calls
unfolding step_gen_result
same_calls J a = calls_of-step_content J a

module _ {J : Json} {W S : Type 0} (o : StreamTextOptions J W S) where
  pub build_prompt-streamed : build_prompt (collected o) ≡ build_stream_prompt o
  unfolding build_prompt build_stream_prompt
  build_prompt-streamed = ground arith

  pub build_call_options-streamed :
      (prompt : Prompt J)
      → build_call_options (collected o) prompt ≡ build_stream_call_options o prompt
  unfolding build_call_options build_stream_call_options
  build_call_options-streamed prompt = refl

  -- What both loops do behind an answer, given the calls, the messages with the answer, and whether
  -- the tools run.
  abbrev step_end :
      ℕ
      → Progress J
      → GenerateResult J
      → List ToolCallContent
      → Prompt J
      → Bool
      → W
      → Progress J × W
  step_end step p result calls asked runs w =
      let (executed, w') = execute_tools calls o.tools asked none w in
      let results = if runs then executed else [] in
      let world = if runs then w' else w in
      let step_result : StepResult J = record {
        result = result;
        tool_results = results;
        step_number = step;
      } in
      (
        record {
          prompt = if runs then append_tool_results asked results else p.prompt;
          steps = p.steps ++ step_result ∷ [];
          total_usage = add_usage p.total_usage result.usage;
          all_tool_calls = p.all_tool_calls ++ results;
        },
        elim o.on_step_finish [ none ↦ world | some f ↦ f step_result world ],
      )

  finish_step-step_end :
      (step : ℕ) (p : Progress J) (r : GenerateResult J) (w : W)
      → finish_step (collected o) step p r w
        ≡ step_end step p r
            (calls_of r.content)
            (append_assistant_message p.prompt r)
            (runs_tools (collected o) r)
            w
  unfolding finish_step
  finish_step-step_end step p r w = refl

  finish_stream_step-step_end :
      (step : ℕ) (p : Progress J) (a : Accumulated) (w : W)
      → finish_stream_step o step p a w
        ≡ step_end step p
            (step_gen_result a)
            a.tool_calls
            (append_streamed_message p.prompt a.text a.tool_calls (reasoning_of a))
            (runs_streamed_tools o a)
            w
  unfolding finish_stream_step step_gen_result
  finish_stream_step-step_end step p a w = refl

  runs_tools-streamed :
      (a : Accumulated)
      → is_empty o.tools ≡ false
      → runs_tools (collected o) (step_gen_result a) ≡ runs_streamed_tools o a
  unfolding step_gen_result
  runs_tools-streamed a tools = rw (calls_of-step_content J a, tools) (ground arith)

  -- A step of both loops, if there are tools.
  pub finish_step-streamed :
      (step : ℕ) (p : Progress J) (a : Accumulated) (w : W)
      → is_empty o.tools ≡ false
      → finish_step (collected o) step p (step_gen_result a) w ≡ finish_stream_step o step p a w
  finish_step-streamed step p a w tools =
      finish_step-step_end step p (step_gen_result a) w
      ∙ (ap
            (λ calls.
              step_end step p (step_gen_result a) calls
                (append_assistant_message p.prompt (step_gen_result a))
                (runs_tools (collected o) (step_gen_result a)) w)
            (same_calls J a)
          ∙ (ap
                (λ asked.
                  step_end step p (step_gen_result a) a.tool_calls asked
                    (runs_tools (collected o) (step_gen_result a)) w)
                (append_assistant_message-streamed p.prompt a)
              ∙ (ap
                    (λ runs.
                      step_end step p (step_gen_result a) a.tool_calls
                        (append_streamed_message p.prompt a.text a.tool_calls (reasoning_of a)) runs
                        w)
                    (runs_tools-streamed a tools)
                  ∙ sym (finish_stream_step-step_end step p a w))))
