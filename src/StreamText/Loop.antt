-- ===== src/StreamText/Loop.antt =====
-- src/core/stream_text.cpp: the two paths of stream_text, with one step and with many.
use ai_sdk_cpp.Prelude.{
  ℕ, zero, suc, Bool, not, ◌&&◌, ◌||◌, List, [], ◌∷◌, ◌++◌, map, none, some, Bytes, codes, is_empty,
  leb, if◌then◌else◌,
}
use ai_sdk_cpp.Prompt.{Json, UserPart, Message, Prompt, text_part, system_message}
use ai_sdk_cpp.Tools.{Attempt, ok, threw}
use ai_sdk_cpp.Generate.{
  FinishReason, is_tool_calls, Usage, no_usage, add_usage, Warning, CallOptions, StepResult,
  GenerateTextResult, Progress, function_tool, append_tool_results, execute_tools, last_step,
  text_of,
}
use ai_sdk_cpp.StreamText.{
  StreamPart, ModelStream, Accumulated, nothing_yet, consume, reasoning_of, step_gen_result,
  append_streamed_message, StreamTextOptions,
}

module _ {J : Json} {W S : Type 0} (o : StreamTextOptions J W S) where
  -- `build_prompt` and `build_call_options` of this source.
  unfoldable pub build_stream_prompt : Prompt J
  build_stream_prompt =
      (elim o.system [ none ↦ [] | some s ↦ system_message J s ∷ [] ]) ++ (elim o.messages [
        | some ms ↦ ms
        | none ↦ elim o.prompt [
          | none ↦ []
          | some p ↦
              Message.user (record {
                content = UserPart.text (text_part J p) ∷ [];
                provider_options = J.empty_object;
              })
              ∷ []
        ]
      ])

  unfoldable pub build_stream_call_options : Prompt J → CallOptions J S
  build_stream_call_options prompt = record {
    prompt = prompt;
    settings = o.settings;
    tools = map function_tool o.tools;
    tool_choice = if is_empty o.tools then none else some o.tool_choice;
  }

  -- `finish_reason == ToolCalls && !accumulated_tool_calls.empty() && !options.tools.empty()`.
  abbrev pub runs_streamed_tools : Accumulated → Bool
  runs_streamed_tools a =
      is_tool_calls a.finish_reason && not (is_empty a.tool_calls) && not (is_empty o.tools)

  -- A step behind its stream.
  unfoldable pub finish_stream_step : ℕ → Progress J → Accumulated → W → Progress J × W
  unfolding add_usage append_streamed_message append_tool_results step_gen_result
  finish_stream_step step p a w =
      let asked = append_streamed_message p.prompt a.text a.tool_calls (reasoning_of a) in
      let (executed, w') = execute_tools a.tool_calls o.tools asked none w in
      let results = if runs_streamed_tools a then executed else [] in
      let world = if runs_streamed_tools a then w' else w in
      let step_result : StepResult J = record {
        result = step_gen_result a;
        tool_results = results;
        step_number = step;
      } in
      (
        record {
          prompt = if runs_streamed_tools a then append_tool_results asked results else p.prompt;
          steps = p.steps ++ step_result ∷ [];
          total_usage = add_usage p.total_usage a.usage;
          all_tool_calls = p.all_tool_calls ++ results;
        },
        elim o.on_step_finish [ none ↦ world | some f ↦ f step_result world ],
      )

  abbrev pub continues : Accumulated → Bool
  continues a = is_tool_calls a.finish_reason && not (is_empty o.tools)

  -- What the consumer sees, and what the sink gets.
  abbrev pub Streamed : Type 0 → Type 0
  Streamed A = Attempt A × List (StreamPart J) × W

  abbrev pub after_parts : List (StreamPart J) → Streamed (Progress J) → Streamed (Progress J)
  after_parts parts (attempt, later, w) = (attempt, parts ++ later, w)

  -- Behind the call of the model; the next round is given.
  unfoldable pub stream_step :
      (Progress J → W → Streamed (Progress J))
      → ℕ
      → Progress J
      → Attempt (ModelStream J) × W
      → Streamed (Progress J)
  unfolding finish_stream_step consume
  stream_step next step p (threw e, w) = (threw e, [], w)
  stream_step next step p (ok s, w) = elim s.failure [
    | some e ↦ (threw e, s.parts, w)
    | none ↦
        let a = consume nothing_yet s.parts in
        let (p', w') = finish_stream_step step p a w in
        if continues a then after_parts s.parts (next p' w') else (ok p', s.parts, w')
  ]

  -- The loop; the first argument counts the rounds left, `max_steps - step`.
  unfoldable pub stream_loop : ℕ → ℕ → Progress J → W → Streamed (Progress J)
  unfolding stream_step
  stream_loop zero step p w = (ok p, [], w)
  stream_loop (suc rounds) step p w =
      if o.is_cancelled w
      then (threw (codes "Operation cancelled"), [], w)
      else stream_step (stream_loop rounds (suc step)) step p
          (o.do_stream (build_stream_call_options p.prompt) w)

  abbrev pub stream_start_progress : Progress J
  stream_start_progress = record {
    prompt = build_stream_prompt;
    steps = [];
    total_usage = no_usage;
    all_tool_calls = [];
  }

-- The full result of the loop; the messages are not part of it.
unfoldable pub stream_summary : {J : Json} → Progress J → GenerateTextResult J
unfolding last_step text_of
stream_summary p = record {
  text = elim (last_step p.steps) [ none ↦ [] | some s ↦ text_of s.result.content ];
  tool_calls = p.all_tool_calls;
  finish_reason = elim (last_step p.steps) [
    | none ↦ FinishReason.stop
    | some s ↦ s.result.finish_reason
  ];
  usage = p.total_usage;
  steps = p.steps;
  response_messages = [];
  warnings = elim (last_step p.steps) [ none ↦ [] | some s ↦ s.result.warnings ];
}

-- The variables of `wrap_with_full_result`, and what one part does to them.
pub record Wrapped : Type 0 where
  pub text : Bytes
  pub usage : Usage
  pub finish_reason : FinishReason
  pub warnings : List Warning

abbrev pub nothing_wrapped : Wrapped
nothing_wrapped = record {
  text = [];
  usage = no_usage;
  finish_reason = FinishReason.stop;
  warnings = [];
}

module _ {J : Json} where
  unfoldable pub wrap_part : Wrapped → StreamPart J → Wrapped
  wrap_part v (StreamPart.text_delta id delta) = record v { text = v.text ++ delta }
  wrap_part v (StreamPart.finish reason usage metadata) = record v {
    usage = usage;
    finish_reason = reason;
  }
  wrap_part v (StreamPart.stream_start warnings) = record v { warnings = warnings }
  wrap_part v _ = v

  unfoldable pub wrap_parts : Wrapped → List (StreamPart J) → Wrapped
  unfolding wrap_part
  wrap_parts v [] = v
  wrap_parts v (part ∷ parts) = wrap_parts (wrap_part v part) parts

  unfoldable pub wrapped_result : Wrapped → GenerateTextResult J
  wrapped_result v = record {
    text = v.text;
    tool_calls = [];
    finish_reason = v.finish_reason;
    usage = v.usage;
    steps = [];
    response_messages = [];
    warnings = v.warnings;
  }

module _ {J : Json} {W S : Type 0} (o : StreamTextOptions J W S) where
  -- The path with one call of the model: the stream as it comes.
  unfoldable pub wrap_with_full_result :
      Attempt (ModelStream J) × W → Streamed o (GenerateTextResult J)
  unfolding wrap_parts wrapped_result
  wrap_with_full_result (threw e, w) = (threw e, [], w)
  wrap_with_full_result (ok s, w) = elim s.failure [
    | some e ↦ (threw e, s.parts, w)
    | none ↦ (ok (wrapped_result (wrap_parts nothing_wrapped s.parts)), s.parts, w)
  ]

  abbrev pub full_result : Streamed o (Progress J) → Streamed o (GenerateTextResult J)
  full_result (threw e, parts, w) = (threw e, parts, w)
  full_result (ok p, parts, w) = (ok (stream_summary p), parts, w)

  -- `options.max_steps <= 1 || options.tools.empty()`.
  abbrev pub is_simple : Bool
  is_simple = leb o.max_steps 1 || is_empty o.tools

  -- The call, with the stream drained to its end.
  unfoldable pub stream_text : W → Streamed o (GenerateTextResult J)
  unfolding stream_loop stream_summary wrap_with_full_result
  stream_text w =
      if is_simple
      then wrap_with_full_result
          (o.do_stream (build_stream_call_options o (build_stream_prompt o)) w)
      else full_result (stream_loop o o.max_steps 0 (stream_start_progress o) w)
