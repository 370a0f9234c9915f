-- ===== src/StreamText/Simple.antt =====
-- The path of stream_text that calls the model once.
use ai_sdk_cpp.Prelude.{◌≡◌, refl, sym, ap, ◌∙◌, true, List, [], ◌∷◌, Option, none, some}
use ai_sdk_cpp.Prompt.{Json}
use ai_sdk_cpp.Tools.{Attempt, ok}
use ai_sdk_cpp.Generate.{ToolCallContent, GenerateTextResult}
use ai_sdk_cpp.StreamText.{
  StreamPart, ModelStream, Accumulated, nothing_yet, accumulate, consume, find_pending, end_call,
  StreamTextOptions,
}
use ai_sdk_cpp.StreamText.Loop.{
  build_stream_prompt, build_stream_call_options, Wrapped, wrap_part, wrap_parts, wrapped_result,
  wrap_with_full_result, is_simple, stream_text,
}

-- What the two paths both keep of a stream.
abbrev kept : Accumulated → Wrapped
kept a = record {
  text = a.text;
  usage = a.usage;
  finish_reason = a.finish_reason;
  warnings = a.warnings;
}

-- The text, the usage, the reason and the warnings, and no tool call and no step.
abbrev pub simple_result : {J : Json} → Accumulated → GenerateTextResult J
simple_result a = record {
  text = a.text;
  tool_calls = [];
  finish_reason = a.finish_reason;
  usage = a.usage;
  steps = [];
  response_messages = [];
  warnings = a.warnings;
}

kept-end_call : (f : Option ToolCallContent) (a : Accumulated) → kept (end_call f a) ≡ kept a
kept-end_call none a = refl
kept-end_call (some c) a = refl

module _ (J : Json) where
  kept-accumulate :
      (a : Accumulated) (part : StreamPart J) → kept (accumulate a part) ≡ wrap_part (kept a) part
  unfolding accumulate wrap_part
  kept-accumulate a (StreamPart.tool_input_end id) = kept-end_call (find_pending id a.pending) a
  kept-accumulate a _ = refl

  kept-consume :
      (a : Accumulated) (parts : List (StreamPart J))
      → kept (consume a parts) ≡ wrap_parts (kept a) parts
  unfolding consume wrap_parts
  kept-consume a [] = refl
  kept-consume a (part ∷ parts) =
      kept-consume (accumulate a part) parts ∙ ap (λ v. wrap_parts v parts) (kept-accumulate a part)

module _ {J : Json} {W S : Type 0} (o : StreamTextOptions J W S) where
  -- The call of the model, the only one.
  abbrev pub only_call : W → Attempt (ModelStream J) × W
  only_call w = o.do_stream (build_stream_call_options o (build_stream_prompt o)) w

  wrap_ended :
      (s : ModelStream J) (w : W)
      → s.failure ≡ none
      → wrap_with_full_result o (ok s, w)
        ≡ (ok (simple_result (consume nothing_yet s.parts)), s.parts, w)
  unfolding wrap_with_full_result wrapped_result
  wrap_ended s w h =
      rw h
        (ap (λ v. (ok (wrapped_result v), s.parts, w)) (sym (kept-consume J nothing_yet s.parts)))

  -- With one step or without tools, and a stream that ends, stream_text ends behind one call of the
  -- model: the consumer sees exactly its parts, and the result has the text, the usage, the reason
  -- and the warnings that they come to. It has no tool call and no step, and neither a tool nor
  -- on_step_finish runs, whatever calls the stream holds.
  pub stream_text_simple :
      (s : ModelStream J) (w w' : W)
      → is_simple o ≡ true
      → only_call w ≡ (ok s, w')
      → s.failure ≡ none
      → stream_text o w ≡ (ok (simple_result (consume nothing_yet s.parts)), s.parts, w')
  unfolding stream_text
  stream_text_simple s w w' simple answered ended =
      rw simple (ap (wrap_with_full_result o) answered ∙ wrap_ended s w' ended)
