-- ===== src/Anthropic/Structured.antt =====
-- Structured output: the input of the forced tool, as the text of an answer and of a stream.
mod Tests
use ai_sdk_cpp.Prelude.{
  ℕ, ◌≡◌, refl, sym, ap, subst, ◌∙◌, Bool, true, false, List, [], ◌∷◌, ◌++◌, map, append-nil,
  append_assoc, All, Option, none, some, Bytes, is_empty, ℤ, if◌then◌else◌,
}
use ai_sdk_cpp.Prompt.{Json}
use ai_sdk_cpp.JsonView.{JsonView}
use ai_sdk_cpp.Sse.{SseEvent}
use ai_sdk_cpp.Generate.{FinishReason, Content, GenerateResult, text_of, calls_of}
use ai_sdk_cpp.StreamText.{StreamPart, ModelStream}
use ai_sdk_cpp.StreamText.Blocks.{joined, text_deltas}
use ai_sdk_cpp.GenerateObject.{FinalState}
use ai_sdk_cpp.GenerateObject.Stream.{deltas, finished, IsNoError}
use ai_sdk_cpp.Anthropic.{finish_reason_of}
use ai_sdk_cpp.Anthropic.Events.{Event}
use ai_sdk_cpp.Anthropic.Stream.{
  StreamState, initial_state, zero_id, set_reason, on_events, generator,
}
use ai_sdk_cpp.Anthropic.Payloads.{Speaks}
use ai_sdk_cpp.Anthropic.Response.{first_input, surfaced, parse_response, read_response}
use ai_sdk_cpp.Anthropic.Told.{Message, tool_told, message_events}
use ai_sdk_cpp.Anthropic.Says.{MessageSays, told_answer, parse_response-MessageSays}
use ai_sdk_cpp.Anthropic.Agree.{generator-Speaks, set_reason-some}

module _ (J : Json) where
  -- The deltas of the input are deltas of the text.
  on_events-json_text :
      (s : StreamState) (ds : List Bytes) (rest : List Event)
      → on_events J true s (map Event.json_delta ds ++ rest)
        ≡ text_deltas zero_id ds ++ on_events J true s rest
  unfolding on_events
  on_events-json_text s [] rest = refl
  on_events-json_text s (d ∷ ds) rest =
      ap (◌∷◌ (StreamPart.text_delta zero_id d)) (on_events-json_text s ds rest)

  deltas-text_deltas :
      (ds : List Bytes) (rest : List (StreamPart J))
      → deltas (text_deltas zero_id ds ++ rest) ≡ joined ds ++ deltas rest
  unfolding deltas
  deltas-text_deltas [] rest = refl
  deltas-text_deltas (d ∷ ds) rest =
      ap (◌++◌ d) (deltas-text_deltas ds rest) ∙ sym (append_assoc d (joined ds) (deltas rest))

  finished-text_deltas :
      (f : FinalState J) (ds : List Bytes) (rest : List (StreamPart J))
      → finished f (text_deltas zero_id ds ++ rest) ≡ finished f rest
  unfolding finished
  finished-text_deltas f [] rest = refl
  finished-text_deltas f (d ∷ ds) rest = finished-text_deltas f ds rest

  text_deltas-All :
      (ds : List Bytes) (rest : List (StreamPart J))
      → All IsNoError rest
      → All IsNoError (text_deltas zero_id ds ++ rest)
  text_deltas-All [] rest h = h
  text_deltas-All (d ∷ ds) rest h = (tt, text_deltas-All ds rest h)

  -- A message with a call of the forced tool alone.
  abbrev pub forced :
      ℕ → Option Bytes → Option Bytes → Bytes → Bytes → List Bytes → Bytes → ℕ → Message
  forced input id model call name ds reason output = record {
    input = input;
    id = id;
    model = model;
    blocks = tool_told call name ds ∷ [];
    reason = reason;
    output = output;
  }

  -- The parts of its stream.
  abbrev forced_parts :
      ℕ → Option Bytes → Option Bytes → List Bytes → Bytes → ℕ → List (StreamPart J)
  forced_parts input id model ds reason output =
      StreamPart.response_metadata id model none
      ∷ StreamPart.stream_start []
      ∷ StreamPart.text_start zero_id
      ∷ (text_deltas zero_id ds
          ++ (StreamPart.text_end zero_id
              ∷ StreamPart.finish (set_reason (some reason) FinishReason.stop)
                  (record { input_total = some input; output_total = some output }) none
              ∷ []))

  on_events-forced :
      (input : ℕ) (id model : Option Bytes) (call name : Bytes) (ds : List Bytes) (reason : Bytes)
      (output : ℕ)
      → on_events J true initial_state
          (message_events (forced input id model call name ds reason output))
        ≡ forced_parts input id model ds reason output
  unfolding on_events
  on_events-forced input id model call name ds reason output =
      ap
        (λ parts.
          StreamPart.response_metadata id model none
          ∷ StreamPart.stream_start []
          ∷ StreamPart.text_start zero_id
          ∷ parts)
        (on_events-json_text _ ds (
          Event.block_stop
          ∷ Event.message_delta (some reason) (some output)
          ∷ Event.message_stop
          ∷ []))

  -- What a result comes to that hands the input of its first call on.
  abbrev Surfaced : GenerateResult J → Bytes → Type 0
  Surfaced r text = (text_of r.content ≡ text) × (r.finish_reason ≡ FinishReason.stop)

  surfaced-Surfaced :
      (r : GenerateResult J) (text : Bytes)
      → is_empty text ≡ false
      → first_input (calls_of r.content) ≡ text
      → Surfaced (surfaced r) text
  unfolding surfaced text_of
  surfaced-Surfaced r [] ne e = absurd (cc ne)
  surfaced-Surfaced r (c ∷ cs) ne e =
      subst
        (λ t.
          Surfaced
            (if is_empty t
              then r
              else record r { content = Content.text t ∷ []; finish_reason = FinishReason.stop })
            (c ∷ cs))
        (sym e) (append-nil (c ∷ cs), refl)

module _ {J : Json} (V : JsonView J) (to_int : ℤ → ℕ) (bad_json : Bytes) where
  read_response-MessageSays :
      (unset : FinishReason) (m : Message) (body : Bytes) (v : J.Value)
      → J.safe_parse body ≡ some v
      → MessageSays V to_int m v
      → read_response V to_int unset true body ≡ some (surfaced (told_answer V to_int m))
  unfolding read_response
  read_response-MessageSays unset m body v parsed told =
      ap
        (λ (o : Option J.Value). elim o as (λ o. Option (GenerateResult J)) [
          | none ↦ none
          | some v ↦ elim (parse_response V to_int unset v) as (λ o. Option (GenerateResult J)) [
            | none ↦ none
            | some r ↦ some (surfaced r)
          ]
        ])
        parsed
      ∙ ap
          (λ (o : Option (GenerateResult J)). elim o as (λ o. Option (GenerateResult J)) [
            | none ↦ none
            | some r ↦ some (surfaced r)
          ])
          (parse_response-MessageSays V to_int unset m v told)

  -- With structured output, let events say, and a body be JSON that says, a message that is a call of
  -- the forced tool alone, with a reason and an input that are not empty. Then the stream has no error,
  -- the body is read, and the text of both is the input, its deltas joined. But the result of the body
  -- says that it stopped, and the stream gives the reason of the message.
  pub structured-text :
      (input : ℕ) (id model : Option Bytes) (call name : Bytes) (ds : List Bytes) (reason : Bytes)
      (output : ℕ) (events : List SseEvent) (start : FinalState J) (unset : FinishReason)
      (body : Bytes) (v : J.Value)
      → ¬ (reason ≡ [])
      → is_empty (joined ds) ≡ false
      → Speaks V to_int events (message_events (forced J input id model call name ds reason output))
      → J.safe_parse body ≡ some v
      → MessageSays V to_int (forced J input id model call name ds reason output) v
      → let s = generator V to_int bad_json true initial_state events none in
        (r : GenerateResult J) × (read_response V to_int unset true body ≡ some r)
        × (s.failure ≡ none)
        × All IsNoError s.parts
        × (deltas s.parts ≡ joined ds)
        × (text_of r.content ≡ joined ds)
        × (r.finish_reason ≡ FinishReason.stop)
        × ((finished start s.parts).finish_reason ≡ finish_reason_of reason)
  unfolding deltas finished
  structured-text input id model call name ds reason output events start unset body v ne filled
        reads parsed told =
      let m = forced J input id model call name ds reason output in
      let same = generator-Speaks V to_int bad_json true initial_state reads in
      let parts =
        ap (λ (s : ModelStream J). s.parts) same
        ∙ on_events-forced J input id model call name ds reason output in
      let (text, stopped) = surfaced-Surfaced J (told_answer V to_int m) (joined ds) filled refl in
      (
        surfaced (told_answer V to_int m),
        read_response-MessageSays unset m body v parsed told,
        ap (λ (s : ModelStream J). s.failure) same,
        subst (All IsNoError) (sym parts) (tt, (tt, (tt, text_deltas-All J ds _ (tt, (tt, tt))))),
        ap deltas parts ∙ (deltas-text_deltas J ds _ ∙ append-nil (joined ds)),
        text,
        stopped,
        ap (λ ps. (finished start ps).finish_reason) parts
            ∙ (ap (λ (f : FinalState J). f.finish_reason) (finished-text_deltas J start ds _)
                ∙ set_reason-some reason FinishReason.stop ne),
      )
