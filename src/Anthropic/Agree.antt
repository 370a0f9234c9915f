-- ===== src/Anthropic/Agree.antt =====
-- A message that is streamed and one that comes at once come to the same.
use ai_sdk_cpp.Prelude.{
  ℕ, ◌≡◌, refl, ap, ◌∙◌, Bool, false, List, [], ◌∷◌, ◌++◌, map, All, Option, none, some, Bytes, ℤ,
}
use ai_sdk_cpp.Prompt.{Json}
use ai_sdk_cpp.JsonView.{JsonView}
use ai_sdk_cpp.Sse.{SseEvent}
use ai_sdk_cpp.Sse.Chunks.{concat}
use ai_sdk_cpp.Sse.Render.{Outgoing, IsSendable, render_all, to_event, parse-render_all}
use ai_sdk_cpp.Generate.{FinishReason, Usage, GenerateResult, text_of, calls_of}
use ai_sdk_cpp.StreamText.{StreamPart, ModelStream, Accumulated, nothing_yet, consume}
use ai_sdk_cpp.Anthropic.{finish_reason_of}
use ai_sdk_cpp.Anthropic.Events.{Event, read_event}
use ai_sdk_cpp.Anthropic.Payloads.{
  Speaks, no_more, says, silent, read_event-PayloadSays, read_event-Silent,
}
use ai_sdk_cpp.Anthropic.Stream.{
  StreamState, initial_state, set_reason, on_event, on_events, before, generator, do_stream,
}
use ai_sdk_cpp.Anthropic.Response.{parse_response}
use ai_sdk_cpp.Anthropic.Told.{Message, message_events, between, on_events-blocks}
use ai_sdk_cpp.Anthropic.Onto.{all_onto, consume-all, all_onto-Comes}
use ai_sdk_cpp.Anthropic.Says.{MessageSays, told_answer, parse_response-MessageSays}

pub set_reason-some :
    (text : Bytes) (reason : FinishReason)
    → ¬ (text ≡ [])
    → set_reason (some text) reason ≡ finish_reason_of text
set_reason-some [] reason h = absurd (h refl)
set_reason-some (c ∷ cs) reason h = refl

module _ {J : Json} (V : JsonView J) (to_int : ℤ → ℕ) where
  skip_event :
      (J : Json) (structured : Bool) (s : StreamState)
      → on_event J structured s Event.skipped ≡ ([], s)
  unfolding on_event
  skip_event J structured s = refl

  step_generator :
      (bad_json : Bytes) (structured : Bool) (s : StreamState) (x : SseEvent) (xs : List SseEvent)
      (e : Event)
      → read_event V to_int x.payload ≡ some e
      → generator V to_int bad_json structured s (x ∷ xs) none
        ≡ before V to_int bad_json
            (on_event J structured s e).0
            (generator V to_int bad_json structured (on_event J structured s e).1 xs none)
  unfolding generator
  step_generator bad_json structured s x xs e read =
      ap
        (λ (o : Option Event). elim o as (λ o. ModelStream J) [
          | none ↦ record { parts = []; failure = some bad_json }
          | some e ↦
              let (parts, s') = on_event J structured s e in
              before V to_int bad_json parts (generator V to_int bad_json structured s' xs none)
        ])
        read

  pub generator-Speaks :
      (bad_json : Bytes) (structured : Bool) (s : StreamState) {events : List SseEvent}
      {es : List Event}
      → Speaks V to_int events es
      → generator V to_int bad_json structured s events none
        ≡ record { parts = on_events J structured s es; failure = none }
  unfolding generator on_events
  generator-Speaks bad_json structured s no_more = refl
  generator-Speaks bad_json structured s (says {x} {e} {xs} {es} h rest) =
      step_generator bad_json structured s x xs e (read_event-PayloadSays V to_int e x.payload h)
      ∙ ap (before V to_int bad_json (on_event J structured s e).0)
          (generator-Speaks bad_json structured (on_event J structured s e).1 rest)
  generator-Speaks bad_json structured s (silent {x} {xs} {es} h rest) =
      step_generator bad_json structured s x xs Event.skipped
        (read_event-Silent V to_int x.payload h)
      ∙ (ap
            (λ (r : List (StreamPart J) × StreamState).
              before V to_int bad_json r.0 (generator V to_int bad_json structured r.1 xs none))
            (skip_event J structured s)
          ∙ generator-Speaks bad_json structured s rest)

module _ (J : Json) where
  abbrev totals : Message → Usage
  totals m = record { input_total = some m.input; output_total = some m.output }

  -- The blocks, and what the end of the message sets.
  abbrev message_onto : Message → Accumulated
  message_onto m = record (all_onto J (record nothing_yet { warnings = [] }) m.blocks) {
    finish_reason = set_reason (some m.reason) FinishReason.stop;
    usage = totals m;
  }

  consume-message :
      (m : Message)
      → consume nothing_yet (on_events J false initial_state (message_events m)) ≡ message_onto m
  unfolding on_events consume
  consume-message m =
      let usage : Usage = record { input_total = some m.input; output_total = none } in
      let ends : List Event =
        Event.message_delta (some m.reason) (some m.output) ∷ Event.message_stop ∷ [] in
      let (id, name, sig, parts) =
        on_events-blocks J usage FinishReason.stop [] [] [] m.blocks ends in
      ap (consume nothing_yet) parts
      ∙ consume-all J nothing_yet m.blocks
          (on_events J false (between J usage FinishReason.stop id name sig) ends) refl

-- A stream that ends without an exception, and from which stream_text accumulates what a result has:
-- the text, the calls in order, the reason, the counts and the warnings. No call is pending.
abbrev pub TellsSame : {J : Json} → ModelStream J → GenerateResult J → Type 0
TellsSame s r =
    let a = consume nothing_yet s.parts in
    (s.failure ≡ none)
    × (a.text ≡ text_of r.content)
    × (a.tool_calls ≡ calls_of r.content)
    × (a.finish_reason ≡ r.finish_reason)
    × (a.usage ≡ r.usage)
    × (a.warnings ≡ r.warnings)
    × (a.pending ≡ [])

module _ {J : Json} (V : JsonView J) (to_int : ℤ → ℕ) (bad_json : Bytes) where
  generator-TellsSame :
      (m : Message) (events : List SseEvent)
      → ¬ (m.reason ≡ [])
      → Speaks V to_int events (message_events m)
      → TellsSame
          (generator V to_int bad_json false initial_state events none)
          (told_answer V to_int m)
  generator-TellsSame m events h reads =
      let same = generator-Speaks V to_int bad_json false initial_state reads in
      let total =
        ap (λ (s : ModelStream J). consume nothing_yet s.parts) same ∙ consume-message J m in
      let (t, c, w, p) = all_onto-Comes J nothing_yet m.blocks in
      (
        ap (λ (s : ModelStream J). s.failure) same,
        ap (λ (a : Accumulated). a.text) total ∙ t,
        ap (λ (a : Accumulated). a.tool_calls) total ∙ c,
        ap (λ (a : Accumulated). a.finish_reason) total
            ∙ set_reason-some m.reason FinishReason.stop h,
        ap (λ (a : Accumulated). a.usage) total,
        ap (λ (a : Accumulated). a.warnings) total ∙ w,
        ap (λ (a : Accumulated). a.pending) total ∙ p refl,
      )

  -- If sendable events say by the members of their JSON the events of a message, with pings and other silent events
  -- anywhere between them, and an answer says the same message, with blocks of any kind, number and
  -- order, in any deltas, with a reason that is not empty, and with tool inputs that serialize to the
  -- joined deltas, then the stream, cut into chunks anywhere, is read to its end, the answer is parsed,
  -- and they come to the same: text, calls in order, reason, counts and warnings.
  pub do_stream-parse_response :
      (unset : FinishReason) (m : Message) (response : J.Value) (os : List Outgoing) (c : Bytes)
      (cs : List Bytes)
      → ¬ (m.reason ≡ [])
      → All IsSendable os
      → c ++ concat cs ≡ render_all os
      → Speaks V to_int (map to_event os) (message_events m)
      → MessageSays V to_int m response
      → (s : ModelStream J) × (r : GenerateResult J) × (do_stream V to_int bad_json false (c ∷ cs)
          ≡ some s)
        × (parse_response V to_int unset response ≡ some r)
        × TellsSame s r
  unfolding do_stream
  do_stream-parse_response unset m response os c cs h sendable wire reads told = (
    generator V to_int bad_json false initial_state (map to_event os) none,
    told_answer V to_int m,
    ap
        (λ (o : Option (List SseEvent)). elim o as (λ o. Option (ModelStream J)) [
          | none ↦ none
          | some events ↦ some (generator V to_int bad_json false initial_state events none)
        ])
        (parse-render_all os c cs sendable wire),
    parse_response-MessageSays V to_int unset m response told,
    generator-TellsSame m (map to_event os) h reads,
  )
