-- ===== src/GenerateObject/Stream.antt =====
-- A stream that is drained, against the answer at once.
use ai_sdk_cpp.Prelude.{
  ℕ, ◌≡◌, refl, sym, ap, subst, ◌∙◌, Bool, true, false, List, [], ◌∷◌, ◌++◌, append-nil,
  append_assoc, All, Option, none, some, Bytes, if◌then◌else◌,
}
use ai_sdk_cpp.Prompt.{Json}
use ai_sdk_cpp.JsonView.{JsonView}
use ai_sdk_cpp.Tools.{Attempt, ok, threw}
use ai_sdk_cpp.Generate.{GenerateResult, CallOptions, text_of}
use ai_sdk_cpp.StreamText.{StreamPart, ModelStream}
use ai_sdk_cpp.Middleware.{wrap_language_model}
use ai_sdk_cpp.GenerateObject.{
  ObjectOptions, ObjectSettings, Failure, Outcome, returned, raised, GenerateObjectResult,
  FinalState, Drained, after_delta, assemble, yield, start_state, try_parse_partial, object_call,
  object_of_text, with_details, generate_object, drain, stream_object,
}

module _ {J : Json} where
  -- The text of a stream.
  unfoldable pub deltas : List (StreamPart J) → Bytes
  deltas [] = []
  deltas (StreamPart.text_delta id delta ∷ parts) = delta ++ deltas parts
  deltas (_ ∷ parts) = deltas parts

  abbrev pub IsNoError : StreamPart J → Type 0
  IsNoError (StreamPart.error_part message code) = ⊥
  IsNoError _ = Unit {0}

  -- The state with the details of the last finish.
  unfoldable pub finished : FinalState J → List (StreamPart J) → FinalState J
  finished state [] = state
  finished state (StreamPart.finish reason usage metadata ∷ parts) =
      finished (record state { usage = usage; finish_reason = reason }) parts
  finished state (_ ∷ parts) = finished state parts

  -- The final state for an outcome.
  abbrev pub settled : FinalState J → Outcome J J.Value → FinalState J
  settled state (raised e) = state
  settled state (returned v) = record state { object = v; had_output = true; validated = true }

  abbrev pub failure_of : {A : Type 0} → Outcome J A → Option (Failure J)
  failure_of (raised e) = some e
  failure_of (returned v) = none

  -- A drained stream ends as an outcome says.
  abbrev pub Ends : Drained J → FinalState J → Outcome J J.Value → Type 0
  Ends d state x = (d.failure ≡ failure_of x) × (d.state ≡ settled state x)

module _ {J : Json} (V : JsonView J) (fuel : ℕ) (schema : J.Object) where
  assemble-Ends :
      (last_valid : J.Value) (state : FinalState J) (x : Outcome J J.Value)
      → Ends (assemble V last_valid state x) state x
  assemble-Ends last_valid state (raised e) = (refl, refl)
  assemble-Ends last_valid state (returned v) = (refl, refl)

  after_delta-Ends :
      (o : Option J.Value) (last_valid : J.Value) (rest : J.Value → Drained J)
      (state : FinalState J) (x : Outcome J J.Value)
      → ((v : J.Value) → Ends (rest v) state x)
      → Ends (after_delta V o last_valid rest) state x
  after_delta-Ends none last_valid rest state x h = h last_valid
  after_delta-Ends (some v) last_valid rest state x h = by_test (V.same v last_valid)
    where
      by_test : (b : Bool) → Ends (if b then rest last_valid else yield v (rest v)) state x
      by_test true = h last_valid
      by_test false = h v

  drain-Ends :
      (parts : List (StreamPart J)) (buffer : Bytes) (last_valid : J.Value) (state : FinalState J)
      → All IsNoError parts
      → Ends
          (drain V fuel schema buffer last_valid state parts none)
          (finished state parts)
          (object_of_text V fuel schema (buffer ++ deltas parts))
  unfolding drain deltas finished
  drain-Ends [] buffer last_valid state h =
      subst
        (λ text.
          Ends (assemble V last_valid state (object_of_text V fuel schema buffer)) state
            (object_of_text V fuel schema text))
        (sym (append-nil buffer))
        (assemble-Ends last_valid state (object_of_text V fuel schema buffer))
  drain-Ends (StreamPart.text_delta id delta ∷ parts) buffer last_valid state h =
      after_delta-Ends (try_parse_partial J (buffer ++ delta)) last_valid _ (finished state parts) _
        (λ v.
          subst
            (λ text.
              Ends (drain V fuel schema (buffer ++ delta) v state parts none) (finished state parts)
                (object_of_text V fuel schema text))
            (append_assoc buffer delta (deltas parts))
            (drain-Ends parts (buffer ++ delta) v state h.1))
  drain-Ends (StreamPart.finish reason usage metadata ∷ parts) buffer last_valid state h =
      drain-Ends parts buffer last_valid _ h.1
  drain-Ends (StreamPart.error_part message code ∷ parts) buffer last_valid state h = absurd h.0
  drain-Ends (StreamPart.stream_start ws ∷ parts) buffer last_valid state h =
      drain-Ends parts buffer last_valid state h.1
  drain-Ends (StreamPart.text_start id ∷ parts) buffer last_valid state h =
      drain-Ends parts buffer last_valid state h.1
  drain-Ends (StreamPart.text_end id ∷ parts) buffer last_valid state h =
      drain-Ends parts buffer last_valid state h.1
  drain-Ends (StreamPart.reasoning_start id ∷ parts) buffer last_valid state h =
      drain-Ends parts buffer last_valid state h.1
  drain-Ends (StreamPart.reasoning_delta id d ∷ parts) buffer last_valid state h =
      drain-Ends parts buffer last_valid state h.1
  drain-Ends (StreamPart.reasoning_end id s r ∷ parts) buffer last_valid state h =
      drain-Ends parts buffer last_valid state h.1
  drain-Ends (StreamPart.tool_input_start id n p ∷ parts) buffer last_valid state h =
      drain-Ends parts buffer last_valid state h.1
  drain-Ends (StreamPart.tool_input_delta id d ∷ parts) buffer last_valid state h =
      drain-Ends parts buffer last_valid state h.1
  drain-Ends (StreamPart.tool_input_end id ∷ parts) buffer last_valid state h =
      drain-Ends parts buffer last_valid state h.1
  drain-Ends (StreamPart.response_metadata i m t ∷ parts) buffer last_valid state h =
      drain-Ends parts buffer last_valid state h.1
  drain-Ends (StreamPart.raw v ∷ parts) buffer last_valid state h =
      drain-Ends parts buffer last_valid state h.1

-- What is known of a drained stream next to an answer at once: both fail alike, or both have the object.
abbrev pub Matches : {J : Json} → Outcome J (GenerateObjectResult J) → Attempt (Drained J) → Type 0
Matches x (threw e) = x ≡ raised (Failure.model_failed e)
Matches (raised e) (ok d) =
    (d.failure ≡ some e) × (d.state.had_output ≡ false) × (d.state.validated ≡ false)
Matches (returned r) (ok d) =
    (d.failure ≡ none)
    × (d.state.object ≡ r.object)
    × (d.state.had_output ≡ true)
    × (d.state.validated ≡ true)
    × (d.state.usage ≡ r.usage)
    × (d.state.finish_reason ≡ r.finish_reason)

module _ {J : Json} (null : J.Value) where
  -- A stream that tells what an answer says: without an error, with the answer's text in its deltas and
  -- the answer's details in its last finish.
  pub data Tells : Attempt (GenerateResult J) → Attempt (ModelStream J) → Type 0 where
    both_throw : (e : Bytes) → Tells (threw e) (threw e)
    same_answer :
        (r : GenerateResult J) (s : ModelStream J)
        → s.failure ≡ none
        → All IsNoError s.parts
        → deltas s.parts ≡ text_of r.content
        → (finished (start_state null) s.parts ≡ record {
          object = null;
          usage = r.usage;
          finish_reason = r.finish_reason;
          had_output = false;
          validated = false;
        })
        → Tells (ok r) (ok s)

module _ {J : Json} (V : JsonView J) (fuel : ℕ) (null : J.Value) where
  settled-Matches :
      (r : GenerateResult J) (d : Drained J) (state : FinalState J) (x : Outcome J J.Value)
      → state ≡ record {
        object = null;
        usage = r.usage;
        finish_reason = r.finish_reason;
        had_output = false;
        validated = false;
      }
      → Ends d state x
      → Matches (with_details V fuel r x) (ok d)
  settled-Matches r d state (raised e) e1 h = (
    h.0,
    ap (λ (s : FinalState J). s.had_output) (h.1 ∙ e1),
    ap (λ (s : FinalState J). s.validated) (h.1 ∙ e1),
  )
  settled-Matches r d state (returned v) e1 h = (
    h.0,
    ap (λ (s : FinalState J). s.object) h.1,
    ap (λ (s : FinalState J). s.had_output) h.1,
    ap (λ (s : FinalState J). s.validated) h.1,
    ap (λ (s : FinalState J). s.usage) h.1 ∙ ap (λ (s : FinalState J). s.usage) e1,
    ap (λ (s : FinalState J). s.finish_reason) h.1 ∙ ap (λ (s : FinalState J). s.finish_reason) e1,
  )

  Tells-Matches :
      (schema : J.Object) (a : Attempt (GenerateResult J)) (s : Attempt (ModelStream J))
      → Tells null a s
      → Matches
          (elim a [
            | threw e ↦ raised (Failure.model_failed e)
            | ok result ↦
                with_details V fuel result (object_of_text V fuel schema (text_of result.content))
          ])
          (elim s [
            | threw e ↦ threw e
            | ok s ↦ ok (drain V fuel schema [] null (start_state null) s.parts s.failure)
          ])
  Tells-Matches schema _ _ (both_throw e) = refl
  Tells-Matches schema _ _ (same_answer r s no_failure no_error text details) =
      settled-Matches r _ (finished (start_state null) s.parts) _ details (
        rw no_failure (
          subst
            (λ t.
              Ends (drain V fuel schema [] null (start_state null) s.parts none)
                (finished (start_state null) s.parts) (object_of_text V fuel schema t))
            text (drain-Ends V fuel schema s.parts [] null (start_state null) no_error)))

module _ {J : Json} (V : JsonView J) (fuel : ℕ) (null : J.Value) {W S : Type 0}
    (moved_from : CallOptions J (ObjectSettings J S) → CallOptions J (ObjectSettings J S)) where
  -- With a model that streams what it answers, and no middleware, stream_object ends as generate_object
  -- does: with the same exception and a final state that is not validated, or with the same object and
  -- details in a final state that is.
  pub stream_object-generate_object :
      (o : ObjectOptions J W S) (w : W)
      → o.middleware ≡ []
      → Tells null (o.model.do_generate (object_call o) w).0 (o.model.do_stream (object_call o) w).0
      → Matches (generate_object V fuel o w).0 (stream_object V fuel null moved_from o w).0
  unfolding generate_object stream_object wrap_language_model
  stream_object-generate_object o w plain tells =
      rw plain (Tells-Matches V fuel null o.schema _ _ tells)
