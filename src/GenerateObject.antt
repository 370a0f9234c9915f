-- ===== src/GenerateObject.antt =====
-- src/core/generate_object.cpp with include/ai/core/generate_object.hpp: an answer that is a JSON value
-- of a schema, from a model at once or streamed. The consumer of a stream drains it.
pub mod Checked
pub mod Partials
pub mod Stream
mod Tests
use ai_sdk_cpp.Prelude.{
  ℕ, Bool, true, false, not, List, [], ◌∷◌, ◌++◌, Option, none, some, Bytes, codes, is_empty,
  if◌then◌else◌,
}
use ai_sdk_cpp.Prompt.{Json, UserPart, Message, Prompt, text_part, system_message}
use ai_sdk_cpp.JsonView.{JsonView}
use ai_sdk_cpp.Schema.{ValidationResult, validate}
use ai_sdk_cpp.Tools.{Attempt, ok, threw, Task}
use ai_sdk_cpp.Generate.{
  FinishReason, Usage, no_usage, Warning, GenerateResult, CallOptions, text_of,
}
use ai_sdk_cpp.StreamText.{StreamPart, ModelStream}
use ai_sdk_cpp.Middleware.{LanguageModel, Middleware, wrap_language_model}

-- `struct ResponseFormat`.
pub record ResponseFormat (J : Json) : Type 0 where
  pub kind : Bytes
  pub schema : J.Object
  pub name : Option Bytes
  pub description : Option Bytes

-- The settings of a call: those that are passed on unread, and the format.
pub record ObjectSettings (J : Json) (S : Type 0) : Type 0 where
  pub sampling : S
  pub response_format : ResponseFormat J

-- `GenerateObjectOptions` and `StreamObjectOptions`, which have the same members. `max_retries` is
-- never read.
pub record ObjectOptions (J : Json) (W S : Type 0) : Type 0 where
  pub model :
      LanguageModel (CallOptions J (ObjectSettings J S)) (GenerateResult J) (ModelStream J) W
  pub schema : J.Object
  pub schema_name : Option Bytes
  pub schema_description : Option Bytes
  pub prompt : Option Bytes
  pub messages : Option (Prompt J)
  pub system : Option Bytes
  pub settings : S
  pub middleware :
      List (Middleware (CallOptions J (ObjectSettings J S)) (GenerateResult J) (ModelStream J) W)

-- The exceptions: of the model, of the stream, of the parser with the text, and those of these
-- functions; `bad_schema` is the validator's own.
pub data Failure (J : Json) : Type 0 where
  model_failed : Bytes → Failure J
  stream_error : Bytes → Failure J
  no_output : Failure J
  parse_error : Bytes → Failure J
  type_validation : Bytes → J.Value → Failure J
  bad_schema : Failure J

pub data Outcome (J : Json) (A : Type 0) : Type 0 where
  returned : A → Outcome J A
  raised : Failure J → Outcome J A

pub record GenerateObjectResult (J : Json) : Type 0 where
  pub object : J.Value
  pub finish_reason : FinishReason
  pub usage : Usage
  pub warnings : List Warning

module _ {J : Json} {W S : Type 0} where
  unfoldable pub object_prompt : ObjectOptions J W S → Prompt J
  object_prompt o =
      (elim o.system [ none ↦ [] | some s ↦ system_message J s ∷ [] ]) ++ (elim o.messages [
        | some ms ↦ ms
        | none ↦ elim o.prompt [
          | none ↦ []
          | some p ↦
              Message.user (record {
                content = UserPart.text (text_part J p) ∷ [];
                provider_options = J.empty_object;
              })
              ∷ []
        ]
      ])

  unfoldable pub object_call : ObjectOptions J W S → CallOptions J (ObjectSettings J S)
  unfolding object_prompt
  object_call o = record {
    prompt = object_prompt o;
    settings = record {
      sampling = o.settings;
      response_format = record {
        kind = codes "json";
        schema = o.schema;
        name = o.schema_name;
        description = o.schema_description;
      };
    };
    tools = [];
    tool_choice = none;
  }

-- The message of the errors.
abbrev pub joined : List Bytes → Bytes
joined [] = []
joined (e ∷ es) = e ++ (codes "; " ++ joined es)

unfoldable pub mismatch : List Bytes → Bytes
mismatch errors = codes "Generated object does not match schema: " ++ joined errors

-- The fuel is the validator's.
module _ {J : Json} (V : JsonView J) (fuel : ℕ) where
  abbrev pub judged : J.Value → Option (ValidationResult J) → Outcome J J.Value
  judged v none = raised Failure.bad_schema
  judged v (some r) =
      if r.success then returned v else raised (Failure.type_validation (mismatch r.errors) v)

  -- What both functions do with the text: no text, no JSON, no match, or the value. The source has this
  -- code twice, in generate_object and behind the loop of stream_object.
  unfoldable pub object_of_text : J.Object → Bytes → Outcome J J.Value
  object_of_text schema text =
      if is_empty text then raised Failure.no_output else (elim (J.safe_parse text) [
        | none ↦ raised (Failure.parse_error text)
        | some v ↦ judged v (validate V fuel schema v)
      ])

  abbrev pub with_details :
      GenerateResult J → Outcome J J.Value → Outcome J (GenerateObjectResult J)
  with_details result (raised e) = raised e
  with_details result (returned v) = returned (record {
    object = v;
    finish_reason = result.finish_reason;
    usage = result.usage;
    warnings = result.warnings;
  })

  unfoldable pub generate_object :
      {W S : Type 0} → ObjectOptions J W S → W → Outcome J (GenerateObjectResult J) × W
  unfolding object_of_text object_call
  generate_object o w =
      let (attempt, w') = o.model.do_generate (object_call o) w in
      (
        elim attempt [
          | threw e ↦ raised (Failure.model_failed e)
          | ok result ↦ with_details result (object_of_text o.schema (text_of result.content))
        ],
        w',
      )

pub record FinalState (J : Json) : Type 0 where
  pub object : J.Value
  pub usage : Usage
  pub finish_reason : FinishReason
  pub had_output : Bool
  pub validated : Bool

-- A drained stream: what it has yielded, the final state, and the exception that has ended it, if any.
pub record Drained (J : Json) : Type 0 where
  pub yielded : List J.Value
  pub state : FinalState J
  pub failure : Option (Failure J)

abbrev pub first_some : {A : Type 0} → Option A → Option A → Option A
first_some none b = b
first_some (some a) b = some a

abbrev pub suffixes : List Bytes
suffixes = codes "}" ∷ codes "}}" ∷ codes "]}}" ∷ codes "\"}" ∷ codes "\"]}" ∷ []

module _ (J : Json) where
  -- The first of the texts that parses.
  unfoldable pub parse_with : Bytes → List Bytes → Option J.Value
  parse_with buffer [] = none
  parse_with buffer (s ∷ ss) = first_some (J.safe_parse (buffer ++ s)) (parse_with buffer ss)

  unfoldable pub try_parse_partial : Bytes → Option J.Value
  unfolding parse_with
  try_parse_partial buffer = first_some (J.safe_parse buffer) (parse_with buffer suffixes)

module _ {J : Json} where
  -- `null` is the value that `json::value{}` makes.
  abbrev pub start_state : J.Value → FinalState J
  start_state null = record {
    object = null;
    usage = no_usage;
    finish_reason = FinishReason.other;
    had_output = false;
    validated = false;
  }

  abbrev pub yield : J.Value → Drained J → Drained J
  yield v d = record d { yielded = v ∷ d.yielded }

  abbrev pub ended : Option Bytes → Drained J → FinalState J → Drained J
  ended none finished state = finished
  ended (some e) finished state = record {
    yielded = [];
    state = state;
    failure = some (Failure.model_failed e);
  }

module _ {J : Json} (V : JsonView J) where
  -- What stands behind the loop.
  abbrev pub assemble : J.Value → FinalState J → Outcome J J.Value → Drained J
  assemble last_valid state (raised e) = record { yielded = []; state = state; failure = some e }
  assemble last_valid state (returned v) = record {
    yielded = if V.same v last_valid then [] else v ∷ [];
    state = record state { object = v; had_output = true; validated = true };
    failure = none;
  }

  -- A delta: the buffer is parsed, and a new value is yielded.
  abbrev pub after_delta : Option J.Value → J.Value → (J.Value → Drained J) → Drained J
  after_delta none last_valid rest = rest last_valid
  after_delta (some v) last_valid rest =
      if V.same v last_valid then rest last_valid else yield v (rest v)

  module _ (fuel : ℕ) (schema : J.Object) where
    unfoldable pub drain :
        Bytes → J.Value → FinalState J → List (StreamPart J) → Option Bytes → Drained J
    unfolding object_of_text try_parse_partial
    drain buffer last_valid state [] failure =
        ended failure (assemble last_valid state (object_of_text V fuel schema buffer)) state
    drain buffer last_valid state (StreamPart.text_delta id delta ∷ parts) failure =
        after_delta (try_parse_partial J (buffer ++ delta)) last_valid
          (λ v. drain (buffer ++ delta) v state parts failure)
    drain buffer last_valid state (StreamPart.finish reason usage metadata ∷ parts) failure =
        drain buffer last_valid (record state { usage = usage; finish_reason = reason }) parts
          failure
    drain buffer last_valid state (StreamPart.error_part message code ∷ parts) failure = record {
      yielded = [];
      state = state;
      failure = some (Failure.stream_error message);
    }
    drain buffer last_valid state (_ ∷ parts) failure = drain buffer last_valid state parts failure

  -- The call, and the stream that it returns, drained.
  unfoldable pub stream_object :
      ℕ
      → J.Value
      → {W S : Type 0}
      → (moved_from : CallOptions J (ObjectSettings J S) → CallOptions J (ObjectSettings J S))
      → ObjectOptions J W S
      → Task W (Drained J)
  unfolding drain object_call wrap_language_model
  stream_object fuel null moved_from o w =
      let (attempt, w') =
        (wrap_language_model moved_from o.model o.middleware).do_stream (object_call o) w in
      (
        elim attempt [
          | threw e ↦ threw e
          | ok s ↦ ok (drain fuel o.schema [] null (start_state null) s.parts s.failure)
        ],
        w',
      )
