-- ===== src/GenerateObject/Checked.antt =====
-- What the text of an answer comes to.
use ai_sdk_cpp.Prelude.{
  ℕ, ◌<◌, ◌≢◌, ap, ◌∙◌, ◌≡◌, refl, sym, subst, true, false, [], ◌∷◌, ◌++◌, Option, none, some,
  Bytes, codes,
}
use ai_sdk_cpp.Prompt.{Json}
use ai_sdk_cpp.JsonView.{JsonView, IsFinite}
use ai_sdk_cpp.Schema.{Verdict, done, no_fuel, validate_impl, validate, validation_result}
use ai_sdk_cpp.Schema.Conforms.{Conforms}
use ai_sdk_cpp.Schema.Loops.{Judged}
use ai_sdk_cpp.Schema.Validate.{IsOdd, validate_impl-Judged}
use ai_sdk_cpp.Tools.{Attempt, ok, threw}
use ai_sdk_cpp.Generate.{GenerateResult, text_of}
use ai_sdk_cpp.GenerateObject.{
  ObjectOptions, Failure, Outcome, returned, raised, GenerateObjectResult, object_call, mismatch,
  judged, object_of_text, with_details, generate_object,
}

module _ {J : Json} (V : JsonView J) (fuel : ℕ) (schema : J.Object) where
  -- The outcomes for a text: there is none, it is no JSON, the value conforms, it does not, or the
  -- schema has a type that is no string.
  pub data Delivers : Bytes → Outcome J J.Value → Type 0 where
    empty : Delivers [] (raised Failure.no_output)
    unparsed :
        {text : Bytes}
        → text ≢ []
        → J.safe_parse text ≡ none
        → Delivers text (raised (Failure.parse_error text))
    conforming :
        {text : Bytes} (v : J.Value)
        → text ≢ []
        → J.safe_parse text ≡ some v
        → Conforms V v schema
        → Delivers text (returned v)
    mismatched :
        {text : Bytes} (v : J.Value) (error : Bytes)
        → text ≢ []
        → J.safe_parse text ≡ some v
        → ¬ (Conforms V v schema)
        → validate_impl V fuel v schema [] [] ≡ done false (error ∷ [])
        → Delivers text (
            raised (
              Failure.type_validation
                (codes "Generated object does not match schema: " ++ (error ++ codes "; "))
                v))
    odd :
        {text : Bytes} (v : J.Value)
        → text ≢ []
        → J.safe_parse text ≡ some v
        → IsOdd V schema
        → Delivers text (raised Failure.bad_schema)

  judged-Delivers :
      (text : Bytes) (v : J.Value)
      → text ≢ []
      → J.safe_parse text ≡ some v
      → (verdict : Verdict) → validate_impl V fuel v schema [] [] ≡ verdict
      → Judged (IsOdd V schema) (Conforms V v schema) [] verdict
      → Delivers text (judged V fuel v (validation_result v verdict))
  unfolding mismatch
  judged-Delivers text v some_text parsed (done true errors) same h =
      conforming v some_text parsed h.0
  judged-Delivers text v some_text parsed (done false errors) same h =
      subst (λ es. Delivers text (raised (Failure.type_validation (mismatch es) v))) (sym h.2)
        (mismatched v h.1 some_text parsed h.0 (same ∙ ap (done false) h.2))
  judged-Delivers text v some_text parsed Verdict.raised same h = odd v some_text parsed h
  judged-Delivers text v some_text parsed no_fuel same h = absurd h

  module _ (F : IsFinite V) (enough : F.depth schema < fuel) where
    parsed-Delivers :
        (text : Bytes)
        → text ≢ []
        → (o : Option J.Value) → J.safe_parse text ≡ o
        → Delivers text (elim o [
          | none ↦ raised (Failure.parse_error text)
          | some v ↦ judged V fuel v (validate V fuel schema v)
        ])
    unfolding validate
    parsed-Delivers text some_text none e = unparsed some_text e
    parsed-Delivers text some_text (some v) e =
        judged-Delivers text v some_text e _ refl
          (validate_impl-Judged V F fuel v schema [] [] enough)

    pub object_of_text-Delivers : (text : Bytes) → Delivers text (object_of_text V fuel schema text)
    unfolding object_of_text
    object_of_text-Delivers [] = empty
    object_of_text-Delivers (c ∷ cs) =
        parsed-Delivers (c ∷ cs) (λ e. cc e) (J.safe_parse (c ∷ cs)) refl

  -- What a call comes to, for what the model does.
  pub data Gives : Attempt (GenerateResult J) → Outcome J (GenerateObjectResult J) → Type 0 where
    failed : (e : Bytes) → Gives (threw e) (raised (Failure.model_failed e))
    refused :
        {r : GenerateResult J} {e : Failure J}
        → Delivers (text_of r.content) (raised e)
        → Gives (ok r) (raised e)
    accepted :
        {r : GenerateResult J} {v : J.Value}
        → Delivers (text_of r.content) (returned v)
        → Gives (ok r) (
            returned (record {
              object = v;
              finish_reason = r.finish_reason;
              usage = r.usage;
              warnings = r.warnings;
            }))

  details-Gives :
      (r : GenerateResult J) (x : Outcome J J.Value)
      → Delivers (text_of r.content) x
      → Gives (ok r) (with_details V fuel r x)
  details-Gives r (returned v) h = accepted h
  details-Gives r (raised e) h = refused h

module _ {J : Json} (V : JsonView J) (F : IsFinite V) (fuel : ℕ) {W S : Type 0} where
  -- A call of generate_object asks the model once and ends in one of these ways: the model's exception, no
  -- output for an empty text, and for another text: a parse error if it is no JSON, a type validation
  -- error with the one error of the validator if the value does not conform to the keywords of the
  -- schema that the validator reads, the value with the model's details only if it does, and the
  -- validator's own exception only if a type in the schema is no string.
  pub generate_object-Gives :
      (o : ObjectOptions J W S) (w : W)
      → F.depth o.schema < fuel
      → Gives V fuel o.schema
          (o.model.do_generate (object_call o) w).0
          (generate_object V fuel o w).0
        × ((generate_object V fuel o w).1 ≡ (o.model.do_generate (object_call o) w).1)
  unfolding generate_object
  generate_object-Gives o w enough = (by_answer (o.model.do_generate (object_call o) w).0, refl)
    where
      by_answer :
          (a : Attempt (GenerateResult J))
          → Gives V fuel o.schema a (elim a [
            | threw e ↦ raised (Failure.model_failed e)
            | ok result ↦
                with_details V fuel result (object_of_text V fuel o.schema (text_of result.content))
          ])
      by_answer (threw e) = failed e
      by_answer (ok r) =
          details-Gives V fuel o.schema r _
            (object_of_text-Delivers V fuel o.schema F enough (text_of r.content))
