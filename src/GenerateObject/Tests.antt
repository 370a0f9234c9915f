-- ===== src/GenerateObject/Tests.antt =====
-- Runs of generate_object and stream_object at a model that answers `{"n":3}`.
use ai_sdk_cpp.Prelude.{
  ℕ, suc, ◌≡◌, ◌<◌, refl, List, [], ◌∷◌, Option, none, some, Bytes, codes, str_eq, pos, arith,
  if◌then◌else◌,
}
use ai_sdk_cpp.Prompt.{Json}
use ai_sdk_cpp.JsonView.{
  JsonView, IsFinite, as_string, string_at, array_at, object_at, int64_at, bool_at,
}
use ai_sdk_cpp.JsonView.Trees.{
  Tree, Fields, nil, num, text, obj, fields_of, lookup, tree_eq, tree_json, tree_view, depth_of,
  tree_finite, tree_finite-depth,
}
use ai_sdk_cpp.Tools.{ok}
use ai_sdk_cpp.Generate.{FinishReason, Content, GenerateResult, text_of}
use ai_sdk_cpp.StreamText.{StreamPart, ModelStream}
use ai_sdk_cpp.GenerateObject.{
  ObjectOptions, start_state, generate_object, drain, stream_object, try_parse_partial,
}
use ai_sdk_cpp.GenerateObject.Checked.{Gives, generate_object-Gives}
use ai_sdk_cpp.GenerateObject.Stream.{
  deltas, finished, Tells, same_answer, Matches, stream_object-generate_object,
}
use ai_sdk_cpp.GenerateObject.Partials.{IsGood, drain-IsGood}
use ai_sdk_cpp.Schema.{validate}

abbrev whole : Bytes
whole = codes "{\"n\":3}"

abbrev three : Tree
three = obj (fields_of ((codes "n", num (pos 3)) ∷ []))

abbrev parse : Bytes → Option Tree
parse s = if str_eq s whole then some three else none

abbrev json : Json
json = tree_json parse (λ v. [])

abbrev view : JsonView json
view = tree_view parse (λ v. [])

abbrev finite : IsFinite view
finite = tree_finite parse (λ v. [])

abbrev schema : Fields
schema = fields_of (
    (codes "type", text (codes "object"))
    ∷ (
      codes "properties",
      obj (
          fields_of
            ((codes "n", obj (fields_of ((codes "type", text (codes "integer")) ∷ []))) ∷ [])),
    )
    ∷ [])

abbrev answer : GenerateResult json
answer = record {
  content = Content.text whole ∷ [];
  finish_reason = FinishReason.stop;
  usage = record { input_total = some 4; output_total = some 6 };
  warnings = [];
}

abbrev parts : List (StreamPart json)
parts =
    StreamPart.text_start (codes "0")
    ∷ StreamPart.text_delta (codes "0") (codes "{\"n\":")
    ∷ StreamPart.text_delta (codes "0") (codes "3")
    ∷ StreamPart.text_delta (codes "0") (codes "}")
    ∷ StreamPart.text_end (codes "0")
    ∷ StreamPart.finish FinishReason.stop (record { input_total = some 4; output_total = some 6 })
        none
    ∷ []

abbrev stream : ModelStream json
stream = record { parts = parts; failure = none }

abbrev options : ObjectOptions json ℕ (Unit {0})
options = record {
  model = record { do_generate = λ o w. (ok answer, suc w); do_stream = λ o w. (ok stream, suc w) };
  schema = schema;
  schema_name = none;
  schema_description = none;
  prompt = some (codes "three?");
  messages = none;
  system = none;
  settings = tt;
  middleware = [];
}

-- The value is yielded as soon as a brace completes it, and once.
yields : (drain view 6 schema [] nil (start_state nil) parts none).yielded ≡ three ∷ []
unfolding drain tree_eq try_parse_partial validate lookup as_string string_at array_at object_at
    int64_at bool_at str_eq
yields = refl

deep : finite.depth schema < 6
unfolding depth_of
deep = rw (tree_finite-depth parse (λ v. []) schema) (omega arith)

generate_object-Gives_example :
    Gives view 6 schema (ok answer) (generate_object view 6 options 0).0
    × ((generate_object view 6 options 0).1 ≡ 1)
generate_object-Gives_example = generate_object-Gives view finite 6 options 0 deep

tells : Tells nil (ok answer) (ok stream)
unfolding deltas finished text_of
tells = same_answer answer stream refl (tt, (tt, (tt, (tt, (tt, (tt, tt)))))) refl refl

stream_object-generate_object_example :
    Matches (generate_object view 6 options 0).0 (stream_object view 6 nil (λ o. o) options 0).0
stream_object-generate_object_example =
    stream_object-generate_object view 6 nil (λ o. o) options 0 refl tells

drain-IsGood_example :
    IsGood view 6 (deltas parts) nil (drain view 6 schema [] nil (start_state nil) parts none)
drain-IsGood_example = drain-IsGood view 6 schema parts [] nil (start_state nil) none
