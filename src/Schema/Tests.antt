-- ===== src/Schema/Tests.antt =====
-- Runs of the validator over a schema with nested schemas.
use ai_sdk_cpp.Prelude.{
  ◌≡◌, refl, true, false, List, [], ◌∷◌, none, Bytes, str_eq, codes, pos, ◌<◌, arith,
}
use ai_sdk_cpp.Prompt.{Json}
use ai_sdk_cpp.JsonView.{JsonView, as_string, string_at, array_at, object_at, int64_at, bool_at}
use ai_sdk_cpp.JsonView.Trees.{
  Tree, Fields, flag, num, text, arr, obj, items_of, fields_of, lookup, tree_json, tree_view,
  depth_of, tree_finite, tree_finite-depth,
}
use ai_sdk_cpp.Schema.{done, raised, validate_impl}
use ai_sdk_cpp.Schema.Conforms.{Conforms}
use ai_sdk_cpp.Schema.Loops.{Judged}
use ai_sdk_cpp.Schema.Validate.{IsOdd, validate_impl-Judged}

abbrev json : Json
json = tree_json (λ s. none) (λ v. [])

abbrev view : JsonView json
view = tree_view (λ s. none) (λ v. [])

abbrev type_entry : Tree → Bytes × Tree
type_entry t = (codes "type", t)

abbrev tags_schema : Tree
tags_schema = obj (
    fields_of (
      type_entry (text (codes "array"))
      ∷ (codes "maxItems", num (pos 2))
      ∷ (codes "items", obj (fields_of (type_entry (text (codes "string")) ∷ [])))
      ∷ []))

abbrev schema : Fields
schema = fields_of (
    type_entry (text (codes "object"))
    ∷ (codes "required", arr (items_of (text (codes "n") ∷ [])))
    ∷ (
      codes "properties",
      obj (
          fields_of (
            (codes "n", obj (fields_of (type_entry (text (codes "integer")) ∷ [])))
            ∷ (codes "tags", tags_schema)
            ∷ [])),
    )
    ∷ (codes "additionalProperties", flag false)
    ∷ [])

abbrev record_of : List Tree → Tree
record_of tags =
    obj (fields_of ((codes "n", num (pos 3)) ∷ (codes "tags", arr (items_of tags)) ∷ []))

accepted : validate_impl view 6 (record_of (text (codes "a") ∷ [])) schema [] [] ≡ done true []
unfolding validate_impl lookup string_at array_at object_at int64_at bool_at as_string str_eq
accepted = refl

bad_item :
    validate_impl view 6 (record_of (text (codes "a") ∷ num (pos 1) ∷ [])) schema [] []
    ≡ done false (codes "tags[1]: expected type string" ∷ [])
unfolding validate_impl lookup string_at array_at object_at int64_at bool_at as_string str_eq
bad_item = refl

missing :
    validate_impl view 6 (obj (fields_of [])) schema [] []
    ≡ done false (codes ": missing required field 'n'" ∷ [])
unfolding validate_impl lookup string_at array_at object_at int64_at bool_at as_string str_eq
missing = refl

-- `"type": ["object", "null"]` is no string: an exception for an object.
odd_type :
    validate_impl view 6
      (obj (fields_of []))
      (fields_of
        (type_entry (arr (items_of (text (codes "object") ∷ text (codes "null") ∷ []))) ∷ []))
      []
      []
    ≡ raised
unfolding validate_impl lookup string_at array_at object_at int64_at bool_at as_string str_eq
odd_type = refl

deep : (tree_finite (λ s. none) (λ v. [])).depth schema < 6
unfolding depth_of
deep = rw (tree_finite-depth (λ s. none) (λ v. []) schema) (omega arith)

validate_impl-Judged_example :
    Judged
      (IsOdd view schema)
      (Conforms view (record_of (text (codes "a") ∷ [])) schema)
      []
      (validate_impl view 6 (record_of (text (codes "a") ∷ [])) schema [] [])
validate_impl-Judged_example =
    validate_impl-Judged view (tree_finite (λ s. none) (λ v. [])) 6
      (record_of (text (codes "a") ∷ [])) schema [] [] deep
