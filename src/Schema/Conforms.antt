-- ===== src/Schema/Conforms.antt =====
-- What it means for a value to conform to the keywords of a schema that src/schema/validator.cpp reads,
-- without an order of tests. Other keywords, such as minimum, maximum and pattern, say nothing here, and
-- required, properties, items and the sizes count only under the type that they belong to.
use ai_sdk_cpp.Prelude.{
  ◌≡◌, Bool, true, false, List, [], ◌∷◌, some, Bytes, codes, length, All, ℤ, pos, ◌≤ℤ◌,
}
use ai_sdk_cpp.Prompt.{Json}
use ai_sdk_cpp.JsonView.{
  Kind, JsonView, Among, is_null, is_bool, is_number, is_integer, is_string, is_array, is_object,
  as_string, as_object, as_array, string_at, object_at, array_at, bool_at, int64_at,
}

-- The names that mean something, and the values that they allow; any other name allows every value.
abbrev pub types : {J : Json} {D : Type 0} → List (Bytes × (Kind J D → Bool))
types =
    (codes "string", is_string)
    ∷ (codes "number", is_number)
    ∷ (codes "integer", is_integer)
    ∷ (codes "boolean", is_bool)
    ∷ (codes "object", is_object)
    ∷ (codes "array", is_array)
    ∷ (codes "null", is_null)
    ∷ []

abbrev pub IsOfType : {J : Json} {D : Type 0} → Kind J D → Bytes → Type 0
IsOfType k t = All (λ entry. t ≡ entry.0 → entry.1 k ≡ true) types

module _ {J : Json} (V : JsonView J) where
  abbrev pub TypeOk : J.Value → J.Object → Type 0
  TypeOk value schema =
      (type : Bytes) → string_at V schema (codes "type") ≡ some type → IsOfType (V.kind value) type

  abbrev pub EnumOk : J.Value → J.Object → Type 0
  EnumOk value schema =
      (items : List J.Value)
      → array_at V schema (codes "enum") ≡ some items
      → (item : J.Value) × Among item items × (V.same item value ≡ true)

  -- The schema is for values of a kind.
  abbrev pub IsFor : J.Object → Bytes → Type 0
  IsFor schema name = string_at V schema (codes "type") ≡ some name

  abbrev pub RequiredOk : J.Object → J.Object → Type 0
  RequiredOk obj schema =
      (reqs : List J.Value)
      → array_at V schema (codes "required") ≡ some reqs
      → (req : J.Value) (key : Bytes) → Among req reqs
      → as_string V req ≡ some key
      → (v : J.Value) × (V.member obj key ≡ some v)

  abbrev pub AdditionalOk : J.Object → J.Object → Type 0
  AdditionalOk obj schema =
      (props : J.Object)
      → bool_at V schema (codes "additionalProperties") ≡ some false
      → object_at V schema (codes "properties") ≡ some props
      → (key : Bytes) (v : J.Value) → Among (key, v) (V.members obj)
      → (p : J.Value) × (V.member props key ≡ some p)

  abbrev pub SizeOk : List J.Value → J.Object → Type 0
  SizeOk arr schema =
      ((n : ℤ) → int64_at V schema (codes "minItems") ≡ some n → n ≤ℤ pos (length arr))
      × ((n : ℤ) → int64_at V schema (codes "maxItems") ≡ some n → pos (length arr) ≤ℤ n)

  -- Each property that is there conforms to its schema, and each item to that of the items.
  pub data Conforms : J.Value → J.Object → Type 0 where
    conforms :
        {value : J.Value} {schema : J.Object}
        → TypeOk value schema
        → EnumOk value schema
        → ((obj : J.Object)
            → as_object V value ≡ some obj
            → IsFor schema (codes "object")
            → RequiredOk obj schema × AdditionalOk obj schema)
        → ((obj props : J.Object)
            → as_object V value ≡ some obj
            → IsFor schema (codes "object")
            → object_at V schema (codes "properties") ≡ some props
            → (key : Bytes) (p v : J.Value) (inner : J.Object) → Among (key, p) (V.members props)
            → V.member obj key ≡ some v
            → as_object V p ≡ some inner
            → Conforms v inner)
        → ((arr : List J.Value)
            → as_array V value ≡ some arr
            → IsFor schema (codes "array")
            → SizeOk arr schema)
        → ((arr : List J.Value) (inner : J.Object)
            → as_array V value ≡ some arr
            → IsFor schema (codes "array")
            → object_at V schema (codes "items") ≡ some inner
            → (v : J.Value) → Among v arr
            → Conforms v inner)
        → Conforms value schema
