-- ===== src/Schema/Validate.antt =====
-- The validator accepts exactly the values that conform to the keywords that it reads.
use ai_sdk_cpp.Prelude.{
  ℕ, zero, suc, ◌<◌, ◌≡◌, inl, inr, true, false, List, none, some, Option-cases, Bytes, codes,
  arith,
}
use ai_sdk_cpp.Prompt.{Json}
use ai_sdk_cpp.JsonView.{
  Kind, JsonView, IsFinite, Among, object_of, as_string, as_object, object_at,
}
use ai_sdk_cpp.Schema.{Verdict, done, raised, no_fuel, validate_impl}
use ai_sdk_cpp.Schema.Conforms.{Conforms}
use ai_sdk_cpp.Schema.Loops.{Judged, Judged-and_then, Judged-iff}
use ai_sdk_cpp.Schema.Judged.{check_type-Judged, check_enum-Judged, JudgesInside}
use ai_sdk_cpp.Schema.Inside.{check_inside-Judged, AllOk-Conforms, Conforms-AllOk}

module _ {J : Json} (V : JsonView J) where
  -- A schema somewhere in the schema has a type that is no string.
  pub data IsOdd : J.Object → Type 0 where
    here :
        {schema : J.Object} (t : J.Value)
        → V.member schema (codes "type") ≡ some t
        → as_string V t ≡ none
        → IsOdd schema
    in_property :
        {schema : J.Object} (props : J.Object) (key : Bytes) (p : J.Value) (inner : J.Object)
        → object_at V schema (codes "properties") ≡ some props
        → Among (key, p) (V.members props)
        → as_object V p ≡ some inner
        → IsOdd inner
        → IsOdd schema
    in_items :
        {schema : J.Object} (inner : J.Object)
        → object_at V schema (codes "items") ≡ some inner
        → IsOdd inner
        → IsOdd schema

  object_of-kind :
      {D : Type 0} (k : Kind J D) (o : J.Object) → object_of k ≡ some o → k ≡ Kind.object_kind o
  object_of-kind Kind.null_kind o e = cc
  object_of-kind (Kind.bool_kind b) o e = cc
  object_of-kind (Kind.int64_kind n) o e = cc
  object_of-kind (Kind.uint64_kind n) o e = cc
  object_of-kind (Kind.double_kind d) o e = cc
  object_of-kind (Kind.string_kind s) o e = cc
  object_of-kind (Kind.array_kind vs) o e = cc
  object_of-kind (Kind.object_kind p) o e = cc

  as_object-kind :
      (v : J.Value) (o : J.Object) → as_object V v ≡ some o → V.kind v ≡ Kind.object_kind o
  unfolding as_object
  as_object-kind v o e = object_of-kind (V.kind v) o e

  object_at-member :
      (schema : J.Object) (key : Bytes) (inner : J.Object)
      → object_at V schema key ≡ some inner
      → (p : J.Value) × (V.member schema key ≡ some p) × (as_object V p ≡ some inner)
  unfolding object_at
  object_at-member schema key inner h = elim (Option-cases (V.member schema key)) [
    | inl gone ↦ absurd (ground (arith, h, gone))
    | inr (p, at) ↦ (p, at, ground (arith, h, at))
  ]

  Judged-raised :
      (E E' A : Type 0) (errors : List Bytes) (x : Verdict)
      → (E → E')
      → Judged E A errors x
      → Judged E' A errors x
  Judged-raised E E' A errors (done true e) f h = h
  Judged-raised E E' A errors (done false e) f h = h
  Judged-raised E E' A errors raised f h = f h
  Judged-raised E E' A errors no_fuel f h = h

  module _ (F : IsFinite V) where
    object_at-depth :
        (schema : J.Object) (key : Bytes) (inner : J.Object)
        → object_at V schema key ≡ some inner
        → F.depth inner < F.depth schema
    object_at-depth schema key inner h =
        let (p, at, is) = object_at-member schema key inner h in
        F.member_depth schema key p inner at (as_object-kind p inner is)

    -- The validator accepts a value exactly if it conforms to the keywords of the schema that it reads:
    -- type and enum; under type object required, properties and, beside properties,
    -- additionalProperties false; under type array minItems, maxItems and items; nested schemas alike.
    -- It adds one error if the value does not conform and none if it does, throws only if some schema in it has a type that is no string, and always
    -- ends: the depth of the schema is enough for the recursion.
    pub validate_impl-Judged :
        (fuel : ℕ) (value : J.Value) (schema : J.Object) (path : Bytes) (errors : List Bytes)
        → F.depth schema < fuel
        → Judged
            (IsOdd schema)
            (Conforms V value schema)
            errors
            (validate_impl V fuel value schema path errors)
    unfolding validate_impl
    validate_impl-Judged zero value schema path errors enough = absurd (omega (arith, enough))
    validate_impl-Judged (suc fuel) value schema path errors enough =
        let nested = validate_impl V fuel in
        let inside : JudgesInside V (IsOdd schema) nested (Conforms V) schema = (
          (λ props at key p inner m is v path errors.
              Judged-raised (IsOdd inner) (IsOdd schema) (Conforms V v inner) errors _
                (λ odd. in_property props key p inner at m is odd)
                (validate_impl-Judged fuel v inner path errors (
                  omega (
                    arith,
                    enough,
                    object_at-depth schema (codes "properties") props at,
                    F.members_depth props key p inner m (as_object-kind p inner is),
                  )))),
          (λ inner at v path errors.
              Judged-raised (IsOdd inner) (IsOdd schema) (Conforms V v inner) errors _
                (λ odd. in_items inner at odd)
                (validate_impl-Judged fuel v inner path errors
                  (omega (arith, enough, object_at-depth schema (codes "items") inner at)))),
        ) in
        Judged-iff (IsOdd schema) errors _ (AllOk-Conforms V (IsOdd schema) nested value schema)
          (Conforms-AllOk V (IsOdd schema) nested value schema)
          (Judged-and_then (IsOdd schema) _ _ errors _ _
            (check_type-Judged V (IsOdd schema) value schema path errors)
            (λ _.
              Judged-and_then (IsOdd schema) _ _ errors _ _
                (check_enum-Judged V (IsOdd schema) value schema path errors)
                (λ _.
                  check_inside-Judged V (IsOdd schema) nested (Conforms V) value schema path errors
                    (λ odd. here odd.0 odd.1 odd.2) inside)))
