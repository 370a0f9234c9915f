-- ===== src/Schema/Inside.antt =====
-- The end of `validate_impl`, and all of it against what it means to conform.
use ai_sdk_cpp.Prelude.{
  ◌≡◌, refl, sym, subst, inl, inr, true, List, [], ◌∷◌, Option, some, Bytes, codes, All, arith,
}
use ai_sdk_cpp.Prompt.{Json}
use ai_sdk_cpp.JsonView.{Kind, JsonView, Among, object_of, array_of, as_object, as_array}
use ai_sdk_cpp.Schema.{Verdict, done, validate_object, validate_array, when_type, check_inside}
use ai_sdk_cpp.Schema.Conforms.{TypeOk, EnumOk, IsFor, Conforms, conforms}
use ai_sdk_cpp.Schema.Loops.{Judged, Judged-iff}
use ai_sdk_cpp.Schema.Elements.{
  Required-Among, Among-Required, Allowed-Among, Among-Allowed, Properties-Among, Among-Properties,
}
use ai_sdk_cpp.Schema.Judged.{
  IsOddHere, when_type-Judged, ObjectOk, ArrayOk, JudgesInside, validate_object-Judged,
  validate_array-Judged,
}

module _ {J : Json} (V : JsonView J) (E : Type 0) where
  module _ (nested : J.Value → J.Object → Bytes → List Bytes → Verdict)
      (Claim : J.Value → J.Object → Type 0) where
    abbrev InsideOk : Option J.Object → Option (List J.Value) → J.Object → Type 0
    InsideOk o a schema =
        ((obj : J.Object)
          → o ≡ some obj
          → IsFor V schema (codes "object")
          → ObjectOk V E nested Claim obj schema)
        × ((arr : List J.Value)
            → a ≡ some arr
            → IsFor V schema (codes "array")
            → ArrayOk V E nested Claim arr schema)

    pub check_inside-Judged :
        (value : J.Value) (schema : J.Object) (path : Bytes) (errors : List Bytes)
        → (IsOddHere V E schema → E)
        → JudgesInside V E nested Claim schema
        → Judged E
            (InsideOk (as_object V value) (as_array V value) schema)
            errors
            (check_inside V nested value schema path errors)
    unfolding as_object as_array
    check_inside-Judged value schema path errors odd judges = by_kind (V.kind value)
      where
        by_kind :
            (k : Kind J V.Double)
            → Judged E (InsideOk (object_of k) (array_of k) schema) errors (elim k [
              | Kind.object_kind obj ↦
                  when_type V schema
                    (codes "object")
                    (validate_object V nested obj schema path)
                    errors
              | Kind.array_kind arr ↦
                  when_type V schema
                    (codes "array")
                    (validate_array V nested arr schema path)
                    errors
              | _ ↦ done true errors
            ])
        by_kind (Kind.object_kind obj) =
            Judged-iff E errors _
              (λ f. (
                (λ other e is_for.
                    subst (λ x. ObjectOk V E nested Claim x schema) (ground (arith, e)) (f is_for)),
                (λ arr e. cc),
              ))
              (λ g. g.0 obj refl)
              (when_type-Judged V E schema (codes "object") (ObjectOk V E nested Claim obj schema)
                (validate_object V nested obj schema path) errors odd
                (validate_object-Judged V E nested Claim obj schema path errors judges))
        by_kind (Kind.array_kind arr) =
            Judged-iff E errors _
              (λ f. (
                (λ obj e. cc),
                (λ other e is_for.
                    subst (λ x. ArrayOk V E nested Claim x schema) (ground (arith, e)) (f is_for)),
              ))
              (λ g. g.1 arr refl)
              (when_type-Judged V E schema (codes "array") (ArrayOk V E nested Claim arr schema)
                (validate_array V nested arr schema path) errors odd
                (validate_array-Judged V E nested Claim arr schema path errors judges))
        by_kind Kind.null_kind = (((λ obj e. cc), (λ arr e. cc)), refl)
        by_kind (Kind.bool_kind b) = (((λ obj e. cc), (λ arr e. cc)), refl)
        by_kind (Kind.int64_kind n) = (((λ obj e. cc), (λ arr e. cc)), refl)
        by_kind (Kind.uint64_kind n) = (((λ obj e. cc), (λ arr e. cc)), refl)
        by_kind (Kind.double_kind d) = (((λ obj e. cc), (λ arr e. cc)), refl)
        by_kind (Kind.string_kind t) = (((λ obj e. cc), (λ arr e. cc)), refl)

    abbrev AllOk : J.Value → J.Object → Type 0
    AllOk value schema =
        TypeOk V value schema
        × (EnumOk V value schema × InsideOk (as_object V value) (as_array V value) schema)

  All-item :
      (P : J.Value → Type 0) (vs : List J.Value) → All P vs → (v : J.Value) → Among v vs → P v
  All-item P [] h v m = absurd m
  All-item P (x ∷ xs) h v (inl e) = subst P (sym e) h.0
  All-item P (x ∷ xs) h v (inr m) = All-item P xs h.1 v m

  item-All :
      (P : J.Value → Type 0) (vs : List J.Value) → ((v : J.Value) → Among v vs → P v) → All P vs
  item-All P [] h = tt
  item-All P (x ∷ xs) h = (h x (inl refl), item-All P xs (λ v m. h v (inr m)))

  module _ (nested : J.Value → J.Object → Bytes → List Bytes → Verdict) (value : J.Value)
      (schema : J.Object) where
    pub AllOk-Conforms : AllOk nested (Conforms V) value schema → Conforms V value schema
    AllOk-Conforms (t, (e, (inside_object, inside_array))) =
        conforms t e
          (λ obj is is_for.
            let (required, (properties, additional)) = inside_object obj is is_for in
            (
              (λ reqs at. Required-Among V E obj reqs (required reqs at)),
              (λ props forbidden at.
                  Allowed-Among V E props (V.members obj) (additional forbidden props at)),
            ))
          (λ obj props is is_for at key p v inner m there is_schema.
            Properties-Among V E nested (Conforms V) obj (V.members props)
              ((inside_object obj is is_for).1.0 props at) key p v inner m there is_schema)
          (λ arr is is_for.
            let (least, (most, items)) = inside_array arr is is_for in (least, most))
          (λ arr inner is is_for at v m.
            All-item (λ v. Conforms V v inner) arr ((inside_array arr is is_for).1.1 inner at) v m)

    pub Conforms-AllOk : Conforms V value schema → AllOk nested (Conforms V) value schema
    Conforms-AllOk (conforms t e object_ok properties_ok size_ok items_ok) = (
      t,
      (
        e,
        (
          (λ obj is is_for. (
            (λ reqs at. Among-Required V E obj reqs ((object_ok obj is is_for).0 reqs at)),
            (
              (λ props at.
                  Among-Properties V E nested (Conforms V) obj (V.members props)
                    (λ key p v inner m there is_schema.
                      properties_ok obj props is is_for at key p v inner m there is_schema)),
              (λ forbidden props at.
                  Among-Allowed V E props (V.members obj)
                    ((object_ok obj is is_for).1 props forbidden at)),
            ),
          )),
          (λ arr is is_for. (
            (size_ok arr is is_for).0,
            (
              (size_ok arr is is_for).1,
              (λ inner at.
                  item-All (λ v. Conforms V v inner) arr
                    (λ v m. items_ok arr inner is is_for at v m)),
            ),
          )),
        ),
      ),
    )
