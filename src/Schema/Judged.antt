-- ===== src/Schema/Judged.antt =====
-- The validator accepts exactly the values that conform.
use ai_sdk_cpp.Prelude.{
  ◌≡◌, refl, ap, subst, inl, inr, Bool, true, false, not, List, Option, none, some, Bool-cases,
  Bytes, codes, str_eq, str_eq_iff, length, ℤ, pos, ◌≤ℤ◌, leb_ℤ→≤ℤ, ≤ℤ→leb_ℤ, All, arith,
  if◌then◌else◌,
}
use ai_sdk_cpp.Prompt.{Json}
use ai_sdk_cpp.JsonView.{
  JsonView, Among, as_string, as_object, string_at, object_at, array_at, bool_at, int64_at,
}
use ai_sdk_cpp.Schema.{
  Verdict, done, validate_type, raised, check_type, check_enum, validate_object, validate_array,
  when_type, check_min, check_max, check_properties, check_items,
}
use ai_sdk_cpp.Schema.Conforms.{IsOfType, TypeOk, EnumOk, IsFor}
use ai_sdk_cpp.Schema.Loops.{
  Judged, Judged-and_then, Judged-iff, Judged-if, Judged-maybe, has_type-IsOfType,
  IsOfType-has_type, Required, Allowed, Properties, Judges, check_required-Judged,
  check_additional-Judged, check_properties-Judged, check_items-Judged,
}
use ai_sdk_cpp.Schema.Elements.{Among-any, any-Among}

module _ {J : Json} (V : JsonView J) (E : Type 0) where
  pub check_type-Judged :
      (value : J.Value) (schema : J.Object) (path : Bytes) (errors : List Bytes)
      → Judged E (TypeOk V value schema) errors (check_type V value schema path errors)
  unfolding validate_type
  check_type-Judged value schema path errors =
      Judged-maybe E (IsOfType (V.kind value)) errors (string_at V schema (codes "type")) _ (λ t.
        Judged-if E errors _ _ (has_type-IsOfType (V.kind value) t)
          (IsOfType-has_type (V.kind value) t))

  pub check_enum-Judged :
      (value : J.Value) (schema : J.Object) (path : Bytes) (errors : List Bytes)
      → Judged E (EnumOk V value schema) errors (check_enum V value schema path errors)
  check_enum-Judged value schema path errors =
      Judged-maybe E (λ items. (item : J.Value) × Among item items × (V.same item value ≡ true))
        errors (array_at V schema (codes "enum")) _
        (λ items.
          Judged-if E errors _ _ (Among-any V E (λ item. V.same item value) items)
            (λ found. any-Among V E (λ item. V.same item value) items found.0 found.1 found.2))

  -- "additionalProperties" counts only if it is false.
  if_forbidden-Judged :
      (B : Type 0) (errors : List Bytes) (x : Verdict) (o : Option Bool)
      → Judged E B errors x
      → Judged E
          (o ≡ some false → B)
          errors
          (if (elim o [ some allowed ↦ not allowed | none ↦ false ]) then x else done true errors)
  if_forbidden-Judged B errors x none h = ((λ e. cc), refl)
  if_forbidden-Judged B errors x (some true) h = ((λ e. cc), refl)
  if_forbidden-Judged B errors x (some false) h = Judged-iff E errors x (λ b e. b) (λ f. f refl) h

  -- The schema's own type is no string.
  abbrev pub IsOddHere : J.Object → Type 0
  IsOddHere schema =
      (t : J.Value) × (V.member schema (codes "type") ≡ some t) × (as_string V t ≡ none)

  -- What a schema says of a kind of values counts only if it is for that kind.
  pub when_type-Judged :
      (schema : J.Object) (name : Bytes) (A : Type 0) (next : List Bytes → Verdict)
      (errors : List Bytes)
      → (IsOddHere schema → E)
      → Judged E A errors (next errors)
      → Judged E (IsFor V schema name → A) errors (when_type V schema name next errors)
  unfolding string_at
  when_type-Judged schema name A next errors odd h =
      by_member (V.member schema (codes "type")) (λ v at is. odd (v, at, is))
    where
      by_string :
          (s : Option Bytes)
          → (s ≡ none → E)
          → Judged E (s ≡ some name → A) errors (elim s [
            | none ↦ raised
            | some t ↦ if str_eq t name then next errors else done true errors
          ])
      by_string none none_odd = none_odd refl
      by_string (some t) none_odd = elim (Bool-cases (str_eq t name)) [
        | inl same ↦ rw same (
            Judged-iff E errors (next errors) (λ a e. a)
              (λ f. f (ap some ((str_eq_iff t name).0 same))) h)
        | inr other ↦ rw other ((λ e. absurd (ground (arith, e, other, str_eq_iff t name))), refl)
      ]

      by_member :
          (m : Option J.Value)
          → ((v : J.Value) → m ≡ some v → as_string V v ≡ none → E)
          → Judged E
              ((elim m [ none ↦ none | some v ↦ as_string V v ]) ≡ some name → A)
              errors
              (elim m [
                | none ↦ done true errors
                | some t ↦ elim (as_string V t) [
                  | none ↦ raised
                  | some s ↦ if str_eq s name then next errors else done true errors
                ]
              ])
      by_member none member_odd = ((λ e. cc), refl)
      by_member (some v) member_odd = by_string (as_string V v) (member_odd v refl)

  check_min-Judged :
      (arr : List J.Value) (schema : J.Object) (path : Bytes) (errors : List Bytes)
      → Judged E
          ((n : ℤ) → int64_at V schema (codes "minItems") ≡ some n → n ≤ℤ pos (length arr))
          errors
          (check_min V arr schema path errors)
  check_min-Judged arr schema path errors =
      Judged-maybe E (λ n. n ≤ℤ pos (length arr)) errors (int64_at V schema (codes "minItems")) _
        (λ n.
          Judged-if E errors _ _ (leb_ℤ→≤ℤ n (pos (length arr)))
            (λ h. ≤ℤ→leb_ℤ n (pos (length arr)) h))

  check_max-Judged :
      (arr : List J.Value) (schema : J.Object) (path : Bytes) (errors : List Bytes)
      → Judged E
          ((n : ℤ) → int64_at V schema (codes "maxItems") ≡ some n → pos (length arr) ≤ℤ n)
          errors
          (check_max V arr schema path errors)
  check_max-Judged arr schema path errors =
      Judged-maybe E (λ n. pos (length arr) ≤ℤ n) errors (int64_at V schema (codes "maxItems")) _
        (λ n.
          Judged-if E errors _ _ (leb_ℤ→≤ℤ (pos (length arr)) n)
            (λ h. ≤ℤ→leb_ℤ (pos (length arr)) n h))

  module _ (nested : J.Value → J.Object → Bytes → List Bytes → Verdict)
      (Claim : J.Value → J.Object → Type 0) where
    abbrev pub PropertiesOk : J.Object → J.Object → Type 0
    PropertiesOk obj schema =
        (props : J.Object)
        → object_at V schema (codes "properties") ≡ some props
        → Properties V E nested Claim obj (V.members props)

    abbrev pub ObjectOk : J.Object → J.Object → Type 0
    ObjectOk obj schema =
        ((reqs : List J.Value)
          → array_at V schema (codes "required") ≡ some reqs
          → Required V E obj reqs)
        × (PropertiesOk obj schema
            × (bool_at V schema (codes "additionalProperties") ≡ some false
                → (props : J.Object) → object_at V schema (codes "properties") ≡ some props
                → Allowed V E props (V.members obj)))

    -- What is inside of a schema is judged.
    abbrev pub JudgesInside : J.Object → Type 0
    JudgesInside schema =
        ((props : J.Object)
          → object_at V schema (codes "properties") ≡ some props
          → (key : Bytes) (p : J.Value) (inner : J.Object) → Among (key, p) (V.members props)
          → as_object V p ≡ some inner
          → Judges V E nested Claim inner)
        × ((inner : J.Object)
            → object_at V schema (codes "items") ≡ some inner
            → Judges V E nested Claim inner)

    pub validate_object-Judged :
        (obj schema : J.Object) (path : Bytes) (errors : List Bytes)
        → JudgesInside schema
        → Judged E (ObjectOk obj schema) errors (validate_object V nested obj schema path errors)
    unfolding validate_object
    validate_object-Judged obj schema path errors judges =
        Judged-and_then E _ _ errors _ _
          (Judged-maybe E (Required V E obj) errors (array_at V schema (codes "required")) _
            (λ reqs. check_required-Judged V E obj reqs path errors))
          (λ _.
            Judged-and_then E _ _ errors _ _
              (properties (object_at V schema (codes "properties")) judges.0)
              (λ _.
                if_forbidden-Judged _ errors _ (bool_at V schema (codes "additionalProperties")) (
                  Judged-maybe E (λ props. Allowed V E props (V.members obj)) errors
                    (object_at V schema (codes "properties")) _
                    (λ props. check_additional-Judged V E props (V.members obj) path errors))))
      where
        properties :
            (o : Option J.Object)
            → ((props : J.Object)
                → o ≡ some props
                → (key : Bytes) (p : J.Value) (inner : J.Object) → Among (key, p) (V.members props)
                → as_object V p ≡ some inner
                → Judges V E nested Claim inner)
            → Judged E
                ((props : J.Object)
                  → o ≡ some props
                  → Properties V E nested Claim obj (V.members props))
                errors
                (elim o [
                  | none ↦ done true errors
                  | some props ↦ check_properties V nested obj (V.members props) path errors
                ])
        properties none h = ((λ props e. cc), refl)
        properties (some props) h =
            Judged-iff E errors _
              (λ a other e.
                subst (λ ps. Properties V E nested Claim obj (V.members ps)) (ground (arith, e)) a)
              (λ all. all props refl)
              (check_properties-Judged V E nested Claim obj (V.members props) path errors
                (h props refl))

    abbrev pub ArrayOk : List J.Value → J.Object → Type 0
    ArrayOk arr schema =
        ((n : ℤ) → int64_at V schema (codes "minItems") ≡ some n → n ≤ℤ pos (length arr))
        × (((n : ℤ) → int64_at V schema (codes "maxItems") ≡ some n → pos (length arr) ≤ℤ n)
            × ((inner : J.Object)
                → object_at V schema (codes "items") ≡ some inner
                → All (λ v. Claim v inner) arr))

    pub validate_array-Judged :
        (arr : List J.Value) (schema : J.Object) (path : Bytes) (errors : List Bytes)
        → JudgesInside schema
        → Judged E (ArrayOk arr schema) errors (validate_array V nested arr schema path errors)
    unfolding validate_array
    validate_array-Judged arr schema path errors judges =
        Judged-and_then E _ _ errors _ _ (check_min-Judged arr schema path errors) (λ _.
          Judged-and_then E _ _ errors _ _ (check_max-Judged arr schema path errors)
            (λ _. items (object_at V schema (codes "items")) judges.1))
      where
        items :
            (o : Option J.Object)
            → ((inner : J.Object) → o ≡ some inner → Judges V E nested Claim inner)
            → Judged E
                ((inner : J.Object) → o ≡ some inner → All (λ v. Claim v inner) arr)
                errors
                (elim o [
                  | none ↦ done true errors
                  | some inner ↦ check_items V nested 0 arr inner path errors
                ])
        items none h = ((λ inner e. cc), refl)
        items (some inner) h =
            Judged-iff E errors _
              (λ a other e. subst (λ i. All (λ v. Claim v i) arr) (ground (arith, e)) a)
              (λ all. all inner refl)
              (check_items-Judged V E nested Claim 0 arr inner path errors (h inner refl))
