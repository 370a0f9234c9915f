-- ===== src/Schema.antt =====
-- src/schema/validator.cpp: Validator over the raw object of a schema. The recursion runs on fuel.
pub mod Conforms
pub mod Elements
pub mod Inside
pub mod Judged
pub mod Loops
pub mod Validate
mod Tests
use ai_sdk_cpp.Prelude.{
  ℕ, zero, suc, Bool, true, false, not, ◌&&◌, ◌||◌, List, [], ◌∷◌, ◌++◌, Option, none, some,
  is_some, Bytes, codes, str_eq, is_empty, length, pos, leb_ℤ, any_of, if◌then◌else◌,
}
use ai_sdk_cpp.Prompt.{Json}
use ai_sdk_cpp.JsonView.{
  Kind, JsonView, is_null, is_bool, is_number, is_integer, is_string, is_array, is_object,
  as_string, as_object, as_array, as_bool, as_int64, string_at, object_at, array_at, bool_at,
  int64_at,
}
use ai_sdk_cpp.Permission.{to_string}

-- What a call returns, with the errors so far; `raised` is the exception of `as_string` on a value
-- that is no string, `no_fuel` a recursion that is cut off.
pub data Verdict : Type 0 where
  done : Bool → List Bytes → Verdict
  raised : Verdict
  no_fuel : Verdict

-- `if (!…) return false;`
abbrev pub and_then : Verdict → (List Bytes → Verdict) → Verdict
and_then (done true errors) next = next errors
and_then (done false errors) next = done false errors
and_then raised next = raised
and_then no_fuel next = no_fuel

abbrev pub reject : List Bytes → Bytes → Verdict
reject errors message = done false (errors ++ message ∷ [])

-- The tests of `validate_type`.
unfoldable pub has_type : {J : Json} {D : Type 0} → Kind J D → Bytes → Bool
has_type kind type =
    if str_eq type (codes "string")
    then is_string kind
    else if str_eq type (codes "number")
    then is_number kind
    else if str_eq type (codes "integer")
    then is_integer kind
    else if str_eq type (codes "boolean")
    then is_bool kind
    else if str_eq type (codes "object")
    then is_object kind
    else if str_eq type (codes "array")
    then is_array kind
    else if str_eq type (codes "null")
    then is_null kind
    else true

abbrev pub child_path : Bytes → Bytes → Bytes
child_path path key = if is_empty path then key else path ++ (codes "." ++ key)

module _ {J : Json} (V : JsonView J) where
  unfoldable pub validate_type : J.Value → Bytes → Bytes → List Bytes → Verdict
  unfolding has_type
  validate_type value type path errors =
      if has_type (V.kind value) type
      then done true errors
      else reject errors (path ++ (codes ": expected type " ++ type))

  -- The test of "type" in `validate_impl`.
  abbrev pub check_type : J.Value → J.Object → Bytes → List Bytes → Verdict
  check_type value schema path errors = elim (string_at V schema (codes "type")) [
    | none ↦ done true errors
    | some type ↦ validate_type value type path errors
  ]

  abbrev pub check_enum : J.Value → J.Object → Bytes → List Bytes → Verdict
  check_enum value schema path errors = elim (array_at V schema (codes "enum")) [
    | none ↦ done true errors
    | some items ↦
        if any_of (λ item. V.same item value) items
        then done true errors
        else reject errors (path ++ codes ": value not in enum")
  ]

  -- The loop over "required".
  unfoldable pub check_required : J.Object → List J.Value → Bytes → List Bytes → Verdict
  check_required obj [] path errors = done true errors
  check_required obj (req ∷ reqs) path errors =
      and_then
        (elim (as_string V req) [
          | none ↦ done true errors
          | some key ↦
              if is_some (V.member obj key)
              then done true errors
              else reject errors
                  (path ++ (codes ": missing required field '" ++ (key ++ codes "'")))
        ])
        (check_required obj reqs path)

  -- The loop over "additionalProperties": no member may be without a property.
  unfoldable pub check_additional : J.Object → List (Bytes × J.Value) → Bytes → List Bytes → Verdict
  check_additional props [] path errors = done true errors
  check_additional props ((key, v) ∷ rest) path errors =
      and_then
        (if is_some (V.member props key)
          then done true errors
          else reject errors
              (path ++ (codes ": unexpected additional property '" ++ (key ++ codes "'"))))
        (check_additional props rest path)

  abbrev pub additional_forbidden : J.Object → Bool
  additional_forbidden schema = elim (bool_at V schema (codes "additionalProperties")) [
    | some allowed ↦ not allowed
    | none ↦ false
  ]

  abbrev pub check_min : List J.Value → J.Object → Bytes → List Bytes → Verdict
  check_min arr schema path errors = elim (int64_at V schema (codes "minItems")) [
    | none ↦ done true errors
    | some n ↦
        if leb_ℤ n (pos (length arr))
        then done true errors
        else reject errors (path ++ codes ": array has fewer items than minItems")
  ]

  abbrev pub check_max : List J.Value → J.Object → Bytes → List Bytes → Verdict
  check_max arr schema path errors = elim (int64_at V schema (codes "maxItems")) [
    | none ↦ done true errors
    | some n ↦
        if leb_ℤ (pos (length arr)) n
        then done true errors
        else reject errors (path ++ codes ": array has more items than maxItems")
  ]

  -- `type_it->value().as_string() == name`, when the schema has a type.
  abbrev pub when_type : J.Object → Bytes → (List Bytes → Verdict) → List Bytes → Verdict
  when_type schema name next errors = elim (V.member schema (codes "type")) [
    | none ↦ done true errors
    | some t ↦ elim (as_string V t) [
      | none ↦ raised
      | some s ↦ if str_eq s name then next errors else done true errors
    ]
  ]

  -- The recursive calls are the argument `nested`.
  module _ (nested : J.Value → J.Object → Bytes → List Bytes → Verdict) where
    -- A property that the object has, with a schema that is an object.
    abbrev pub check_property : J.Object → Bytes → J.Value → Bytes → List Bytes → Verdict
    check_property obj key prop_schema path errors = elim (V.member obj key) [
      | none ↦ done true errors
      | some v ↦ elim (as_object V prop_schema) [
        | none ↦ done true errors
        | some schema ↦ nested v schema (child_path path key) errors
      ]
    ]

    unfoldable pub check_properties :
        J.Object → List (Bytes × J.Value) → Bytes → List Bytes → Verdict
    check_properties obj [] path errors = done true errors
    check_properties obj ((key, prop_schema) ∷ rest) path errors =
        and_then (check_property obj key prop_schema path errors) (check_properties obj rest path)

    unfoldable pub validate_object : J.Object → J.Object → Bytes → List Bytes → Verdict
    unfolding check_required check_properties check_additional
    validate_object obj schema path errors =
        and_then
          (elim (array_at V schema (codes "required")) [
            | none ↦ done true errors
            | some reqs ↦ check_required obj reqs path errors
          ])
          (λ errors.
            and_then
              (elim (object_at V schema (codes "properties")) [
                | none ↦ done true errors
                | some props ↦ check_properties obj (V.members props) path errors
              ])
              (λ errors.
                if additional_forbidden schema
                then (elim (object_at V schema (codes "properties")) [
                  | none ↦ done true errors
                  | some props ↦ check_additional props (V.members obj) path errors
                ])
                else done true errors))

    unfoldable pub check_items : ℕ → List J.Value → J.Object → Bytes → List Bytes → Verdict
    unfolding to_string
    check_items i [] items path errors = done true errors
    check_items i (v ∷ vs) items path errors =
        and_then (nested v items (path ++ (codes "[" ++ (to_string i ++ codes "]"))) errors)
          (check_items (suc i) vs items path)

    unfoldable pub validate_array : List J.Value → J.Object → Bytes → List Bytes → Verdict
    unfolding check_items
    validate_array arr schema path errors = and_then (check_min arr schema path errors) (λ errors.
        and_then (check_max arr schema path errors) (λ errors.
          elim (object_at V schema (codes "items")) [
            | none ↦ done true errors
            | some items ↦ check_items 0 arr items path errors
          ]))

    -- The end of `validate_impl`.
    abbrev pub check_inside : J.Value → J.Object → Bytes → List Bytes → Verdict
    check_inside value schema path errors = elim (V.kind value) [
      | Kind.object_kind obj ↦
          when_type schema (codes "object") (validate_object obj schema path) errors
      | Kind.array_kind arr ↦
          when_type schema (codes "array") (validate_array arr schema path) errors
      | _ ↦ done true errors
    ]

  unfoldable pub validate_impl : ℕ → J.Value → J.Object → Bytes → List Bytes → Verdict
  unfolding validate_type validate_object validate_array
  validate_impl zero value schema path errors = no_fuel
  validate_impl (suc fuel) value schema path errors =
      and_then (check_type value schema path errors) (λ errors.
        and_then (check_enum value schema path errors)
          (check_inside (validate_impl fuel) value schema path))

pub record ValidationResult (J : Json) : Type 0 where
  pub success : Bool
  pub value : Option J.Value
  pub errors : List Bytes

-- `Validator::validate`; `none` is an exception, or a recursion that is cut off.
abbrev pub validation_result : {J : Json} → J.Value → Verdict → Option (ValidationResult J)
validation_result value (done true errors) =
    some (record { success = true; value = some value; errors = [] })
validation_result value (done false errors) =
    some (record { success = false; value = none; errors = errors })
validation_result value _ = none

unfoldable pub validate :
    {J : Json} → JsonView J → ℕ → J.Object → J.Value → Option (ValidationResult J)
unfolding validate_impl
validate V fuel schema value = validation_result value (validate_impl V fuel value schema [] [])
