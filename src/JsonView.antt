-- ===== src/JsonView.antt =====
-- boost::json as the code reads it: the kinds of a value, the members of an object, and the
-- functions of include/ai/util/json.hpp. The library itself is a parameter.
pub mod Trees
use ai_sdk_cpp.Prelude.{
  ℕ, ◌<◌, ◌≡◌, ◌⊎◌, inl, inr, Bool, true, false, List, [], ◌∷◌, Option, none, some, Bytes, ℤ,
}
use ai_sdk_cpp.Prompt.{Json}

-- `value::kind()`, with what the kind gives access to.
pub data Kind (J : Json) (D : Type 0) : Type 0 where
  null_kind : Kind J D
  bool_kind : Bool → Kind J D
  int64_kind : ℤ → Kind J D
  uint64_kind : ℕ → Kind J D
  double_kind : D → Kind J D
  string_kind : Bytes → Kind J D
  array_kind : List J.Value → Kind J D
  object_kind : J.Object → Kind J D

pub record JsonView (J : Json) : Type 1 where
  pub Double : Type 0
  pub kind : J.Value → Kind J Double
  -- `object::find`.
  pub member : J.Object → Bytes → Option J.Value
  -- The members in the order in which an object is walked.
  pub members : J.Object → List (Bytes × J.Value)
  -- `operator==`.
  pub same : J.Value → J.Value → Bool

abbrev pub Among : {A : Type 0} → A → List A → Type 0
Among x [] = ⊥
Among x (y ∷ ys) = (x ≡ y) ⊎ Among x ys

-- A value is finite: what an object holds is less deep.
pub record IsFinite {J : Json} (V : JsonView J) : Type 0 where
  pub depth : J.Object → ℕ
  pub member_depth :
      (o : J.Object) (key : Bytes) (v : J.Value) (inner : J.Object)
      → V.member o key ≡ some v
      → V.kind v ≡ Kind.object_kind inner
      → depth inner < depth o
  pub members_depth :
      (o : J.Object) (key : Bytes) (v : J.Value) (inner : J.Object)
      → Among (key, v) (V.members o)
      → V.kind v ≡ Kind.object_kind inner
      → depth inner < depth o

module _ {J : Json} {D : Type 0} where
  -- `is_string()` and the other tests of the kind.
  abbrev pub is_null : Kind J D → Bool
  is_null Kind.null_kind = true
  is_null _ = false

  abbrev pub is_bool : Kind J D → Bool
  is_bool (Kind.bool_kind b) = true
  is_bool _ = false

  abbrev pub is_number : Kind J D → Bool
  is_number (Kind.int64_kind n) = true
  is_number (Kind.uint64_kind n) = true
  is_number (Kind.double_kind d) = true
  is_number _ = false

  abbrev pub is_integer : Kind J D → Bool
  is_integer (Kind.int64_kind n) = true
  is_integer (Kind.uint64_kind n) = true
  is_integer _ = false

  abbrev pub is_string : Kind J D → Bool
  is_string (Kind.string_kind s) = true
  is_string _ = false

  abbrev pub is_array : Kind J D → Bool
  is_array (Kind.array_kind vs) = true
  is_array _ = false

  abbrev pub is_object : Kind J D → Bool
  is_object (Kind.object_kind o) = true
  is_object _ = false

  -- What a value of the kind gives access to.
  abbrev pub string_of : Kind J D → Option Bytes
  string_of (Kind.string_kind s) = some s
  string_of _ = none

  abbrev pub object_of : Kind J D → Option J.Object
  object_of (Kind.object_kind o) = some o
  object_of _ = none

  abbrev pub array_of : Kind J D → Option (List J.Value)
  array_of (Kind.array_kind vs) = some vs
  array_of _ = none

  abbrev pub bool_of : Kind J D → Option Bool
  bool_of (Kind.bool_kind b) = some b
  bool_of _ = none

  abbrev pub int64_of : Kind J D → Option ℤ
  int64_of (Kind.int64_kind n) = some n
  int64_of _ = none

module _ {J : Json} (V : JsonView J) where
  unfoldable pub as_string : J.Value → Option Bytes
  as_string v = string_of (V.kind v)

  unfoldable pub as_object : J.Value → Option J.Object
  as_object v = object_of (V.kind v)

  unfoldable pub as_array : J.Value → Option (List J.Value)
  as_array v = array_of (V.kind v)

  unfoldable pub as_bool : J.Value → Option Bool
  as_bool v = bool_of (V.kind v)

  unfoldable pub as_int64 : J.Value → Option ℤ
  as_int64 v = int64_of (V.kind v)

  -- A member of an object, if it has the kind that is asked for.
  unfoldable pub string_at : J.Object → Bytes → Option Bytes
  unfolding as_string
  string_at o key = elim (V.member o key) [ none ↦ none | some v ↦ as_string v ]

  unfoldable pub object_at : J.Object → Bytes → Option J.Object
  unfolding as_object
  object_at o key = elim (V.member o key) [ none ↦ none | some v ↦ as_object v ]

  unfoldable pub array_at : J.Object → Bytes → Option (List J.Value)
  unfolding as_array
  array_at o key = elim (V.member o key) [ none ↦ none | some v ↦ as_array v ]

  unfoldable pub bool_at : J.Object → Bytes → Option Bool
  unfolding as_bool
  bool_at o key = elim (V.member o key) [ none ↦ none | some v ↦ as_bool v ]

  unfoldable pub int64_at : J.Object → Bytes → Option ℤ
  unfolding as_int64
  int64_at o key = elim (V.member o key) [ none ↦ none | some v ↦ as_int64 v ]
