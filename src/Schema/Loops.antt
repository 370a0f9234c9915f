-- ===== src/Schema/Loops.antt =====
-- A verdict that judges a claim, and the loops of the validator.
use ai_sdk_cpp.Prelude.{
  ℕ, suc, ◌≡◌, refl, sym, subst, inl, inr, Bool, true, false, List, [], ◌∷◌, ◌++◌, Option, none,
  some, Option-cases, Bool-cases, is_some, Bytes, codes, str_eq, str_eq_iff, All, arith,
  if◌then◌else◌,
}
use ai_sdk_cpp.Prompt.{Json}
use ai_sdk_cpp.JsonView.{Kind, JsonView, Among, as_string, as_object}
use ai_sdk_cpp.Schema.{
  Verdict, done, raised, no_fuel, and_then, reject, has_type, check_required, check_additional,
  check_properties, check_items, child_path,
}
use ai_sdk_cpp.Schema.Conforms.{IsOfType}

-- An accepting verdict shows the claim and adds no error; a rejecting one refutes it and adds one; an
-- exception shows `E`.
abbrev pub Judged : Type 0 → Type 0 → List Bytes → Verdict → Type 0
Judged E A errors (done true errors') = A × (errors' ≡ errors)
Judged E A errors (done false errors') =
    (¬ A) × (message : Bytes) × (errors' ≡ errors ++ message ∷ [])
Judged E A errors raised = E
Judged E A errors no_fuel = ⊥

pub Judged-and_then :
    (E A B : Type 0) (errors : List Bytes) (x : Verdict) (next : List Bytes → Verdict)
    → Judged E A errors x
    → (A → Judged E B errors (next errors))
    → Judged E (A × B) errors (and_then x next)
Judged-and_then E A B errors (done true e) next h k =
    subst (λ es. Judged E (A × B) errors (next es)) (sym h.1) (both (next errors) (k h.0))
  where
    both : (y : Verdict) → Judged E B errors y → Judged E (A × B) errors y
    both (done true e') g = ((h.0, g.0), g.1)
    both (done false e') g = ((λ ab. g.0 ab.1), g.1, g.2)
    both raised g = g
    both no_fuel g = g
Judged-and_then E A B errors (done false e) next h k = ((λ ab. h.0 ab.0), h.1, h.2)
Judged-and_then E A B errors raised next h k = h
Judged-and_then E A B errors no_fuel next h k = h

-- An equivalent claim.
pub Judged-iff :
    (E : Type 0) {A B : Type 0} (errors : List Bytes) (x : Verdict)
    → (A → B)
    → (B → A)
    → Judged E A errors x
    → Judged E B errors x
Judged-iff E errors (done true e) f g h = (f h.0, h.1)
Judged-iff E errors (done false e) f g h = ((λ b. h.0 (g b)), h.1, h.2)
Judged-iff E errors raised f g h = h
Judged-iff E errors no_fuel f g h = h

-- A test that decides the claim.
pub Judged-if :
    (E : Type 0) {A : Type 0} (errors : List Bytes) (b : Bool) (message : Bytes)
    → (b ≡ true → A)
    → (A → b ≡ true)
    → Judged E A errors (if b then done true errors else reject errors message)
Judged-if E errors true message f g = (f refl, refl)
Judged-if E errors false message f g = ((λ a. cc (g a)), message, refl)

-- A test of what may not be there.
pub Judged-maybe :
    (E : Type 0) {X : Type 0} (A : X → Type 0) (errors : List Bytes) (o : Option X)
    (f : X → Verdict)
    → ((x : X) → Judged E (A x) errors (f x))
    → Judged E
        ((x : X) → o ≡ some x → A x)
        errors
        (elim o [ none ↦ done true errors | some x ↦ f x ])
Judged-maybe E A errors none f h = ((λ x e. cc), refl)
Judged-maybe E A errors (some y) f h =
    Judged-iff E errors (f y) (λ a x e. subst A (ground (arith, e)) a) (λ all. all y refl) (h y)

link :
    (t name : Bytes) (b rest : Bool)
    → (t ≡ name → b ≡ true)
    → rest ≡ true
    → (if str_eq t name then b else rest) ≡ true
link t name b rest h k = elim (Bool-cases (str_eq t name)) [
  | inl same ↦ rw same (h ((str_eq_iff t name).0 same))
  | inr other ↦ rw other k
]

module _ {J : Json} {D : Type 0} (k : Kind J D) (t : Bytes) where
  -- The chain of tests, against the table.
  pub has_type-IsOfType : has_type k t ≡ true → IsOfType k t
  unfolding has_type str_eq
  has_type-IsOfType h =
      let at : (name : Bytes) → t ≡ name → has_type k name ≡ true =
        λ name e. subst (λ t. has_type k t ≡ true) e h in
      (
        at (codes "string"),
        (
          at (codes "number"),
          (
            at (codes "integer"),
            (
              at (codes "boolean"),
              (at (codes "object"), (at (codes "array"), (at (codes "null"), tt))),
            ),
          ),
        ),
      )

  pub IsOfType-has_type : IsOfType k t → has_type k t ≡ true
  unfolding has_type
  IsOfType-has_type h =
      let (string, (number, (integer, (boolean, (obj, (arr, (nil, _))))))) = h in
      link t (codes "string") _ _ string (
        link t (codes "number") _ _ number (
          link t (codes "integer") _ _ integer (
            link t (codes "boolean") _ _ boolean (
              link t (codes "object") _ _ obj
                (link t (codes "array") _ _ arr (link t (codes "null") _ _ nil refl))))))

module _ {J : Json} (V : JsonView J) (E : Type 0) where
  abbrev pub Required : J.Object → List J.Value → Type 0
  Required obj [] = Unit
  Required obj (req ∷ reqs) =
      ((key : Bytes) → as_string V req ≡ some key → (v : J.Value) × (V.member obj key ≡ some v))
      × Required obj reqs

  is_some-member :
      (obj : J.Object) (key : Bytes)
      → is_some (V.member obj key) ≡ true
      → (v : J.Value) × (V.member obj key ≡ some v)
  is_some-member obj key h = elim (Option-cases (V.member obj key)) [
    | inl gone ↦ absurd (ground (arith, h, gone))
    | inr found ↦ found
  ]

  member-is_some :
      (obj : J.Object) (key : Bytes)
      → (v : J.Value) × (V.member obj key ≡ some v)
      → is_some (V.member obj key) ≡ true
  member-is_some obj key (v, found) = rw found

  pub check_required-Judged :
      (obj : J.Object) (reqs : List J.Value) (path : Bytes) (errors : List Bytes)
      → Judged E (Required obj reqs) errors (check_required V obj reqs path errors)
  unfolding check_required
  check_required-Judged obj [] path errors = (tt, refl)
  check_required-Judged obj (req ∷ reqs) path errors =
      Judged-and_then E
        ((key : Bytes) → as_string V req ≡ some key → (v : J.Value) × (V.member obj key ≡ some v))
        (Required obj reqs) errors _ (check_required V obj reqs path)
        (Judged-maybe E (λ key. (v : J.Value) × (V.member obj key ≡ some v)) errors
          (as_string V req) _
          (λ key.
            Judged-if E errors (is_some (V.member obj key)) _ (is_some-member obj key)
              (member-is_some obj key)))
        (λ _. check_required-Judged obj reqs path errors)

  abbrev pub Allowed : J.Object → List (Bytes × J.Value) → Type 0
  Allowed props [] = Unit
  Allowed props ((key, v) ∷ rest) =
      ((p : J.Value) × (V.member props key ≡ some p)) × Allowed props rest

  pub check_additional-Judged :
      (props : J.Object) (members : List (Bytes × J.Value)) (path : Bytes) (errors : List Bytes)
      → Judged E (Allowed props members) errors (check_additional V props members path errors)
  unfolding check_additional
  check_additional-Judged props [] path errors = (tt, refl)
  check_additional-Judged props ((key, v) ∷ rest) path errors =
      Judged-and_then E ((p : J.Value) × (V.member props key ≡ some p)) (Allowed props rest) errors
        _ (check_additional V props rest path)
        (Judged-if E errors (is_some (V.member props key)) _ (is_some-member props key)
          (member-is_some props key))
        (λ _. check_additional-Judged props rest path errors)

  -- The recursive calls judge a claim about what they are given.
  module _ (nested : J.Value → J.Object → Bytes → List Bytes → Verdict)
      (Claim : J.Value → J.Object → Type 0) where
    abbrev pub Properties : J.Object → List (Bytes × J.Value) → Type 0
    Properties obj [] = Unit
    Properties obj ((key, p) ∷ rest) =
        ((v : J.Value)
          → V.member obj key ≡ some v
          → (inner : J.Object) → as_object V p ≡ some inner
          → Claim v inner)
        × Properties obj rest

    -- The calls that are made are judged.
    abbrev pub Judges : J.Object → Type 0
    Judges inner =
        (v : J.Value) (path : Bytes) (errors : List Bytes)
        → Judged E (Claim v inner) errors (nested v inner path errors)

    pub check_properties-Judged :
        (obj : J.Object) (props : List (Bytes × J.Value)) (path : Bytes) (errors : List Bytes)
        → ((key : Bytes) (p : J.Value) (inner : J.Object)
            → Among (key, p) props
            → as_object V p ≡ some inner
            → Judges inner)
        → Judged E (Properties obj props) errors (check_properties V nested obj props path errors)
    unfolding check_properties
    check_properties-Judged obj [] path errors judges = (tt, refl)
    check_properties-Judged obj ((key, p) ∷ rest) path errors judges =
        Judged-and_then E
          ((v : J.Value)
            → V.member obj key ≡ some v
            → (inner : J.Object) → as_object V p ≡ some inner
            → Claim v inner)
          (Properties obj rest) errors _ (check_properties V nested obj rest path)
          (Judged-maybe E (λ v. (inner : J.Object) → as_object V p ≡ some inner → Claim v inner)
            errors (V.member obj key) _
            (λ v. property v (as_object V p) (λ inner e. judges key p inner (inl refl) e)))
          (λ _.
            check_properties-Judged obj rest path errors (λ k q inner m. judges k q inner (inr m)))
      where
        property :
            (v : J.Value) (o : Option J.Object)
            → ((inner : J.Object) → o ≡ some inner → Judges inner)
            → Judged E ((inner : J.Object) → o ≡ some inner → Claim v inner) errors (elim o [
              | none ↦ done true errors
              | some inner ↦ nested v inner (child_path path key) errors
            ])
        property v none h = ((λ inner e. cc), refl)
        property v (some inner) h =
            Judged-iff E errors (nested v inner (child_path path key) errors)
              (λ a x e. subst (Claim v) (ground (arith, e)) a) (λ all. all inner refl)
              (h inner refl v (child_path path key) errors)

    pub check_items-Judged :
        (i : ℕ) (vs : List J.Value) (items : J.Object) (path : Bytes) (errors : List Bytes)
        → Judges items
        → Judged E
            (All (λ v. Claim v items) vs)
            errors
            (check_items V nested i vs items path errors)
    unfolding check_items
    check_items-Judged i [] items path errors judges = (tt, refl)
    check_items-Judged i (v ∷ vs) items path errors judges =
        Judged-and_then E (Claim v items) (All (λ v. Claim v items) vs) errors _
          (check_items V nested (suc i) vs items path) (judges v _ errors)
          (λ _. check_items-Judged (suc i) vs items path errors judges)
