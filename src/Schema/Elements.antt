-- ===== src/Schema/Elements.antt =====
-- The claims of the loops, for each element.
use ai_sdk_cpp.Prelude.{
  ◌≡◌, refl, sym, ap, subst, ◌∙◌, inl, inr, Bool, true, List, [], ◌∷◌, some, Bool-cases, Bytes,
  any_of, arith,
}
use ai_sdk_cpp.Prompt.{Json}
use ai_sdk_cpp.JsonView.{JsonView, Among, as_string, as_object}
use ai_sdk_cpp.Schema.{Verdict}
use ai_sdk_cpp.Schema.Loops.{Required, Allowed, Properties}

module _ {J : Json} (V : JsonView J) (E : Type 0) where
  pub Among-any :
      (p : J.Value → Bool) (items : List J.Value)
      → any_of p items ≡ true
      → (item : J.Value) × Among item items × (p item ≡ true)
  Among-any p [] h = cc
  Among-any p (x ∷ xs) h = elim (Bool-cases (p x)) [
    | inl yes_x ↦ (x, inl refl, yes_x)
    | inr no_x ↦ let (item, m, q) = Among-any p xs (ground (arith, h, no_x)) in (item, inr m, q)
  ]

  pub any-Among :
      (p : J.Value → Bool) (items : List J.Value) (item : J.Value)
      → Among item items
      → p item ≡ true
      → any_of p items ≡ true
  any-Among p [] item m q = absurd m
  any-Among p (x ∷ xs) item (inl e) q = ground (arith, subst (λ y. p y ≡ true) e q)
  any-Among p (x ∷ xs) item (inr m) q = ground (arith, any-Among p xs item m q)

  -- The claims of the loops, for each element.
  pub Required-Among :
      (obj : J.Object) (reqs : List J.Value)
      → Required V E obj reqs
      → (req : J.Value) (key : Bytes) → Among req reqs
      → as_string V req ≡ some key
      → (v : J.Value) × (V.member obj key ≡ some v)
  Required-Among obj [] h req key m e = absurd m
  Required-Among obj (r ∷ rs) h req key (inl same) e = h.0 key (ap (as_string V) (sym same) ∙ e)
  Required-Among obj (r ∷ rs) h req key (inr m) e = Required-Among obj rs h.1 req key m e

  pub Among-Required :
      (obj : J.Object) (reqs : List J.Value)
      → ((req : J.Value) (key : Bytes)
          → Among req reqs
          → as_string V req ≡ some key
          → (v : J.Value) × (V.member obj key ≡ some v))
      → Required V E obj reqs
  Among-Required obj [] h = tt
  Among-Required obj (r ∷ rs) h =
      ((λ key. h r key (inl refl)), Among-Required obj rs (λ req key m. h req key (inr m)))

  pub Allowed-Among :
      (props : J.Object) (members : List (Bytes × J.Value))
      → Allowed V E props members
      → (key : Bytes) (v : J.Value) → Among (key, v) members
      → (p : J.Value) × (V.member props key ≡ some p)
  Allowed-Among props [] h key v m = absurd m
  Allowed-Among props ((k, w) ∷ rest) h key v (inl same) =
      subst (λ (x : Bytes × J.Value). (p : J.Value) × (V.member props x.0 ≡ some p)) (sym same) h.0
  Allowed-Among props ((k, w) ∷ rest) h key v (inr m) = Allowed-Among props rest h.1 key v m

  pub Among-Allowed :
      (props : J.Object) (members : List (Bytes × J.Value))
      → ((key : Bytes) (v : J.Value)
          → Among (key, v) members
          → (p : J.Value) × (V.member props key ≡ some p))
      → Allowed V E props members
  Among-Allowed props [] h = tt
  Among-Allowed props ((k, w) ∷ rest) h =
      (h k w (inl refl), Among-Allowed props rest (λ key v m. h key v (inr m)))

  module _ (nested : J.Value → J.Object → Bytes → List Bytes → Verdict)
      (Claim : J.Value → J.Object → Type 0) where
    pub Properties-Among :
        (obj : J.Object) (props : List (Bytes × J.Value))
        → Properties V E nested Claim obj props
        → (key : Bytes) (p v : J.Value) (inner : J.Object) → Among (key, p) props
        → V.member obj key ≡ some v
        → as_object V p ≡ some inner
        → Claim v inner
    Properties-Among obj [] h key p v inner m at is = absurd m
    Properties-Among obj ((k, q) ∷ rest) h key p v inner (inl same) at is =
        h.0 v (ap (λ x. V.member obj x.0) (sym same) ∙ at) inner
          (ap (λ x. as_object V x.1) (sym same) ∙ is)
    Properties-Among obj ((k, q) ∷ rest) h key p v inner (inr m) at is =
        Properties-Among obj rest h.1 key p v inner m at is

    pub Among-Properties :
        (obj : J.Object) (props : List (Bytes × J.Value))
        → ((key : Bytes) (p v : J.Value) (inner : J.Object)
            → Among (key, p) props
            → V.member obj key ≡ some v
            → as_object V p ≡ some inner
            → Claim v inner)
        → Properties V E nested Claim obj props
    Among-Properties obj [] h = tt
    Among-Properties obj ((k, q) ∷ rest) h = (
      (λ v at inner is. h k q v inner (inl refl) at is),
      Among-Properties obj rest (λ key p v inner m. h key p v inner (inr m)),
    )
