-- ===== src/Middleware/Chain.antt =====
-- The chain of wrappers: the loop from the last middleware to the first.
use ai_sdk_cpp.Prelude.{ℕ, zero, suc, ◌≡◌, refl, ap, ◌∙◌, sym, List, [], ◌∷◌, length, take}
use ai_sdk_cpp.Middleware.{
  Frame, LanguageModel, Middleware, Closures, get_middleware, base, wrap, wrap_at, wrap_down,
  wrap_language_model, start_frame,
}

take-length : {A : Type 0} (xs : List A) → take (length xs) xs ≡ xs
take-length [] = refl
take-length (x ∷ xs) = rw (take-length xs)

module _ {O G R W : Type 0} (moved_from : O → O) where
  -- The first middleware around the chain of the others.
  unfoldable pub nested : List (Middleware O G R W) → Closures O G R W → Closures O G R W
  nested [] c = c
  nested (mw ∷ mws) c = wrap moved_from mw (nested mws c)

  nested-take :
      (mws : List (Middleware O G R W)) (i : ℕ) (c : Closures O G R W)
      → nested (take (suc i) mws) c
        ≡ nested (take i mws) (wrap_at moved_from (get_middleware mws i) c)
  unfolding nested wrap_at get_middleware
  nested-take [] zero c = refl
  nested-take [] (suc i) c = refl
  nested-take (mw ∷ mws) zero c = refl
  nested-take (mw ∷ mws) (suc i) c = ap (wrap moved_from mw) (nested-take mws i c)

  wrap_down-take :
      (mws : List (Middleware O G R W)) (i : ℕ) (c : Closures O G R W)
      → wrap_down moved_from mws i c ≡ nested (take i mws) c
  unfolding nested wrap_down
  wrap_down-take mws zero c = refl
  wrap_down-take mws (suc i) c = wrap_down-take mws i _ ∙ sym (nested-take mws i c)

  pub wrap_down-nested :
      (mws : List (Middleware O G R W)) (c : Closures O G R W)
      → wrap_down moved_from mws (length mws) c ≡ nested mws c
  wrap_down-nested mws c =
      wrap_down-take mws (length mws) c ∙ ap (λ ms. nested ms c) (take-length mws)

-- What is returned, with the world behind the call.
abbrev pub outcome : {O W X : Type 0} → X × Frame O W → X × W
outcome (x, f) = (x, f.world)

module _ {O G R W : Type 0} (moved_from : O → O) (model : LanguageModel O G R W) where
  -- A call of a wrapped model is a call of the first middleware, which is handed the chain of the others
  -- around the model and the options; without middleware it is a call of the model itself.
  pub wrap_language_model-nested :
      (mw : Middleware O G R W) (mws : List (Middleware O G R W)) (options : O) (w : W)
      → let inner = nested moved_from mws (base moved_from model options) in
        (wrap_language_model moved_from model []).do_generate options w
          ≡ model.do_generate options w
        × ((wrap_language_model moved_from model []).do_stream options w
            ≡ model.do_stream options w)
        × ((wrap_language_model moved_from model (mw ∷ mws)).do_generate options w
            ≡ outcome (
                mw.wrap_generate inner.current_generate inner.current_stream
                  (start_frame options w)))
        × ((wrap_language_model moved_from model (mw ∷ mws)).do_stream options w
            ≡ outcome (
                mw.wrap_stream inner.current_generate inner.current_stream (start_frame options w)))
  unfolding wrap_language_model nested wrap
  wrap_language_model-nested mw mws options w =
      let c = base moved_from model options in
      (
        refl,
        refl,
        ap (λ (x : Closures O G R W). outcome (x.current_generate (start_frame options w)))
            (wrap_down-nested moved_from (mw ∷ mws) c),
        ap (λ (x : Closures O G R W). outcome (x.current_stream (start_frame options w)))
            (wrap_down-nested moved_from (mw ∷ mws) c),
      )
