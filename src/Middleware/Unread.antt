-- ===== src/Middleware/Unread.antt =====
-- What the wrapped model is asked, whatever its middleware write into the options.
use ai_sdk_cpp.Prelude.{◌≡◌, ap, ap₂, Bool, true, false, List, length, if◌then◌else◌}
use mathlib.Core.Path.{fun_ext}
use ai_sdk_cpp.Tools.{Attempt}
use ai_sdk_cpp.Middleware.{
  LanguageModel, Middleware, base, base_generate, base_stream, wrap_down, wrapped_model,
  start_frame,
}
use ai_sdk_cpp.Middleware.Chain.{outcome}

if_agree : {A : Type 0} (P : A → Type 0) (b : Bool) {x y : A} → P x → P y → P (if b then x else y)
if_agree P true p q = p
if_agree P false p q = q

module _ {O G R W : Type 0} (moved_from : O → O) (m n : LanguageModel O G R W) where
  -- Two models that answer a question alike.
  abbrev pub Agree : O → Type 0
  Agree o = (w : W) → (m.do_generate o w ≡ n.do_generate o w) × (m.do_stream o w ≡ n.do_stream o w)

  base-Agree : (o : O) → Agree o → Agree (moved_from o) → base moved_from m o ≡ base moved_from n o
  unfolding base base_generate base_stream
  base-Agree o h k =
      ap₂ (λ g s. record { current_generate = g; current_stream = s })
        (fun_ext (λ f.
          ap (λ (x : Attempt G × W). (x.0, record f { generate_moved = true; world = x.1 }))
            (if_agree Agree f.generate_moved k h f.world).0))
        (fun_ext (λ f.
          ap (λ (x : Attempt R × W). (x.0, record f { stream_moved = true; world = x.1 }))
            (if_agree Agree f.stream_moved k h f.world).1))

  -- The middleware cannot make the model see other options: models that agree on the options of the
  -- call, and on what is left of them after a move, cannot be told apart behind the same middleware.
  pub wrapped_model-unread :
      (mws : List (Middleware O G R W)) (options : O) (w : W)
      → Agree options
      → Agree (moved_from options)
      → ((wrapped_model moved_from m mws).do_generate options w
          ≡ (wrapped_model moved_from n mws).do_generate options w)
        × ((wrapped_model moved_from m mws).do_stream options w
            ≡ (wrapped_model moved_from n mws).do_stream options w)
  unfolding wrapped_model
  wrapped_model-unread mws options w h k = (
    ap
        (λ c.
          outcome
            ((wrap_down moved_from mws (length mws) c).current_generate (start_frame options w)))
        (base-Agree options h k),
    ap
        (λ c.
          outcome
            ((wrap_down moved_from mws (length mws) c).current_stream (start_frame options w)))
        (base-Agree options h k),
  )
