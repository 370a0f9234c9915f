-- ===== src/Middleware/Observers.antt =====
-- Middleware that only watches.
use ai_sdk_cpp.Prelude.{
  ◌≡◌, refl, sym, subst, codes, ◌∙◌, false, List, [], ◌∷◌, All, Option, none, some, Bytes, ℕ,
}
use ai_sdk_cpp.Prompt.{Json}
use ai_sdk_cpp.Tools.{Attempt, ok, threw}
use ai_sdk_cpp.Generate.{GenerateResult}
use ai_sdk_cpp.Middleware.{
  Frame, Call, LanguageModel, Middleware, Closures, base, base_generate, base_stream, wrap,
  wrapped_model, start_frame, fresh,
}
use ai_sdk_cpp.Middleware.Chain.{nested, outcome, wrap_down-nested}
use ai_sdk_cpp.Middleware.Logging.{with_log, completed, logging_middleware}
use ai_sdk_cpp.Middleware.Telemetry.{
  SpanAttributes, ended_span, failed_span, Tracer, no_attributes, traced_generate,
  telemetry_generate, telemetry_stream, telemetry_middleware,
}

module _ {M L : Type 0} where
  -- What is left of an outcome without the log.
  abbrev pub seen : {X : Type 0} → X × (M × L) → X × M
  seen (x, (m, l)) = (x, m)

  -- A model that keeps no log, beside one.
  abbrev pub on_left : {X : Type 0} → X × M → L → X × (M × L)
  on_left (x, m) l = (x, (m, l))

  abbrev pub beside : {O G R : Type 0} → LanguageModel O G R M → LanguageModel O G R (M × L)
  beside model = record {
    do_generate = λ o w. on_left (model.do_generate o w.0) w.1;
    do_stream = λ o w. on_left (model.do_stream o w.0) w.1;
  }

  module _ {O : Type 0} where
    -- A call that does to the options' frame what another does, up to the log it starts with.
    abbrev pub Watches : {X : Type 0} → Call O (M × L) X → Call O (M × L) X → Type 0
    Watches watcher call =
        (f : Frame O (M × L))
        → (l : L) × (seen (outcome (watcher f))
            ≡ seen (outcome (call (record f { world = (f.world.0, l) }))))

    pub record IsObserver {G R : Type 0} (mw : Middleware O G R (M × L)) : Type 0 where
      pub generates :
          (g : Call O (M × L) G) (s : Call O (M × L) R) → Watches (mw.wrap_generate g s) g
      pub streams : (g : Call O (M × L) G) (s : Call O (M × L) R) → Watches (mw.wrap_stream g s) s

seen-ok :
    {O M L X : Type 0} (change : X → L → L) (x : Attempt X × Frame O (M × L))
    → seen {M = M} {L = L} (
        outcome {O = O} {X = Attempt _}
          (elim x.0 [ threw e ↦ (threw e, x.1) | ok r ↦ (ok r, with_log (change r) x.1) ]))
      ≡ seen {M = M} {L = L} (outcome {O = O} x)
seen-ok change (ok r, f) = refl
seen-ok change (threw e, f) = refl

seen-both :
    {O M L X : Type 0} (change : X → L → L) (failed : Bytes → L → L)
    (x : Attempt X × Frame O (M × L))
    → seen {M = M} {L = L} (
        outcome {O = O} {X = Attempt _} (elim x.0 [
          | ok r ↦ (ok r, with_log (change r) x.1)
          | threw e ↦ (threw e, with_log (failed e) x.1)
        ]))
      ≡ seen {M = M} {L = L} (outcome {O = O} x)
seen-both change failed (ok r, f) = refl
seen-both change failed (threw e, f) = refl

module _ {J : Json} {O M L D : Type 0} (elapsed : M × L → M × L → D) where
  traced_generate-Watches :
      (tracer : Tracer D L) (g : Call O (M × L) (GenerateResult J))
      → Watches (traced_generate elapsed tracer g) g
  unfolding traced_generate
  traced_generate-Watches tracer g f =
      let attrs : SpanAttributes D = no_attributes (codes "ai.generateText") in
      let started = with_log (tracer.on_start attrs) f in
      let ended = g started in
      (
        tracer.on_start attrs f.world.1,
        seen-both (λ r. tracer.on_end (ended_span attrs (elapsed started.world ended.1.world) r))
            (λ e. tracer.on_error (failed_span attrs (elapsed started.world ended.1.world) e))
            ended,
      )

module _ {J : Json} {O R M L : Type 0} where
  pub logging-IsObserver :
      (log : Bytes → L → L) (elapsed_ms : M × L → M × L → ℕ)
      → IsObserver {O = O} {R = R} (logging_middleware {J = J} log elapsed_ms)
  unfolding logging_middleware
  logging-IsObserver log elapsed_ms = record {
    generates = λ g s f. (
      log (codes "[generate] Starting call...") f.world.1,
      let ended = g (with_log (log (codes "[generate] Starting call...")) f) in
          seen-ok (λ r. log (completed (elapsed_ms f.world ended.1.world) r)) ended,
    );
    streams = λ g s f. (
      log (codes "[stream] Starting call...") f.world.1,
      seen-ok (λ r. log (codes "[stream] Stream opened"))
          (s (with_log (log (codes "[stream] Starting call...")) f)),
    );
  }

  module _ {D : Type 0} (get_tracer : M × L → Option (Tracer D L))
      (elapsed : M × L → M × L → D) where
    telemetry_generate-Watches :
        (g : Call O (M × L) (GenerateResult J)) (s : Call O (M × L) R)
        → Watches (telemetry_generate get_tracer elapsed g s) g
    unfolding telemetry_generate
    telemetry_generate-Watches g s f =
        elim (get_tracer f.world)
          as (λ x.
            (l : L) × (seen {M = M} {L = L} (
                outcome {O = O} {X = Attempt _}
                  (elim x [ none ↦ g f | some tracer ↦ traced_generate elapsed tracer g f ]))
              ≡ seen (outcome (g (record f { world = (f.world.0, l) }))))) [
                | none ↦ (f.world.1, refl)
                | some tracer ↦ traced_generate-Watches elapsed tracer g f
              ]

    telemetry_stream-Watches :
        (g : Call O (M × L) (GenerateResult J)) (s : Call O (M × L) R)
        → Watches (telemetry_stream get_tracer elapsed g s) s
    unfolding telemetry_stream
    telemetry_stream-Watches g s f =
        elim (get_tracer f.world)
          as (λ x.
            (l : L) × (seen {M = M} {L = L} (
                outcome {O = O} {X = Attempt _} (elim x [
                  | none ↦ s f
                  | some tracer ↦
                      s (with_log (tracer.on_start (no_attributes (codes "ai.streamText"))) f)
                ]))
              ≡ seen (outcome (s (record f { world = (f.world.0, l) }))))) [
                | none ↦ (f.world.1, refl)
                | some tracer ↦
                    (tracer.on_start (no_attributes (codes "ai.streamText")) f.world.1, refl)
              ]

    pub telemetry-IsObserver :
        IsObserver {O = O} {R = R} (telemetry_middleware {J = J} get_tracer elapsed)
    unfolding telemetry_middleware
    telemetry-IsObserver = record {
      generates = telemetry_generate-Watches;
      streams = telemetry_stream-Watches;
    }

module _ {O G R M L : Type 0} (moved_from : O → O) (model : LanguageModel O G R M) where
  abbrev IsFresh : Frame O (M × L) → Type 0
  IsFresh f = (f.generate_moved ≡ false) × (f.stream_moved ≡ false)

  -- The closures give what the model gives.
  abbrev Answers : O → Closures O G R (M × L) → Type 0
  Answers options c =
      ((f : Frame O (M × L))
        → IsFresh f
        → seen (outcome (c.current_generate f)) ≡ model.do_generate options f.world.0)
      × ((f : Frame O (M × L))
          → IsFresh f
          → seen (outcome (c.current_stream f)) ≡ model.do_stream options f.world.0)

  base-Answers : (options : O) → Answers options (base moved_from (beside model) options)
  unfolding base base_generate base_stream
  base-Answers options = ((λ f is_fresh. rw is_fresh.0), (λ f is_fresh. rw is_fresh.1))

  wrap-Answers :
      (mw : Middleware O G R (M × L)) (options : O) (c : Closures O G R (M × L))
      → IsObserver mw
      → Answers options c
      → Answers options (wrap moved_from mw c)
  unfolding wrap
  wrap-Answers mw options c watches h = (
    (λ f _.
        let (l, same) = watches.generates c.current_generate c.current_stream (fresh f) in
        same
        ∙ h.0 (record f { generate_moved = false; stream_moved = false; world = (f.world.0, l) })
            (refl, refl)),
    (λ f _.
        let (l, same) = watches.streams c.current_generate c.current_stream (fresh f) in
        same
        ∙ h.1 (record f { generate_moved = false; stream_moved = false; world = (f.world.0, l) })
            (refl, refl)),
  )

  nested-Answers :
      (mws : List (Middleware O G R (M × L))) (options : O)
      → All IsObserver mws
      → Answers options (nested moved_from mws (base moved_from (beside model) options))
  unfolding nested
  nested-Answers [] options h = base-Answers options
  nested-Answers (mw ∷ mws) options h =
      wrap-Answers mw options _ h.0 (nested-Answers mws options h.1)

  -- Behind middleware that only watches, in any number and order, a model gives what it gives alone:
  -- the same answer or exception, and the same change of what is outside the log.
  pub wrapped_model-observed :
      (mws : List (Middleware O G R (M × L))) (options : O) (m : M) (l : L)
      → All IsObserver mws
      → (seen ((wrapped_model moved_from (beside model) mws).do_generate options (m, l))
          ≡ model.do_generate options m)
        × (seen ((wrapped_model moved_from (beside model) mws).do_stream options (m, l))
            ≡ model.do_stream options m)
  unfolding wrapped_model
  wrapped_model-observed mws options m l h =
      let answers =
        subst (Answers options)
          (sym (wrap_down-nested moved_from mws (base moved_from (beside model) options)))
          (nested-Answers mws options h) in
      (
        answers.0 (start_frame options (m, l)) (refl, refl),
        answers.1 (start_frame options (m, l)) (refl, refl),
      )
