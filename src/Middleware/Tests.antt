-- ===== src/Middleware/Tests.antt =====
-- The chain at a model that tells its options, behind a logger, a tracer and a middleware that edits
-- the options.
use ai_sdk_cpp.Prelude.{
  ℕ, suc, ◌≡◌, refl, List, [], ◌∷◌, ◌++◌, none, some, Bytes, codes, ltb, if◌then◌else◌,
}
use ai_sdk_cpp.Prompt.{plain_json}
use ai_sdk_cpp.Tools.{ok}
use ai_sdk_cpp.Generate.{FinishReason, GenerateResult}
use ai_sdk_cpp.Middleware.{
  LanguageModel, Middleware, base, start_frame, wrapped_model, wrap_language_model,
}
use ai_sdk_cpp.Middleware.Chain.{nested, outcome, wrap_language_model-nested}
use ai_sdk_cpp.Middleware.Logging.{logging_middleware}
use ai_sdk_cpp.Middleware.Telemetry.{Tracer, telemetry_middleware}
use ai_sdk_cpp.Middleware.Observers.{
  seen, beside, logging-IsObserver, telemetry-IsObserver, wrapped_model-observed,
}
use ai_sdk_cpp.Middleware.Unread.{wrapped_model-unread}

abbrev answer : ℕ → GenerateResult plain_json
answer n = record {
  content = [];
  finish_reason = FinishReason.stop;
  usage = record { input_total = some n; output_total = none };
  warnings = [];
}

-- The world counts the calls.
abbrev model : LanguageModel ℕ (GenerateResult plain_json) ℕ ℕ
model = record { do_generate = λ o w. (ok (answer o), suc w); do_stream = λ o w. (ok o, suc w) }

abbrev below_six : ℕ → ℕ
below_six o = if ltb o 6 then o else 0

-- A model that answers 5 as the other does, and after a move.
abbrev other : LanguageModel ℕ (GenerateResult plain_json) ℕ ℕ
other = record {
  do_generate = λ o w. (ok (answer (below_six o)), suc w);
  do_stream = λ o w. (ok (below_six o), suc w);
}

abbrev tracer : Tracer (Unit {0}) (List Bytes)
tracer = record {
  on_start = λ s l. l ++ s.operation ∷ [];
  on_end = λ s l. l ++ codes "end" ∷ [];
  on_error = λ s l. l;
}

abbrev logger : Middleware ℕ (GenerateResult plain_json) ℕ (ℕ × List Bytes)
logger = logging_middleware (λ m l. l ++ m ∷ []) (λ v w. 7)

abbrev tracing : Middleware ℕ (GenerateResult plain_json) ℕ (ℕ × List Bytes)
tracing = telemetry_middleware (λ w. some tracer) (λ v w. tt)

-- Writes into the options, and calls the model twice.
abbrev editor : Middleware ℕ (GenerateResult plain_json) ℕ ℕ
editor = record {
  wrap_generate = λ g s f. let (first, f') = g (record f { options = 9 }) in g f';
  wrap_stream = λ g s f. s (record f { options = 9 });
}

-- The second call of the model gets what a move has left.
moved : (wrapped_model (λ o. 0) model (editor ∷ [])).do_generate 5 0 ≡ (ok (answer 0), 2)
unfolding wrapped_model
moved = refl

unedited : (wrapped_model (λ o. 0) model (editor ∷ [])).do_stream 5 0 ≡ (ok 5, 1)
unfolding wrapped_model
unedited = refl

logged :
    ((wrapped_model (λ o. 0) (beside model) (logger ∷ tracing ∷ [])).do_generate 5 (0, [])).1 ≡ (
      1,
      codes "[generate] Starting call..."
          ∷ codes "ai.generateText"
          ∷ codes "end"
          ∷ codes "[generate] Completed in 7ms | input_tokens=5 | finish_reason=stop"
          ∷ [],
    )
unfolding wrapped_model logging_middleware telemetry_middleware
logged = refl

wrap_language_model-nested_example :
    let inner = nested (λ o. 0) (editor ∷ []) (base (λ o. 0) model 5) in
    (wrap_language_model (λ o. 0) model []).do_generate 5 0 ≡ (ok (answer 5), 1)
    × ((wrap_language_model (λ o. 0) model []).do_stream 5 0 ≡ (ok 5, 1))
    × ((wrap_language_model (λ o. 0) model (editor ∷ editor ∷ [])).do_generate 5 0
        ≡ outcome
            (editor.wrap_generate inner.current_generate inner.current_stream (start_frame 5 0)))
    × ((wrap_language_model (λ o. 0) model (editor ∷ editor ∷ [])).do_stream 5 0
        ≡ outcome
            (editor.wrap_stream inner.current_generate inner.current_stream (start_frame 5 0)))
wrap_language_model-nested_example =
    wrap_language_model-nested (λ o. 0) model editor (editor ∷ []) 5 0

wrapped_model-unread_example :
    ((wrapped_model (λ o. 0) model (editor ∷ [])).do_generate 5 0
      ≡ (wrapped_model (λ o. 0) other (editor ∷ [])).do_generate 5 0)
    × ((wrapped_model (λ o. 0) model (editor ∷ [])).do_stream 5 0
        ≡ (wrapped_model (λ o. 0) other (editor ∷ [])).do_stream 5 0)
wrapped_model-unread_example =
    wrapped_model-unread (λ o. 0) model other (editor ∷ []) 5 0 (λ w. (refl, refl))
      (λ w. (refl, refl))

wrapped_model-observed_example :
    (seen ((wrapped_model (λ o. 0) (beside model) (logger ∷ tracing ∷ [])).do_generate 5 (0, []))
      ≡ (ok (answer 5), 1))
    × (seen ((wrapped_model (λ o. 0) (beside model) (logger ∷ tracing ∷ [])).do_stream 5 (0, []))
        ≡ (ok 5, 1))
wrapped_model-observed_example =
    wrapped_model-observed (λ o. 0) model (logger ∷ tracing ∷ []) 5 0 []
      (
        logging-IsObserver (λ m l. l ++ m ∷ []) (λ v w. 7),
        (telemetry-IsObserver (λ w. some tracer) (λ v w. tt), tt),
      )
