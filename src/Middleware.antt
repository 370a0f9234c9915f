-- ===== src/Middleware.antt =====
-- src/model/middleware.cpp with include/ai/model/middleware.hpp: the chain of wrappers around a model.
-- A call is a closure, and a middleware is handed its `do_generate` and `do_stream` by value. The
-- options of the call are one object that all middleware see by reference.
pub mod Chain
pub mod Logging
pub mod Observers
pub mod Telemetry
pub mod Unread
mod Tests
use ai_sdk_cpp.Prelude.{
  ℕ, zero, suc, Bool, true, false, List, [], ◌∷◌, Option, none, some, length, if◌then◌else◌,
}
use ai_sdk_cpp.Tools.{Attempt, Task}

-- What a call of the model reads and changes: the options behind the reference, and whether the
-- copies of the two innermost closures that are being called have moved their options away.
pub record Frame (O W : Type 0) : Type 0 where
  pub options : O
  pub generate_moved : Bool
  pub stream_moved : Bool
  pub world : W

-- `GenerateFn` and `StreamFn`.
abbrev pub Call : Type 0 → Type 0 → Type 0 → Type 0
Call O W R = Task (Frame O W) R

-- O: options, G: result of `do_generate`, R: result of `do_stream`.
pub record LanguageModel (O G R W : Type 0) : Type 0 where
  pub do_generate : O → Task W G
  pub do_stream : O → Task W R

pub record Middleware (O G R W : Type 0) : Type 0 where
  pub wrap_generate : Call O W G → Call O W R → Call O W G
  pub wrap_stream : Call O W G → Call O W R → Call O W R

-- The methods of the base class.
abbrev pub default_middleware : {O G R W : Type 0} → Middleware O G R W
default_middleware = record {
  wrap_generate = λ do_generate do_stream. do_generate;
  wrap_stream = λ do_generate do_stream. do_stream;
}

-- The closures that the loop carries.
pub record Closures (O G R W : Type 0) : Type 0 where
  pub current_generate : Call O W G
  pub current_stream : Call O W R

-- `middleware_[i]`.
unfoldable pub get_middleware : {A : Type 0} → List A → ℕ → Option A
get_middleware [] i = none
get_middleware (m ∷ ms) zero = some m
get_middleware (m ∷ ms) (suc i) = get_middleware ms i

-- A closure that is copied starts with the options that it has captured.
abbrev pub fresh : {O W : Type 0} → Frame O W → Frame O W
fresh f = record f { generate_moved = false; stream_moved = false }

abbrev pub start_frame : {O W : Type 0} → O → W → Frame O W
start_frame options w = record {
  options = options;
  generate_moved = false;
  stream_moved = false;
  world = w;
}

module _ {O G R W : Type 0} (moved_from : O → O) where
  -- `co_await inner->do_generate(std::move(opts))` over the captured copy, and its stream.
  unfoldable pub base_generate : LanguageModel O G R W → O → Call O W G
  base_generate inner opts f =
      let (attempt, w) =
        inner.do_generate (if f.generate_moved then moved_from opts else opts) f.world in
      (attempt, record f { generate_moved = true; world = w })

  unfoldable pub base_stream : LanguageModel O G R W → O → Call O W R
  base_stream inner opts f =
      let (attempt, w) =
        inner.do_stream (if f.stream_moved then moved_from opts else opts) f.world in
      (attempt, record f { stream_moved = true; world = w })

  -- The two lambdas of a round of the loop; each call hands copies of the closures on.
  unfoldable pub wrap : Middleware O G R W → Closures O G R W → Closures O G R W
  wrap mw prev = record {
    current_generate = λ f. mw.wrap_generate prev.current_generate prev.current_stream (fresh f);
    current_stream = λ f. mw.wrap_stream prev.current_generate prev.current_stream (fresh f);
  }

  unfoldable pub wrap_at : Option (Middleware O G R W) → Closures O G R W → Closures O G R W
  unfolding wrap
  wrap_at none prev = prev
  wrap_at (some mw) prev = wrap mw prev

  -- The loop from `i - 1` down to 0.
  unfoldable pub wrap_down : List (Middleware O G R W) → ℕ → Closures O G R W → Closures O G R W
  unfolding wrap_at get_middleware
  wrap_down middleware zero current = current
  wrap_down middleware (suc i) current =
      wrap_down middleware i (wrap_at (get_middleware middleware i) current)

  unfoldable pub base : LanguageModel O G R W → O → Closures O G R W
  unfolding base_generate base_stream
  base inner opts = record {
    current_generate = base_generate inner opts;
    current_stream = base_stream inner opts;
  }

  -- `MiddlewareWrappedModel`.
  unfoldable pub wrapped_model :
      LanguageModel O G R W → List (Middleware O G R W) → LanguageModel O G R W
  unfolding wrap_down base
  wrapped_model inner middleware = record {
    do_generate = λ options w.
        let (attempt, f) =
          (wrap_down middleware (length middleware) (base inner options)).current_generate
            (start_frame options w) in
        (attempt, f.world);
    do_stream = λ options w.
        let (attempt, f) =
          (wrap_down middleware (length middleware) (base inner options)).current_stream
            (start_frame options w) in
        (attempt, f.world);
  }

  unfoldable pub wrap_language_model :
      LanguageModel O G R W → List (Middleware O G R W) → LanguageModel O G R W
  unfolding wrapped_model
  wrap_language_model model [] = model
  wrap_language_model model (mw ∷ mws) = wrapped_model model (mw ∷ mws)
