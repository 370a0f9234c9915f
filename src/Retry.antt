-- ===== src/Retry.antt =====
-- include/ai/util/retry.hpp: calls that are
-- made again after an error that may pass. The call is a function over the state `W` of the world;
-- the delay by backoff is an argument, since it is a random product of fractions, and so is the sleep.
pub mod Bounded
mod Tests
use ai_sdk_cpp.Prelude.{
  ℕ, zero, suc, ◌*◌, Bool, true, false, Option, none, some, Bytes, ℤ, pos, negsuc, sub_ℕ,
  if◌then◌else◌, leb_ℤ,
}
use ai_sdk_cpp.Errors.{ApiCallError, Exception, retry_after}

-- A call that returns or throws.
pub data Outcome {ℓ} (A : Type ℓ) : Type ℓ where
  returned : A → Outcome A
  threw : Exception → Outcome A

unfoldable pub should_retry : Exception → Bool
should_retry (Exception.api_call e) = e.retryable
should_retry (Exception.stream m) = true
should_retry _ = false

-- Seconds as milliseconds.
abbrev pub milliseconds : ℤ → ℤ
milliseconds (pos n) = pos (n * 1000)
milliseconds (negsuc n) = sub_ℕ 0 (suc n * 1000)

module _ {W : Type 0} (compute_delay : ℕ → W → ℤ × W) where
  -- The delay that the server names in its error, or else the one by backoff.
  unfoldable pub get_retry_delay : Exception → ℕ → W → ℤ × W
  get_retry_delay (Exception.api_call e) attempt w = elim (retry_after e) [
    | some seconds ↦ (milliseconds seconds, w)
    | none ↦ compute_delay attempt w
  ]
  get_retry_delay e attempt w = compute_delay attempt w

-- A delay of zero or less does not suspend.
unfoldable pub async_sleep : {W : Type 0} → (ℤ → W → W) → ℤ → W → W
async_sleep sleep duration w = if leb_ℤ duration (pos 0) then w else sleep duration w

module _ {W A : Type 0} (delay : Exception → ℕ → W → ℤ × W) (sleep : ℤ → W → W)
    (fn : W → Outcome A × W) where
  -- Behind a call that was not the last one allowed: the handler, with the next round given.
  unfoldable pub after_call : (ℕ → W → Outcome A × W) → ℕ → Outcome A × W → Outcome A × W
  unfolding async_sleep
  after_call next attempt (returned a, w) = (returned a, w)
  after_call next attempt (threw e, w) =
      let (d, w') = delay e attempt w in
      if should_retry e then next (suc attempt) (async_sleep sleep d w') else (threw e, w)

  -- The loop of all variants; the first argument counts the retries left, `max_retries - attempt`.
  unfoldable pub retry_loop : ℕ → ℕ → W → Outcome A × W
  unfolding after_call
  retry_loop zero attempt w = fn w
  retry_loop (suc left) attempt w = after_call (retry_loop left) attempt (fn w)

module _ {W A : Type 0} (max_retries : ℕ) (compute_delay : ℕ → W → ℤ × W) (sleep : ℤ → W → W)
    (fn : W → Outcome A × W) where
  unfoldable pub retry_async : W → Outcome A × W
  unfolding retry_loop get_retry_delay
  retry_async = retry_loop (get_retry_delay compute_delay) sleep fn max_retries 0

  -- The blocking variant does not read the server's delay.
  unfoldable pub retry : W → Outcome A × W
  unfolding retry_loop
  retry = retry_loop (λ e attempt w. compute_delay attempt w) sleep fn max_retries 0
