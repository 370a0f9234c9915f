-- ===== src/RateLimiter.antt =====
-- src/util/rate_limiter.cpp and include/ai/util/rate_limiter.hpp: the limits on requests and tokens in
-- a window of a minute. Each operation holds the mutex, but for the waits of `acquire`, in which others
-- may come. Time is a number of nanoseconds that the
-- caller hands in; limits and counts are not negative and have no upper bound.
pub mod Bounds
pub mod Waiting
mod Tests
use ai_sdk_cpp.Prelude.{
  ℕ, zero, suc, ◌+◌, ◌-◌, ◌*◌, ◌/◌, Bool, true, false, ◌&&◌, ◌||◌, Option, none, some, ltb, leb,
  if◌then◌else◌,
}

pub record RateLimitConfig : Type 0 where
  pub max_requests_per_minute : ℕ
  pub max_tokens_per_minute : ℕ

pub record Window : Type 0 where
  pub start : ℕ
  pub request_count : ℕ
  pub token_count : ℕ

abbrev pub second : ℕ
second = 1000000000

-- `RateLimiter::RateLimiter`, and `reset`.
abbrev pub fresh_window : ℕ → Window
fresh_window now = record { start = now; request_count = 0; token_count = 0 }

unfoldable pub maybe_reset_window : ℕ → Window → Window
maybe_reset_window now w = if leb 60 ((now - w.start) / second) then fresh_window now else w

-- The test in `acquire`, and the one in `would_exceed`.
abbrev pub has_room : RateLimitConfig → Window → Bool
has_room config w =
    ltb w.request_count config.max_requests_per_minute
    && ltb w.token_count config.max_tokens_per_minute

unfoldable pub would_exceed : RateLimitConfig → Window → Bool
would_exceed config w =
    leb config.max_requests_per_minute w.request_count
    || leb config.max_tokens_per_minute w.token_count

-- One round of `acquire`: whether the request is granted, and the window behind it.
unfoldable pub try_acquire : RateLimitConfig → ℕ → Window → Bool × Window
unfolding maybe_reset_window
try_acquire config now w =
    let w' = maybe_reset_window now w in
    if has_room config w'
    then (true, record w' { request_count = suc w'.request_count })
    else (false, w')

-- The loop: it waits and reads the clock anew until a round grants the request. The mutex is free
-- during a wait; what other callers make of the window in each wait is an argument. `none` stands for
-- a loop that is still waiting when the fuel is used up.
unfoldable pub acquire :
    RateLimitConfig → ℕ → (ℕ → ℕ) → (ℕ → Window → Window) → Window → Option Window
unfolding try_acquire
acquire config zero clock others w = none
acquire config (suc fuel) clock others w =
    let (granted, w') = try_acquire config (clock 0) w in
    let later = acquire config fuel (λ i. clock (suc i)) (λ i. others (suc i)) (others 0 w') in
    if granted then some w' else later

unfoldable pub record_usage : ℕ → Window → Window
record_usage tokens w = record w { token_count = w.token_count + tokens }

unfoldable pub reset : ℕ → Window → Window
reset now w = fresh_window now
