-- ===== src/Retry/Tests.antt =====
-- Retries of a call that fails twice; the world counts the calls and adds up the sleeps.
use ai_sdk_cpp.Prelude.{
  ℕ, suc, ◌+◌, ◌≡◌, refl, [], ◌∷◌, codes, ℤ, pos, negsuc, str_eq, leb, if◌then◌else◌,
}
use ai_sdk_cpp.Errors.{Exception, rate_limit_error, bad_request_error, retry_after}
use ai_sdk_cpp.Retry.{
  Outcome, returned, threw, should_retry, get_retry_delay, async_sleep, retry_async, retry,
}
use ai_sdk_cpp.Retry.Bounded.{Ends, Named, ByBackoff, retry-Ends}

abbrev World : Type 0
World = ℕ × ℕ

abbrev backoff : ℕ → World → ℤ × World
backoff attempt w = (pos 500, w)

abbrev sleep : ℤ → World → World
sleep (pos d) w = (w.0, w.1 + d)
sleep (negsuc d) w = w

-- Two refusals with a delay of three seconds, then an answer.
abbrev busy : World → Outcome ℕ × World
busy w = if leb 2 w.0 then (returned 7, w) else (
  threw (Exception.api_call (rate_limit_error [] [] [] ((codes "retry-after", codes "3") ∷ []))),
  (suc w.0, w.1),
)

abbrev refused : World → Outcome ℕ × World
refused w = (threw (Exception.api_call (bad_request_error [] [] [] [])), (suc w.0, w.1))

third_time : retry_async 2 backoff sleep busy (0, 0) ≡ (returned 7, (2, 6000))
unfolding retry_async should_retry get_retry_delay async_sleep retry_after str_eq
third_time = refl

own_backoff : retry 2 backoff sleep busy (0, 0) ≡ (returned 7, (2, 1000))
unfolding retry should_retry async_sleep
own_backoff = refl

not_again : retry_async 2 backoff sleep refused (0, 0) ≡ refused (0, 0)
unfolding retry_async should_retry
not_again = refl

retry-Ends_example :
    Ends (Named backoff) sleep busy 1 0 (0, 0) (retry_async 1 backoff sleep busy (0, 0))
    × Ends (ByBackoff backoff) sleep busy 1 0 (0, 0) (retry 1 backoff sleep busy (0, 0))
retry-Ends_example = retry-Ends 1 backoff sleep busy (0, 0)
