-- ===== src/RateLimiter/Tests.antt =====
-- The bounds at a limit of two requests and a thousand tokens.
use ai_sdk_cpp.Prelude.{ℕ, ◌+◌, ◌*◌, ◌≤◌, ◌≡◌, refl, inl, false, [], ◌∷◌, some, arith, List}
use ai_sdk_cpp.RateLimiter.{
  RateLimitConfig, Window, second, fresh_window, acquire, would_exceed, record_usage,
}
use ai_sdk_cpp.RateLimiter.Bounds.{Event, ask, use_tokens, grants, grants_bound}
use ai_sdk_cpp.RateLimiter.Waiting.{IsGranted, found, acquire-returns}

abbrev config : RateLimitConfig
config = record { max_requests_per_minute = 2; max_tokens_per_minute = 1000 }

abbrev used : Window
used = record { start = 0; request_count = 2; token_count = 40 }

-- A request every twenty seconds.
abbrev clock : ℕ → ℕ
clock n = n * 20 * second

waits_for_the_window :
    acquire config 4 clock (λ i w. w) used
    ≡ some (record { start = 60 * second; request_count = 1; token_count = 0 })
unfolding acquire
waits_for_the_window = refl

over_tokens : would_exceed config (record_usage 960 (fresh_window 0)) ≡ false
unfolding would_exceed record_usage
over_tokens = refl

abbrev events : List Event
events =
    ask (59 * second)
    ∷ ask (60 * second)
    ∷ use_tokens 100
    ∷ ask (61 * second)
    ∷ ask (62 * second)
    ∷ []

grants_bound_example : grants config events used + 2 ≤ 2 * 2
grants_bound_example = grants_bound config (30 * second) events used (omega arith) (omega arith)

-- Another caller reports tokens in each wait.
abbrev others : ℕ → Window → Window
others i w = record w { token_count = w.token_count + 5 }

acquire-returns_example :
    (k : ℕ) × (w' : Window) × (k ≤ 3)
    × (acquire config 4 clock others used ≡ some w')
    × IsGranted config (clock k) (found config others k used) w'
acquire-returns_example =
    acquire-returns config 3 4 clock others used (omega arith) (omega arith) (omega arith)
      (inl (omega arith))
