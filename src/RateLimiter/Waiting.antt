-- ===== src/RateLimiter/Waiting.antt =====
-- That a waiting request is granted, and how.
use ai_sdk_cpp.Prelude.{
  ℕ, zero, suc, ◌+◌, ◌≤◌, ◌<◌, ◌≡◌, refl, ◌⊎◌, inl, inr, true, false, some, leb, Bool-cases, arith,
}
use ai_sdk_cpp.RateLimiter.{RateLimitConfig, Window, try_acquire, acquire}
use ai_sdk_cpp.RateLimiter.Bounds.{minute, with_count, try_acquire_granted, try_acquire_renewed}

module _ (config : RateLimitConfig) where
  -- How a request is granted: it is counted in its window, if the window has room, or in a new one that
  -- begins now, if the minute of its window is over.
  pub data IsGranted (now : ℕ) (w : Window) : Window → Type 0 where
    counted :
        now < w.start + minute
        → w.request_count < config.max_requests_per_minute
        → w.token_count < config.max_tokens_per_minute
        → IsGranted now w (with_count w (suc w.request_count))
    renewed :
        w.start + minute ≤ now
        → IsGranted now w (record { start = now; request_count = 1; token_count = 0 })

  -- The window lets a request through at a time: its minute is over, or it has room.
  abbrev pub IsFree : ℕ → Window → Type 0
  IsFree now w =
      (w.start + minute ≤ now)
      ⊎ ((w.request_count < config.max_requests_per_minute)
          × (w.token_count < config.max_tokens_per_minute))

  try_acquire-IsGranted :
      (now : ℕ) (w : Window)
      → (try_acquire config now w).0 ≡ true
      → 0 < config.max_requests_per_minute
      → 0 < config.max_tokens_per_minute
      → IsGranted now w (try_acquire config now w).1
  try_acquire-IsGranted now w h r t = elim (Bool-cases (leb (w.start + minute) now)) [
    | inl old ↦
        rw (try_acquire_renewed config now w (ground (arith, old)) r t)
          (renewed (ground (arith, old)))
    | inr young ↦
        let (room, tokens) = has_granted now w (ground (arith, young)) h in
        rw (try_acquire_granted config now w (ground (arith, young)) room tokens)
          (counted (ground (arith, young)) room tokens)
  ]
    where
      has_granted :
          (now : ℕ) (w : Window)
          → now < w.start + minute
          → (try_acquire config now w).0 ≡ true
          → (w.request_count < config.max_requests_per_minute)
            × (w.token_count < config.max_tokens_per_minute)
      has_granted now w young h = (unfold try_acquire in ground (arith, h, young))

  try_acquire_waits :
      (now : ℕ) (w : Window)
      → (try_acquire config now w).0 ≡ false
      → 0 < config.max_requests_per_minute
      → 0 < config.max_tokens_per_minute
      → ((try_acquire config now w).1 ≡ w) × ¬ (IsFree now w)
  unfolding try_acquire
  try_acquire_waits now w h r t = (
    ground (arith, h, r, t),
    λ f. elim f [
      | inl old ↦ ground (arith, h, r, t, old)
      | inr (room, tokens) ↦ ground (arith, h, r, t, room, tokens)
    ],
  )

  -- The window that a request finds in a round, if it was refused before: what others left.
  abbrev pub found : (ℕ → Window → Window) → ℕ → Window → Window
  found others zero w = w
  found others (suc n) w = found (λ i. others (suc i)) n (others 0 w)

  -- A request that waits, while others change the window in any way: if both limits are positive and in
  -- some round the window that it finds, as the others left it, has room, or its minute is over, then the request is
  -- granted in that round at the latest, and the window that it leaves is the one that it found with
  -- one request more, or a new one with that request alone.
  pub acquire-returns :
      (n fuel : ℕ) (clock : ℕ → ℕ) (others : ℕ → Window → Window) (w : Window)
      → 0 < config.max_requests_per_minute
      → 0 < config.max_tokens_per_minute
      → n < fuel
      → IsFree (clock n) (found others n w)
      → (k : ℕ) × (w' : Window) × (k ≤ n)
        × (acquire config fuel clock others w ≡ some w')
        × IsGranted (clock k) (found others k w) w'
  unfolding acquire
  acquire-returns n zero clock others w r t lt free = absurd (omega arith)
  acquire-returns n (suc fuel) clock others w r t lt free =
      elim (Bool-cases (try_acquire config (clock 0) w).0) [
        | inl granted ↦ (
          0,
          (try_acquire config (clock 0) w).1,
          omega arith,
          rw granted refl,
          try_acquire-IsGranted (clock 0) w granted r t,
        )
        | inr waits ↦
            let (same, full) = try_acquire_waits (clock 0) w waits r t in
            rw (waits, same)
              (later n lt free full (λ k below free.
                acquire-returns k fuel (λ i. clock (suc i)) (λ i. others (suc i)) (others 0 w) r t
                  below free))
      ]
    where
      Returns : ℕ → Type 0
      Returns n =
          (k : ℕ) × (w' : Window) × (k ≤ n)
          × (acquire config fuel (λ i. clock (suc i)) (λ i. others (suc i)) (others 0 w) ≡ some w')
          × IsGranted (clock (suc k)) (found others (suc k) w) w'

      later :
          (n : ℕ)
          → n < suc fuel
          → IsFree (clock n) (found others n w)
          → ¬ (IsFree (clock 0) w)
          → ((j : ℕ) → j < fuel → IsFree (clock (suc j)) (found others (suc j) w) → Returns j)
          → (k : ℕ) × (w' : Window) × (k ≤ n)
            × (acquire config fuel (λ i. clock (suc i)) (λ i. others (suc i)) (others 0 w)
                ≡ some w')
            × IsGranted (clock k) (found others k w) w'
      later zero below free full ih = absurd (full free)
      later (suc j) below free full ih =
          let (k, w', bound, returns, granted) = ih j (omega arith) free in
          (suc k, w', omega (arith, bound), returns, granted)
