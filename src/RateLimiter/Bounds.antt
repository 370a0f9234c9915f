-- ===== src/RateLimiter/Bounds.antt =====
-- How many requests are granted in a minute.
use ai_sdk_cpp.Prelude.{
  ℕ, zero, suc, ◌+◌, ◌-◌, ◌*◌, ◌/◌, ◌≤◌, ◌<◌, ◌≡◌, refl, ◌⊎◌, inl, inr, true, List, [], ◌∷◌, leb,
  Bool-cases, All, if◌then◌else◌, arith,
}
use ai_sdk_cpp.RateLimiter.{
  RateLimitConfig, Window, second, fresh_window, try_acquire, record_usage,
}

-- What the users of a limiter do: ask at a time, or report tokens.
pub data Event : Type 0 where
  ask : ℕ → Event
  use_tokens : ℕ → Event

-- How many of the requests are granted, one after the other.
unfoldable pub grants : RateLimitConfig → List Event → Window → ℕ
grants config [] w = 0
grants config (ask now ∷ es) w =
    (if (try_acquire config now w).0 then 1 else 0) + grants config es (try_acquire config now w).1
grants config (use_tokens n ∷ es) w = grants config es (record_usage n w)

abbrev pub minute : ℕ
minute = 60 * second

-- Every request comes within a minute from `t` on.
abbrev pub Within : ℕ → Event → Type 0
Within t (ask now) = (t ≤ now) × (now < t + minute)
Within t (use_tokens n) = Unit

module _ (config : RateLimitConfig) where
  limit : ℕ
  limit = config.max_requests_per_minute

  -- A window that began within the minute is not reset in it.
  try_acquire_same :
      (t now : ℕ) (w : Window)
      → t ≤ w.start
      → now < t + minute
      → w.request_count ≤ config.max_requests_per_minute
      → (t ≤ (try_acquire config now w).1.start)
        × ((try_acquire config now w).1.request_count ≤ config.max_requests_per_minute)
        × ((if (try_acquire config now w).0 then 1 else 0) + w.request_count
            ≡ (try_acquire config now w).1.request_count)
  unfolding try_acquire
  try_acquire_same t now w a b h = ground arith

  grants_same :
      (t : ℕ) (es : List Event) (w : Window)
      → t ≤ w.start
      → w.request_count ≤ config.max_requests_per_minute
      → All (Within t) es
      → grants config es w + w.request_count ≤ config.max_requests_per_minute
  unfolding grants record_usage
  grants_same t [] w s c h = omega arith
  grants_same t (ask now ∷ es) w s c h =
      let (s', c', e) = try_acquire_same t now w s h.0.1 c in
      omega (arith, e, grants_same t es (try_acquire config now w).1 s' c' h.1)
  grants_same t (use_tokens n ∷ es) w s c h = grants_same t es (record_usage n w) s c h.1

  -- A request finds its window kept, or begins a new one.
  try_acquire_either :
      (t now : ℕ) (w : Window)
      → t ≤ now
      → w.request_count ≤ config.max_requests_per_minute
      → ((try_acquire config now w).1.request_count ≤ config.max_requests_per_minute)
        × ((t ≤ (try_acquire config now w).1.start)
            ⊎ ((if (try_acquire config now w).0 then 1 else 0) + w.request_count
                ≡ (try_acquire config now w).1.request_count))
        × ((if (try_acquire config now w).0 then 1 else 0)
            ≤ (try_acquire config now w).1.request_count)
  unfolding try_acquire
  try_acquire_either t now w a h = elim (Bool-cases (leb 60 ((now - w.start) / second))) [
    | inl old ↦ (ground (arith, old), inl (ground (arith, old)), ground (arith, old))
    | inr young ↦ (ground (arith, young), inr (ground (arith, young)), ground (arith, young))
  ]

  -- Of the requests within any minute at most twice the limit are granted, in whatever window the
  -- minute begins: what the window has left, and those of one new window.
  pub grants_bound :
      (t : ℕ) (es : List Event) (w : Window)
      → w.request_count ≤ config.max_requests_per_minute
      → All (Within t) es
      → grants config es w + w.request_count ≤ 2 * config.max_requests_per_minute
  unfolding grants record_usage
  grants_bound t [] w c h = omega arith
  grants_bound t (ask now ∷ es) w c h =
      let (c', either, one) = try_acquire_either t now w h.0.0 c in
      elim either [
        | inl new ↦ omega (arith, one, c, grants_same t es (try_acquire config now w).1 new c' h.1)
        | inr kept ↦ omega (arith, kept, grants_bound t es (try_acquire config now w).1 c' h.1)
      ]
  grants_bound t (use_tokens n ∷ es) w c h = grants_bound t es (record_usage n w) c h.1

abbrev pub asks : ℕ → ℕ → List Event → List Event
asks zero now es = es
asks (suc n) now es = ask now ∷ asks n now es

abbrev pub with_count : Window → ℕ → Window
with_count w n = record w { request_count = n }

module _ (config : RateLimitConfig) where
  pub try_acquire_granted :
      (now : ℕ) (w : Window)
      → now < w.start + minute
      → w.request_count < config.max_requests_per_minute
      → w.token_count < config.max_tokens_per_minute
      → try_acquire config now w ≡ (true, with_count w (suc w.request_count))
  unfolding try_acquire
  try_acquire_granted now w young room tokens = ground arith

  pub try_acquire_renewed :
      (now : ℕ) (w : Window)
      → w.start + minute ≤ now
      → 0 < config.max_requests_per_minute
      → 0 < config.max_tokens_per_minute
      → try_acquire config now w ≡ (true, with_count (fresh_window now) 1)
  unfolding try_acquire
  try_acquire_renewed now w old room tokens = ground arith

  grants-asks :
      (n now : ℕ) (es : List Event) (w : Window) (m : ℕ)
      → m ≡ w.request_count + n
      → now < w.start + minute
      → m ≤ config.max_requests_per_minute
      → w.token_count < config.max_tokens_per_minute
      → grants config (asks n now es) w ≡ n + grants config es (with_count w m)
  unfolding grants
  grants-asks zero now es w m e young room tokens =
      let same : m ≡ w.request_count = omega arith in rw same (omega arith)
  grants-asks (suc n) now es w m e young room tokens =
      rw (try_acquire_granted now w young (omega arith) tokens) (
        omega (
          arith,
          grants-asks n now es (with_count w (suc w.request_count)) m (omega arith) young room
              tokens,
        ))

  grants-granted :
      (now : ℕ) (es : List Event) (w w' : Window)
      → try_acquire config now w ≡ (true, w')
      → grants config (ask now ∷ es) w ≡ 1 + grants config es w'
  unfolding grants
  grants-granted now es w w' e = rw (e, grants)

  grants-nil : (w : Window) → grants config [] w ≡ 0
  unfolding grants
  grants-nil w = refl

  -- The limit is one for each window, not for each minute: with a window that began at `t`, the limit
  -- of requests just before its minute is over and the limit again just after it are all granted,
  -- twice the limit within one nanosecond.
  pub grants_burst :
      (n t : ℕ)
      → config.max_requests_per_minute ≡ suc n
      → 0 < config.max_tokens_per_minute
      → grants config
          (asks (suc n) (t + minute - 1) (asks (suc n) (t + minute) []))
          (fresh_window t)
        ≡ 2 * config.max_requests_per_minute
  grants_burst n t e tokens =
      let first =
        grants-asks (suc n) (t + minute - 1) (asks (suc n) (t + minute) []) (fresh_window t) (suc n)
          (omega arith) (omega arith) (omega arith) tokens in
      let renewed =
        try_acquire_renewed (t + minute) (with_count (fresh_window t) (suc n)) (omega arith)
          (omega arith) tokens in
      let again = grants-granted (t + minute) (asks n (t + minute) []) _ _ renewed in
      let rest =
        grants-asks n (t + minute) [] (with_count (fresh_window (t + minute)) 1) (suc n)
          (omega arith) (omega arith) (omega arith) tokens in
      omega
        (arith, first, again, rest, grants-nil (with_count (fresh_window (t + minute)) (suc n)), e)
