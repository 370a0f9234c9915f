-- ===== src/Retry/Bounded.antt =====
-- How often a call is made, and which outcome comes back.
use ai_sdk_cpp.Prelude.{
  ℕ, zero, suc, ◌*◌, negsuc, pos, sub_ℕ, leb_ℤ, Option, none, some, Bytes, ◌≤◌, ◌≡◌, refl, ap, ◌⊎◌,
  inl, inr, true, false, ℤ, Bool-cases, arith,
}
use ai_sdk_cpp.Errors.{ApiCallError, Exception, retry_after}
use ai_sdk_cpp.Retry.{
  Outcome, returned, threw, should_retry, get_retry_delay, async_sleep, milliseconds, after_call,
  retry_loop, retry_async, retry,
}

-- The errors that may pass: those of a call that says so, and those of a stream.
abbrev pub MayPass : Exception → Type 0
MayPass (Exception.api_call e) = e.retryable ≡ true
MayPass (Exception.stream m) = Unit {0}
MayPass _ = ⊥

should_retry-MayPass : (e : Exception) → should_retry e ≡ true → MayPass e
unfolding should_retry
should_retry-MayPass (Exception.api_call e) h = h
should_retry-MayPass (Exception.stream m) h = tt
should_retry-MayPass (Exception.other m) h = cc h
should_retry-MayPass Exception.foreign h = cc h

not-MayPass : (e : Exception) → should_retry e ≡ false → ¬ (MayPass e)
unfolding should_retry
not-MayPass (Exception.api_call e) h = λ p. cc (h, p)
not-MayPass (Exception.stream m) h = λ p. cc h
not-MayPass (Exception.other m) h = λ p. p
not-MayPass Exception.foreign h = λ p. p

-- A wait of a duration: none if the duration is zero or less.
pub data Waits {W : Type 0} (sleep : ℤ → W → W) (w : W) : ℤ → W → Type 0 where
  not_at_all : (d : ℤ) → leb_ℤ d (pos 0) ≡ true → Waits sleep w d w
  slept : (d : ℤ) → leb_ℤ d (pos 0) ≡ false → Waits sleep w d (sleep d w)

async_sleep-Waits :
    {W : Type 0} (sleep : ℤ → W → W) (d : ℤ) (w : W) → Waits sleep w d (async_sleep sleep d w)
unfolding async_sleep
async_sleep-Waits sleep d w = elim (Bool-cases (leb_ℤ d (pos 0))) [
  | inl e ↦ rw e (not_at_all d e)
  | inr e ↦ rw e (slept d e)
]

module _ {W : Type 0} (compute_delay : ℕ → W → ℤ × W) where
  -- The delay of the awaiting variant: the seconds that the headers of a call's error name, in
  -- milliseconds, and for any other error the one by backoff. A negative number of seconds gives no
  -- positive delay.
  pub data Named : Exception → ℕ → W → ℤ × W → Type 0 where
    by_server :
        {e : ApiCallError} {attempt : ℕ} {w : W} (n : ℕ)
        → retry_after e ≡ some (pos n)
        → Named (Exception.api_call e) attempt w (pos (n * 1000), w)
    by_server_past :
        {e : ApiCallError} {attempt : ℕ} {w : W} (n : ℕ)
        → retry_after e ≡ some (negsuc n)
        → Named (Exception.api_call e) attempt w (sub_ℕ 0 (suc n * 1000), w)
    unnamed :
        {e : ApiCallError} {attempt : ℕ} {w : W}
        → retry_after e ≡ none
        → Named (Exception.api_call e) attempt w (compute_delay attempt w)
    of_stream :
        {m : Bytes} {attempt : ℕ} {w : W}
        → Named (Exception.stream m) attempt w (compute_delay attempt w)

  -- The delay of the blocking variant: always the one by backoff.
  pub data ByBackoff : Exception → ℕ → W → ℤ × W → Type 0 where
    backoff :
        {e : Exception} {attempt : ℕ} {w : W} → ByBackoff e attempt w (compute_delay attempt w)

  get_retry_delay-Named :
      (e : Exception) (attempt : ℕ) (w : W)
      → MayPass e
      → Named e attempt w (get_retry_delay compute_delay e attempt w)
  unfolding get_retry_delay
  get_retry_delay-Named (Exception.api_call e) attempt w h = by_header (retry_after e) refl
    where
      by_header :
          (o : Option ℤ)
          → retry_after e ≡ o
          → Named
              (Exception.api_call e)
              attempt
              w
              (elim o [ some seconds ↦ (milliseconds seconds, w) | none ↦ compute_delay attempt w ])
      by_header none f = unnamed f
      by_header (some (pos n)) f = by_server n f
      by_header (some (negsuc n)) f = by_server_past n f
  get_retry_delay-Named (Exception.stream m) attempt w h = of_stream
  get_retry_delay-Named (Exception.other m) attempt w h = absurd h
  get_retry_delay-Named Exception.foreign attempt w h = absurd h

module _ {W A : Type 0} (Delay : Exception → ℕ → W → ℤ × W → Type 0) (sleep : ℤ → W → W)
    (fn : W → Outcome A × W) where
  -- From the attempt and the world of the first indices, so many calls fail with an error that may
  -- pass, each followed by the sleep that its delay asks for.
  pub data Failures : ℕ → ℕ → W → W → Type 0 where
    done : {attempt : ℕ} {w : W} → Failures attempt 0 w w
    again :
        {attempt n : ℕ} {w v : W} (e : Exception) (w' : W) (d : ℤ × W) (w'' : W)
        → fn w ≡ (threw e, w')
        → MayPass e
        → Delay e attempt w' d
        → Waits sleep d.1 d.0 w''
        → Failures (suc attempt) n w'' v
        → Failures attempt (suc n) w v

  -- The loop may stop with this outcome after `n` retries.
  abbrev pub MayStop : ℕ → ℕ → Outcome A → Type 0
  MayStop limit n (returned a) = Unit {0}
  MayStop limit n (threw e) = ¬ (MayPass e) ⊎ (n ≡ limit)

  -- Some retries, at most `limit`, and then a last call whose outcome is what comes back.
  pub record Ends (limit attempt : ℕ) (w : W) (r : Outcome A × W) : Type 0 where
    pub retries : ℕ
    pub bound : retries ≤ limit
    pub last : W
    pub failures : Failures attempt retries w last
    pub call : fn last ≡ r
    pub stops : MayStop limit retries r.0

module _ {W A : Type 0} (Delay : Exception → ℕ → W → ℤ × W → Type 0)
    (delay : Exception → ℕ → W → ℤ × W)
    (delay-Delay : (e : Exception) (attempt : ℕ) (w : W)
      → MayPass e
      → Delay e attempt w (delay e attempt w))
    (sleep : ℤ → W → W) (fn : W → Outcome A × W) where
  again_after :
      {attempt n : ℕ} {w v : W} (e : Exception) (w' : W)
      → fn w ≡ (threw e, w')
      → should_retry e ≡ true
      → Failures Delay sleep fn
          (suc attempt)
          n
          (async_sleep sleep (delay e attempt w').0 (delay e attempt w').1)
          v
      → Failures Delay sleep fn attempt (suc n) w v
  again_after {attempt} e w' f s h =
      again e w' (delay e attempt w') _ f (should_retry-MayPass e s)
        (delay-Delay e attempt w' (should_retry-MayPass e s)) (async_sleep-Waits sleep _ _) h

  one_more :
      (limit attempt : ℕ) (w w' : W) (e : Exception) (r : Outcome A × W)
      → fn w ≡ (threw e, w')
      → should_retry e ≡ true
      → Ends Delay sleep fn limit
          (suc attempt)
          (async_sleep sleep (delay e attempt w').0 (delay e attempt w').1)
          r
      → Ends Delay sleep fn (suc limit) attempt w r
  one_more limit attempt w w' e (returned a, v) f s h = record {
    retries = suc h.retries;
    bound = omega (arith, h.bound);
    last = h.last;
    failures = again_after e w' f s h.failures;
    call = h.call;
    stops = tt;
  }
  one_more limit attempt w w' e (threw x, v) f s h = record {
    retries = suc h.retries;
    bound = omega (arith, h.bound);
    last = h.last;
    failures = again_after e w' f s h.failures;
    call = h.call;
    stops = elim h.stops [ inl never ↦ inl never | inr e ↦ inr (ap suc e) ];
  }

  first_call :
      (attempt : ℕ) (w : W) (r : Outcome A × W)
      → fn w ≡ r
      → MayStop Delay sleep fn 0 0 r.0
      → Ends Delay sleep fn 0 attempt w r
  first_call attempt w r f h = record {
    retries = 0;
    bound = omega arith;
    last = w;
    failures = done;
    call = f;
    stops = h;
  }

  last_allowed : (r : Outcome A) → MayStop Delay sleep fn 0 0 r
  last_allowed (returned a) = tt
  last_allowed (threw e) = inr refl

  after_call-Ends :
      (limit attempt : ℕ) (w : W) (next : ℕ → W → Outcome A × W)
      → ((k : ℕ) (v : W) → Ends Delay sleep fn limit k v (next k v))
      → (r : Outcome A × W) → fn w ≡ r
      → Ends Delay sleep fn (suc limit) attempt w (after_call delay sleep fn next attempt r)
  unfolding after_call
  after_call-Ends limit attempt w next h (returned a, v) f = record {
    retries = 0;
    bound = omega arith;
    last = w;
    failures = done;
    call = f;
    stops = tt;
  }
  after_call-Ends limit attempt w next h (threw e, v) f = elim (Bool-cases (should_retry e)) [
    | inl s ↦ rw (s, after_call) (one_more limit attempt w v e _ f s (h (suc attempt) _))
    | inr s ↦
        rw (s, after_call)
          (record {
            retries = 0;
            bound = omega arith;
            last = w;
            failures = done;
            call = f;
            stops = inl (not-MayPass e s);
          })
  ]

  retry_loop-Ends :
      (limit attempt : ℕ) (w : W)
      → Ends Delay sleep fn limit attempt w (retry_loop delay sleep fn limit attempt w)
  unfolding retry_loop
  retry_loop-Ends zero attempt w = first_call attempt w (fn w) refl (last_allowed (fn w).0)
  retry_loop-Ends (suc limit) attempt w =
      after_call-Ends limit attempt w (retry_loop delay sleep fn limit) (retry_loop-Ends limit)
        (fn w) refl

module _ {W A : Type 0} (max_retries : ℕ) (compute_delay : ℕ → W → ℤ × W) (sleep : ℤ → W → W)
    (fn : W → Outcome A × W) where
  -- Both variants of retry always end. They retry at most `max_retries` times, only after an error of a
  -- stream or one of a call that is marked retryable, and wait each time: retry_async for the delay
  -- that retry_after reads in the headers of the call's error if it finds one and else for the one by backoff, retry always for
  -- the latter; a delay of zero or less is no wait. What comes back is the outcome of the last call; if
  -- that is an error, it is one of another kind, or all retries are used up.
  pub retry-Ends :
      (w : W)
      → Ends
          (Named compute_delay)
          sleep
          fn
          max_retries
          0
          w
          (retry_async max_retries compute_delay sleep fn w)
        × Ends
            (ByBackoff compute_delay)
            sleep
            fn
            max_retries
            0
            w
            (retry max_retries compute_delay sleep fn w)
  unfolding retry_async retry
  retry-Ends w = (
    retry_loop-Ends (Named compute_delay) (get_retry_delay compute_delay)
        (get_retry_delay-Named compute_delay) sleep fn max_retries 0 w,
    retry_loop-Ends (ByBackoff compute_delay) (λ e attempt v. compute_delay attempt v)
        (λ e attempt w h. backoff) sleep fn max_retries 0 w,
  )
