-- ===== src/Batch/Polls.antt =====
-- How run_batch ends: the polls that it makes, and the results that it returns.
use ai_sdk_cpp.Prelude.{
  ℕ, zero, suc, ◌+◌, ◌≤◌, ◌<◌, ◌≡◌, ◌≢◌, refl, sym, ap, subst, inl, inr, true, false, List, [],
  Option, none, some, Bytes, codes, Bool-cases, arith,
}
use ai_sdk_cpp.Tools.{Attempt, ok, threw}
use ai_sdk_cpp.Batch.{
  BatchStatus, is_terminal, is_completed, BatchInfo, BatchProcessor, BatchRunOptions,
  BatchRunResult, exceeded, at_limit, polled, poll_loop, fetched, finished, after_polls, submitted,
  with_processor, run_batch,
}

-- The states in which a batch stays.
abbrev pub IsOver : BatchStatus → Type 0
IsOver BatchStatus.completed = Unit {0}
IsOver BatchStatus.failed = Unit {0}
IsOver BatchStatus.expired = Unit {0}
IsOver BatchStatus.cancelled = Unit {0}
IsOver BatchStatus.validating = ⊥
IsOver BatchStatus.in_progress = ⊥
IsOver BatchStatus.cancelling = ⊥

is_terminal-IsOver : (s : BatchStatus) → is_terminal s ≡ true → IsOver s
unfolding is_terminal
is_terminal-IsOver BatchStatus.completed h = tt
is_terminal-IsOver BatchStatus.failed h = tt
is_terminal-IsOver BatchStatus.expired h = tt
is_terminal-IsOver BatchStatus.cancelled h = tt
is_terminal-IsOver BatchStatus.validating h = cc h
is_terminal-IsOver BatchStatus.in_progress h = cc h
is_terminal-IsOver BatchStatus.cancelling h = cc h

is_terminal-running : (s : BatchStatus) → is_terminal s ≡ false → ¬ (IsOver s)
unfolding is_terminal
is_terminal-running BatchStatus.completed h = λ o. cc h
is_terminal-running BatchStatus.failed h = λ o. cc h
is_terminal-running BatchStatus.expired h = λ o. cc h
is_terminal-running BatchStatus.cancelled h = λ o. cc h
is_terminal-running BatchStatus.validating h = λ o. o
is_terminal-running BatchStatus.in_progress h = λ o. o
is_terminal-running BatchStatus.cancelling h = λ o. o

is_completed-completed : (s : BatchStatus) → is_completed s ≡ true → s ≡ BatchStatus.completed
unfolding is_completed
is_completed-completed BatchStatus.completed h = refl
is_completed-completed BatchStatus.failed h = absurd (cc h)
is_completed-completed BatchStatus.expired h = absurd (cc h)
is_completed-completed BatchStatus.cancelled h = absurd (cc h)
is_completed-completed BatchStatus.validating h = absurd (cc h)
is_completed-completed BatchStatus.in_progress h = absurd (cc h)
is_completed-completed BatchStatus.cancelling h = absurd (cc h)

is_completed-other : (s : BatchStatus) → is_completed s ≡ false → s ≢ BatchStatus.completed
unfolding is_completed
is_completed-other s h e = let same : is_completed s ≡ true = ap is_completed e in cc (h, same)

below_limit : (limit : Option ℕ) (m k : ℕ) → limit ≡ some m → at_limit limit k ≡ false → suc k < m
below_limit none m k e h = absurd (cc)
below_limit (some n) m k e h = let same : n ≡ m = cc in rw (← same) (ground arith)

module _ {W Request Item : Type 0} (o : BatchRunOptions W Request Item)
    (p : BatchProcessor W Request Item) where
  module _ (batch_id : Bytes) where
    -- The polls from a world on, and what they end with. The number counts those made before.
    pub data Polls : ℕ → W → Attempt BatchInfo × W → Type 0 where
      cancelled :
          {k : ℕ} {w : W}
          → o.is_cancelled w ≡ true
          → Polls k w (threw (codes "Operation cancelled"), w)
      failed :
          {k : ℕ} {w : W} (e : Bytes) (w' : W)
          → o.is_cancelled w ≡ false
          → p.status batch_id w ≡ (threw e, w')
          → Polls k w (threw e, w')
      ended :
          {k : ℕ} {w : W} (info : BatchInfo) (w' : W)
          → o.is_cancelled w ≡ false
          → p.status batch_id w ≡ (ok info, w')
          → IsOver info.status
          → Polls k w (ok info, w')
      gave_up :
          {k : ℕ} {w : W} (info : BatchInfo) (w' : W)
          → o.is_cancelled w ≡ false
          → p.status batch_id w ≡ (ok info, w')
          → ¬ (IsOver info.status)
          → at_limit o.max_polls k ≡ true
          → Polls k w (threw exceeded, w')
      waited :
          {k : ℕ} {w : W} {r : Attempt BatchInfo × W} (info : BatchInfo) (w' : W)
          → o.is_cancelled w ≡ false
          → p.status batch_id w ≡ (ok info, w')
          → ¬ (IsOver info.status)
          → at_limit o.max_polls k ≡ false
          → Polls (suc k) (o.wait w') r
          → Polls k w r

    abbrev Returns : ℕ → W → Option (Attempt BatchInfo × W) → Type 0
    Returns k w x = (r : Attempt BatchInfo × W) × (x ≡ some r) × Polls k w r

    polled-Returns :
        (k : ℕ) (w : W) (next : W → Option (Attempt BatchInfo × W))
        → o.is_cancelled w ≡ false
        → (at_limit o.max_polls k ≡ false → (v : W) → Returns (suc k) v (next v))
        → (x : Attempt BatchInfo × W) → p.status batch_id w ≡ x
        → Returns k w (polled o p batch_id k next x)
    unfolding polled
    polled-Returns k w next live ih (threw e, w') f = ((threw e, w'), refl, failed e w' live f)
    polled-Returns k w next live ih (ok info, w') f = elim (Bool-cases (is_terminal info.status)) [
      | inl t ↦
          rw (t, polled)
            ((ok info, w'), refl, ended info w' live f (is_terminal-IsOver info.status t))
      | inr t ↦ elim (Bool-cases (at_limit o.max_polls k)) [
        | inl l ↦
            rw (t, l, polled)
              (
                (threw exceeded, w'),
                refl,
                gave_up info w' live f (is_terminal-running info.status t) l,
              )
        | inr l ↦
            let (r, e, later) = ih l (o.wait w') in
            rw (t, l, polled)
              (r, e, waited info w' live f (is_terminal-running info.status t) l later)
      ]
    ]

    -- With a limit of `m` polls, as much fuel is left as the limit leaves.
    poll_loop-Returns :
        (m : ℕ)
        → o.max_polls ≡ some m
        → (fuel k : ℕ) (w : W) → m ≤ k + fuel
        → 0 < fuel
        → Returns k w (poll_loop o p batch_id fuel k w)
    unfolding poll_loop
    poll_loop-Returns m e zero k w b pos_fuel = absurd (omega arith)
    poll_loop-Returns m e (suc fuel) k w b pos_fuel = elim (Bool-cases (o.is_cancelled w)) [
      | inl c ↦ rw c (_, refl, cancelled c)
      | inr live ↦ rw live (
          polled-Returns k w (poll_loop o p batch_id fuel (suc k)) live
            (λ below v.
              poll_loop-Returns m e fuel (suc k) v (omega arith)
                (omega (arith, below_limit o.max_polls m k e below)))
            (p.status batch_id w) refl)
    ]

  -- How a run ends: with the exception of a call, of the limit or of a cancellation, or with a result
  -- that has the items only of a completed batch.
  pub data Ran (w : W) : Attempt (BatchRunResult Item) × W → Type 0 where
    not_submitted :
        (e : Bytes) (w1 : W) → p.submit o.requests w ≡ (threw e, w1) → Ran w (threw e, w1)
    broke_off :
        (id e : Bytes) (w1 w2 : W)
        → p.submit o.requests w ≡ (ok id, w1)
        → Polls id 0 w1 (threw e, w2)
        → Ran w (threw e, w2)
    not_completed :
        (id : Bytes) (info : BatchInfo) (w1 w2 : W)
        → p.submit o.requests w ≡ (ok id, w1)
        → Polls id 0 w1 (ok info, w2)
        → info.status ≢ BatchStatus.completed
        → Ran w (ok (record { batch_id = id; results = []; final_status = info }), w2)
    not_fetched :
        (id e : Bytes) (info : BatchInfo) (w1 w2 w3 : W)
        → p.submit o.requests w ≡ (ok id, w1)
        → Polls id 0 w1 (ok info, w2)
        → info.status ≡ BatchStatus.completed
        → p.results id w2 ≡ (threw e, w3)
        → Ran w (threw e, w3)
    completed :
        (id : Bytes) (info : BatchInfo) (items : List Item) (w1 w2 w3 : W)
        → p.submit o.requests w ≡ (ok id, w1)
        → Polls id 0 w1 (ok info, w2)
        → info.status ≡ BatchStatus.completed
        → p.results id w2 ≡ (ok items, w3)
        → Ran w (ok (record { batch_id = id; results = items; final_status = info }), w3)

  module _ (w w1 : W) (id : Bytes) (sent : p.submit o.requests w ≡ (ok id, w1)) where
    fetched-Ran :
        (info : BatchInfo) (w2 : W)
        → Polls id 0 w1 (ok info, w2)
        → info.status ≡ BatchStatus.completed
        → (x : Attempt (List Item) × W) → p.results id w2 ≡ x
        → Ran w (fetched o p id info x)
    unfolding fetched
    fetched-Ran info w2 polls c (threw e, w3) f = not_fetched id e info w1 w2 w3 sent polls c f
    fetched-Ran info w2 polls c (ok items, w3) f = completed id info items w1 w2 w3 sent polls c f

    finished-Ran : (r : Attempt BatchInfo × W) → Polls id 0 w1 r → Ran w (finished o p id r)
    unfolding finished
    finished-Ran (threw e, w2) polls = broke_off id e w1 w2 sent polls
    finished-Ran (ok info, w2) polls = elim (Bool-cases (is_completed info.status)) [
      | inl c ↦
          rw (c, finished)
            (fetched-Ran info w2 polls (is_completed-completed info.status c) (p.results id w2)
              refl)
      | inr n ↦
          rw (n, finished)
            (not_completed id info w1 w2 sent polls (is_completed-other info.status n))
    ]

  submitted-Ran :
      (m : ℕ)
      → o.max_polls ≡ some m
      → (w : W) (x : Attempt Bytes × W) → p.submit o.requests w ≡ x
      → (r : Attempt (BatchRunResult Item) × W) × (submitted o (suc m) p x ≡ some r) × Ran w r
  submitted-Ran m e w (threw what, w1) f = ((threw what, w1), refl, not_submitted what w1 f)
  submitted-Ran m e w (ok id, w1) f =
      let (r, returns, polls) = poll_loop-Returns id m e (suc m) 0 w1 (omega arith) (omega arith) in
      (finished o p id r, ap (after_polls o p id) returns, finished-Ran w w1 id f r polls)

  -- With a processor and a limit of `m` polls a run always ends, within `m + 1` rounds: by the exception
  -- of a call, by the cancellation or the limit, or with a result. It polls until the batch is completed,
  -- failed, expired or cancelled. A batch that failed, expired or was
  -- cancelled is such a result, without items; the items are fetched exactly from a completed batch.
  pub run_batch-Ran :
      (m : ℕ)
      → o.max_polls ≡ some m
      → o.processor ≡ some p
      → (w : W)
      → (r : Attempt (BatchRunResult Item) × W) × (run_batch o (suc m) w ≡ some r) × Ran w r
  unfolding run_batch
  run_batch-Ran m e given w =
      subst
        (λ x.
          (r : Attempt (BatchRunResult Item) × W) × (with_processor o (suc m) x w ≡ some r)
          × Ran w r)
        (sym given) (submitted-Ran m e w (p.submit o.requests w) refl)
