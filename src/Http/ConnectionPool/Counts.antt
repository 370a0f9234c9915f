-- ===== src/Http/ConnectionPool/Counts.antt =====
-- How often a connection stands in the pool, and that no operation adds one of its own.
use ai_sdk_cpp.Prelude.{
  ℕ, suc, ◌+◌, ◌≤◌, ◌≡◌, inl, inr, Bool, true, false, not, List, [], ◌∷◌, ◌++◌, Option, none, some,
  filter, ◌==◌, Bool-cases, arith,
}
use ai_sdk_cpp.Http.ConnectionPool.{
  Connection, HostKey, key_eq, Pool, push, is_stale, pop_live, acquire_pooled, evict_expired,
}

abbrev pub one_if : Bool → ℕ
one_if true = 1
one_if false = 0

-- How often a connection stands in a list, and in the pool.
abbrev pub held : ℕ → List Connection → ℕ
held a [] = 0
held a (c ∷ cs) = one_if (c.address == a) + held a cs

abbrev pub pooled : ℕ → Pool → ℕ
pooled a [] = 0
pooled a ((k, queue) ∷ rest) = held a queue + pooled a rest

abbrev pub found_count : ℕ → Option Connection → ℕ
found_count a none = 0
found_count a (some c) = one_if (c.address == a)

pub held-append : (a : ℕ) (xs ys : List Connection) → held a (xs ++ ys) ≡ held a xs + held a ys
held-append a [] ys = omega arith
held-append a (x ∷ xs) ys = omega (arith, held-append a xs ys)

pub held-filter :
    (a : ℕ) (p : Connection → Bool) (xs : List Connection) → held a (filter p xs) ≤ held a xs
held-filter a p [] = omega arith
held-filter a p (x ∷ xs) = ground (arith, held-filter a p xs)

module _ (is_socket_open : ℕ → Bool) (idle_timeout : ℕ) (a : ℕ) where
  pub held-pop_live :
      (clock : ℕ → ℕ) (queue : List Connection)
      → found_count a (pop_live is_socket_open idle_timeout clock queue).0
          + held a (pop_live is_socket_open idle_timeout clock queue).1
        ≤ held a queue
  unfolding pop_live
  held-pop_live clock [] = omega arith
  held-pop_live clock (c ∷ cs) =
      elim (Bool-cases (is_stale is_socket_open idle_timeout (clock 0) c)) [
        | inl s ↦ rw s (omega (arith, held-pop_live (λ i. clock (suc i)) cs))
        | inr l ↦ rw l (omega arith)
      ]

  pub pooled-acquire_pooled :
      (clock : ℕ → ℕ) (key : HostKey) (pool : Pool)
      → found_count a (acquire_pooled is_socket_open idle_timeout clock key pool).0
          + pooled a (acquire_pooled is_socket_open idle_timeout clock key pool).1
        ≤ pooled a pool
  unfolding acquire_pooled
  pooled-acquire_pooled clock key [] = omega arith
  pooled-acquire_pooled clock key ((k, queue) ∷ rest) = elim (Bool-cases (key_eq k key)) [
    | inl same ↦ rw same (omega (arith, held-pop_live clock queue))
    | inr other ↦ rw other (omega (arith, pooled-acquire_pooled clock key rest))
  ]

  pub pooled-evict_expired :
      (now : ℕ) (pool : Pool)
      → pooled a (evict_expired is_socket_open idle_timeout now pool) ≤ pooled a pool
  unfolding evict_expired
  pooled-evict_expired now [] = omega arith
  pooled-evict_expired now ((k, queue) ∷ rest) =
      let fewer = held-filter a (λ c. not (is_stale is_socket_open idle_timeout now c)) queue in
      ground (arith, fewer, pooled-evict_expired now rest)

pub pooled-push :
    (a max : ℕ) (c : Connection) (pool : Pool)
    → pooled a (push max c pool) ≤ one_if (c.address == a) + pooled a pool
unfolding push
pooled-push a max c [] = ground arith
pooled-push a max c ((k, queue) ∷ rest) =
    ground (arith, pooled-push a max c rest, held-append a queue (c ∷ []))
