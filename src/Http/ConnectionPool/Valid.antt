-- ===== src/Http/ConnectionPool/Valid.antt =====
-- The pool's connections stand in the queues of their own hosts, and no queue is too long.
use ai_sdk_cpp.Prelude.{
  ℕ, suc, ◌≤◌, ◌≡◌, refl, sym, subst, inl, inr, Bool, not, List, [], ◌∷◌, Option, none, some,
  length, length-append, is_empty, filter, ltb, ltb→lt, All, All-append, if_either, Bool-cases,
  arith,
}
use ai_sdk_cpp.Http.ConnectionPool.{
  Connection, HostKey, key_eq, key_of, Pool, push, is_stale, pop_live, acquire_pooled, or_create,
  acquire, evict_expired,
}
use ai_sdk_cpp.Http.ConnectionPool.Queue.{key_eq-eq}

-- An entry of the pool: its connections are the host's, and not too many.
abbrev pub EntryIsValid : ℕ → HostKey × List Connection → Type 0
EntryIsValid max entry = All (λ c. key_of c ≡ entry.0) entry.1 × (length entry.1 ≤ max)

abbrev pub PoolIsValid : ℕ → Pool → Type 0
PoolIsValid max pool = All (EntryIsValid max) pool

module _ (P : Connection → Type 0) where
  pub All-filter : (p : Connection → Bool) (xs : List Connection) → All P xs → All P (filter p xs)
  All-filter p [] h = tt
  All-filter p (x ∷ xs) h = elim (Bool-cases (p x)) [
    | inl t ↦ rw t (h.0, All-filter p xs h.1)
    | inr f ↦ rw f (All-filter p xs h.1)
  ]

  abbrev pub AllFound : Option Connection → Type 0
  AllFound none = Unit
  AllFound (some c) = P c

  pub All-pop_live :
      (is_socket_open : ℕ → Bool) (idle_timeout : ℕ) (clock : ℕ → ℕ) (queue : List Connection)
      → All P queue
      → AllFound (pop_live is_socket_open idle_timeout clock queue).0
        × All P (pop_live is_socket_open idle_timeout clock queue).1
  unfolding pop_live
  All-pop_live is_socket_open idle_timeout clock [] h = (tt, tt)
  All-pop_live is_socket_open idle_timeout clock (c ∷ cs) h =
      elim (Bool-cases (is_stale is_socket_open idle_timeout (clock 0) c)) [
        | inl s ↦ rw s (All-pop_live is_socket_open idle_timeout (λ i. clock (suc i)) cs h.1)
        | inr l ↦ rw l h
      ]

pub length-filter :
    (p : Connection → Bool) (xs : List Connection) → length (filter p xs) ≤ length xs
length-filter p [] = omega arith
length-filter p (x ∷ xs) = ground (arith, length-filter p xs)

module _ (is_socket_open : ℕ → Bool) (idle_timeout max : ℕ) where
  pub length-pop_live :
      (clock : ℕ → ℕ) (queue : List Connection)
      → length (pop_live is_socket_open idle_timeout clock queue).1 ≤ length queue
  unfolding pop_live
  length-pop_live clock [] = omega arith
  length-pop_live clock (c ∷ cs) =
      elim (Bool-cases (is_stale is_socket_open idle_timeout (clock 0) c)) [
        | inl s ↦ rw s (omega (arith, length-pop_live (λ i. clock (suc i)) cs))
        | inr l ↦ rw l (omega arith)
      ]

  pub acquire_pooled-IsValid :
      (clock : ℕ → ℕ) (key : HostKey) (pool : Pool)
      → PoolIsValid max pool
      → AllFound (λ c. key_of c ≡ key) (acquire_pooled is_socket_open idle_timeout clock key pool).0
        × PoolIsValid max (acquire_pooled is_socket_open idle_timeout clock key pool).1
  unfolding acquire_pooled
  acquire_pooled-IsValid clock key [] h = (tt, tt)
  acquire_pooled-IsValid clock key ((k, queue) ∷ rest) h = elim (Bool-cases (key_eq k key)) [
    | inl same ↦
        let popped =
          All-pop_live (λ c. key_of c ≡ k) is_socket_open idle_timeout clock queue h.0.0 in
        rw same (
          subst
              (λ j.
                AllFound (λ c. key_of c ≡ j) (pop_live is_socket_open idle_timeout clock queue).0)
              (key_eq-eq k key same) popped.0,
          ((popped.1, omega (arith, length-pop_live clock queue, h.0.1)), h.1),
        )
    | inr other ↦
        let later = acquire_pooled-IsValid clock key rest h.1 in rw other (later.0, (h.0, later.1))
  ]

  pub evict_expired-IsValid :
      (now : ℕ) (pool : Pool)
      → PoolIsValid max pool
      → PoolIsValid max (evict_expired is_socket_open idle_timeout now pool)
  unfolding evict_expired
  evict_expired-IsValid now [] h = tt
  evict_expired-IsValid now ((k, queue) ∷ rest) h =
      let fresh = λ (c : Connection). not (is_stale is_socket_open idle_timeout now c) in
      if_either (PoolIsValid max) (is_empty (filter fresh queue))
        (evict_expired-IsValid now rest h.1)
        (
          (
            All-filter (λ c. key_of c ≡ k) fresh queue h.0.0,
            omega (arith, length-filter fresh queue, h.0.1),
          ),
          evict_expired-IsValid now rest h.1,
        )

pub push-IsValid :
    (max : ℕ) (c : Connection) (pool : Pool)
    → PoolIsValid max pool
    → PoolIsValid max (push max c pool)
unfolding push
push-IsValid max c [] h = elim (Bool-cases (ltb 0 max)) [
  | inl room ↦ rw room (((refl, tt), omega (arith, ltb→lt 0 max room)), tt)
  | inr full ↦ rw full ((tt, omega arith), tt)
]
push-IsValid max c ((k, queue) ∷ rest) h = elim (Bool-cases (key_eq k (key_of c))) [
  | inl same ↦ elim (Bool-cases (ltb (length queue) max)) [
    | inl room ↦
        rw (same, room)
          (
            (
              All-append (λ d. key_of d ≡ k) queue (c ∷ []) h.0.0
                  (sym (key_eq-eq k (key_of c) same), tt),
              omega (arith, ltb→lt (length queue) max room, length-append queue (c ∷ [])),
            ),
            h.1,
          )
    | inr full ↦ rw (same, full) h
  ]
  | inr other ↦ rw other (h.0, push-IsValid max c rest h.1)
]

module _ (is_socket_open : ℕ → Bool) (idle_timeout : ℕ) where
  or_create-key :
      (address socket now : ℕ) (key : HostKey) (x : Option Connection × Pool)
      → AllFound (λ c. key_of c ≡ key) x.0
      → key_of (or_create address socket now key x).0 ≡ key
  unfolding or_create
  or_create-key address socket now key (none, pool) h = refl
  or_create-key address socket now key (some c, pool) h = h

  -- From a pool whose connections stand in the queues of their own hosts, the connection that is
  -- acquired, pooled or new, is one for the host, port and kind that were asked for.
  pub acquire-key :
      (max : ℕ) (clock : ℕ → ℕ) (address socket now : ℕ) (key : HostKey) (pool : Pool)
      → PoolIsValid max pool
      → key_of (acquire is_socket_open idle_timeout clock address socket now key pool).0 ≡ key
  unfolding acquire
  acquire-key max clock address socket now key pool h =
      or_create-key address socket now key _
        (acquire_pooled-IsValid is_socket_open idle_timeout max clock key pool h).0
