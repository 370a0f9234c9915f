-- ===== src/Http/ConnectionPool/Leases.antt =====
-- Who holds which connection: the pool and its clients as a step relation.
use ai_sdk_cpp.Prelude.{
  ℕ, ◌+◌, ◌≤◌, ◌≡◌, ap, subst, ◌∙◌, inl, inr, Bool, List, [], ◌∷◌, ◌++◌, Option, none, some, ◌==◌,
  ==_iff, if_either, Bool-cases, arith,
}
use ai_sdk_cpp.Http.ConnectionPool.{
  Connection, HostKey, Pool, is_open, or_create, acquire, evict_expired, release,
}
use ai_sdk_cpp.Http.ConnectionPool.Counts.{
  one_if, held, pooled, found_count, held-append, pooled-acquire_pooled, pooled-evict_expired,
  pooled-push,
}
use ai_sdk_cpp.Http.ConnectionPool.Valid.{
  PoolIsValid, push-IsValid, acquire_pooled-IsValid, evict_expired-IsValid,
}

-- The pool and the connections that its clients hold.
pub record Traffic : Type 0 where
  pub pool : Pool
  pub leased : List Connection

module _ (max_per_host idle_timeout : ℕ) where
  -- What can happen, in any order: a client acquires a connection, for which an address that nobody
  -- holds is at hand; a client gives one back, changed perhaps; a client drops one; the pool is swept.
  pub data Step (s : Traffic) : Traffic → Type 0 where
    acquired :
        (is_socket_open : ℕ → Bool) (clock : ℕ → ℕ) (address socket now : ℕ) (key : HostKey)
        → pooled address s.pool + held address s.leased ≡ 0
        → Step s (record {
          pool = (acquire is_socket_open idle_timeout clock address socket now key s.pool).1;
          leased =
              (acquire is_socket_open idle_timeout clock address socket now key s.pool).0
              ∷ s.leased;
        })
    released :
        (is_socket_open : ℕ → Bool) (now : ℕ) (before after : List Connection) (c c' : Connection)
        → s.leased ≡ before ++ c ∷ after
        → c'.address ≡ c.address
        → Step s (record {
          pool = release is_socket_open max_per_host now (some c') s.pool;
          leased = before ++ after;
        })
    dropped :
        (before after : List Connection) (c : Connection)
        → s.leased ≡ before ++ c ∷ after
        → Step s (record { pool = s.pool; leased = before ++ after })
    swept :
        (is_socket_open : ℕ → Bool) (now : ℕ)
        → Step s (record {
          pool = evict_expired is_socket_open idle_timeout now s.pool;
          leased = s.leased;
        })

  pub data Reachable : Traffic → Type 0 where
    empty_pool : Reachable (record { pool = []; leased = [] })
    and_then : {s t : Traffic} → Reachable s → Step s t → Reachable t

  -- No connection is held twice or held and pooled; the pool's queues are in order.
  pub record IsSound (s : Traffic) : Type 0 where
    pub exclusive : (a : ℕ) → pooled a s.pool + held a s.leased ≤ 1
    pub valid : PoolIsValid max_per_host s.pool

  acquired-exclusive :
      (address socket now : ℕ) (key : HostKey) (pool : Pool) (leased : List Connection) (a : ℕ)
      → pooled a pool + held a leased ≤ 1
      → pooled address pool + held address leased ≡ 0
      → (x : Option Connection × Pool) → found_count a x.0 + pooled a x.1 ≤ pooled a pool
      → pooled a (or_create address socket now key x).1
          + held a ((or_create address socket now key x).0 ∷ leased)
        ≤ 1
  unfolding or_create
  acquired-exclusive address socket now key pool leased a h unused (some c, pool') b =
      omega (arith, b, h)
  acquired-exclusive address socket now key pool leased a h unused (none, pool') b =
      elim (Bool-cases (address == a)) [
        | inl same ↦
            let e : address ≡ a = (==_iff address a).0 same in
            let u : pooled a pool + held a leased ≡ 0 =
              subst (λ n. pooled n pool + held n leased ≡ 0) e unused in
            rw same (omega (arith, u, b))
        | inr other ↦ rw other (omega (arith, b, h))
      ]

  or_create-IsValid :
      (address socket now : ℕ) (key : HostKey) (x : Option Connection × Pool)
      → PoolIsValid max_per_host x.1
      → PoolIsValid max_per_host (or_create address socket now key x).1
  unfolding or_create
  or_create-IsValid address socket now key (none, pool) h = h
  or_create-IsValid address socket now key (some c, pool) h = h

  held-middle :
      (a : ℕ) (before after : List Connection) (c : Connection)
      → held a (before ++ c ∷ after) ≡ one_if (c.address == a) + held a (before ++ after)
  held-middle a before after c =
      omega (arith, held-append a before (c ∷ after), held-append a before after)

  pooled-release :
      (is_socket_open : ℕ → Bool) (now a : ℕ) (c : Connection) (pool : Pool)
      → pooled a (release is_socket_open max_per_host now (some c) pool)
        ≤ one_if (c.address == a) + pooled a pool
  unfolding release
  pooled-release is_socket_open now a c pool =
      if_either (λ p. pooled a p ≤ one_if (c.address == a) + pooled a pool)
        (is_open is_socket_open c) (pooled-push a max_per_host (record c { last_used = now }) pool)
        (omega arith)

  release-IsValid :
      (is_socket_open : ℕ → Bool) (now : ℕ) (c : Connection) (pool : Pool)
      → PoolIsValid max_per_host pool
      → PoolIsValid max_per_host (release is_socket_open max_per_host now (some c) pool)
  unfolding release
  release-IsValid is_socket_open now c pool h =
      if_either (PoolIsValid max_per_host) (is_open is_socket_open c)
        (push-IsValid max_per_host (record c { last_used = now }) pool h) h

  Step-IsSound : {s t : Traffic} → Step s t → IsSound s → IsSound t
  unfolding acquire
  Step-IsSound {s} (acquired is_socket_open clock address socket now key unused) h = record {
    exclusive = λ a.
        acquired-exclusive address socket now key s.pool s.leased a (h.exclusive a) unused _
          (pooled-acquire_pooled is_socket_open idle_timeout a clock key s.pool);
    valid =
        or_create-IsValid address socket now key _
          (acquire_pooled-IsValid is_socket_open idle_timeout max_per_host clock key s.pool
            h.valid).1;
  }
  Step-IsSound {s} (released is_socket_open now before after c c' e same) h = record {
    exclusive = λ a.
        let sum : held a s.leased ≡ one_if (c'.address == a) + held a (before ++ after) =
          rw same (ap (held a) e ∙ held-middle a before after c) in
        omega (arith, h.exclusive a, sum, pooled-release is_socket_open now a c' s.pool);
    valid = release-IsValid is_socket_open now c' s.pool h.valid;
  }
  Step-IsSound {s} (dropped before after c e) h = record {
    exclusive = λ a. omega (arith, h.exclusive a, ap (held a) e, held-middle a before after c);
    valid = h.valid;
  }
  Step-IsSound {s} (swept is_socket_open now) h = record {
    exclusive = λ a.
        omega (arith, h.exclusive a, pooled-evict_expired is_socket_open idle_timeout a now s.pool);
    valid = evict_expired-IsValid is_socket_open idle_timeout max_per_host now s.pool h.valid;
  }

  -- In every state that clients and pool can reach from an empty pool, if each client gives back or
  -- drops only what it holds: no connection is held by two clients, or held and in the pool, or twice
  -- in the pool; each pooled connection is in the queue of its own host, port and kind; and no queue
  -- is longer than the limit.
  pub Reachable-IsSound : {s : Traffic} → Reachable s → IsSound s
  Reachable-IsSound empty_pool = record { exclusive = λ a. omega arith; valid = tt }
  Reachable-IsSound (and_then r st) = Step-IsSound st (Reachable-IsSound r)
