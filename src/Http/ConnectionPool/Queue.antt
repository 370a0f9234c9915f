-- ===== src/Http/ConnectionPool/Queue.antt =====
-- Which connection `acquire` hands out, and what the pool keeps true of its queues.
use ai_sdk_cpp.Prelude.{
  ℕ, suc, ◌-◌, ◌≤◌, ◌≡◌, refl, sym, ap, ◌∙◌, inl, inr, Bool, true, false, List, [], ◌∷◌, ◌++◌,
  Option, none, some, length, str_eq_iff, if◌then◌else◌, Bool-cases, arith,
}
use ai_sdk_cpp.Http.ConnectionPool.{
  Connection, open_stream, is_open, HostKey, bool_eq, key_eq, Pool, is_stale, pop_live,
  acquire_pooled, new_connection, or_create, acquire,
}

pub bool_eq-eq : (a b : Bool) → bool_eq a b ≡ true → a ≡ b
bool_eq-eq a b h = ground arith

pub key_eq-eq : (j k : HostKey) → key_eq j k ≡ true → j ≡ k
unfolding key_eq
key_eq-eq j k h =
    ground (arith, str_eq_iff j.host k.host, str_eq_iff j.port k.port, bool_eq-eq j.tls k.tls)

module _ (is_socket_open : ℕ → Bool) (idle_timeout : ℕ) where
  -- A connection with an open stream of its kind.
  abbrev pub IsOpen : Connection → Type 0
  IsOpen c =
      (socket : ℕ) × ((if c.is_tls then c.ssl_stream else c.tcp_stream) ≡ some socket)
      × (is_socket_open socket ≡ true)

  -- A connection that can be used at a time: it is open and was idle for at most the limit.
  abbrev pub IsLive : ℕ → Connection → Type 0
  IsLive now c = (now - c.last_used ≤ idle_timeout) × IsOpen c

  open_stream-socket :
      (o : Option ℕ)
      → open_stream is_socket_open o ≡ true
      → (socket : ℕ) × (o ≡ some socket) × (is_socket_open socket ≡ true)
  open_stream-socket none h = absurd (cc h)
  open_stream-socket (some s) h = (s, refl, h)

  open_stream-closed :
      (o : Option ℕ)
      → open_stream is_socket_open o ≡ false
      → ¬ ((socket : ℕ) × (o ≡ some socket) × (is_socket_open socket ≡ true))
  open_stream-closed none h (s, e, live) = cc e
  open_stream-closed (some t) h (s, e, live) =
      let same : t ≡ s = cc e in cc (h, live, ap is_socket_open same)

  is_open-stream :
      (c : Connection)
      → is_open is_socket_open c
        ≡ open_stream is_socket_open (if c.is_tls then c.ssl_stream else c.tcp_stream)
  unfolding is_open
  is_open-stream c = ground arith

  is_stale-IsLive :
      (now : ℕ) (c : Connection) → is_stale is_socket_open idle_timeout now c ≡ false → IsLive now c
  is_stale-IsLive now c h =
      (ground (arith, h), open_stream-socket _ (sym (is_open-stream c) ∙ ground (arith, h)))

  is_stale-stale :
      (now : ℕ) (c : Connection)
      → is_stale is_socket_open idle_timeout now c ≡ true
      → ¬ (IsLive now c)
  is_stale-stale now c h (young, live) = elim (Bool-cases (is_open is_socket_open c)) [
    | inl up ↦ ground (arith, h, young, up)
    | inr down ↦ open_stream-closed _ (sym (is_open-stream c) ∙ down) live
  ]

  -- None of the connections can be used when it is looked at.
  abbrev pub AllStale : (ℕ → ℕ) → List Connection → Type 0
  AllStale clock [] = Unit {0}
  AllStale clock (c ∷ cs) = ¬ (IsLive (clock 0) c) × AllStale (λ i. clock (suc i)) cs

  -- What is taken from a queue: the first connection that can be used when it is looked at, and all in
  -- front of it are gone; or nothing, and the queue is empty.
  pub data Popped (clock : ℕ → ℕ) (queue : List Connection)
      : Option Connection → List Connection → Type 0 where
    all_stale : AllStale clock queue → Popped clock queue none []
    first_live :
        (stale : List Connection) (c : Connection) (rest : List Connection)
        → queue ≡ stale ++ c ∷ rest
        → AllStale clock stale
        → IsLive (clock (length stale)) c
        → Popped clock queue (some c) rest

  one_more :
      (clock : ℕ → ℕ) (c : Connection) (cs rest : List Connection) (o : Option Connection)
      → ¬ (IsLive (clock 0) c)
      → Popped (λ i. clock (suc i)) cs o rest
      → Popped clock (c ∷ cs) o rest
  one_more clock c cs rest o s (all_stale h) = all_stale (s, h)
  one_more clock c cs rest o s (first_live stale d r e h l) =
      first_live (c ∷ stale) d r (ap (◌∷◌ c) e) (s, h) l

  pub pop_live-Popped :
      (clock : ℕ → ℕ) (queue : List Connection)
      → Popped clock queue
          (pop_live is_socket_open idle_timeout clock queue).0
          (pop_live is_socket_open idle_timeout clock queue).1
  unfolding pop_live
  pop_live-Popped clock [] = all_stale tt
  pop_live-Popped clock (c ∷ cs) =
      elim (Bool-cases (is_stale is_socket_open idle_timeout (clock 0) c)) [
        | inl s ↦
            rw (s, pop_live)
              (one_more clock c cs _ _ (is_stale-stale (clock 0) c s)
                (pop_live-Popped (λ i. clock (suc i)) cs))
        | inr l ↦ rw (l, pop_live) (first_live [] c cs refl tt (is_stale-IsLive (clock 0) c l))
      ]

-- The queue of a key, empty if the map has none.
unfoldable pub queue_of : HostKey → Pool → List Connection
queue_of key [] = []
queue_of key ((k, queue) ∷ rest) = if key_eq k key then queue else queue_of key rest

or_create-pool :
    (address socket now : ℕ) (key : HostKey) (x : Option Connection × Pool)
    → (or_create address socket now key x).1 ≡ x.1
unfolding or_create
or_create-pool address socket now key (none, pool) = refl
or_create-pool address socket now key (some c, pool) = refl

module _ (is_socket_open : ℕ → Bool) (idle_timeout : ℕ) (clock : ℕ → ℕ) (key : HostKey) where
  acquire_pooled-Popped :
      (pool : Pool)
      → Popped is_socket_open idle_timeout clock
          (queue_of key pool)
          (acquire_pooled is_socket_open idle_timeout clock key pool).0
          (queue_of key (acquire_pooled is_socket_open idle_timeout clock key pool).1)
  unfolding acquire_pooled queue_of
  acquire_pooled-Popped [] = all_stale tt
  acquire_pooled-Popped ((k, queue) ∷ rest) = elim (Bool-cases (key_eq k key)) [
    | inl same ↦
        rw (same, acquire_pooled, queue_of)
          (rw (same, queue_of) (pop_live-Popped is_socket_open idle_timeout clock queue))
    | inr other ↦
        rw (other, acquire_pooled, queue_of) (rw (other, queue_of) (acquire_pooled-Popped rest))
  ]

  acquire_pooled-others :
      (pool : Pool) (other : HostKey)
      → key_eq key other ≡ false
      → queue_of other (acquire_pooled is_socket_open idle_timeout clock key pool).1
        ≡ queue_of other pool
  unfolding acquire_pooled queue_of
  acquire_pooled-others [] other h = refl
  acquire_pooled-others ((k, queue) ∷ rest) other h = elim (Bool-cases (key_eq k key)) [
    | inl same ↦ ground (arith, same, key_eq-eq k key same)
    | inr differ ↦ ground (arith, differ, acquire_pooled-others rest other h)
  ]

  -- What `acquire` answers: a connection from the queue of the key, or a new one if the queue ran out.
  pub data Served (address socket now : ℕ) (pool : Pool) : Connection → Pool → Type 0 where
    reused :
        (c : Connection) (pool' : Pool)
        → Popped is_socket_open idle_timeout clock (queue_of key pool) (some c) (queue_of key pool')
        → Served address socket now pool c pool'
    created :
        (pool' : Pool)
        → Popped is_socket_open idle_timeout clock (queue_of key pool) none (queue_of key pool')
        → Served address socket now pool (new_connection address socket now key) pool'

  served :
      (address socket now : ℕ) (pool : Pool) (x : Option Connection × Pool)
      → Popped is_socket_open idle_timeout clock (queue_of key pool) x.0 (queue_of key x.1)
      → Served address socket now pool
          (or_create address socket now key x).0
          (or_create address socket now key x).1
  unfolding or_create
  served address socket now pool (none, pool') p = created pool' p
  served address socket now pool (some c, pool') p = reused c pool' p

  -- acquire hands out the first connection of the host's queue that has an open stream of its kind and
  -- was idle for at most the limit when it was looked at, and drops all in front of it, which were not so; if there is none, the
  -- queue is left empty and a new connection is made for the host, port and kind that were asked for.
  pub acquire-Served :
      (address socket now : ℕ) (pool : Pool)
      → Served address socket now pool
          (acquire is_socket_open idle_timeout clock address socket now key pool).0
          (acquire is_socket_open idle_timeout clock address socket now key pool).1
  unfolding acquire
  acquire-Served address socket now pool =
      served address socket now pool _ (acquire_pooled-Popped pool)

  -- The queues of other hosts stay as they are.
  acquire-others :
      (address socket now : ℕ) (pool : Pool) (other : HostKey)
      → key_eq key other ≡ false
      → queue_of other (acquire is_socket_open idle_timeout clock address socket now key pool).1
        ≡ queue_of other pool
  unfolding acquire
  acquire-others address socket now pool other h =
      ap (queue_of other) (or_create-pool address socket now key _)
      ∙ acquire_pooled-others pool other h
