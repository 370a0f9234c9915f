-- ===== src/Http/ConnectionPool.antt =====
-- src/http/connection_pool.cpp and include/ai/http/connection_pool.hpp: the idle connections of each
-- host. Each operation holds the mutex, so it is one function on the pool. Time is a number of
-- seconds; the clock is a list of readings, and whether a socket is open is an argument, since both
-- change outside of the pool. A `shared_ptr` is known by the address of its connection.
pub mod Queue
pub mod Counts
pub mod Valid
pub mod Leases
mod Tests
use ai_sdk_cpp.Prelude.{
  ℕ, suc, ◌+◌, ◌-◌, Bool, true, false, not, ◌&&◌, ◌||◌, List, [], ◌∷◌, ◌++◌, Option, none, some,
  Bytes, length, is_empty, filter, ltb, str_eq, if◌then◌else◌,
}

pub record Connection : Type 0 where
  pub address : ℕ
  pub ssl_stream : Option ℕ
  pub tcp_stream : Option ℕ
  pub host : Bytes
  pub port : Bytes
  pub is_tls : Bool
  pub connected : Bool
  pub last_used : ℕ

pub record HostKey : Type 0 where
  pub host : Bytes
  pub port : Bytes
  pub tls : Bool

abbrev pub bool_eq : Bool → Bool → Bool
bool_eq true b = b
bool_eq false b = not b

unfoldable pub key_eq : HostKey → HostKey → Bool
key_eq j k = str_eq j.host k.host && str_eq j.port k.port && bool_eq j.tls k.tls

abbrev pub key_of : Connection → HostKey
key_of c = record { host = c.host; port = c.port; tls = c.is_tls }

-- `pool_`: each key has its queue, the connection that waits longest in front.
abbrev pub Pool : Type 0
Pool = List (HostKey × List Connection)

abbrev pub open_stream : (ℕ → Bool) → Option ℕ → Bool
open_stream is_socket_open none = false
open_stream is_socket_open (some socket) = is_socket_open socket

-- `pool_[key]` and the test of its size: at the end of the map if the key is new.
unfoldable pub push : ℕ → Connection → Pool → Pool
unfolding key_eq
push max_per_host c [] = (key_of c, if ltb 0 max_per_host then c ∷ [] else []) ∷ []
push max_per_host c ((k, queue) ∷ rest) =
    if key_eq k (key_of c)
    then (k, if ltb (length queue) max_per_host then queue ++ c ∷ [] else queue) ∷ rest
    else (k, queue) ∷ push max_per_host c rest

-- A new connection is not connected yet; it has the stream that its kind needs.
abbrev pub new_connection : ℕ → ℕ → ℕ → HostKey → Connection
new_connection address socket now key = record {
  address = address;
  ssl_stream = if key.tls then some socket else none;
  tcp_stream = if key.tls then none else some socket;
  host = key.host;
  port = key.port;
  is_tls = key.tls;
  connected = false;
  last_used = now;
}

-- `acquire` behind its lock: the pooled connection, or a new one.
unfoldable pub or_create : ℕ → ℕ → ℕ → HostKey → Option Connection × Pool → Connection × Pool
or_create address socket now key (some c, pool) = (c, pool)
or_create address socket now key (none, pool) = (new_connection address socket now key, pool)

module _ (is_socket_open : ℕ → Bool) where
  -- `Connection::is_open`.
  unfoldable pub is_open : Connection → Bool
  is_open c =
      if c.is_tls
      then open_stream is_socket_open c.ssl_stream
      else open_stream is_socket_open c.tcp_stream

  module _ (idle_timeout : ℕ) where
    -- `idle_time > idle_timeout_ || !conn->is_open()`.
    abbrev pub is_stale : ℕ → Connection → Bool
    is_stale now c = ltb idle_timeout (now - c.last_used) || not (is_open c)

    -- The loop of `acquire`; the clock is read once for each connection.
    unfoldable pub pop_live : (ℕ → ℕ) → List Connection → Option Connection × List Connection
    unfolding is_open
    pop_live clock [] = (none, [])
    pop_live clock (c ∷ cs) =
        let next = pop_live (λ i. clock (suc i)) cs in
        if is_stale (clock 0) c then next else (some c, cs)

    unfoldable pub acquire_pooled : (ℕ → ℕ) → HostKey → Pool → Option Connection × Pool
    unfolding pop_live key_eq
    acquire_pooled clock key [] = (none, [])
    acquire_pooled clock key ((k, queue) ∷ rest) =
        let (found, left) = pop_live clock queue in
        let (later, others) = acquire_pooled clock key rest in
        if key_eq k key then (found, (k, left) ∷ rest) else (later, (k, queue) ∷ others)

    unfoldable pub acquire : (ℕ → ℕ) → ℕ → ℕ → ℕ → HostKey → Pool → Connection × Pool
    unfolding acquire_pooled or_create
    acquire clock address socket now key pool =
        or_create address socket now key (acquire_pooled clock key pool)

    unfoldable pub evict_expired : ℕ → Pool → Pool
    unfolding is_open
    evict_expired now [] = []
    evict_expired now ((k, queue) ∷ rest) =
        let kept = filter (λ c. not (is_stale now c)) queue in
        if is_empty kept then evict_expired now rest else (k, kept) ∷ evict_expired now rest

  -- A null pointer is `none`.
  unfoldable pub release : ℕ → ℕ → Option Connection → Pool → Pool
  unfolding is_open push
  release max_per_host now none pool = pool
  release max_per_host now (some c) pool =
      if is_open c then push max_per_host (record c { last_used = now }) pool else pool
