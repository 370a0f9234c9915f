-- ===== src/Http/ConnectionPool/Tests.antt =====
-- The pool's theorems at two connections to one host, of which one has been closed.
use ai_sdk_cpp.Prelude.{
  ℕ, ◌+◌, ◌≡◌, refl, Bool, true, false, [], ◌∷◌, some, codes, ◌==◌, not, str_eq,
}
use ai_sdk_cpp.Http.ConnectionPool.{
  Connection, HostKey, Pool, key_eq, new_connection, acquire, release, evict_expired,
}
use ai_sdk_cpp.Http.ConnectionPool.Queue.{Served, acquire-Served}
use ai_sdk_cpp.Http.ConnectionPool.Leases.{
  Traffic, Reachable, empty_pool, and_then, acquired, released, IsSound, Reachable-IsSound,
}

abbrev api : HostKey
api = record { host = codes "api"; port = codes "443"; tls = true }

abbrev web : HostKey
web = record { host = codes "web"; port = codes "80"; tls = false }

abbrev first : Connection
first = new_connection 1 11 0 api

abbrev second : Connection
second = new_connection 2 12 5 api

abbrev pool : Pool
pool = (api, first ∷ second ∷ []) ∷ []

-- The first connection's socket is closed.
abbrev is_socket_open : ℕ → Bool
is_socket_open socket = not (socket == 11)

abbrev clock : ℕ → ℕ
clock i = 20 + i

skips_closed : acquire is_socket_open 60 clock 3 13 20 api pool ≡ (second, (api, []) ∷ [])
unfolding acquire key_eq str_eq
skips_closed = refl

full_queue :
    release is_socket_open 1 30 (some second) ((api, second ∷ []) ∷ []) ≡ (api, second ∷ []) ∷ []
unfolding release key_eq str_eq
full_queue = refl

sweep : evict_expired is_socket_open 60 70 pool ≡ []
unfolding evict_expired
sweep = refl

acquire-Served_example :
    Served is_socket_open 60 clock api 3 13 20 pool
      (acquire is_socket_open 60 clock 3 13 20 api pool).0
      (acquire is_socket_open 60 clock 3 13 20 api pool).1
acquire-Served_example = acquire-Served is_socket_open 60 clock api 3 13 20 pool

abbrev given_back : Traffic
given_back = record {
  pool =
      release is_socket_open 8 30 (some second) (acquire is_socket_open 60 clock 2 12 5 api []).1;
  leased = [];
}

round_trip : Reachable 8 60 given_back
unfolding acquire
round_trip =
    and_then (and_then empty_pool (acquired is_socket_open clock 2 12 5 api refl))
      (released is_socket_open 30 [] [] second second refl refl)

Reachable-IsSound_example : IsSound 8 60 given_back
Reachable-IsSound_example = Reachable-IsSound 8 60 round_trip
