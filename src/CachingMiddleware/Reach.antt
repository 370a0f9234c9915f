-- ===== src/CachingMiddleware/Reach.antt =====
-- The map never holds an iterator without a node, in any interleaving of calls.
use ai_sdk_cpp.Prelude.{ℕ, ◌<◌, ◌≡◌, subst, some, Bytes, arith}
use ai_sdk_cpp.CachingMiddleware.{Cache, look_up, insert, clear, empty_cache}
use ai_sdk_cpp.CachingMiddleware.Sound.{
  IsSound, LookedOf, empty-IsSound, clear-IsSound, look_up-IsSound,
}
use ai_sdk_cpp.CachingMiddleware.Room.{insert-IsSound}

module _ {R : Type 0} (P : Bytes → R → Type 0) where
  -- What the calls of any number of threads do to the cache: each critical section at once. A result
  -- that is inserted was made for its key.
  pub data Reach (max_entries : ℕ) : Cache R → Type 0 where
    start : Reach max_entries empty_cache
    looked : (key : Bytes) {c : Cache R} → Reach max_entries c → Reach max_entries (look_up key c).1
    inserted :
        (key : Bytes) (r : R) {c c' : Cache R}
        → Reach max_entries c
        → P key r
        → insert max_entries key r c ≡ some c'
        → Reach max_entries c'
    cleared : {c : Cache R} → Reach max_entries c → Reach max_entries (clear c)

  reach :
      (max_entries : ℕ)
      → 0 < max_entries
      → {c : Cache R} → Reach max_entries c
      → IsSound max_entries P c
  reach max_entries positive Reach.start = empty-IsSound P max_entries
  reach max_entries positive (Reach.looked key {c} r) =
      (look_up-IsSound P max_entries key c (reach max_entries positive r)).1
  reach max_entries positive (Reach.inserted key x {c} {c'} r made e) =
      let (c'', e', sound) =
        insert-IsSound P max_entries key x c positive made (reach max_entries positive r) in
      subst (IsSound max_entries P) (ground (arith, e, e')) sound
  reach max_entries positive (Reach.cleared {c} r) = clear-IsSound P max_entries c

  -- With a positive limit, whatever calls of any number of threads come between each other: the cache
  -- is no larger than the limit, each iterator in the map is that of a node with its key, a call that
  -- hits gets a result that was made for its key, and never through a dangling iterator, and an
  -- insertion always ends, without an access past the ends of the list.
  pub Reach-IsSound :
      (max_entries : ℕ)
      → 0 < max_entries
      → (c : Cache R) → Reach max_entries c
      → (key : Bytes) (r : R) → P key r
      → IsSound max_entries P c
        × LookedOf P key (look_up key c).0
        × (c' : Cache R) × (insert max_entries key r c ≡ some c')
        × Reach max_entries c'
  Reach-IsSound max_entries positive c seen key r made =
      let sound = reach max_entries positive seen in
      let (c', e, next) = insert-IsSound P max_entries key r c positive made sound in
      (
        sound,
        (look_up-IsSound P max_entries key c sound).0,
        c',
        e,
        Reach.inserted key r seen made e,
      )
