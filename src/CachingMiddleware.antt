-- ===== src/CachingMiddleware.antt =====
-- include/ai/model/caching_middleware.hpp: the cache of answers, least recently used first out. The
-- list and the map over it share nodes: a node has an address, an iterator is an address, and
-- dereferencing one that no node has is undefined behaviour.
pub mod Key
pub mod Lru
pub mod Nodes
pub mod Reach
pub mod Room
pub mod Served
pub mod Sound
mod Tests
use ai_sdk_cpp.Prelude.{
  ℕ, zero, suc, Bool, not, List, [], ◌∷◌, Option, none, some, Bytes, str_eq, ltb, length, filter,
  ◌==◌, if◌then◌else◌,
}
use ai_sdk_cpp.Tools.{Attempt, ok, threw, Task}

-- A node of `cache_list_`.
pub record CacheEntry (R : Type 0) : Type 0 where
  pub node : ℕ
  pub key : Bytes
  pub result : R

-- The members; the next address is the allocator's.
pub record Cache (R : Type 0) : Type 0 where
  pub cache_list : List (CacheEntry R)
  pub cache_map : List (Bytes × ℕ)
  pub next_node : ℕ

pub data Looked (R : Type 0) : Type 0 where
  miss : Looked R
  hit : R → Looked R
  dangling : Looked R

-- `cache_map_`, which has each key once.
unfoldable pub find_key : Bytes → List (Bytes × ℕ) → Option ℕ
find_key key [] = none
find_key key ((k, node) ∷ rest) = if str_eq k key then some node else find_key key rest

unfoldable pub erase_key : Bytes → List (Bytes × ℕ) → List (Bytes × ℕ)
erase_key key [] = []
erase_key key ((k, node) ∷ rest) =
    if str_eq k key then erase_key key rest else (k, node) ∷ erase_key key rest

unfoldable pub set_key : Bytes → ℕ → List (Bytes × ℕ) → List (Bytes × ℕ)
unfolding erase_key
set_key key node index = (key, node) ∷ erase_key key index

module _ {R : Type 0} where
  abbrev pub empty_cache : Cache R
  empty_cache = record { cache_list = []; cache_map = []; next_node = 0 }

  -- Dereferences an iterator.
  unfoldable pub find_node : ℕ → List (CacheEntry R) → Option (CacheEntry R)
  find_node node [] = none
  find_node node (e ∷ es) = if e.node == node then some e else find_node node es

  unfoldable pub remove_node : ℕ → List (CacheEntry R) → List (CacheEntry R)
  remove_node node [] = []
  remove_node node (e ∷ es) = if e.node == node then es else e ∷ remove_node node es

  -- The first critical section: a hit is moved to the front.
  unfoldable pub look_up : Bytes → Cache R → Looked R × Cache R
  unfolding find_key find_node remove_node
  look_up key c = elim (find_key key c.cache_map) [
    | none ↦ (Looked.miss, c)
    | some node ↦ elim (find_node node c.cache_list) [
      | none ↦ (Looked.dangling, c)
      | some e ↦ (Looked.hit e.result, record c { cache_list = e ∷ remove_node node c.cache_list })
    ]
  ]

  -- The list without its last node, and that node; an empty list has none.
  unfoldable pub split_last : List (CacheEntry R) → Option (List (CacheEntry R) × CacheEntry R)
  split_last [] = none
  split_last (e ∷ es) = elim (split_last es) [
    | none ↦ some ([], e)
    | some (init, last) ↦ some (e ∷ init, last)
  ]

  -- One round of `while (cache_list_.size() >= max_entries_)`.
  abbrev pub evict_last : Cache R → Option (Cache R)
  evict_last c = elim (split_last c.cache_list) [
    | none ↦ none
    | some (init, last) ↦
        some (record c { cache_list = init; cache_map = erase_key last.key c.cache_map })
  ]

  -- The loop, on fuel; `none` also where it decrements the end of an empty list.
  unfoldable pub evict_lru : ℕ → ℕ → Cache R → Option (Cache R)
  unfolding split_last erase_key
  evict_lru max_entries zero c = none
  evict_lru max_entries (suc fuel) c =
      if ltb (length c.cache_list) max_entries
      then some c
      else elim (evict_last c) [ none ↦ none | some c' ↦ evict_lru max_entries fuel c' ]

  abbrev pub emplace_front : Bytes → R → Cache R → Cache R
  emplace_front key result c = record {
    cache_list = record { node = c.next_node; key = key; result = result } ∷ c.cache_list;
    cache_map = set_key key c.next_node c.cache_map;
    next_node = suc c.next_node;
  }

  -- The second critical section.
  unfoldable pub insert : ℕ → Bytes → R → Cache R → Option (Cache R)
  unfolding evict_lru set_key
  insert max_entries key result c = elim (evict_lru max_entries (suc (length c.cache_list)) c) [
    | none ↦ none
    | some c' ↦ some (emplace_front key result c')
  ]

  unfoldable pub clear : Cache R → Cache R
  clear c = record c { cache_list = []; cache_map = [] }

  -- Behind `do_generate` of a call that missed; an exception leaves the cache as it is.
  unfoldable pub answered :
      {W : Type 0} → ℕ → Bytes → Cache R → Attempt R × W → Option (Attempt R × Cache R × W)
  unfolding insert
  answered max_entries key c (threw e, w) = some (threw e, c, w)
  answered max_entries key c (ok result, w) = elim (insert max_entries key result c) [
    | none ↦ none
    | some c' ↦ some (ok result, c', w)
  ]

  -- A call whose two critical sections nothing comes between; `none` is undefined behaviour.
  unfoldable pub wrap_generate :
      {W : Type 0} → ℕ → Bytes → Task W R → Cache R → W → Option (Attempt R × Cache R × W)
  unfolding look_up answered
  wrap_generate max_entries key do_generate c w =
      let (looked, c') = look_up key c in
      elim looked [
        | Looked.hit r ↦ some (ok r, c', w)
        | Looked.dangling ↦ none
        | Looked.miss ↦ answered max_entries key c' (do_generate w)
      ]
