-- ===== src/CachingMiddleware/Room.antt =====
-- An insertion makes room, and keeps the cache sound.
use ai_sdk_cpp.Prelude.{
  ℕ, zero, suc, ◌<◌, ◌≡◌, refl, ap, ◌∙◌, inl, inr, true, false, List, [], ◌∷◌, Option, none, some,
  Bool-cases, Bytes, str_eq, str_eq_iff, ltb, ltb→lt, length, length-append, arith,
}
use ai_sdk_cpp.CachingMiddleware.{
  CacheEntry, Cache, erase_key, split_last, evict_lru, emplace_front, insert,
}
use ai_sdk_cpp.CachingMiddleware.Nodes.{
  find_key-set_key, find_key-set_key_here, find_node_behind, find_node_front, SplitOf,
  split_last-SplitOf,
}
use ai_sdk_cpp.CachingMiddleware.Sound.{IsSound, evict_last-IsSound}

module _ {R : Type 0} (P : Bytes → R → Type 0) where
  module _ (max_entries : ℕ) where
    -- The node that is put in front, if there is room.
    pub emplace_front-IsSound :
        (key : Bytes) (r : R) (c : Cache R)
        → P key r
        → IsSound max_entries P c
        → length c.cache_list < max_entries
        → IsSound max_entries P (emplace_front key r c)
    emplace_front-IsSound key r c made h room =
        let front : CacheEntry R = record { node = c.next_node; key = key; result = r } in
        record {
          bounded = omega (arith, room);
          linked = λ k m f. elim (Bool-cases (str_eq key k)) [
            | inl here ↦
                let at = find_key-set_key_here key k c.next_node m c.cache_map here f in
                (
                  omega (arith, at),
                  front,
                  find_node_front m front c.cache_list at,
                  (str_eq_iff key k).0 here,
                )
            | inr other ↦
                let (below, e, found, same) =
                  h.linked k m (find_key-set_key key k c.next_node m c.cache_map other f) in
                (omega (arith, below), e, find_node_behind m front e c.cache_list below found, same)
          ];
          known = (made, h.known);
        }

    pub evict_lru_room :
        (fuel : ℕ) (c : Cache R)
        → ltb (length c.cache_list) max_entries ≡ true
        → evict_lru max_entries (suc fuel) c ≡ some c
    unfolding evict_lru
    evict_lru_room fuel c room = ground (arith, room)

    pub evict_lru_full :
        (fuel : ℕ) (c : Cache R) (init : List (CacheEntry R)) (last : CacheEntry R)
        → ltb (length c.cache_list) max_entries ≡ false
        → split_last c.cache_list ≡ some (init, last)
        → evict_lru max_entries (suc fuel) c
          ≡ evict_lru max_entries fuel
              (record c { cache_list = init; cache_map = erase_key last.key c.cache_map })
    unfolding evict_lru
    evict_lru_full fuel c init last full split = ground (arith, full, split)

    -- With a positive limit the loop makes room, and never decrements the end of an empty list.
    unfoldable MakesRoom : ℕ → Cache R → Type 0
    MakesRoom fuel c =
        (c' : Cache R) × (evict_lru max_entries fuel c ≡ some c')
        × IsSound max_entries P c'
        × (length c'.cache_list < max_entries)

    evicted :
        (fuel : ℕ) (c : Cache R)
        → 0 < max_entries
        → length c.cache_list < suc fuel
        → IsSound max_entries P c
        → ((c' : Cache R)
            → 0 < max_entries
            → length c'.cache_list < fuel
            → IsSound max_entries P c'
            → MakesRoom fuel c')
        → (x : Option (List (CacheEntry R) × CacheEntry R))
        → ltb (length c.cache_list) max_entries ≡ false
        → split_last c.cache_list ≡ x
        → SplitOf c.cache_list x
        → MakesRoom (suc fuel) c
    unfolding MakesRoom
    evicted fuel c positive enough h next none full split nothing =
        absurd (ground (arith, positive, full, ap length nothing))
    evicted fuel c positive enough h next (some (init, last)) full split parts =
        let (c', e, sound, room) =
          next (record c { cache_list = init; cache_map = erase_key last.key c.cache_map }) positive
            (omega (arith, enough, ap length parts, length-append init (last ∷ [])))
            (evict_last-IsSound P max_entries init last c h parts) in
        (c', evict_lru_full fuel c init last full split ∙ e, sound, room)

    evict_lru-MakesRoom :
        (fuel : ℕ) (c : Cache R)
        → 0 < max_entries
        → length c.cache_list < fuel
        → IsSound max_entries P c
        → MakesRoom fuel c
    unfolding MakesRoom
    evict_lru-MakesRoom zero c positive enough h = absurd (omega (arith, enough))
    evict_lru-MakesRoom (suc fuel) c positive enough h =
        elim (Bool-cases (ltb (length c.cache_list) max_entries)) [
          | inl room ↦ (c, evict_lru_room fuel c room, h, ltb→lt _ _ room)
          | inr full ↦
              evicted fuel c positive enough h (evict_lru-MakesRoom fuel) (split_last c.cache_list)
                full refl (split_last-SplitOf c.cache_list)
        ]

    pub insert_room :
        (key : Bytes) (r : R) (c c' : Cache R)
        → evict_lru max_entries (suc (length c.cache_list)) c ≡ some c'
        → insert max_entries key r c ≡ some (emplace_front key r c')
    unfolding insert
    insert_room key r c c' e = ground (arith, e)

    pub insert-IsSound :
        (key : Bytes) (r : R) (c : Cache R)
        → 0 < max_entries
        → P key r
        → IsSound max_entries P c
        → (c' : Cache R) × (insert max_entries key r c ≡ some c') × IsSound max_entries P c'
    unfolding MakesRoom
    insert-IsSound key r c positive made h =
        let (c', e, sound, room) =
          evict_lru-MakesRoom (suc (length c.cache_list)) c positive (omega arith) h in
        (
          emplace_front key r c',
          insert_room key r c c' e,
          emplace_front-IsSound key r c' made sound room,
        )
