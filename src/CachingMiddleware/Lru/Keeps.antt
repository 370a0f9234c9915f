-- ===== src/CachingMiddleware/Lru/Keeps.antt =====
-- A hit and an insertion keep the cache exact; an insertion drops the last entry at most.
use ai_sdk_cpp.Prelude.{
  ℕ, zero, suc, ◌≤◌, ◌<◌, ◌-◌, ◌≡◌, refl, sym, ap, subst, ◌∙◌, inl, inr, false, List, [], ◌∷◌, ◌++◌,
  Option, none, some, Bool-cases, Bytes, str_eq, ltb, ltb→lt, lt→ltb, length, length-append, take,
  arith,
}
use ai_sdk_cpp.CachingMiddleware.{
  CacheEntry, Cache, find_key, erase_key, find_node, remove_node, split_last, evict_lru,
  emplace_front,
}
use ai_sdk_cpp.CachingMiddleware.Lru.{contents}
use ai_sdk_cpp.CachingMiddleware.Lru.Exact.{
  Indexed, Lacks, Distinct, IsExact, remove_node-All, remove_node-Distinct, remove_node-Lacks,
  found-All, All-init, init-Indexed, init-Distinct, set_key-Indexed,
}
use ai_sdk_cpp.CachingMiddleware.Nodes.{SplitOf, split_last-SplitOf}
use ai_sdk_cpp.CachingMiddleware.Room.{emplace_front-IsSound, evict_lru_room, evict_lru_full}
use ai_sdk_cpp.CachingMiddleware.Sound.{hit-IsSound, evict_last-IsSound}
use ai_sdk_cpp.CachingMiddleware.Served.{set_key_here}

module _ {R : Type 0} where
  length-contents : (es : List (CacheEntry R)) → length (contents es) ≡ length es
  length-contents [] = refl
  length-contents (e ∷ es) = ap suc (length-contents es)

  take-all : (n : ℕ) (es : List (CacheEntry R)) → length es ≤ n → take n (contents es) ≡ contents es
  take-all zero [] h = refl
  take-all zero (e ∷ es) h = absurd (omega (arith, h))
  take-all (suc n) [] h = refl
  take-all (suc n) (e ∷ es) h = ap (◌∷◌ (e.key, e.result)) (take-all n es (omega (arith, h)))

  take-init :
      (n : ℕ) (init : List (CacheEntry R)) (last : CacheEntry R)
      → length init ≡ n
      → take n (contents (init ++ last ∷ [])) ≡ contents init
  take-init zero [] last h = refl
  take-init zero (e ∷ es) last h = absurd (omega (arith, h))
  take-init (suc n) [] last h = absurd (omega (arith, h))
  take-init (suc n) (e ∷ es) last h =
      ap (◌∷◌ (e.key, e.result)) (take-init n es last (omega (arith, h)))

  module _ (max_entries : ℕ) (positive : 0 < max_entries) where
    pub hit-IsExact :
        (key : Bytes) (n : ℕ) (e : CacheEntry R) (c : Cache R)
        → IsExact max_entries c
        → find_key key c.cache_map ≡ some n
        → find_node n c.cache_list ≡ some e
        → IsExact max_entries (record c { cache_list = e ∷ remove_node n c.cache_list })
    hit-IsExact key n e c h at found = record {
      sound = hit-IsSound (λ k r. Unit {0}) max_entries key n e c h.sound at found;
      indexed = (
        found-All (λ x. find_key x.key c.cache_map ≡ some x.node) n c.cache_list e h.indexed found,
        remove_node-All (λ x. find_key x.key c.cache_map ≡ some x.node) n c.cache_list h.indexed,
      );
      distinct = (
        remove_node-Lacks n c.cache_list e h.distinct found,
        remove_node-Distinct n c.cache_list h.distinct,
      );
    }

    -- Room for one entry more: at most the last one goes.
    pub record HasRoom (key : Bytes) (c c' : Cache R) : Type 0 where
      pub evicts : evict_lru max_entries (suc (length c.cache_list)) c ≡ some c'
      pub keeps : contents c'.cache_list ≡ take (max_entries - 1) (contents c.cache_list)
      pub exact : IsExact max_entries c'
      pub room : length c'.cache_list < max_entries
      pub lacks : Lacks key c'.cache_list

    pub has_room :
        (key : Bytes) (c : Cache R)
        → IsExact max_entries c
        → Lacks key c.cache_list
        → (c' : Cache R) × HasRoom key c c'
    has_room key c h lacks = elim (Bool-cases (ltb (length c.cache_list) max_entries)) [
      | inl room ↦
          let small = ltb→lt (length c.cache_list) max_entries room in
          (
            c,
            record {
              evicts = evict_lru_room (λ k r. Unit {0}) max_entries (length c.cache_list) c room;
              keeps = sym (take-all (max_entries - 1) c.cache_list (omega (arith, small)));
              exact = h;
              room = small;
              lacks = lacks;
            },
          )
      | inr full ↦ evicted (split_last c.cache_list) full refl (split_last-SplitOf c.cache_list)
    ]
      where
        evicted :
            (x : Option (List (CacheEntry R) × CacheEntry R))
            → ltb (length c.cache_list) max_entries ≡ false
            → split_last c.cache_list ≡ x
            → SplitOf c.cache_list x
            → (c' : Cache R) × HasRoom key c c'
        evicted none full split nothing = absurd (ground (arith, positive, full, ap length nothing))
        evicted (some (init, last)) full split parts =
            let distinct : Distinct (init ++ last ∷ []) = subst Distinct parts h.distinct in
            let indexed : Indexed c.cache_map init =
              (All-init (λ x. find_key x.key c.cache_map ≡ some x.node) init last
                (subst (Indexed c.cache_map) parts h.indexed)).0 in
            let c' : Cache R = record c {
              cache_list = init;
              cache_map = erase_key last.key c.cache_map;
            } in
            let size : length c.cache_list ≡ suc (length init) =
              omega (arith, ap length parts, length-append init (last ∷ [])) in
            let fits : suc (length init) ≡ max_entries =
              ground (arith, h.sound.bounded, full, size) in
            (
              c',
              record {
                evicts =
                    evict_lru_full (λ k r. Unit {0}) max_entries (length c.cache_list) c init last
                      full split
                    ∙ subst (λ k. evict_lru max_entries k c' ≡ some c') (sym size)
                        (evict_lru_room (λ k r. Unit {0}) max_entries (length init) c'
                          (lt→ltb (length init) max_entries (omega (arith, fits))));
                keeps =
                    sym (take-init (max_entries - 1) init last (omega (arith, fits)))
                    ∙ ap (λ es. take (max_entries - 1) (contents es)) (sym parts);
                exact = record {
                  sound =
                      evict_last-IsSound (λ k r. Unit {0}) max_entries init last c h.sound parts;
                  indexed = init-Indexed c.cache_map init last indexed distinct;
                  distinct = init-Distinct init last distinct;
                };
                room = omega (arith, fits);
                lacks =
                    (All-init (λ x. str_eq x.key key ≡ false) init last
                      (subst (Lacks key) parts lacks)).0;
              },
            )

    pub emplace_front-IsExact :
        (key : Bytes) (r : R) (c : Cache R)
        → IsExact max_entries c
        → length c.cache_list < max_entries
        → Lacks key c.cache_list
        → IsExact max_entries (emplace_front key r c)
    emplace_front-IsExact key r c h room lacks = record {
      sound = emplace_front-IsSound (λ k r. Unit {0}) max_entries key r c tt h.sound room;
      indexed = (
        set_key_here key c.next_node c.cache_map,
        set_key-Indexed key c.next_node c.cache_map c.cache_list h.indexed lacks,
      );
      distinct = (lacks, h.distinct);
    }
