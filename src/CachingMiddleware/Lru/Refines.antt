-- ===== src/CachingMiddleware/Lru/Refines.antt =====
-- Calls one after the other do to the cache what the list of pairs says.
use ai_sdk_cpp.Prelude.{
  ℕ, ◌<◌, ◌≡◌, refl, sym, ap, ap₂, ◌∙◌, inl, inr, List, [], ◌∷◌, Option, none, some, Option-cases,
  Bytes, arith,
}
use ai_sdk_cpp.Tools.{Attempt, ok, threw, Task}
use ai_sdk_cpp.CachingMiddleware.{
  CacheEntry, Cache, find_key, find_node, remove_node, look_up, emplace_front, insert, answered,
  wrap_generate, empty_cache,
}
use ai_sdk_cpp.CachingMiddleware.Lru.{
  Lru, recall, forget, remember, lru_call, contents, seen, all_seen, calls, lru_calls,
}
use ai_sdk_cpp.CachingMiddleware.Lru.Exact.{
  Lacks, IsExact, Indexed-Lacks, recall-Lacks, found-recall,
}
use ai_sdk_cpp.CachingMiddleware.Room.{insert_room}
use ai_sdk_cpp.CachingMiddleware.Sound.{empty-IsSound}
use ai_sdk_cpp.CachingMiddleware.Lru.Keeps.{hit-IsExact, has_room, emplace_front-IsExact}

module _ {R : Type 0} where
  module _ (max_entries : ℕ) (positive : 0 < max_entries) where
    module _ {W : Type 0} where
      -- The call returns, and the list of pairs sees what it does.
      abbrev pub Refines : Option (Attempt R × Cache R × W) → Attempt R × Lru R × W → Type 0
      Refines x y =
          (t : Attempt R × Cache R × W) × (x ≡ some t) × (seen t ≡ y) × IsExact max_entries t.1

      along :
          {x x' : Option (Attempt R × Cache R × W)} {y y' : Attempt R × Lru R × W}
          → x ≡ x'
          → y ≡ y'
          → Refines x' y'
          → Refines x y
      along p q (t, e, sees, h) = (t, p ∙ e, sees ∙ sym q, h)

      answered_inserted :
          (key : Bytes) (r : R) (c c' : Cache R) (w : W)
          → insert max_entries key r c ≡ some c'
          → answered max_entries key c (ok r, w) ≡ some (ok r, c', w)
      unfolding answered
      answered_inserted key r c c' w i = ground (arith, i)

      module _ (key : Bytes) (do_generate : Task W R) (c : Cache R) (w : W) where
        call_miss :
            find_key key c.cache_map ≡ none
            → wrap_generate max_entries key do_generate c w
              ≡ answered max_entries key c (do_generate w)
        unfolding wrap_generate look_up
        call_miss at = ground (arith, at)

        call_hit :
            (n : ℕ) (e : CacheEntry R)
            → find_key key c.cache_map ≡ some n
            → find_node n c.cache_list ≡ some e
            → wrap_generate max_entries key do_generate c w
              ≡ some (ok e.result, record c { cache_list = e ∷ remove_node n c.cache_list }, w)
        unfolding wrap_generate look_up
        call_hit n e at found = ground (arith, at, found)

        lru_miss :
            (l : Lru R)
            → recall key l ≡ none
            → lru_call max_entries key do_generate l w ≡ remember max_entries key l (do_generate w)
        lru_miss l at = ground (arith, at)

        lru_hit :
            (l : Lru R) (r : R)
            → recall key l ≡ some r
            → lru_call max_entries key do_generate l w ≡ (ok r, (key, r) ∷ forget key l, w)
        lru_hit l r at = ground (arith, at)

      answered-Refines :
          (key : Bytes) (c : Cache R) (x : Attempt R × W)
          → IsExact max_entries c
          → Lacks key c.cache_list
          → Refines
              (answered max_entries key c x)
              (remember max_entries key (contents c.cache_list) x)
      unfolding answered
      answered-Refines key c (threw e, w) h lacks = ((threw e, c, w), refl, refl, h)
      answered-Refines key c (ok r, w) h lacks =
          let (c', room) = has_room max_entries positive key c h lacks in
          (
            (ok r, emplace_front key r c', w),
            answered_inserted key r c (emplace_front key r c') w
                (insert_room (λ k r. Unit {0}) max_entries key r c c' room.evicts),
            ap (λ l. (ok r, (key, r) ∷ l, w)) room.keeps,
            emplace_front-IsExact max_entries positive key r c' room.exact room.room room.lacks,
          )

      wrap_generate-Refines :
          (key : Bytes) (do_generate : Task W R) (c : Cache R) (w : W)
          → IsExact max_entries c
          → Refines
              (wrap_generate max_entries key do_generate c w)
              (lru_call max_entries key do_generate (contents c.cache_list) w)
      wrap_generate-Refines key do_generate c w h = elim (Option-cases (find_key key c.cache_map)) [
        | inl at ↦
            let lacks = Indexed-Lacks key c.cache_map c.cache_list at h.indexed in
            along (call_miss key do_generate c w at)
              (lru_miss key do_generate c w (contents c.cache_list)
                (recall-Lacks key c.cache_list lacks))
              (answered-Refines key c (do_generate w) h lacks)
        | inr (n, at) ↦
            let (below, e, found, same) = h.sound.linked key n at in
            let (recalled, forgotten) =
              found-recall key n c.cache_map at c.cache_list e h.indexed found same in
            along (call_hit key do_generate c w n e at found)
              (lru_hit key do_generate c w (contents c.cache_list) e.result recalled)
              (
                (ok e.result, record c { cache_list = e ∷ remove_node n c.cache_list }, w),
                refl,
                ap₂ (λ k l. (ok e.result, (k, e.result) ∷ l, w)) same (sym forgotten),
                hit-IsExact max_entries positive key n e c h at found,
              )
      ]

      calls-lru :
          (do_generate : Bytes → Task W R) (keys : List Bytes) (c : Cache R) (w : W)
          → IsExact max_entries c
          → (t : List (Attempt R) × Cache R × W) × (calls max_entries do_generate keys c w ≡ some t)
            × (all_seen t ≡ lru_calls max_entries do_generate keys (contents c.cache_list) w)
      unfolding calls lru_calls
      calls-lru do_generate [] c w h = (([], c, w), refl, refl)
      calls-lru do_generate (key ∷ keys) c w h =
          let ((a, c', w'), e, sees, exact) = wrap_generate-Refines key (do_generate key) c w h in
          let ((rest, c'', w''), e', sees') = calls-lru do_generate keys c' w' exact in
          (
            (a ∷ rest, c'', w''),
            ground (arith, e, e'),
            ap (λ x. (a ∷ x.0, x.1, x.2)) sees'
                ∙ ap
                    (λ y.
                      let x = lru_calls max_entries do_generate keys y.1 y.2 in
                      (y.0 ∷ x.0, x.1, x.2))
                    sees,
          )

      -- With a positive limit, any calls one after the other, from an empty cache, always return; their
      -- results, the contents of the cache and the world they leave are those of a list of pairs of a
      -- key and a result, the one used last in front, of which the last ones are dropped beyond the
      -- limit.
      pub calls-lru_calls :
          (do_generate : Bytes → Task W R) (keys : List Bytes) (w : W)
          → (t : List (Attempt R) × Cache R × W) × (calls max_entries do_generate keys empty_cache w
              ≡ some t)
            × (all_seen t ≡ lru_calls max_entries do_generate keys [] w)
      calls-lru_calls do_generate keys w = calls-lru do_generate keys empty_cache w (record {
        sound = empty-IsSound (λ k r. Unit {0}) max_entries;
        indexed = tt;
        distinct = tt;
      })
