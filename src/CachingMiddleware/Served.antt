-- ===== src/CachingMiddleware/Served.antt =====
-- What a call leaves for the next one with its key.
use ai_sdk_cpp.Prelude.{
  ℕ, suc, ◌≡◌, refl, sym, subst, inl, inr, List, ◌∷◌, some, Option-cases, Bytes, str_eq_refl,
  length, arith,
}
use ai_sdk_cpp.Prompt.{Json, ToolResultPart, ToolResultOutput}
use ai_sdk_cpp.Tools.{Attempt, ok, threw, Task}
use ai_sdk_cpp.Generate.{CallOptions}
use ai_sdk_cpp.CachingMiddleware.{
  CacheEntry, Cache, find_key, set_key, find_node, remove_node, look_up, evict_lru, emplace_front,
  insert, answered, wrap_generate,
}
use ai_sdk_cpp.CachingMiddleware.Key.{
  KeySettings, compute_cache_key, with_outputs, key-with_outputs,
}
use ai_sdk_cpp.CachingMiddleware.Nodes.{find_node_front, find_node-moved}

pub set_key_here :
    (key : Bytes) (node : ℕ) (index : List (Bytes × ℕ))
    → find_key key (set_key key node index) ≡ some node
unfolding find_key set_key
set_key_here key node index = ground (arith, str_eq_refl key)

module _ {R : Type 0} where
  -- The cache has the result for the key.
  pub record Holds (key : Bytes) (r : R) (c : Cache R) : Type 0 where
    pub node : ℕ
    pub entry : CacheEntry R
    pub at : find_key key c.cache_map ≡ some node
    pub found : find_node node c.cache_list ≡ some entry
    pub same : entry.result ≡ r

  emplace_front-Holds : (key : Bytes) (r : R) (c : Cache R) → Holds key r (emplace_front key r c)
  emplace_front-Holds key r c =
      let front : CacheEntry R = record { node = c.next_node; key = key; result = r } in
      record {
        node = c.next_node;
        entry = front;
        at = set_key_here key c.next_node c.cache_map;
        found = find_node_front c.next_node front c.cache_list refl;
        same = refl;
      }

  moved-Holds :
      (key : Bytes) (n : ℕ) (e : CacheEntry R) (c : Cache R)
      → find_key key c.cache_map ≡ some n
      → find_node n c.cache_list ≡ some e
      → Holds key e.result (record c { cache_list = e ∷ remove_node n c.cache_list })
  moved-Holds key n e c at found = record {
    node = n;
    entry = e;
    at = at;
    found = find_node-moved n n c.cache_list e e found found;
    same = refl;
  }

  module _ (max_entries : ℕ) (key : Bytes) (c' : Cache R) where
    inserted-Holds :
        (result : R) (c : Cache R) → insert max_entries key result c ≡ some c' → Holds key result c'
    unfolding insert
    inserted-Holds result c i =
        elim (Option-cases (evict_lru max_entries (suc (length c.cache_list)) c)) [
          | inl nothing ↦ absurd (ground (arith, i, nothing))
          | inr (room, e) ↦
              subst (Holds key result) (ground (arith, i, e)) (emplace_front-Holds key result room)
        ]

    module _ {W : Type 0} (r : R) (w' : W) where
      answered-Holds :
          (c : Cache R) (x : Attempt R × W)
          → answered max_entries key c x ≡ some (ok r, c', w')
          → Holds key r c'
      unfolding answered
      answered-Holds c (threw e, w) h = absurd (ground (arith, h))
      answered-Holds c (ok result, w) h = elim (Option-cases (insert max_entries key result c)) [
        | inl nothing ↦ absurd (ground (arith, h, nothing))
        | inr (after, e) ↦
            subst (λ x. Holds key x c') (ground (arith, h, e))
              (inserted-Holds result c (ground (arith, h, e)))
      ]

      called-Holds :
          (do_generate : Task W R) (c : Cache R) (w : W)
          → wrap_generate max_entries key do_generate c w ≡ some (ok r, c', w')
          → Holds key r c'
      unfolding wrap_generate look_up
      called-Holds do_generate c w h = elim (Option-cases (find_key key c.cache_map)) [
        | inl nothing ↦ answered-Holds c (do_generate w) (ground (arith, h, nothing))
        | inr (n, at) ↦ elim (Option-cases (find_node n c.cache_list)) [
          | inl nothing ↦ absurd (ground (arith, h, at, nothing))
          | inr (e, found) ↦ subst (Holds key r) (ground (arith, h, at, found)) (
              subst (λ x. Holds key x (record c { cache_list = e ∷ remove_node n c.cache_list }))
                (ground (arith, h, at, found)) (moved-Holds key n e c at found))
        ]
      ]

  module _ {W : Type 0} (max_entries : ℕ) (key : Bytes) (do_generate do_generate' : Task W R) where
    -- A call that finds the result returns it and calls nothing.
    Holds-wrap_generate :
        (r : R) (c : Cache R)
        → Holds key r c
        → (w : W)
        → (c' : Cache R) × (wrap_generate max_entries key do_generate' c w ≡ some (ok r, c', w))
    unfolding wrap_generate look_up
    Holds-wrap_generate r c h w = (
      record c { cache_list = h.entry ∷ remove_node h.node c.cache_list },
      ground (arith, h.at, h.found, h.same),
    )

    -- When a call with a key has returned a result, the next call with that key returns it too, does
    -- not call the model and leaves the world as it is.
    pub wrap_generate_again :
        (c c' : Cache R) (w w' v : W) (r : R)
        → wrap_generate max_entries key do_generate c w ≡ some (ok r, c', w')
        → (c'' : Cache R) × (wrap_generate max_entries key do_generate' c' v ≡ some (ok r, c'', v))
    wrap_generate_again c c' w w' v r h =
        Holds-wrap_generate r c' (called-Holds max_entries key c' r w' do_generate c w h) v

-- The key does not tell the outputs of tools apart: when a request has returned a result, the next
-- one, for a conversation with any other outputs of its tools, is served that result and the model
-- is not called.
pub wrap_generate_outputs :
    {R W : Type 0} (J : Json) (json_array : List J.Value → J.Value)
    (o : CallOptions J (KeySettings J)) (f : ToolResultPart J → ToolResultOutput J)
    (max_entries : ℕ) (do_generate do_generate' : Task W R) (c c' : Cache R) (w w' v : W) (r : R)
    → wrap_generate max_entries (compute_cache_key J json_array o) do_generate c w
      ≡ some (ok r, c', w')
    → (c'' : Cache R) × (wrap_generate max_entries
          (compute_cache_key J json_array (record o { prompt = with_outputs f o.prompt }))
          do_generate'
          c'
          v
        ≡ some (ok r, c'', v))
wrap_generate_outputs J json_array o f max_entries do_generate do_generate' c c' w w' v r h =
    subst
      (λ key. (c'' : _) × (wrap_generate max_entries key do_generate' c' v ≡ some (ok r, c'', v)))
      (sym (key-with_outputs J json_array f o))
      (wrap_generate_again max_entries (compute_cache_key J json_array o) do_generate do_generate' c
        c' w w' v r h)
