-- ===== src/CachingMiddleware/Sound.antt =====
-- What holds of every cache, and that a look-up keeps it.
use ai_sdk_cpp.Prelude.{
  ℕ, ◌≤◌, ◌<◌, ◌≡◌, sym, ap, subst, inl, inr, List, [], ◌∷◌, ◌++◌, none, some, Option-cases,
  Bool-cases, Bytes, str_eq_iff, length, ◌==◌, length-append, arith,
}
use ai_sdk_cpp.CachingMiddleware.{
  CacheEntry, Cache, Looked, find_key, erase_key, find_node, remove_node, look_up, clear,
  empty_cache,
}
use ai_sdk_cpp.CachingMiddleware.Nodes.{
  find_key-erase_key, length-remove_node, find_node-init, head_found, find_node-moved, Known,
}

-- What holds of a cache whatever calls it has served: it is no larger than the limit, each iterator
-- in the map is that of a node with its key, and each result was made for its key.
pub record IsSound {R : Type 0} (max_entries : ℕ) (P : Bytes → R → Type 0) (c : Cache R)
    : Type 0 where
  pub bounded : length c.cache_list ≤ max_entries
  pub linked :
      (k : Bytes) (n : ℕ)
      → find_key k c.cache_map ≡ some n
      → (n < c.next_node) × (e : CacheEntry R) × (find_node n c.cache_list ≡ some e) × (e.key ≡ k)
  pub known : Known P c.cache_list

module _ {R : Type 0} (P : Bytes → R → Type 0) where
  found-Known :
      (n : ℕ) (es : List (CacheEntry R)) (e : CacheEntry R)
      → Known P es
      → find_node n es ≡ some e
      → P e.key e.result
  unfolding find_node
  found-Known n [] e h f = ground (arith, f)
  found-Known n (x ∷ es) e h f = elim (Bool-cases (x.node == n)) [
    | inl same ↦ subst (λ y. P y.key y.result) (head_found n x es e same f) h.0
    | inr other ↦ found-Known n es e h.1 (ground (arith, other, f))
  ]

  remove_node-Known : (n : ℕ) (es : List (CacheEntry R)) → Known P es → Known P (remove_node n es)
  unfolding remove_node
  remove_node-Known n [] h = tt
  remove_node-Known n (x ∷ es) h = elim (Bool-cases (x.node == n)) [
    | inl same ↦ rw same h.1
    | inr other ↦ rw other (h.0, remove_node-Known n es h.1)
  ]

  init-Known :
      (init : List (CacheEntry R)) (last : CacheEntry R)
      → Known P (init ++ last ∷ [])
      → Known P init
  init-Known [] last h = tt
  init-Known (x ∷ init) last h = (h.0, init-Known init last h.1)

  abbrev pub LookedOf : Bytes → Looked R → Type 0
  LookedOf key Looked.miss = Unit
  LookedOf key (Looked.hit r) = P key r
  LookedOf key Looked.dangling = ⊥

  module _ (max_entries : ℕ) where
    pub empty-IsSound : IsSound max_entries P (empty_cache {R = R})
    unfolding find_key
    empty-IsSound = record {
      bounded = omega arith;
      linked = λ k n h. ground (arith, h);
      known = tt;
    }

    pub clear-IsSound : (c : Cache R) → IsSound max_entries P (clear c)
    unfolding clear find_key
    clear-IsSound c = record {
      bounded = omega arith;
      linked = λ k n h. ground (arith, h);
      known = tt;
    }

    pub hit-IsSound :
        (key : Bytes) (n : ℕ) (e : CacheEntry R) (c : Cache R)
        → IsSound max_entries P c
        → find_key key c.cache_map ≡ some n
        → find_node n c.cache_list ≡ some e
        → IsSound max_entries P (record c { cache_list = e ∷ remove_node n c.cache_list })
    hit-IsSound key n e c h at found = record {
      bounded = omega (arith, length-remove_node n c.cache_list e found, h.bounded);
      linked = λ k m f.
          let (below, e', found', same) = h.linked k m f in
          (below, e', find_node-moved n m c.cache_list e e' found found', same);
      known =
          (found-Known n c.cache_list e h.known found, remove_node-Known n c.cache_list h.known);
    }

    pub look_up_miss :
        (key : Bytes) (c : Cache R)
        → find_key key c.cache_map ≡ none
        → look_up key c ≡ (Looked.miss, c)
    unfolding look_up
    look_up_miss key c at = ground (arith, at)

    pub look_up_hit :
        (key : Bytes) (c : Cache R) (n : ℕ) (e : CacheEntry R)
        → find_key key c.cache_map ≡ some n
        → find_node n c.cache_list ≡ some e
        → look_up key c
          ≡ (Looked.hit e.result, record c { cache_list = e ∷ remove_node n c.cache_list })
    unfolding look_up
    look_up_hit key c n e at found = ground (arith, at, found)

    abbrev LookedSound : Bytes → Looked R × Cache R → Type 0
    LookedSound key x = LookedOf key x.0 × IsSound max_entries P x.1

    pub look_up-IsSound :
        (key : Bytes) (c : Cache R) → IsSound max_entries P c → LookedSound key (look_up key c)
    look_up-IsSound key c h = elim (Option-cases (find_key key c.cache_map)) [
      | inl at ↦ subst (LookedSound key) (sym (look_up_miss key c at)) (tt, h)
      | inr (n, at) ↦
          let (below, e, found, same) = h.linked key n at in
          subst (LookedSound key) (sym (look_up_hit key c n e at found)) (
            subst (λ k. P k e.result) same (found-Known n c.cache_list e h.known found),
            hit-IsSound key n e c h at found,
          )
    ]

    pub evict_last-IsSound :
        (init : List (CacheEntry R)) (last : CacheEntry R) (c : Cache R)
        → IsSound max_entries P c
        → c.cache_list ≡ init ++ last ∷ []
        → IsSound max_entries P
            (record c { cache_list = init; cache_map = erase_key last.key c.cache_map })
    evict_last-IsSound init last c h e = record {
      bounded = omega (arith, h.bounded, ap length e, length-append init (last ∷ []));
      linked = λ k m f.
          let (f', other) = find_key-erase_key last.key k m c.cache_map f in
          let (below, x, found, same) = h.linked k m f' in
          (
            below,
            x,
            find_node-init m init last x (subst (λ es. find_node m es ≡ some x) e found)
                (λ is_last. ground (arith, other, same, is_last, str_eq_iff last.key k)),
            same,
          );
      known = init-Known init last (subst (Known P) e h.known);
    }
