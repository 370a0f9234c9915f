-- ===== src/CachingMiddleware/Lru/Exact.antt =====
-- A cache that no two calls used at once has each key once, and the map has all of them.
use ai_sdk_cpp.Prelude.{
  ℕ, ◌≡◌, refl, ap, subst, ◌∙◌, inl, inr, true, false, List, [], ◌∷◌, ◌++◌, none, some, Bool-cases,
  Bytes, str_eq, str_eq_iff, ◌==◌, All, arith,
}
use ai_sdk_cpp.CachingMiddleware.{
  CacheEntry, Cache, find_key, erase_key, set_key, find_node, remove_node,
}
use ai_sdk_cpp.CachingMiddleware.Lru.{recall, forget, contents}
use ai_sdk_cpp.CachingMiddleware.Nodes.{head_found}
use ai_sdk_cpp.CachingMiddleware.Sound.{IsSound}

find_key-erase_other :
    (key k : Bytes) (index : List (Bytes × ℕ))
    → str_eq key k ≡ false
    → find_key k (erase_key key index) ≡ find_key k index
unfolding find_key erase_key
find_key-erase_other key k [] other = refl
find_key-erase_other key k ((j, m) ∷ index) other = ground (
  arith,
  other,
  find_key-erase_other key k index other,
  str_eq_iff j key,
  str_eq_iff j k,
  str_eq_iff key k,
)

find_key-set_other :
    (key k : Bytes) (node : ℕ) (index : List (Bytes × ℕ))
    → str_eq k key ≡ false
    → find_key k (set_key key node index) ≡ find_key k index
unfolding find_key set_key
find_key-set_other key k node index other =
    let differ : str_eq key k ≡ false = ground (arith, other, str_eq_iff k key, str_eq_iff key k) in
    rw differ (find_key-erase_other key k index differ)

module _ {R : Type 0} where
  abbrev pub Indexed : List (Bytes × ℕ) → List (CacheEntry R) → Type 0
  Indexed index es = All (λ e. find_key e.key index ≡ some e.node) es

  abbrev pub Lacks : Bytes → List (CacheEntry R) → Type 0
  Lacks key es = All (λ e. str_eq e.key key ≡ false) es

  abbrev pub Distinct : List (CacheEntry R) → Type 0
  Distinct [] = Unit
  Distinct (e ∷ es) = Lacks e.key es × Distinct es

  -- No call has come between the two sections of another one.
  pub record IsExact (max_entries : ℕ) (c : Cache R) : Type 0 where
    pub sound : IsSound max_entries (λ k r. Unit {0}) c
    pub indexed : Indexed c.cache_map c.cache_list
    pub distinct : Distinct c.cache_list

  -- A key that the map lacks is in no entry.
  pub Indexed-Lacks :
      (key : Bytes) (index : List (Bytes × ℕ)) (es : List (CacheEntry R))
      → find_key key index ≡ none
      → Indexed index es
      → Lacks key es
  Indexed-Lacks key index [] at h = tt
  Indexed-Lacks key index (e ∷ es) at h =
      (ground (arith, at, h.0, str_eq_iff e.key key), Indexed-Lacks key index es at h.1)

  pub recall-Lacks :
      (key : Bytes) (es : List (CacheEntry R)) → Lacks key es → recall key (contents es) ≡ none
  recall-Lacks key [] h = refl
  recall-Lacks key (e ∷ es) h = ground (arith, h.0, recall-Lacks key es h.1)

  module _ (key : Bytes) (n : ℕ) (index : List (Bytes × ℕ)) (at : find_key key index ≡ some n) where
    -- The node of the iterator is the first entry with the key.
    -- An entry with the key has the node of the iterator.
    key_node :
        (x : CacheEntry R)
        → find_key x.key index ≡ some x.node
        → str_eq x.key key ≡ true
        → (x.node == n) ≡ true
    key_node x h same =
        ground
          (arith, subst (λ k. find_key k index ≡ some x.node) ((str_eq_iff x.key key).0 same) h, at)

    pub found-recall :
        (es : List (CacheEntry R)) (e : CacheEntry R)
        → Indexed index es
        → find_node n es ≡ some e
        → e.key ≡ key
        → (recall key (contents es) ≡ some e.result)
          × (forget key (contents es) ≡ contents (remove_node n es))
    unfolding find_node remove_node
    found-recall [] e h f same = absurd (ground (arith, f))
    found-recall (x ∷ es) e h f same = elim (Bool-cases (x.node == n)) [
      | inl here ↦
          let is_e = head_found n x es e here f in
          let key_here : str_eq x.key key ≡ true =
            (str_eq_iff x.key key).1 (ap (λ y. y.key) is_e ∙ same) in
          rw (here, key_here) (ap (λ y. some y.result) is_e, refl)
      | inr other ↦
          let elsewhere : str_eq x.key key ≡ false = ground (arith, other, key_node x h.0) in
          rw (other, elsewhere)
            (
              (found-recall es e h.1 (ground (arith, f, other)) same).0,
              ap (◌∷◌ (x.key, x.result)) (found-recall es e h.1 (ground (arith, f, other)) same).1,
            )
    ]

  -- Removing a node.
  pub remove_node-All :
      (Q : CacheEntry R → Type 0) (n : ℕ) (es : List (CacheEntry R))
      → All Q es
      → All Q (remove_node n es)
  unfolding remove_node
  remove_node-All Q n [] h = tt
  remove_node-All Q n (x ∷ es) h = elim (Bool-cases (x.node == n)) [
    | inl here ↦ rw here h.1
    | inr other ↦ rw other (h.0, remove_node-All Q n es h.1)
  ]

  pub remove_node-Distinct :
      (n : ℕ) (es : List (CacheEntry R)) → Distinct es → Distinct (remove_node n es)
  unfolding remove_node
  remove_node-Distinct n [] h = tt
  remove_node-Distinct n (x ∷ es) h = elim (Bool-cases (x.node == n)) [
    | inl here ↦ rw here h.1
    | inr other ↦
        rw other (
          remove_node-All (λ e. str_eq e.key x.key ≡ false) n es h.0,
          remove_node-Distinct n es h.1,
        )
  ]

  pub found-All :
      (Q : CacheEntry R → Type 0) (n : ℕ) (es : List (CacheEntry R)) (e : CacheEntry R)
      → All Q es
      → find_node n es ≡ some e
      → Q e
  unfolding find_node
  found-All Q n [] e h f = absurd (ground (arith, f))
  found-All Q n (x ∷ es) e h f = elim (Bool-cases (x.node == n)) [
    | inl here ↦ subst Q (head_found n x es e here f) h.0
    | inr other ↦ found-All Q n es e h.1 (ground (arith, f, other))
  ]

  pub remove_node-Lacks :
      (n : ℕ) (es : List (CacheEntry R)) (e : CacheEntry R)
      → Distinct es
      → find_node n es ≡ some e
      → Lacks e.key (remove_node n es)
  unfolding find_node remove_node
  remove_node-Lacks n [] e h f = tt
  remove_node-Lacks n (x ∷ es) e h f = elim (Bool-cases (x.node == n)) [
    | inl here ↦ rw here (subst (λ y. Lacks y.key es) (head_found n x es e here f) h.0)
    | inr other ↦
        let behind : find_node n es ≡ some e = ground (arith, f, other) in
        rw other (
          ground (
            arith,
            found-All (λ y. str_eq y.key x.key ≡ false) n es e h.0 behind,
            str_eq_iff x.key e.key,
            str_eq_iff e.key x.key,
          ),
          remove_node-Lacks n es e h.1 behind,
        )
  ]

  pub All-init :
      (Q : CacheEntry R → Type 0) (init : List (CacheEntry R)) (last : CacheEntry R)
      → All Q (init ++ last ∷ [])
      → All Q init × Q last
  All-init Q [] last h = (tt, h.0)
  All-init Q (x ∷ init) last h = ((h.0, (All-init Q init last h.1).0), (All-init Q init last h.1).1)

  -- Without the last entry and its key.
  pub init-Indexed :
      (index : List (Bytes × ℕ)) (init : List (CacheEntry R)) (last : CacheEntry R)
      → Indexed index init
      → Distinct (init ++ last ∷ [])
      → Indexed (erase_key last.key index) init
  init-Indexed index [] last h d = tt
  init-Indexed index (x ∷ init) last h d = (
    find_key-erase_other last.key x.key index
          (All-init (λ e. str_eq e.key x.key ≡ false) init last d.0).1
        ∙ h.0,
    init-Indexed index init last h.1 d.1,
  )

  pub init-Distinct :
      (init : List (CacheEntry R)) (last : CacheEntry R)
      → Distinct (init ++ last ∷ [])
      → Distinct init
  init-Distinct [] last d = tt
  init-Distinct (x ∷ init) last d =
      ((All-init (λ e. str_eq e.key x.key ≡ false) init last d.0).0, init-Distinct init last d.1)

  -- With another key in the map.
  pub set_key-Indexed :
      (key : Bytes) (node : ℕ) (index : List (Bytes × ℕ)) (es : List (CacheEntry R))
      → Indexed index es
      → Lacks key es
      → Indexed (set_key key node index) es
  set_key-Indexed key node index [] h d = tt
  set_key-Indexed key node index (x ∷ es) h d =
      (find_key-set_other key x.key node index d.0 ∙ h.0, set_key-Indexed key node index es h.1 d.1)
