-- ===== src/CachingMiddleware/Nodes.antt =====
-- The map, the nodes of the list and what the operations on them do to each other.
use ai_sdk_cpp.Prelude.{
  ℕ, suc, ◌<◌, ◌≡◌, ◌≢◌, refl, ap, true, false, List, [], ◌∷◌, ◌++◌, Option, none, some, Bytes,
  str_eq, str_eq_iff, length, ◌==◌, ==_iff, All, arith,
}
use ai_sdk_cpp.CachingMiddleware.{
  CacheEntry, find_key, erase_key, set_key, find_node, remove_node, split_last,
}

pub find_key-erase_key :
    (key k : Bytes) (n : ℕ) (index : List (Bytes × ℕ))
    → find_key k (erase_key key index) ≡ some n
    → (find_key k index ≡ some n) × (str_eq key k ≡ false)
unfolding find_key erase_key
find_key-erase_key key k n [] h = ground (arith, h)
find_key-erase_key key k n ((j, m) ∷ rest) h =
    ground (
      arith,
      h,
      find_key-erase_key key k n rest,
      str_eq_iff j key,
      str_eq_iff j k,
      str_eq_iff key k,
    )

pub find_key-set_key :
    (key k : Bytes) (node n : ℕ) (index : List (Bytes × ℕ))
    → str_eq key k ≡ false
    → find_key k (set_key key node index) ≡ some n
    → find_key k index ≡ some n
unfolding find_key set_key
find_key-set_key key k node n index other h =
    ground (arith, other, h, find_key-erase_key key k n index)

pub find_key-set_key_here :
    (key k : Bytes) (node n : ℕ) (index : List (Bytes × ℕ))
    → str_eq key k ≡ true
    → find_key k (set_key key node index) ≡ some n
    → n ≡ node
unfolding find_key set_key
find_key-set_key_here key k node n index here h = ground (arith, here, h)

module _ {R : Type 0} where
  pub find_node_behind :
      (n : ℕ) (x e : CacheEntry R) (es : List (CacheEntry R))
      → n < x.node
      → find_node n es ≡ some e
      → find_node n (x ∷ es) ≡ some e
  unfolding find_node
  find_node_behind n x e es below f = ground (arith, below, f)

  pub find_node_front :
      (n : ℕ) (x : CacheEntry R) (es : List (CacheEntry R))
      → n ≡ x.node
      → find_node n (x ∷ es) ≡ some x
  unfolding find_node
  find_node_front n x es same = ground (arith, same)

  pub find_node-remove_node :
      (node n : ℕ) (es : List (CacheEntry R))
      → (node == n) ≡ false
      → find_node n (remove_node node es) ≡ find_node n es
  unfolding find_node remove_node
  find_node-remove_node node n [] other = refl
  find_node-remove_node node n (e ∷ es) other =
      ground (arith, other, find_node-remove_node node n es other)

  pub length-remove_node :
      (node : ℕ) (es : List (CacheEntry R)) (e : CacheEntry R)
      → find_node node es ≡ some e
      → suc (length (remove_node node es)) ≡ length es
  unfolding find_node remove_node
  length-remove_node node [] e h = ground (arith, h)
  length-remove_node node (x ∷ es) e h = ground (arith, h, length-remove_node node es e)

  abbrev pub SplitOf : List (CacheEntry R) → Option (List (CacheEntry R) × CacheEntry R) → Type 0
  SplitOf es none = es ≡ []
  SplitOf es (some (init, last)) = es ≡ init ++ last ∷ []

  pub split_last-SplitOf : (es : List (CacheEntry R)) → SplitOf es (split_last es)
  unfolding split_last
  split_last-SplitOf [] = refl
  split_last-SplitOf (e ∷ es) = step (split_last es) (split_last-SplitOf es)
    where
      step :
          (x : Option (List (CacheEntry R) × CacheEntry R))
          → SplitOf es x
          → SplitOf
              (e ∷ es)
              (elim x [ none ↦ some ([], e) | some (init, last) ↦ some (e ∷ init, last) ])
      step none h = ap (◌∷◌ e) h
      step (some (init, last)) h = ap (◌∷◌ e) h

  -- An entry of another key than the last one's is found without the last.
  pub find_node-init :
      (n : ℕ) (init : List (CacheEntry R)) (last e : CacheEntry R)
      → find_node n (init ++ last ∷ []) ≡ some e
      → e.key ≢ last.key
      → find_node n init ≡ some e
  unfolding find_node
  find_node-init n [] last e h other = ground (arith, h, other)
  find_node-init n (x ∷ init) last e h other =
      ground (arith, h, find_node-init n init last e, other)

  pub found-node :
      (n : ℕ) (es : List (CacheEntry R)) (e : CacheEntry R)
      → find_node n es ≡ some e
      → (e.node == n) ≡ true
  unfolding find_node
  found-node n [] e f = ground (arith, f)
  found-node n (x ∷ es) e f = ground (arith, f, found-node n es e)

  pub head_found :
      (n : ℕ) (x : CacheEntry R) (es : List (CacheEntry R)) (e : CacheEntry R)
      → (x.node == n) ≡ true
      → find_node n (x ∷ es) ≡ some e
      → x ≡ e
  unfolding find_node
  head_found n x es e same f = ground (arith, same, f)

  -- Each iterator keeps its node when one is moved to the front.
  pub find_node-moved :
      (n m : ℕ) (es : List (CacheEntry R)) (e e' : CacheEntry R)
      → find_node n es ≡ some e
      → find_node m es ≡ some e'
      → find_node m (e ∷ remove_node n es) ≡ some e'
  unfolding find_node
  find_node-moved n m es e e' f f' =
      ground (arith, f, f', found-node n es e f, find_node-remove_node n m es, ==_iff n m)

  abbrev pub Known : (Bytes → R → Type 0) → List (CacheEntry R) → Type 0
  Known P es = All (λ e. P e.key e.result) es
