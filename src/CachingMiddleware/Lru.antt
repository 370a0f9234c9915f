-- ===== src/CachingMiddleware/Lru.antt =====
-- What the cache should be: pairs of a key and a result, the one used last in front.
pub mod Exact
pub mod Keeps
pub mod Refines
use ai_sdk_cpp.Prelude.{
  ℕ, zero, suc, ◌-◌, List, [], ◌∷◌, Option, none, some, Bytes, str_eq, take, if◌then◌else◌,
}
use ai_sdk_cpp.Tools.{Attempt, ok, threw, Task}
use ai_sdk_cpp.CachingMiddleware.{CacheEntry, Cache, wrap_generate}

abbrev pub Lru : Type 0 → Type 0
Lru R = List (Bytes × R)

module _ {R : Type 0} where
  abbrev pub recall : Bytes → Lru R → Option R
  recall key [] = none
  recall key ((k, r) ∷ l) = if str_eq k key then some r else recall key l

  abbrev pub forget : Bytes → Lru R → Lru R
  forget key [] = []
  forget key ((k, r) ∷ l) = if str_eq k key then l else (k, r) ∷ forget key l

  module _ {W : Type 0} where
    -- A result is put in front, and the last ones go if there are too many.
    abbrev pub remember : ℕ → Bytes → Lru R → Attempt R × W → Attempt R × Lru R × W
    remember max_entries key l (threw e, w) = (threw e, l, w)
    remember max_entries key l (ok r, w) = (ok r, (key, r) ∷ take (max_entries - 1) l, w)

    abbrev pub lru_call : ℕ → Bytes → Task W R → Lru R → W → Attempt R × Lru R × W
    lru_call max_entries key do_generate l w = elim (recall key l) [
      | some r ↦ (ok r, (key, r) ∷ forget key l, w)
      | none ↦ remember max_entries key l (do_generate w)
    ]

  -- The entries without their addresses.
  abbrev pub contents : List (CacheEntry R) → Lru R
  contents [] = []
  contents (e ∷ es) = (e.key, e.result) ∷ contents es

  -- Calls one after the other.
  unfoldable pub calls :
      {W : Type 0}
      → ℕ
      → (Bytes → Task W R)
      → List Bytes
      → Cache R
      → W
      → Option (List (Attempt R) × Cache R × W)
  unfolding wrap_generate
  calls max_entries do_generate [] c w = some ([], c, w)
  calls max_entries do_generate (key ∷ keys) c w =
      elim (wrap_generate max_entries key (do_generate key) c w) [
        | none ↦ none
        | some (a, c', w') ↦ elim (calls max_entries do_generate keys c' w') [
          | none ↦ none
          | some (rest, c'', w'') ↦ some (a ∷ rest, c'', w'')
        ]
      ]

  unfoldable pub lru_calls :
      {W : Type 0} → ℕ → (Bytes → Task W R) → List Bytes → Lru R → W → List (Attempt R) × Lru R × W
  lru_calls max_entries do_generate [] l w = ([], l, w)
  lru_calls max_entries do_generate (key ∷ keys) l w =
      let (a, l', w') = lru_call max_entries key (do_generate key) l w in
      let (rest, l'', w'') = lru_calls max_entries do_generate keys l' w' in (a ∷ rest, l'', w'')

  module _ {W : Type 0} where
    -- What the list of pairs sees of a call, and of many.
    abbrev pub seen : Attempt R × Cache R × W → Attempt R × Lru R × W
    seen (a, c, w) = (a, contents c.cache_list, w)

    abbrev pub all_seen : List (Attempt R) × Cache R × W → List (Attempt R) × Lru R × W
    all_seen (results, c, w) = (results, contents c.cache_list, w)
