-- ===== src/Anthropic/Body/Thinking.antt =====
-- What a request says of thinking.
use ai_sdk_cpp.Prelude.{
  ℕ, ◌-◌, ◌≤◌, ◌<◌, ◌≢◌, ◌≡◌, ◌⊎◌, true, false, ◌||◌, List, [], ◌∷◌, Option, none, some, Bytes,
  codes, ℤ, pos, negsuc,
}
use ai_sdk_cpp.Prompt.{Json}
use ai_sdk_cpp.JsonView.{JsonView}
use ai_sdk_cpp.Anthropic.Body.{JsonMaker, contains, object_of, typed, text_member}
use ai_sdk_cpp.Anthropic.Body.Request.{enabled}

-- The budget of each level of effort.
pub data IsLevel (effort : Bytes) : ℕ → Type 0 where
  minimal : effort ≡ codes "minimal" → IsLevel effort 1024
  low : effort ≡ codes "low" → IsLevel effort 1024
  medium : effort ≡ codes "medium" → IsLevel effort 10000
  high : effort ≡ codes "high" → IsLevel effort 50000
  xhigh : effort ≡ codes "xhigh" → IsLevel effort 100000

-- The budget of a level for a limit of the answer: that of the level if it is below the limit; else one
-- less than the limit, if the limit is above 1024; else 1024.
pub data Fits : ℤ → ℕ → ℕ → Type 0 where
  within : {m level : ℕ} → level < m → Fits (pos m) level level
  lowered : {m level : ℕ} → m ≤ level → 1024 < m → Fits (pos m) level (m - 1)
  tight : {m level : ℕ} → m ≤ level → m ≤ 1024 → Fits (pos m) level 1024
  negative : {n level : ℕ} → Fits (negsuc n) level 1024

-- A level gives its budget, and what is no level gives none.
abbrev Budgeted : Bytes → ℕ → Type 0
Budgeted effort budget =
    IsLevel effort budget ⊎ ((budget ≡ 0) × ((level : ℕ) → ¬ (IsLevel effort level)))

module _ {J : Json} (V : JsonView J) (M : JsonMaker J V) (model_id namespace : Bytes) where
  -- The members for thinking: the caller's own, none, the effort for a model that adapts, or a budget.
  pub data Asks (own : Option J.Value) (max_tok : ℤ) (effort : Bytes)
      : List (Bytes × J.Value) → Type 0 where
    given : (v : J.Value) → own ≡ some v → Asks own max_tok effort ((codes "thinking", v) ∷ [])
    off : own ≡ none → (effort ≡ []) ⊎ (effort ≡ codes "none") → Asks own max_tok effort []
    adaptive :
        own ≡ none
        → effort ≢ []
        → effort ≢ codes "none"
        → (contains (codes "4-6") model_id || contains (codes "4.6") model_id) ≡ true
        → Asks own max_tok effort (
            (
              codes "thinking",
              object_of V M
                  (typed V M (codes "adaptive") ∷ text_member V M (codes "effort") effort ∷ []),
            )
            ∷ [])
    unknown :
        own ≡ none
        → (contains (codes "4-6") model_id || contains (codes "4.6") model_id) ≡ false
        → ((level : ℕ) → ¬ (IsLevel effort level))
        → Asks own max_tok effort []
    budgeted :
        (level budget : ℕ)
        → own ≡ none
        → (contains (codes "4-6") model_id || contains (codes "4.6") model_id) ≡ false
        → IsLevel effort level
        → Fits max_tok level budget
        → Asks own max_tok effort (enabled V M model_id namespace budget ∷ [])
