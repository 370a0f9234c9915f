-- ===== src/Anthropic/Body/Budget.antt =====
-- The budget of thinking tokens against the limit of the answer.
use ai_sdk_cpp.Prelude.{
  ℕ, ◌≤◌, ◌<◌, ◌≡◌, refl, ◌⊎◌, inl, inr, ◌||◌, pos, Bytes, codes, str_eq, arith, if_either,
}
use ai_sdk_cpp.Anthropic.Body.{reasoning_to_budget, clamp_budget}

pub clamp_budget-bounds :
    (m budget : ℕ)
    → 1024 ≤ budget
    → (1024 ≤ clamp_budget (pos m) budget)
      × (clamp_budget (pos m) budget ≤ budget)
      × (1024 < m → clamp_budget (pos m) budget < m)
unfolding clamp_budget
clamp_budget-bounds m budget h = (ground (arith, h), ground (arith, h), λ k. ground (arith, h, k))

pub reasoning_to_budget-bounds :
    (level : Bytes) → (reasoning_to_budget level ≡ 0) ⊎ (1024 ≤ reasoning_to_budget level)
unfolding reasoning_to_budget
reasoning_to_budget-bounds level =
    if_either IsBudget (str_eq level (codes "minimal") || str_eq level (codes "low"))
      (inr (omega arith))
      (if_either IsBudget (str_eq level (codes "medium")) (inr (omega arith)) (
        if_either IsBudget (str_eq level (codes "high")) (inr (omega arith))
          (if_either IsBudget (str_eq level (codes "xhigh")) (inr (omega arith)) (inl refl))))
  where
    IsBudget : ℕ → Type 0
    IsBudget n = (n ≡ 0) ⊎ (1024 ≤ n)
