-- ===== src/Tools.antt =====
-- include/ai/tool/tool.hpp, tool_set.hpp, tool_result.hpp: tools and sets of tools. What a tool does to the world
-- outside the SDK is a change of a state `W`; a cancellation token is part of that state.
use ai_sdk_cpp.Prelude.{
  ◌≡◌, refl, ◌⊎◌, inl, inr, Bool, List, [], ◌∷◌, Option, none, some, Bytes, str_eq, if◌then◌else◌,
}
use ai_sdk_cpp.Prompt.{Json, Prompt}

-- A C++ call that returns or throws; an exception is known by its `what()`.
pub data Attempt {ℓ} (A : Type ℓ) : Type ℓ where
  ok : A → Attempt A
  threw : Bytes → Attempt A

-- An asynchronous call, awaited: it runs to its end.
abbrev pub Task : Type 0 → Type 0 → Type 0
Task W A = W → Attempt A × W

pub record ToolExecutionContext (J : Json) : Type 0 where
  pub tool_call_id : Bytes
  pub tool_name : Bytes
  pub messages : Prompt J

pub record ToolDefinition (J : Json) (W : Type 0) : Type 0 where
  pub name : Bytes
  pub description : Option Bytes
  pub input_schema : J.Object
  pub strict : Bool
  pub execute : Option (J.Value → ToolExecutionContext J → Task W J.Value)

-- The map from names to definitions, in the order in which it is walked.
abbrev pub ToolSet : Json → Type 0 → Type 0
ToolSet J W = List (ToolDefinition J W)

module _ {J : Json} {W : Type 0} where
  unfoldable pub find : ToolSet J W → Bytes → Option (ToolDefinition J W)
  find [] name = none
  find (t ∷ ts) name = if str_eq t.name name then some t else find ts name

  -- `emplace`: the first tool of a name stays.
  unfoldable pub add : ToolSet J W → ToolDefinition J W → ToolSet J W
  unfolding find
  add [] tool = tool ∷ []
  add (t ∷ ts) tool = if str_eq t.name tool.name then t ∷ ts else t ∷ add ts tool

-- `struct ToolCallResult`.
pub record ToolCallResult (J : Json) : Type 0 where
  pub tool_call_id : Bytes
  pub tool_name : Bytes
  pub input : J.Value
  pub output : J.Value
  pub is_error : Bool

pub Attempt-cases {ℓ} :
    {A : Type ℓ} (m : Attempt A) → ((a : A) × (m ≡ ok a)) ⊎ ((e : Bytes) × (m ≡ threw e))
Attempt-cases (ok a) = inl (a, refl)
Attempt-cases (threw e) = inr (e, refl)
