-- ===== src/Permission.antt =====
-- src/permission/permission.cpp and include/ai/permission/permission.hpp: the gate in front of tools.
-- `PermissionState::always_allowed`, which all wrapped tools share, stands beside the world `W` in
-- the state that the wrapped tools change.
pub mod Gate
pub mod Wrapped
mod Tests
use ai_sdk_cpp.Prelude.{
  ℕ, zero, suc, ◌+◌, ◌/◌, ◌%◌, Bool, true, false, not, ◌&&◌, List, [], ◌∷◌, ◌++◌, Option, none,
  some, is_some, Bytes, codes, is_empty, length, leb, ltb, mem_str, if◌then◌else◌,
}
use ai_sdk_cpp.Prompt.{Json}
use ai_sdk_cpp.Tools.{Attempt, ok, threw, Task, ToolExecutionContext, ToolDefinition, ToolSet, add}

pub data PermissionDecision : Type 0 where
  allow deny ask : PermissionDecision

unfoldable pub is_allow : PermissionDecision → Bool
is_allow PermissionDecision.allow = true
is_allow _ = false

pub record PermissionVerdict : Type 0 where
  pub decision : PermissionDecision
  pub reason : Bytes

pub record Approval : Type 0 where
  pub decision : PermissionDecision
  pub always_allow : Bool
  pub reason : Bytes

-- `std::to_string` of a size: decimal digits, on fuel.
unfoldable pub digits : ℕ → ℕ → Bytes
digits zero n = []
digits (suc fuel) n =
    let rest = digits fuel (n / 10) in
    if ltb n 10 then (48 + n) ∷ [] else rest ++ (48 + n % 10) ∷ []

unfoldable pub to_string : ℕ → Bytes
unfolding digits
to_string n = digits (suc n) n

unfoldable pub rationale_for : (J : Json) → Bytes → J.Value → Bytes
unfolding to_string
rationale_for J tool input =
    let serialized = J.serialize input in
    let s = codes "Allow tool '" ++ (tool ++ codes "' to run") in
    if leb (length serialized) 200
    then s ++ (codes " with input " ++ serialized)
    else s ++ (codes " with input (" ++ (to_string (length serialized) ++ codes " bytes)"))

-- The error result, with the reason if there is one.
unfoldable pub denied : (J : Json) → Bytes → Bytes → J.Value
denied J tool reason =
    let err =
      J.set (J.set J.empty_object (codes "error") (J.string (codes "permission_denied")))
        (codes "tool") (J.string tool) in
    J.object (if not (is_empty reason) then J.set err (codes "message") (J.string reason) else err)

abbrev pub no_approver : Bytes
no_approver = codes "no approver is configured to authorize this tool call"

abbrev pub PermissionPolicy : Json → Type 0
PermissionPolicy J = Bytes → J.Value → PermissionVerdict

abbrev pub Approver : Json → Type 0 → Type 0
Approver J W = Bytes → J.Value → Bytes → Task W Approval

abbrev pub ExecuteFn : Json → Type 0 → Type 0
ExecuteFn J W = J.Value → ToolExecutionContext J → Task W J.Value

-- The state of the wrapped tools: the names that are always allowed, and the world.
abbrev pub Gated : Type 0 → Type 0
Gated W = List Bytes × W

-- Without a policy everything is allowed.
abbrev pub verdict_of :
    (J : Json) → Option (PermissionPolicy J) → Bytes → J.Value → PermissionVerdict
verdict_of J none tool_name input = record { decision = PermissionDecision.allow; reason = [] }
verdict_of J (some policy) tool_name input = policy tool_name input

module _ {J : Json} {W : Type 0} where
  unfoldable pub run_original :
      ExecuteFn J W → J.Value → ToolExecutionContext J → Gated W → Attempt J.Value × Gated W
  run_original original input ctx (allowed, w) =
      let (attempt, w') = original input ctx w in (attempt, (allowed, w'))

  -- The decision is made: `if (verdict.decision == Deny)`.
  unfoldable pub decided :
      PermissionDecision
      → Bytes
      → Bytes
      → ExecuteFn J W
      → J.Value
      → ToolExecutionContext J
      → Gated W
      → Attempt J.Value × Gated W
  unfolding run_original denied
  decided PermissionDecision.deny reason tool_name original input ctx s =
      (ok (denied J tool_name reason), s)
  decided PermissionDecision.allow reason tool_name original input ctx s =
      run_original original input ctx s
  decided PermissionDecision.ask reason tool_name original input ctx s =
      run_original original input ctx s

  -- The approver has answered; an exception of the approver passes on.
  unfoldable pub after_approver :
      Bytes
      → Bytes
      → ExecuteFn J W
      → J.Value
      → ToolExecutionContext J
      → List Bytes
      → Attempt Approval × W
      → Attempt J.Value × Gated W
  unfolding decided is_allow
  after_approver reason tool_name original input ctx allowed (threw e, w) = (threw e, (allowed, w))
  after_approver reason tool_name original input ctx allowed (ok approval, w) =
      let why = if not (is_empty approval.reason) then approval.reason else reason in
      let allowed' =
        if is_allow approval.decision && approval.always_allow
        then tool_name ∷ allowed
        else allowed in
      decided approval.decision why tool_name original input ctx (allowed', w)

  -- The policy has decided: `if (verdict.decision == Ask)`.
  unfoldable pub consult :
      PermissionDecision
      → Bytes
      → Option (Approver J W)
      → Bytes
      → ExecuteFn J W
      → J.Value
      → ToolExecutionContext J
      → Gated W
      → Attempt J.Value × Gated W
  unfolding after_approver rationale_for
  consult PermissionDecision.allow reason approver tool_name original input ctx s =
      decided PermissionDecision.allow reason tool_name original input ctx s
  consult PermissionDecision.deny reason approver tool_name original input ctx s =
      decided PermissionDecision.deny reason tool_name original input ctx s
  consult PermissionDecision.ask reason none tool_name original input ctx s =
      decided PermissionDecision.deny no_approver tool_name original input ctx s
  consult PermissionDecision.ask reason (some f) tool_name original input ctx (allowed, w) =
      after_approver reason tool_name original input ctx allowed
        (f tool_name input (rationale_for J tool_name input) w)

  -- The wrapped `execute`.
  unfoldable pub gate :
      Option (PermissionPolicy J)
      → Option (Approver J W)
      → Bytes
      → ExecuteFn J W
      → ExecuteFn J (Gated W)
  unfolding consult run_original
  gate policy approver tool_name original input ctx (allowed, w) =
      elim (mem_str tool_name allowed) [
        | true ↦ run_original original input ctx (allowed, w)
        | false ↦
            let verdict = verdict_of J policy tool_name input in
            consult verdict.decision verdict.reason approver tool_name original input ctx
              (allowed, w)
      ]

  -- A tool without `execute` has nothing to gate.
  unfoldable pub wrap :
      Option (PermissionPolicy J)
      → Option (Approver J W)
      → ToolDefinition J W
      → ToolDefinition J (Gated W)
  unfolding gate
  wrap policy approver t = record {
    name = t.name;
    description = t.description;
    input_schema = t.input_schema;
    strict = t.strict;
    execute = elim t.execute [
      | none ↦ none
      | some original ↦ some (gate policy approver t.name original)
    ];
  }

  abbrev pub wrap_onto :
      Option (PermissionPolicy J)
      → Option (Approver J W)
      → ToolSet J (Gated W)
      → ToolSet J W
      → ToolSet J (Gated W)
  wrap_onto policy approver wrapped [] = wrapped
  wrap_onto policy approver wrapped (t ∷ ts) =
      wrap_onto policy approver (add wrapped (wrap policy approver t)) ts

  unfoldable pub with_permissions :
      ToolSet J W → Option (PermissionPolicy J) → Option (Approver J W) → ToolSet J (Gated W)
  unfolding wrap add
  with_permissions tools policy approver = wrap_onto policy approver [] tools
