-- ===== src/Permission/Wrapped.antt =====
-- The set of tools that `with_permissions` returns, and a denied call in the loop of generate_text.
use ai_sdk_cpp.Prelude.{
  ◌≡◌, refl, false, inl, inr, List, [], ◌∷◌, Option, none, some, Bytes, mem_str, str_eq, str_eq_iff,
  Bool-cases, if◌then◌else◌, arith,
}
use ai_sdk_cpp.Prompt.{Json, Prompt}
use ai_sdk_cpp.Tools.{ToolDefinition, ToolSet, add, find}
use ai_sdk_cpp.Generate.{ToolCallContent, Repair, executor, execute_one_tool}
use ai_sdk_cpp.Permission.{
  PermissionDecision, PermissionPolicy, Approver, ExecuteFn, Gated, wrap, wrap_onto,
  with_permissions,
}
use ai_sdk_cpp.Permission.Gate.{refusal, denied-refusal}

module _ {J : Json} {W : Type 0} where
  find-add :
      (tools : ToolSet J W) (t : ToolDefinition J W) (n : Bytes)
      → find (add tools t) n ≡ elim (find tools n) [
        | none ↦ if str_eq t.name n then some t else none
        | some found ↦ some found
      ]
  unfolding add
  find-add [] t n = refl
  find-add (u ∷ us) t n =
      ground
        (arith, find-add us t n, str_eq_iff u.name t.name, str_eq_iff u.name n, str_eq_iff t.name n)

module _ {J : Json} {W : Type 0} (policy : Option (PermissionPolicy J))
    (approver : Option (Approver J W)) where
  abbrev pub wrapped : Option (ToolDefinition J W) → Option (ToolDefinition J (Gated W))
  wrapped none = none
  wrapped (some t) = some (wrap policy approver t)

  find-wrap_onto :
      (acc : ToolSet J (Gated W)) (ts : ToolSet J W) (n : Bytes)
      → find (wrap_onto policy approver acc ts) n
        ≡ elim (find acc n) [ none ↦ wrapped (find ts n) | some found ↦ some found ]
  unfolding find wrap
  find-wrap_onto acc [] n = ground arith
  find-wrap_onto acc (t ∷ ts) n = ground (
    arith,
    find-wrap_onto (add acc (wrap policy approver t)) ts n,
    find-add acc (wrap policy approver t) n,
  )

  -- The gated set has a tool of a name exactly if the given one has, and it is that tool behind the
  -- gate: no tool is lost, added or left without the gate.
  pub find-with_permissions :
      (tools : ToolSet J W) (n : Bytes)
      → find (with_permissions tools policy approver) n ≡ wrapped (find tools n)
  unfolding with_permissions find
  find-with_permissions tools n = find-wrap_onto [] tools n

module _ {J : Json} {W : Type 0} where
  find-name :
      (tools : ToolSet J W) (n : Bytes) {t : ToolDefinition J W}
      → find tools n ≡ some t
      → t.name ≡ n
  unfolding find
  find-name [] n h = absurd (cc)
  find-name (u ∷ us) n h = elim (Bool-cases (str_eq u.name n)) [
    | inl same ↦ ground (arith, same, str_eq_iff u.name n)
    | inr other ↦ find-name us n (rw other at h)
  ]

  -- A call whose input parses, of a tool in the set that can be executed and is not always allowed, and
  -- that the policy denies, never reaches the tool: the loop gets the error object of the refusal with the policy's reason as the call's result, whatever the tool's function,
  -- the approver and the repair function are, and the world and the allowed tools are as before.
  pub execute_one_tool-denied :
      (policy : PermissionPolicy J) (approver : Option (Approver J W)) (tools : ToolSet J W)
      (tc : ToolCallContent) (messages : Prompt J) (repair : Repair (Gated W))
      (allowed : List Bytes) (w : W) (t : ToolDefinition J W) (original : ExecuteFn J W)
      (input : J.Value)
      → find tools tc.tool_name ≡ some t
      → t.execute ≡ some original
      → J.safe_parse tc.input ≡ some input
      → mem_str tc.tool_name allowed ≡ false
      → (policy tc.tool_name input).decision ≡ PermissionDecision.deny
      → execute_one_tool tc
          (with_permissions tools (some policy) approver)
          messages
          repair
          (allowed, w)
        ≡ (
          record {
            tool_call_id = tc.tool_call_id;
            tool_name = tc.tool_name;
            input = input;
            output = refusal J tc.tool_name (policy tc.tool_name input).reason;
            is_error = false;
          },
          (allowed, w),
        )
  unfolding execute_one_tool wrap executor
  execute_one_tool-denied policy approver tools tc messages repair allowed w t original input found
        executable parsed unknown denies =
      ground (
        arith,
        find-with_permissions (some policy) approver tools tc.tool_name,
        find-name tools tc.tool_name found,
        denied-refusal J tc.tool_name (policy tc.tool_name input).reason,
      )
