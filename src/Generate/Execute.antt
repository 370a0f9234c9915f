-- ===== src/Generate/Execute.antt =====
-- The results of one step's tool calls.
use ai_sdk_cpp.Prelude.{
  ◌≡◌, refl, ap₂, inl, inr, List, [], ◌∷◌, ◌++◌, map, none, some, Option-cases, Bytes, codes, arith,
}
use ai_sdk_cpp.Prompt.{Json, Prompt}
use ai_sdk_cpp.Tools.{threw, Task, ToolExecutionContext, ToolSet, ToolCallResult}
use ai_sdk_cpp.Generate.{
  ToolCallContent, Repair, run_tool, executor, execute_one_tool, execute_tools,
}

-- The id and the name by which a provider matches a result with its call.
abbrev pub call_key : ToolCallContent → Bytes × Bytes
call_key c = (c.tool_call_id, c.tool_name)

abbrev pub result_key : {J : Json} → ToolCallResult J → Bytes × Bytes
result_key r = (r.tool_call_id, r.tool_name)

-- The message that the repair function is given.
abbrev repair_error : ToolCallContent → Bytes
repair_error tc =
    codes "Invalid JSON in tool call input for tool '"
    ++ (tc.tool_name ++ codes "': failed to parse input")

module _ {J : Json} {W : Type 0} where
  run_tool-key :
      (f : J.Value → ToolExecutionContext J → Task W J.Value) (tc : ToolCallContent)
      (input : J.Value) (messages : Prompt J) (w : W)
      → result_key (run_tool f tc input messages w).0 ≡ call_key tc
  unfolding run_tool
  run_tool-key f tc input messages w = ground arith

  execute_one_tool-key :
      (tc : ToolCallContent) (tools : ToolSet J W) (messages : Prompt J) (repair : Repair W) (w : W)
      → result_key (execute_one_tool tc tools messages repair w).0 ≡ call_key tc
  unfolding execute_one_tool
  execute_one_tool-key tc tools messages repair w =
      elim (Option-cases (executor tools tc.tool_name)) [
        | inl missing ↦ rw (missing, execute_one_tool)
        | inr (f, found) ↦ rw (found, execute_one_tool) (run_tool-key f tc _ messages _)
      ]

  -- Every call gets exactly one result, under its own id and name, in the order of the calls: also
  -- when a tool is missing, has no function, throws, or its input is no JSON.
  pub execute_tools-keys :
      (tcs : List ToolCallContent) (tools : ToolSet J W) (messages : Prompt J) (repair : Repair W)
      (w : W)
      → map result_key (execute_tools tcs tools messages repair w).0 ≡ map call_key tcs
  unfolding execute_tools
  execute_tools-keys [] tools messages repair w = refl
  execute_tools-keys (tc ∷ tcs) tools messages repair w =
      ap₂ ◌∷◌ (execute_one_tool-key tc tools messages repair w)
        (execute_tools-keys tcs tools messages repair _)

  -- A repair function that throws does not abort the call: the tool runs on the unparsed text.
  pub execute_one_tool_repair_throws :
      (tc : ToolCallContent) (tools : ToolSet J W) (messages : Prompt J) (w w' : W)
      (f : Bytes → Bytes → Task W Bytes) (run : J.Value → ToolExecutionContext J → Task W J.Value)
      (e : Bytes)
      → executor tools tc.tool_name ≡ some run
      → J.safe_parse tc.input ≡ none
      → f tc.input (repair_error tc) w ≡ (threw e, w')
      → execute_one_tool tc tools messages (some f) w
        ≡ run_tool run tc (J.string tc.input) messages w'
  unfolding execute_one_tool
  execute_one_tool_repair_throws tc tools messages w w' f run e found bad thrown =
      ground (arith, found, bad, thrown)
