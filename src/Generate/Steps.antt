-- ===== src/Generate/Steps.antt =====
-- What a successful `generate_text` returns: its steps, and what is summed up over them.
use ai_sdk_cpp.Prelude.{
  ℕ, suc, ◌+◌, ◌≤◌, ◌≡◌, ◌≢◌, refl, sym, ap, subst, ◌∙◌, ◌⊎◌, inl, inr, true, false, List, [], ◌∷◌,
  ◌++◌, map, append-nil, append_assoc, Option, is_empty, Bool-cases, arith, length, length-append,
  All, All-append, if◌then◌else◌,
}
use ai_sdk_cpp.Prompt.{Json}
use ai_sdk_cpp.Tools.{Attempt, ok, threw, ToolCallResult}
use ai_sdk_cpp.Generate.{
  Usage, FinishReason, add_total, add_usage, GenerateResult, StepResult, GenerateTextOptions,
  GenerateTextResult, Progress, calls_of, is_tool_calls, runs_tools, execute_tools,
  append_assistant_message, finish_step, generate_loop, start, summarize, generate_text,
}
use ai_sdk_cpp.Generate.Rounds.{EndsWithin, generate_loop_inv}
use ai_sdk_cpp.Generate.Sums.{present, sum_of, present-append, sum_of-present}
use ai_sdk_cpp.Generate.Execute.{call_key, result_key, execute_tools-keys}

module _ {J : Json} where
  -- A step that ended for its calls, of which there are some, has one result for each, in order; any
  -- other step has no results.
  abbrev pub Answered : StepResult J → Type 0
  Answered s =
      ((s.result.finish_reason ≡ FinishReason.tool_calls)
        × (is_empty (calls_of s.result.content) ≡ false)
        × (map result_key s.tool_results ≡ map call_key (calls_of s.result.content)))
      ⊎ (((s.result.finish_reason ≢ FinishReason.tool_calls)
            ⊎ (is_empty (calls_of s.result.content) ≡ true))
          × (s.tool_results ≡ []))

  -- Steps numbered from `k` on.
  abbrev pub Numbered : ℕ → List (StepResult J) → Type 0
  Numbered k [] = Unit
  Numbered k (s ∷ ss) = (s.step_number ≡ k) × Numbered (suc k) ss

  abbrev pub results_of : List (StepResult J) → List (ToolCallResult J)
  results_of [] = []
  results_of (s ∷ ss) = s.tool_results ++ results_of ss

  -- The numbers of one kind that the steps report; a step may report none.
  abbrev pub reported : (Usage → Option ℕ) → List (StepResult J) → List ℕ
  reported f [] = []
  reported f (s ∷ ss) = present (f s.result.usage) (reported f ss)

  results_of-append :
      (ss : List (StepResult J)) (s : StepResult J)
      → results_of (ss ++ s ∷ []) ≡ results_of ss ++ s.tool_results
  results_of-append [] s = append-nil s.tool_results
  results_of-append (t ∷ ss) s =
      ap (◌++◌ t.tool_results) (results_of-append ss s)
      ∙ sym (append_assoc t.tool_results (results_of ss) s.tool_results)

  reported-append :
      (f : Usage → Option ℕ) (ss : List (StepResult J)) (s : StepResult J)
      → reported f (ss ++ s ∷ []) ≡ reported f ss ++ present (f s.result.usage) []
  reported-append f [] s = refl
  reported-append f (t ∷ ss) s =
      ap (present (f t.result.usage)) (reported-append f ss s)
      ∙ present-append (f t.result.usage) (reported f ss) (present (f s.result.usage) [])

  sum_of-reported :
      (f : Usage → Option ℕ) (ss : List (StepResult J)) (s : StepResult J)
      → sum_of (reported f (ss ++ s ∷ [])) ≡ add_total (sum_of (reported f ss)) (f s.result.usage)
  sum_of-reported f ss s =
      ap sum_of (reported-append f ss s) ∙ sum_of-present (reported f ss) (f s.result.usage)

  Numbered-append :
      (k : ℕ) (ss : List (StepResult J)) (s : StepResult J)
      → Numbered k ss
      → s.step_number ≡ k + length ss
      → Numbered k (ss ++ s ∷ [])
  Numbered-append k [] s h e = (omega arith, tt)
  Numbered-append k (t ∷ ss) s h e = (h.0, Numbered-append (suc k) ss s h.1 (omega arith))

  -- The steps, what is summed up over them, and the number of rounds.
  pub record Consistent (k : ℕ) (steps : List (StepResult J)) (calls : List (ToolCallResult J))
      (usage : Usage) : Type 0 where
    pub count : length steps ≡ k
    pub numbered : Numbered 0 steps
    pub answered : All Answered steps
    pub all_results : calls ≡ results_of steps
    pub input_usage : usage.input_total ≡ sum_of (reported (λ u. u.input_total) steps)
    pub output_usage : usage.output_total ≡ sum_of (reported (λ u. u.output_total) steps)

  abbrev IsConsistent : ℕ → Progress J → Type 0
  IsConsistent k p = Consistent k p.steps p.all_tool_calls p.total_usage

  -- One more step at the end.
  Consistent-append :
      {k : ℕ} {steps : List (StepResult J)} {calls : List (ToolCallResult J)} {usage : Usage}
      (s : StepResult J)
      → Consistent k steps calls usage
      → s.step_number ≡ k
      → Answered s
      → Consistent
          (suc k)
          (steps ++ s ∷ [])
          (calls ++ s.tool_results)
          (add_usage usage s.result.usage)
  unfolding add_usage
  Consistent-append {k} {steps} s h number a = record {
    count = length-append steps (s ∷ []) ∙ ground (arith, h.count);
    numbered = Numbered-append 0 steps s h.numbered (ground (arith, number, h.count));
    answered = All-append Answered steps (s ∷ []) h.answered (a, tt);
    all_results = ap (λ cs. cs ++ s.tool_results) h.all_results ∙ sym (results_of-append steps s);
    input_usage =
        ap (λ n. add_total n s.result.usage.input_total) h.input_usage
        ∙ sym (sum_of-reported (λ u. u.input_total) steps s);
    output_usage =
        ap (λ n. add_total n s.result.usage.output_total) h.output_usage
        ∙ sym (sum_of-reported (λ u. u.output_total) steps s);
  }

is_tool_calls-tool_calls : (f : FinishReason) → is_tool_calls f ≡ true → f ≡ FinishReason.tool_calls
unfolding is_tool_calls
is_tool_calls-tool_calls FinishReason.stop h = absurd (cc h)
is_tool_calls-tool_calls FinishReason.length h = absurd (cc h)
is_tool_calls-tool_calls FinishReason.content_filter h = absurd (cc h)
is_tool_calls-tool_calls FinishReason.tool_calls h = refl
is_tool_calls-tool_calls FinishReason.error h = absurd (cc h)
is_tool_calls-tool_calls FinishReason.other h = absurd (cc h)

is_tool_calls-other : (f : FinishReason) → is_tool_calls f ≡ false → f ≢ FinishReason.tool_calls
unfolding is_tool_calls
is_tool_calls-other f h e = let same : is_tool_calls f ≡ true = ap is_tool_calls e in cc (h, same)

module _ {J : Json} {W S : Type 0} (o : GenerateTextOptions J W S) where
  idle_why :
      (r : GenerateResult J)
      → runs_tools o r ≡ false
      → (r.finish_reason ≢ FinishReason.tool_calls) ⊎ (is_empty (calls_of r.content) ≡ true)
  idle_why r idle = elim (Bool-cases (is_tool_calls r.finish_reason)) [
    | inl calls ↦ inr (ground (arith, idle, calls))
    | inr other ↦ inl (is_tool_calls-other r.finish_reason other)
  ]

  step_of : ℕ → Progress J → GenerateResult J → W → StepResult J
  step_of k p r w = record {
    result = r;
    tool_results =
        if runs_tools o r
        then (execute_tools (calls_of r.content) o.tools (append_assistant_message p.prompt r)
            o.repair_tool_call w).0
        else [];
    step_number = k;
  }

  step_of-Answered :
      (k : ℕ) (p : Progress J) (r : GenerateResult J) (w : W) → Answered (step_of k p r w)
  unfolding step_of
  step_of-Answered k p r w = elim (Bool-cases (runs_tools o r)) [
    | inl runs ↦ inl (
      is_tool_calls-tool_calls r.finish_reason (ground (arith, runs)),
      ground (arith, runs),
      rw runs (execute_tools-keys (calls_of r.content) o.tools _ o.repair_tool_call w),
    )
    | inr idle ↦ inr (idle_why r idle, rw idle refl)
  ]

  finish_step-IsConsistent :
      (k : ℕ) (p : Progress J) (r : GenerateResult J) (w : W)
      → IsConsistent k p
      → IsConsistent (suc k) (finish_step o k p r w).0
  unfolding finish_step step_of
  finish_step-IsConsistent k p r w h =
      Consistent-append (step_of k p r w) h refl (step_of-Answered k p r w)

  start-IsConsistent : IsConsistent 0 (start o)
  start-IsConsistent = record {
    count = refl;
    numbered = tt;
    answered = tt;
    all_results = refl;
    input_usage = refl;
    output_usage = refl;
  }

  abbrev summarized : Attempt (Progress J) → Attempt (GenerateTextResult J)
  summarized (ok p) = ok (summarize p)
  summarized (threw e) = threw e

  generate_text_lem :
      (w : W) → (generate_text o w).0 ≡ summarized (generate_loop o o.max_steps 0 (start o) w).0
  unfolding generate_text
  generate_text_lem w = refl

  -- What `generate_text` returns is the summary of where the loop ends.
  generate_text-loop :
      (w w' : W) {r : GenerateTextResult J}
      → generate_text o w ≡ (ok r, w')
      → (p : Progress J) × ((generate_loop o o.max_steps 0 (start o) w).0 ≡ ok p)
        × (summarize p ≡ r)
  generate_text-loop w w' {r} e =
      let same : summarized (generate_loop o o.max_steps 0 (start o) w).0 ≡ ok r =
        sym (generate_text_lem w) ∙ ap (λ x. x.0) e in
      ended (generate_loop o o.max_steps 0 (start o) w).0 same
    where
      ended :
          (a : Attempt (Progress J))
          → summarized a ≡ ok r
          → (p : Progress J) × (a ≡ ok p) × (summarize p ≡ r)
      ended (ok p) same = (p, refl, cc same)
      ended (threw why) same = cc same

  -- What every round keeps holds of a call that returns, after at most `max_steps` rounds.
  pub generate_text_inv :
      (P : ℕ → Progress J → Type 0)
      → ((k : ℕ) (p : Progress J) (r : GenerateResult J) (w : W)
          → P k p
          → P (suc k) (finish_step o k p r w).0)
      → P 0 (start o)
      → (w w' : W) {r : GenerateTextResult J} → generate_text o w ≡ (ok r, w')
      → (k : ℕ) × (p : Progress J) × (k ≤ o.max_steps) × P k p × (summarize p ≡ r)
  generate_text_inv P keep base w w' e =
      let (p, returned, same) = generate_text-loop w w' e in
      let (k, bound, holds) =
        subst (EndsWithin o P o.max_steps) returned
          (generate_loop_inv o P keep o.max_steps o.max_steps 0 (start o) w base (omega arith)) in
      (k, p, bound, holds, same)

  -- A call that returns made at most `max_steps` steps, numbered from 0. Each step that
  -- ended for its calls, of which there are some, has one result for each, in order, and any other has
  -- none. The result's tool calls are those of all steps, and its input and output tokens are the sums
  -- of what the steps report, and missing if none reports any.
  pub generate_text-Consistent :
      (w w' : W) {r : GenerateTextResult J}
      → generate_text o w ≡ (ok r, w')
      → (k : ℕ) × (k ≤ o.max_steps) × Consistent k r.steps r.tool_calls r.usage
  unfolding summarize
  generate_text-Consistent w w' e =
      let (k, p, bound, holds, same) =
        generate_text_inv IsConsistent finish_step-IsConsistent start-IsConsistent w w' e in
      (k, bound, subst (λ r. Consistent k r.steps r.tool_calls r.usage) same holds)
