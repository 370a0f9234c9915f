-- ===== src/StreamText/Equivalence.antt =====
-- The loop of stream_text and the loop of generate_text over the drained model.
use ai_sdk_cpp.Prelude.{
  ℕ, zero, suc, ◌≡◌, refl, sym, ap, ◌∙◌, inl, inr, true, false, List, [], none, some, Option-cases,
  Bool-cases, Bytes, codes, is_empty, arith,
}
use ai_sdk_cpp.Prompt.{Json}
use ai_sdk_cpp.Tools.{Attempt, ok, threw}
use ai_sdk_cpp.Generate.{
  GenerateTextResult, Progress, build_call_options, should_continue, generate_loop, start,
  summarize, generate_text, no_usage,
}
use ai_sdk_cpp.Generate.Rounds.{loop_cancelled, loop_threw, loop_continues, loop_stops}
use ai_sdk_cpp.StreamText.{
  StreamPart, ModelStream, Accumulated, nothing_yet, consume, step_gen_result, StreamTextOptions,
}
use ai_sdk_cpp.StreamText.Loop.{
  build_stream_call_options, finish_stream_step, continues, Streamed, after_parts, stream_step,
  stream_loop, stream_start_progress, stream_summary, full_result, is_simple, stream_text,
}
use ai_sdk_cpp.StreamText.Collect.{
  collect, collected, build_prompt-streamed, build_call_options-streamed, finish_step-streamed,
}

-- The outcome and the world, without the parts that the consumer has seen.
abbrev pub unseen : {A P W : Type 0} → A × P × W → A × W
unseen x = (x.0, x.2)

module _ {J : Json} {W : Type 0} where
  collect_failed :
      (s : ModelStream J) (w : W) {e : Bytes}
      → s.failure ≡ some e
      → collect (ok s, w) ≡ (threw e, w)
  unfolding collect
  collect_failed s w h = ground (arith, h)

  collect_ended :
      (s : ModelStream J) (w : W)
      → s.failure ≡ none
      → collect (ok s, w) ≡ (ok (step_gen_result (consume nothing_yet s.parts)), w)
  unfolding collect
  collect_ended s w h = ground (arith, h)

  collect_threw : (e : Bytes) (w : W) → collect {J = J} (threw e, w) ≡ (threw e, w)
  unfolding collect
  collect_threw e w = refl

module _ {J : Json} {W S : Type 0} (o : StreamTextOptions J W S) where
  step_threw :
      (next : Progress J → W → Streamed o (Progress J)) (k : ℕ) (p : Progress J) (e : Bytes) (w : W)
      → stream_step o next k p (threw e, w) ≡ (threw e, [], w)
  unfolding stream_step
  step_threw next k p e w = refl

  module _ (next : Progress J → W → Streamed o (Progress J)) (k : ℕ) (p : Progress J)
      (s : ModelStream J) (w : W) where
    step_failed :
        {e : Bytes} → s.failure ≡ some e → stream_step o next k p (ok s, w) ≡ (threw e, s.parts, w)
    unfolding stream_step
    step_failed h = ground (arith, h)

    module _ (ended : s.failure ≡ none) where
      step_goes_on :
          continues o (consume nothing_yet s.parts) ≡ true
          → stream_step o next k p (ok s, w)
            ≡ after_parts o s.parts (
                next
                  (finish_stream_step o k p (consume nothing_yet s.parts) w).0
                  (finish_stream_step o k p (consume nothing_yet s.parts) w).1)
      unfolding stream_step
      step_goes_on c = ground (arith, ended, c)

      step_ends :
          continues o (consume nothing_yet s.parts) ≡ false
          → stream_step o next k p (ok s, w) ≡ (
            ok (finish_stream_step o k p (consume nothing_yet s.parts) w).0,
            s.parts,
            (finish_stream_step o k p (consume nothing_yet s.parts) w).1,
          )
      unfolding stream_step
      step_ends c = ground (arith, ended, c)

  unseen-after_parts :
      (parts : List (StreamPart J)) (x : Streamed o (Progress J))
      → unseen (after_parts o parts x) ≡ unseen x
  unseen-after_parts parts (a, later, w) = refl

  module _ (rounds k : ℕ) (p : Progress J) (w : W) where
    streamed_cancelled :
        o.is_cancelled w ≡ true
        → stream_loop o (suc rounds) k p w ≡ (threw (codes "Operation cancelled"), [], w)
    unfolding stream_loop
    streamed_cancelled c = ground (arith, c)

    streamed_live :
        o.is_cancelled w ≡ false
        → stream_loop o (suc rounds) k p w
          ≡ stream_step o
              (stream_loop o rounds (suc k))
              k
              p
              (o.do_stream (build_stream_call_options o p.prompt) w)
    unfolding stream_loop
    streamed_live c = ground (arith, c)

  continues-streamed :
      (a : Accumulated) → should_continue (collected o) (step_gen_result a) ≡ continues o a
  unfolding step_gen_result
  continues-streamed a = refl

  module _ (tools : is_empty o.tools ≡ false) where
    module _ (rounds k : ℕ) (p : Progress J) (w : W) (live : o.is_cancelled w ≡ false)
        (ih : (q : Progress J) (v : W)
          → generate_loop (collected o) rounds (suc k) q v
            ≡ unseen (stream_loop o rounds (suc k) q v)) where
      asked :
          (x : Attempt (ModelStream J) × W)
          → o.do_stream (build_stream_call_options o p.prompt) w ≡ x
          → collect (o.do_stream (build_call_options (collected o) p.prompt) w) ≡ collect x
      asked x f =
          ap (λ call. collect (o.do_stream call w)) (build_call_options-streamed o p.prompt)
          ∙ ap collect f

      answered_streamed :
          (x : Attempt (ModelStream J) × W)
          → o.do_stream (build_stream_call_options o p.prompt) w ≡ x
          → generate_loop (collected o) (suc rounds) k p w
            ≡ unseen (stream_step o (stream_loop o rounds (suc k)) k p x)
      answered_streamed (threw e, v) f =
          loop_threw (collected o) rounds k p w v live (asked (threw e, v) f ∙ collect_threw e v)
          ∙ sym (ap unseen (step_threw (stream_loop o rounds (suc k)) k p e v))
      answered_streamed (ok s, v) f =
          let a = consume nothing_yet s.parts in
          let next = stream_loop o rounds (suc k) in
          elim (Option-cases s.failure) [
            | inr (e, h) ↦
                loop_threw (collected o) rounds k p w v live
                  (asked (ok s, v) f ∙ collect_failed s v h)
                ∙ sym (ap unseen (step_failed next k p s v h))
            | inl h ↦ elim (Bool-cases (continues o a)) [
              | inl c ↦
                  loop_continues (collected o) rounds k p w v live
                    (asked (ok s, v) f ∙ collect_ended s v h) (continues-streamed a ∙ c)
                  ∙ (ap (λ x. generate_loop (collected o) rounds (suc k) x.0 x.1)
                        (finish_step-streamed o k p a v tools)
                      ∙ (ih _ _
                          ∙ (sym (
                                unseen-after_parts s.parts (
                                  next (finish_stream_step o k p a v).0
                                    (finish_stream_step o k p a v).1))
                              ∙ sym (ap unseen (step_goes_on next k p s v h c)))))
              | inr c ↦
                  loop_stops (collected o) rounds k p w v live
                    (asked (ok s, v) f ∙ collect_ended s v h) (continues-streamed a ∙ c)
                  ∙ (ap (λ x. (ok x.0, x.1)) (finish_step-streamed o k p a v tools)
                      ∙ sym (ap unseen (step_ends next k p s v h c)))
            ]
          ]

    loop-streamed :
        (rounds k : ℕ) (p : Progress J) (w : W)
        → generate_loop (collected o) rounds k p w ≡ unseen (stream_loop o rounds k p w)
    unfolding generate_loop stream_loop
    loop-streamed zero k p w = refl
    loop-streamed (suc rounds) k p w = elim (Bool-cases (o.is_cancelled w)) [
      | inl c ↦
          loop_cancelled (collected o) rounds k p w c
          ∙ sym (ap unseen (streamed_cancelled rounds k p w c))
      | inr live ↦
          answered_streamed rounds k p w live (loop-streamed rounds (suc k)) _ refl
          ∙ sym (ap unseen (streamed_live rounds k p w live))
    ]

  start-streamed : start (collected o) ≡ stream_start_progress o
  start-streamed =
      ap
        (λ prompt. record {
          prompt = prompt;
          steps = [];
          total_usage = no_usage;
          all_tool_calls = [];
        })
        (build_prompt-streamed o)

-- The result of generate_text without the messages, which the sink does not get.
abbrev pub without_messages :
    {J : Json} {W : Type 0}
    → Attempt (GenerateTextResult J) × W
    → Attempt (GenerateTextResult J) × W
without_messages (threw e, w) = (threw e, w)
without_messages (ok r, w) = (ok (record r { response_messages = [] }), w)

abbrev summarized :
    {J : Json} {W : Type 0} → Attempt (Progress J) × W → Attempt (GenerateTextResult J) × W
summarized (threw e, w) = (threw e, w)
summarized (ok p, w) = (ok (summarize p), w)

by_outcome :
    {J : Json} {W : Type 0} (x : Attempt (Progress J) × W)
    → (elim x.0 [ ok p ↦ ok (summarize p) | threw e ↦ threw e ], x.1) ≡ summarized x
by_outcome (ok p, w) = refl
by_outcome (threw e, w) = refl

module _ {J : Json} {W S : Type 0} (o : StreamTextOptions J W S) where
  unseen-full_result :
      (x : Streamed o (Progress J))
      → unseen (full_result o x) ≡ without_messages (summarized (unseen x))
  unfolding summarize stream_summary
  unseen-full_result (ok q, parts, v) = refl
  unseen-full_result (threw what, parts, v) = refl

  not_simple : is_simple o ≡ false → is_empty o.tools ≡ false
  not_simple h = ground arith

  generate_text-summarized :
      (w : W)
      → generate_text (collected o) w
        ≡ summarized (generate_loop (collected o) o.max_steps 0 (start (collected o)) w)
  unfolding generate_text
  generate_text-summarized w =
      by_outcome (generate_loop (collected o) o.max_steps 0 (start (collected o)) w)

  -- With tools and more than one step, a streamed run that is drained to its end leaves the outcome,
  -- the result and the world that generate_text leaves over the model that answers each call with
  -- its drained stream; only the messages are not part of the result.
  pub stream_text-generate_text :
      (w : W)
      → is_simple o ≡ false
      → unseen (stream_text o w) ≡ without_messages (generate_text (collected o) w)
  unfolding stream_text
  stream_text-generate_text w h =
      let looped =
        ap (λ p. generate_loop (collected o) o.max_steps 0 p w) (start-streamed o)
        ∙ loop-streamed o (not_simple h) o.max_steps 0 (stream_start_progress o) w in
      rw h (
        unseen-full_result (stream_loop o o.max_steps 0 (stream_start_progress o) w)
        ∙ ap without_messages (ap summarized (sym looped) ∙ sym (generate_text-summarized w)))
