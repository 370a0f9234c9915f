-- ===== src/Generate/Rounds.antt =====
-- The rounds of the loop of generate_text, and a rule for what they keep.
use ai_sdk_cpp.Prelude.{
  ℕ, zero, suc, ◌+◌, ◌≤◌, ◌≡◌, refl, inl, inr, true, false, Bool-cases, Bytes, codes, arith,
}
use ai_sdk_cpp.Prompt.{Json}
use ai_sdk_cpp.Tools.{Attempt, ok, threw}
use ai_sdk_cpp.Generate.{
  GenerateResult, GenerateTextOptions, Progress, should_continue, build_call_options, finish_step,
  generate_loop,
}

module _ {J : Json} {W S : Type 0} (o : GenerateTextOptions J W S) where
  pub loop_cancelled :
      (rounds k : ℕ) (p : Progress J) (w : W)
      → o.is_cancelled w ≡ true
      → generate_loop o (suc rounds) k p w ≡ (threw (codes "Operation cancelled"), w)
  unfolding generate_loop
  loop_cancelled rounds k p w c = ground (arith, c)

  module _ (rounds k : ℕ) (p : Progress J) (w w' : W) (live : o.is_cancelled w ≡ false) where
    pub loop_threw :
        {e : Bytes}
        → o.do_generate (build_call_options o p.prompt) w ≡ (threw e, w')
        → generate_loop o (suc rounds) k p w ≡ (threw e, w')
    unfolding generate_loop
    loop_threw f = ground (arith, live, f)

    module _ {r : GenerateResult J}
        (f : o.do_generate (build_call_options o p.prompt) w ≡ (ok r, w')) where
      pub loop_continues :
          should_continue o r ≡ true
          → generate_loop o (suc rounds) k p w
            ≡ generate_loop o rounds (suc k) (finish_step o k p r w').0 (finish_step o k p r w').1
      unfolding generate_loop
      loop_continues c = ground (arith, live, f, c)

      pub loop_stops :
          should_continue o r ≡ false
          → generate_loop o (suc rounds) k p w
            ≡ (ok (finish_step o k p r w').0, (finish_step o k p r w').1)
      unfolding generate_loop
      loop_stops c = ground (arith, live, f, c)

  -- A normal end in a state that satisfies `P`, after at most `bound` rounds in all.
  abbrev pub EndsWithin : (ℕ → Progress J → Type 0) → ℕ → Attempt (Progress J) → Type 0
  EndsWithin P bound (ok q) = (n : ℕ) × (n ≤ bound) × P n q
  EndsWithin P bound (threw e) = Unit

  -- A rule for the loop: what holds at the start and is kept by each round holds at the end.
  pub generate_loop_inv :
      (P : ℕ → Progress J → Type 0)
      → ((k : ℕ) (p : Progress J) (r : GenerateResult J) (w : W)
          → P k p
          → P (suc k) (finish_step o k p r w).0)
      → (bound rounds k : ℕ) (p : Progress J) (w : W) → P k p
      → k + rounds ≤ bound
      → EndsWithin P bound (generate_loop o rounds k p w).0
  generate_loop_inv P keep bound zero k p w h b = (unfold generate_loop in (k, omega arith, h))
  generate_loop_inv P keep bound (suc rounds) k p w h b = elim (Bool-cases (o.is_cancelled w)) [
    | inl c ↦ rw (loop_cancelled rounds k p w c) tt
    | inr live ↦
        answered live (o.do_generate (build_call_options o p.prompt) w) refl
          (generate_loop_inv P keep bound rounds (suc k))
  ]
    where
      answered :
          o.is_cancelled w ≡ false
          → (a : Attempt (GenerateResult J) × W)
          → o.do_generate (build_call_options o p.prompt) w ≡ a
          → ((p' : Progress J) (w'' : W)
              → P (suc k) p'
              → suc k + rounds ≤ bound
              → EndsWithin P bound (generate_loop o rounds (suc k) p' w'').0)
          → EndsWithin P bound (generate_loop o (suc rounds) k p w).0
      answered live (threw e, w') f ih = rw (loop_threw rounds k p w w' live f) tt
      answered live (ok r, w') f ih = elim (Bool-cases (should_continue o r)) [
        | inl c ↦
            rw (loop_continues rounds k p w w' live f c) (ih _ _ (keep k p r w' h) (omega arith))
        | inr c ↦ rw (loop_stops rounds k p w w' live f c) (suc k, omega arith, keep k p r w' h)
      ]
