-- ===== src/Context/Evict.antt =====
-- `evict_turns_from_front` drops whole turn units behind the system block, oldest first.
use ai_sdk_cpp.Prelude.{
  ℕ, zero, suc, ◌+◌, ◌≤◌, ◌<◌, ◌≡◌, refl, sym, ap₂, ◌∙◌, ◌⊎◌, inl, inr, Bool, true, false, [], ◌∷◌,
  ◌++◌, arith, ℤ, pos, leb_ℤ, length, take, drop, Bool-cases, leb, leb→le, length-append,
  length-drop, take-append_length, drop-append_length, drop-length-append, drop-drop,
  take-append-drop, length-take,
}
use ai_sdk_cpp.Prompt.{Json, Message, Prompt}
use ai_sdk_cpp.TokenCount.{TokenCounter}
use ai_sdk_cpp.Context.{
  count_leading_system, unit_length, turn_unit_end, erase, evict_loop, evict_turns_from_front,
}

module _ {J : Json} where
  unit_length_pos : (m : Message J) (ms : Prompt J) → 1 ≤ unit_length m ms
  unfolding unit_length
  unit_length_pos (Message.system m) ms = omega arith
  unit_length_pos (Message.user m) ms = omega arith
  unit_length_pos (Message.assistant m) ms = ground arith
  unit_length_pos (Message.tool m) ms = omega arith

  -- The oldest turn unit reaches into the last `t` messages.
  abbrev pub IsBlocked : ℕ → Prompt J → Type 0
  IsBlocked t [] = Unit
  IsBlocked t (m ∷ ms) = length (m ∷ ms) < unit_length m ms + t

module _ {J : Json} (counter : TokenCounter J) (available : ℤ) (t : ℕ) (sys : Prompt J) where
  -- The system block with `rest` behind it is within the budget.
  abbrev pub within : Prompt J → Bool
  within rest = leb_ℤ (pos (counter.count_messages_tokens (sys ++ rest))) available

  -- What eviction may do with the messages behind the system block: drop the oldest turn unit while
  -- the budget is exceeded and the unit lies before the protected tail.
  pub data Evicts : Prompt J → Prompt J → Type 0 where
    keep : (rest : Prompt J) → (within rest ≡ true) ⊎ IsBlocked t rest → Evicts rest rest
    evict :
        (m : Message J) (ms : Prompt J) {r : Prompt J}
        → within (m ∷ ms) ≡ false
        → unit_length m ms + t ≤ length (m ∷ ms)
        → Evicts (drop (unit_length m ms) (m ∷ ms)) r
        → Evicts (m ∷ ms) r

  turn_unit_end-cons :
      (m : Message J) (ms : Prompt J)
      → turn_unit_end (sys ++ m ∷ ms) (length sys) ≡ length sys + unit_length m ms
  unfolding turn_unit_end
  turn_unit_end-cons m ms =
      ground (arith, length-append sys (m ∷ ms), drop-length-append sys (m ∷ ms))

  erase-unit :
      (rest : Prompt J) (k : ℕ)
      → erase (sys ++ rest) (length sys) (length sys + k) ≡ sys ++ drop k rest
  unfolding erase
  erase-unit rest k = rw (take-append_length sys rest, drop-append_length sys rest k)

  abbrev loop : ℕ → Prompt J → Prompt J
  loop fuel rest = evict_loop fuel counter available t (length sys) (sys ++ rest)

  loop-keep :
      (fuel : ℕ) (rest : Prompt J)
      → (within rest ≡ true) ⊎ IsBlocked t rest
      → loop (suc fuel) rest ≡ sys ++ rest
  unfolding evict_loop
  loop-keep fuel rest (inl ok) = rw ok
  loop-keep fuel [] (inr b) = ground (arith, length-append sys [])
  loop-keep fuel (m ∷ ms) (inr b) =
      ground (arith, length-append sys (m ∷ ms), turn_unit_end-cons m ms, unit_length_pos m ms)

  loop-evict :
      (fuel : ℕ) (m : Message J) (ms : Prompt J)
      → within (m ∷ ms) ≡ false
      → unit_length m ms + t ≤ length (m ∷ ms)
      → loop (suc fuel) (m ∷ ms) ≡ loop fuel (drop (unit_length m ms) (m ∷ ms))
  unfolding evict_loop
  loop-evict fuel m ms over room = ground (
    arith,
    length-append sys (m ∷ ms),
    turn_unit_end-cons m ms,
    unit_length_pos m ms,
    erase-unit (m ∷ ms) (unit_length m ms),
  )

  loop-Evicts :
      (fuel : ℕ) (rest : Prompt J)
      → length rest ≤ fuel
      → (r : Prompt J) × (loop fuel rest ≡ sys ++ r) × Evicts rest r
  loop-Evicts zero [] h = ([], (unfold evict_loop in refl), keep [] (inr tt))
  loop-Evicts zero (m ∷ ms) h = absurd (omega arith)
  loop-Evicts (suc fuel) [] h = ([], loop-keep fuel [] (inr tt), keep [] (inr tt))
  loop-Evicts (suc fuel) (m ∷ ms) h = elim (Bool-cases (within (m ∷ ms))) [
    | inl ok ↦ (m ∷ ms, loop-keep fuel (m ∷ ms) (inl ok), keep (m ∷ ms) (inl ok))
    | inr over ↦ elim (Bool-cases (leb (unit_length m ms + t) (length (m ∷ ms)))) [
      | inr tight ↦
          let b : IsBlocked t (m ∷ ms) = ground arith in
          (m ∷ ms, loop-keep fuel (m ∷ ms) (inr b), keep (m ∷ ms) (inr b))
      | inl room ↦
          let h' = leb→le (unit_length m ms + t) (length (m ∷ ms)) room in
          let u = unit_length m ms in
          let (r, e, d) =
            loop-Evicts fuel (drop u (m ∷ ms))
              (omega (arith, length-drop u (m ∷ ms), unit_length_pos m ms)) in
          (r, loop-evict fuel m ms over h' ∙ e, evict m ms over h' d)
    ]
  ]

module _ {J : Json} where
  pub count_leading_system-le : (ms : Prompt J) → count_leading_system ms ≤ length ms
  unfolding count_leading_system
  count_leading_system-le [] = omega arith
  count_leading_system-le (m ∷ ms) = ground (arith, count_leading_system-le ms)

  -- The leading system messages, and what stands behind them.
  abbrev pub system_block : Prompt J → Prompt J
  system_block ms = take (count_leading_system ms) ms

  abbrev pub conversation : Prompt J → Prompt J
  conversation ms = drop (count_leading_system ms) ms

  positive_budget :
      (messages : Prompt J) (counter : TokenCounter J) (available : ℤ) (t : ℕ)
      → leb_ℤ available (pos 0) ≡ false
      → evict_turns_from_front messages counter available t
        ≡ evict_loop (length messages) counter available t (count_leading_system messages) messages
  unfolding evict_turns_from_front
  positive_budget messages counter available t h = rw h

  -- With a positive budget the code computes an eviction, for every token counter.
  pub evict_turns_from_front-Evicts :
      (messages : Prompt J) (counter : TokenCounter J) (available : ℤ) (t : ℕ)
      → leb_ℤ available (pos 0) ≡ false
      → (r : Prompt J) × (evict_turns_from_front messages counter available t
          ≡ system_block messages ++ r)
        × Evicts counter available t (system_block messages) (conversation messages) r
  evict_turns_from_front-Evicts messages counter available t h =
      let n = count_leading_system messages in
      let sys = take n messages in
      let rest = drop n messages in
      let short : length rest ≤ length messages = omega (arith, length-drop n messages) in
      let (r, e, d) = loop-Evicts counter available t sys (length messages) rest short in
      let whole : sys ++ rest ≡ messages = take-append-drop n messages in
      let block : length sys ≡ n =
        omega (arith, length-take n messages, count_leading_system-le messages) in
      (
        r,
        positive_budget messages counter available t h
            ∙ ap₂ (evict_loop (length messages) counter available t) (sym block) (sym whole)
            ∙ e,
        d,
      )

module _ {J : Json} {counter : TokenCounter J} {available : ℤ} {t : ℕ} {sys : Prompt J} where
  -- The messages that are left: the end of the conversation, the protected tail included, and as
  -- long as its oldest turn can still be dropped they are within the budget.
  pub Evicts-drop :
      {rest r : Prompt J}
      → Evicts counter available t sys rest r
      → (k : ℕ) × (r ≡ drop k rest)
        × ((k ≡ 0) ⊎ (k + t ≤ length rest))
        × ((within counter available t sys r ≡ true) ⊎ IsBlocked t r)
  Evicts-drop (keep rest why) = (0, refl, inl refl, why)
  Evicts-drop (evict m ms over room d) =
      let (k, e, tail, why) = Evicts-drop d in
      let u = unit_length m ms in
      (u + k, e ∙ drop-drop k u (m ∷ ms), inr (omega (arith, length-drop u (m ∷ ms))), why)
