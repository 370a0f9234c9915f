-- ===== src/TokenCount/Trim.antt =====
-- What `trim_to_fit` keeps, and where it stops.
use ai_sdk_cpp.Prelude.{
  ℕ, zero, suc, ◌+◌, ◌*◌, ◌≤◌, ◌≡◌, refl, ap, ◌∙◌, ◌⊎◌, inl, inr, true, false, not, [], ◌∷◌, ◌++◌,
  none, some, arith, length, drop, filter, Bool-cases, Option-cases, leb, le→leb, leb→le,
}
use ai_sdk_cpp.Prompt.{Json, Message, Prompt, is_system}
use ai_sdk_cpp.TokenCount.{
  TokenCounter, ContextWindow, fits, erase_first, trim_loop, trim_to_fit, add_message_tokens,
  count_message_tokens, approximate,
}

module _ {J : Json} where
  abbrev pub systems : Prompt J → Prompt J
  systems = filter is_system

  abbrev pub turns : Prompt J → Prompt J
  turns = filter (λ m. not (is_system m))

  -- Erasing takes the oldest message that is no system message, and nothing else.
  record Erased (ms rest : Prompt J) : Type 0 where
    same_systems : systems rest ≡ systems ms
    oldest_turn : turns rest ≡ drop 1 (turns ms)
    shorter : length ms ≡ suc (length rest)

  erase_first-Erased : (ms rest : Prompt J) → erase_first ms ≡ some rest → Erased ms rest
  unfolding erase_first
  erase_first-Erased [] rest e = cc
  erase_first-Erased (m ∷ ms) rest e = elim (Bool-cases (is_system m)) [
    | inl s ↦ elim (Option-cases (erase_first ms)) [
      | inl stuck ↦ absurd (ground arith)
      | inr (r, found) ↦ let ih = erase_first-Erased ms r found in ground (arith, ih)
    ]
    | inr t ↦ ground arith
  ]

  erase_first-none : (ms : Prompt J) → erase_first ms ≡ none → turns ms ≡ []
  unfolding erase_first
  erase_first-none [] e = refl
  erase_first-none (m ∷ ms) e = elim (Option-cases (erase_first ms)) [
    | inl stuck ↦ ground (arith, erase_first-none ms stuck)
    | inr (r, found) ↦ absurd (ground arith)
  ]

  -- The conversation fits, or one message is left, or none but system messages.
  abbrev pub IsTrimmed : ContextWindow → TokenCounter J → Prompt J → Type 0
  IsTrimmed w c ms = (fits w c ms ≡ true) ⊎ ((length ms ≤ 1) ⊎ (turns ms ≡ []))

  -- `r` is what remains of `ms` when its `k` oldest turns are erased.
  pub record KeepsAfter (ms : Prompt J) (k : ℕ) (r : Prompt J) : Type 0 where
    pub same_systems : systems r ≡ systems ms
    pub newest_turns : turns r ≡ drop k (turns ms)

  drop-drop : (k : ℕ) (xs : Prompt J) → drop k (drop 1 xs) ≡ drop (suc k) xs
  drop-drop zero [] = refl
  drop-drop (suc k) [] = refl
  drop-drop k (x ∷ xs) = refl

  module _ (w : ContextWindow) (c : TokenCounter J) where
    trim_loop-erases :
        (fuel : ℕ) (ms rest : Prompt J)
        → fits w c ms ≡ false
        → 2 ≤ length ms
        → erase_first ms ≡ some rest
        → trim_loop (suc fuel) w c ms ≡ trim_loop fuel w c rest
    unfolding trim_loop fits
    trim_loop-erases fuel ms rest over long found = rw (over, le→leb 2 (length ms) long, found)

    -- A round that does not erase is the last one.
    trim_loop-stops :
        (fuel : ℕ) (ms : Prompt J)
        → (fits w c ms ≡ true) ⊎ ((length ms ≤ 1) ⊎ (erase_first ms ≡ none))
        → trim_loop (suc fuel) w c ms ≡ ms
    unfolding trim_loop fits
    trim_loop-stops fuel ms (inl ok) = rw ok
    trim_loop-stops fuel ms (inr (inl short)) = ground arith
    trim_loop-stops fuel ms (inr (inr stuck)) = ground arith

    abbrev Outcome : Prompt J → Prompt J → Type 0
    Outcome ms r =
        (k : ℕ) × KeepsAfter ms k r × IsTrimmed w c r × ((fits w c ms ≡ false) ⊎ (r ≡ ms))

    stops :
        (fuel : ℕ) (ms : Prompt J)
        → (fits w c ms ≡ true) ⊎ ((length ms ≤ 1) ⊎ (erase_first ms ≡ none))
        → Outcome ms (trim_loop (suc fuel) w c ms)
    stops fuel ms why =
        rw (trim_loop-stops fuel ms why)
          (0, record { same_systems = refl; newest_turns = refl }, why' why, inr refl)
      where
        why' : (fits w c ms ≡ true) ⊎ ((length ms ≤ 1) ⊎ (erase_first ms ≡ none)) → IsTrimmed w c ms
        why' (inl ok) = inl ok
        why' (inr (inl short)) = inr (inl short)
        why' (inr (inr stuck)) = inr (inr (erase_first-none ms stuck))

    trim_loop-Outcome :
        (fuel : ℕ) (ms : Prompt J) → length ms ≤ fuel → Outcome ms (trim_loop fuel w c ms)
    trim_loop-Outcome zero ms h =
        (unfold trim_loop in
          (
            0,
            record { same_systems = refl; newest_turns = refl },
            inr (inl (omega arith)),
            inr refl,
          ))
    trim_loop-Outcome (suc fuel) ms h = elim (Bool-cases (fits w c ms)) [
      | inl ok ↦ stops fuel ms (inl ok)
      | inr over ↦ elim (Bool-cases (leb 2 (length ms))) [
        | inr short ↦ stops fuel ms (inr (inl (ground arith)))
        | inl long ↦ elim (Option-cases (erase_first ms)) [
          | inl stuck ↦ stops fuel ms (inr (inr stuck))
          | inr (rest, found) ↦
              let e = erase_first-Erased ms rest found in
              let (k, keeps, trimmed, same) = trim_loop-Outcome fuel rest (omega arith) in
              rw (trim_loop-erases fuel ms rest over (leb→le 2 (length ms) long) found) (
                suc k,
                record {
                  same_systems = keeps.same_systems ∙ e.same_systems;
                  newest_turns =
                      keeps.newest_turns ∙ ap (drop k) e.oldest_turn ∙ drop-drop k (turns ms);
                },
                trimmed,
                inl over,
              )
        ]
      ]
    ]

    -- `trim_to_fit` ends. It keeps all system messages and erases the oldest `k` other messages, none
    -- if the prompt fits already; then the prompt fits, or one message is left, or only system
    -- messages are.
    pub trim_to_fit-KeepsAfter :
        (ms : Prompt J)
        → (k : ℕ) × KeepsAfter ms k (trim_to_fit w c ms)
          × IsTrimmed w c (trim_to_fit w c ms)
          × ((fits w c ms ≡ false) ⊎ (trim_to_fit w c ms ≡ ms))
    unfolding trim_to_fit
    trim_to_fit-KeepsAfter ms = trim_loop-Outcome (length ms) ms (omega arith)

module _ (J : Json) where
  add_message_tokens-total :
      (t : ℕ) (ms : Prompt J) → add_message_tokens J t ms ≡ t + add_message_tokens J 0 ms
  unfolding add_message_tokens
  add_message_tokens-total t [] = omega arith
  add_message_tokens-total t (m ∷ ms) = omega (
    arith,
    add_message_tokens-total (t + count_message_tokens J m) ms,
    add_message_tokens-total (0 + count_message_tokens J m) ms,
  )

  count_message_tokens_pos : (m : Message J) → 4 ≤ count_message_tokens J m
  unfolding count_message_tokens
  count_message_tokens_pos (Message.system m) = omega arith
  count_message_tokens_pos (Message.user m) = omega arith
  count_message_tokens_pos (Message.assistant m) = omega arith
  count_message_tokens_pos (Message.tool m) = omega arith

  message_tokens-cons :
      (m : Message J) (ms : Prompt J)
      → add_message_tokens J 0 (m ∷ ms) ≡ add_message_tokens J (0 + count_message_tokens J m) ms
  unfolding add_message_tokens
  message_tokens-cons m ms = refl

  message_tokens-length : (ms : Prompt J) → 4 * length ms ≤ add_message_tokens J 0 ms
  message_tokens-length [] = omega arith
  message_tokens-length (m ∷ ms) = omega (
    arith,
    message_tokens-length ms,
    count_message_tokens_pos m,
    add_message_tokens-total (0 + count_message_tokens J m) ms,
    message_tokens-cons m ms,
  )

  message_tokens-append :
      (xs ys : Prompt J)
      → add_message_tokens J 0 (xs ++ ys) ≡ add_message_tokens J 0 xs + add_message_tokens J 0 ys
  unfolding add_message_tokens
  message_tokens-append [] ys = omega arith
  message_tokens-append (x ∷ xs) ys = omega (
    arith,
    message_tokens-append xs ys,
    add_message_tokens-total (0 + count_message_tokens J x) (xs ++ ys),
    add_message_tokens-total (0 + count_message_tokens J x) xs,
  )

  -- The estimate of the built-in counter is additive, three tokens of overhead apart, and at least
  -- four tokens for each message on top of them.
  pub count_messages_tokens-append :
      (xs ys : Prompt J)
      → ((approximate J).count_messages_tokens (xs ++ ys) + 3
          ≡ (approximate J).count_messages_tokens xs + (approximate J).count_messages_tokens ys)
        × (3 + 4 * length xs ≤ (approximate J).count_messages_tokens xs)
  unfolding approximate
  count_messages_tokens-append xs ys = (
    omega (
      arith,
      message_tokens-append xs ys,
      add_message_tokens-total 3 (xs ++ ys),
      add_message_tokens-total 3 xs,
      add_message_tokens-total 3 ys,
    ),
    omega (arith, message_tokens-length xs, add_message_tokens-total 3 xs),
  )
