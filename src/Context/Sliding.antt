-- ===== src/Context/Sliding.antt =====
-- `SlidingWindowStrategy::manage`: which turn units it drops, and when it stops.
use ai_sdk_cpp.Prelude.{
  ℕ, zero, suc, ◌≤◌, ◌<◌, ◌≡◌, ◌≢◌, refl, sym, ap, subst, ◌∙◌, inl, inr, true, false, List, [], ◌∷◌,
  ◌++◌, map, All, Bytes, is_empty, pos, leb_ℤ, length, drop, Bool-cases, take-append-drop, arith,
  length-drop,
}
use ai_sdk_cpp.Prompt.{Json, is_system, Message, ToolMessage, Prompt}
use ai_sdk_cpp.TokenCount.{TokenCounter, ContextWindow, available_input_tokens, fits}
use ai_sdk_cpp.Context.{
  call_ids, belongs, count_belonging, unit_length, count_leading_system, evict_turns_from_front,
  sliding_window,
}
use ai_sdk_cpp.Context.Evict.{
  IsBlocked, Evicts, keep, evict, system_block, conversation, within, evict_turns_from_front-Evicts,
}
use ai_sdk_cpp.Context.Pairing.{no_budget}

is_empty-nil : (ids : List Bytes) → is_empty ids ≡ true → ids ≡ []
is_empty-nil [] h = refl
is_empty-nil (i ∷ ids) h = absurd (cc h)

is_empty-cons : (ids : List Bytes) → is_empty ids ≡ false → ids ≢ []
is_empty-cons ids h e = let gone : is_empty ids ≡ true = ap is_empty e in cc (h, gone)

module _ {J : Json} where
  -- The ids of the calls in a message.
  abbrev pub calls_in : Message J → List Bytes
  calls_in (Message.assistant a) = call_ids a.content
  calls_in (Message.system m) = []
  calls_in (Message.user m) = []
  calls_in (Message.tool t) = []

  -- The messages do not begin with a tool message for one of the ids.
  abbrev pub EndsRun : List Bytes → Prompt J → Type 0
  EndsRun ids (Message.tool t ∷ ms) = belongs ids t ≡ false
  EndsRun ids (_ ∷ ms) = Unit {0}
  EndsRun ids [] = Unit {0}

  -- A message, the messages behind it, and those behind its turn unit: the unit of a message with calls
  -- is the message and all tool messages for its calls that follow it, and that of another message is
  -- the message alone.
  pub data IsUnit : Message J → Prompt J → Prompt J → Type 0 where
    alone : {m : Message J} {ms : Prompt J} → calls_in m ≡ [] → IsUnit m ms ms
    turn :
        {m : Message J} {ms : Prompt J} (answers : List (ToolMessage J)) (after : Prompt J)
        → calls_in m ≢ []
        → ms ≡ map Message.tool answers ++ after
        → All (λ t. belongs (calls_in m) t ≡ true) answers
        → EndsRun (calls_in m) after
        → IsUnit m ms after

  -- The tool messages for the ids that messages begin with.
  record Run (ids : List Bytes) (ms after : Prompt J) : Type 0 where
    answers : List (ToolMessage J)
    split : ms ≡ map Message.tool answers ++ after
    all_belong : All (λ t. belongs ids t ≡ true) answers
    ends : EndsRun ids after

  count_belonging-Run :
      (ids : List Bytes) (ms : Prompt J) → Run ids ms (drop (count_belonging ids ms) ms)
  unfolding count_belonging
  count_belonging-Run ids [] = record { answers = []; split = refl; all_belong = tt; ends = tt }
  count_belonging-Run ids (Message.system m ∷ ms) = record {
    answers = [];
    split = refl;
    all_belong = tt;
    ends = tt;
  }
  count_belonging-Run ids (Message.user m ∷ ms) = record {
    answers = [];
    split = refl;
    all_belong = tt;
    ends = tt;
  }
  count_belonging-Run ids (Message.assistant m ∷ ms) = record {
    answers = [];
    split = refl;
    all_belong = tt;
    ends = tt;
  }
  count_belonging-Run ids (Message.tool t ∷ ms) = elim (Bool-cases (belongs ids t)) [
    | inr other ↦ rw other (record { answers = []; split = refl; all_belong = tt; ends = other })
    | inl mine ↦
        let run = count_belonging-Run ids ms in
        rw mine (record {
          answers = t ∷ run.answers;
          split = ap (◌∷◌ (Message.tool t)) run.split;
          all_belong = (mine, run.all_belong);
          ends = run.ends;
        })
  ]

  unit_length-IsUnit :
      (m : Message J) (ms : Prompt J) → IsUnit m ms (drop (unit_length m ms) (m ∷ ms))
  unfolding unit_length
  unit_length-IsUnit (Message.system m) ms = alone refl
  unit_length-IsUnit (Message.user m) ms = alone refl
  unit_length-IsUnit (Message.tool m) ms = alone refl
  unit_length-IsUnit (Message.assistant m) ms = elim (Bool-cases (is_empty (call_ids m.content))) [
    | inl quiet ↦ rw quiet (alone (is_empty-nil _ quiet))
    | inr calls ↦
        let run = count_belonging-Run (call_ids m.content) ms in
        rw calls (turn run.answers _ (is_empty-cons _ calls) run.split run.all_belong run.ends)
  ]

  -- The messages do not begin with a system message.
  abbrev pub NoSystem : Prompt J → Type 0
  NoSystem (Message.system m ∷ ms) = ⊥
  NoSystem (_ ∷ ms) = Unit {0}
  NoSystem [] = Unit {0}

  block-systems : (ms : Prompt J) → All (λ m. is_system m ≡ true) (system_block ms)
  unfolding count_leading_system
  block-systems [] = tt
  block-systems (Message.system m ∷ ms) = (refl, block-systems ms)
  block-systems (Message.user m ∷ ms) = tt
  block-systems (Message.assistant m ∷ ms) = tt
  block-systems (Message.tool m ∷ ms) = tt

  conversation-NoSystem : (ms : Prompt J) → NoSystem (conversation ms)
  unfolding count_leading_system
  conversation-NoSystem [] = tt
  conversation-NoSystem (Message.system m ∷ ms) = conversation-NoSystem ms
  conversation-NoSystem (Message.user m ∷ ms) = tt
  conversation-NoSystem (Message.assistant m ∷ ms) = tt
  conversation-NoSystem (Message.tool m ∷ ms) = tt

module _ {J : Json} (w : ContextWindow) (counter : TokenCounter J) (block : Prompt J) where
  -- What becomes of the messages behind the system messages: the oldest turn unit is dropped exactly as
  -- long as the conversation does not fit and there is a message behind the unit.
  pub data Slides : Prompt J → Prompt J → Type 0 where
    within_budget : (rest : Prompt J) → fits w counter (block ++ rest) ≡ true → Slides rest rest
    newest :
        (m : Message J) (ms : Prompt J)
        → fits w counter (block ++ m ∷ ms) ≡ false
        → IsUnit m ms []
        → Slides (m ∷ ms) (m ∷ ms)
    none_left : fits w counter (block ++ []) ≡ false → Slides [] []
    drops :
        (m : Message J) (ms after : Prompt J) {r : Prompt J}
        → fits w counter (block ++ m ∷ ms) ≡ false
        → IsUnit m ms after
        → after ≢ []
        → Slides after r
        → Slides (m ∷ ms) r

  drop-nil : (n : ℕ) (ms : Prompt J) → length ms ≤ n → drop n ms ≡ []
  drop-nil zero [] h = refl
  drop-nil (suc n) [] h = refl
  drop-nil zero (m ∷ ms) h = absurd (omega arith)
  drop-nil (suc n) (m ∷ ms) h = drop-nil n ms (omega arith)

  some_left : (n : ℕ) (ms : Prompt J) → n < length ms → drop n ms ≢ []
  some_left n ms h e = omega (arith, h, ap length e, length-drop n ms)

  fits-within :
      (rest : Prompt J)
      → fits w counter (block ++ rest) ≡ within counter (available_input_tokens w) 1 block rest
  unfolding fits
  fits-within rest = refl

  blocked-Slides :
      (rest : Prompt J)
      → fits w counter (block ++ rest) ≡ false
      → IsBlocked 1 rest
      → Slides rest rest
  blocked-Slides [] over b = none_left over
  blocked-Slides (m ∷ ms) over b = newest m ms over (
      subst (IsUnit m ms) (drop-nil (unit_length m ms) (m ∷ ms) (omega (arith, b)))
        (unit_length-IsUnit m ms))

  Evicts-Slides :
      {rest r : Prompt J} → Evicts counter (available_input_tokens w) 1 block rest r → Slides rest r
  Evicts-Slides (keep rest why) = elim (Bool-cases (fits w counter (block ++ rest))) [
    | inl ok ↦ within_budget rest ok
    | inr over ↦ elim why [
      | inl ok ↦ absurd (false_true (sym over ∙ fits-within rest ∙ ok))
      | inr b ↦ blocked-Slides rest over b
    ]
  ]
    where
      false_true : false ≡ true → ⊥
      false_true e = cc e
  Evicts-Slides (evict m ms over room d) =
      drops m ms (drop (unit_length m ms) (m ∷ ms)) (fits-within (m ∷ ms) ∙ over)
        (unit_length-IsUnit m ms) (some_left (unit_length m ms) (m ∷ ms) (omega (arith, room)))
        (Evicts-Slides d)

module _ {J : Json} (history : Prompt J) (w : ContextWindow) (counter : TokenCounter J) where
  -- What a conversation becomes.
  pub data SlidesTo : Prompt J → Type 0 where
    unchanged : fits w counter history ≡ true → SlidesTo history
    without_budget :
        fits w counter history ≡ false
        → leb_ℤ (available_input_tokens w) (pos 0) ≡ true
        → SlidesTo history
    slid :
        (block rest r : Prompt J)
        → fits w counter history ≡ false
        → leb_ℤ (available_input_tokens w) (pos 0) ≡ false
        → history ≡ block ++ rest
        → All (λ m. is_system m ≡ true) block
        → NoSystem rest
        → Slides w counter block rest r
        → SlidesTo (block ++ r)

  sliding_window-fits : fits w counter history ≡ true → sliding_window history w counter ≡ history
  unfolding sliding_window fits
  sliding_window-fits e = rw e

  sliding_window_over :
      fits w counter history ≡ false
      → sliding_window history w counter
        ≡ evict_turns_from_front history counter (available_input_tokens w) 1
  unfolding sliding_window fits
  sliding_window_over e = rw e

  sliding_window-evicts :
      fits w counter history ≡ false
      → leb_ℤ (available_input_tokens w) (pos 0) ≡ false
      → SlidesTo (sliding_window history w counter)
  sliding_window-evicts over positive =
      let (r, e, d) =
        evict_turns_from_front-Evicts history counter (available_input_tokens w) 1 positive in
      subst SlidesTo (sym (sliding_window_over over ∙ e)) (
        slid (system_block history) (conversation history) r over positive
          (sym (take-append-drop (count_leading_system history) history)) (block-systems history)
          (conversation-NoSystem history) (Evicts-Slides w counter (system_block history) d))

  -- A conversation that fits, or for which there is no budget, comes back unchanged. Any other keeps its
  -- leading system messages, and of what is behind them the oldest turn units are dropped, whole and
  -- one after the other, exactly as long as it does not fit and there is a message behind the unit.
  -- A turn unit is a message with calls and the tool messages for them that follow, or one message.
  pub sliding_window-SlidesTo : SlidesTo (sliding_window history w counter)
  sliding_window-SlidesTo = elim (Bool-cases (fits w counter history)) [
    | inl ok ↦ subst SlidesTo (sym (sliding_window-fits ok)) (unchanged ok)
    | inr over ↦ elim (Bool-cases (leb_ℤ (available_input_tokens w) (pos 0))) [
      | inl h ↦
          subst SlidesTo
            (sym
              (sliding_window_over over ∙ no_budget history counter (available_input_tokens w) 1 h))
            (without_budget over h)
      | inr positive ↦ sliding_window-evicts over positive
    ]
  ]
