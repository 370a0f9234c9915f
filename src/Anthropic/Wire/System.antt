-- ===== src/Anthropic/Wire/System.antt =====
-- Which system message a request has.
use ai_sdk_cpp.Prelude.{
  ℕ, ◌≡◌, refl, sym, ap, ◌∙◌, false, not, All, filter, take, drop, [], ◌∷◌, ◌++◌, append_assoc,
  Option, none, some, Bytes, codes, is_empty,
}
use ai_sdk_cpp.Prompt.{
  Json, SystemMessage, UserPart, Message, Prompt, text_part, is_system, system_message,
}
use ai_sdk_cpp.JsonView.{JsonView}
use ai_sdk_cpp.Generate.{GenerateTextOptions, build_prompt}
use ai_sdk_cpp.Context.Summarize.{with_summary}
use ai_sdk_cpp.Anthropic.Wire.{system_from, wire_messages}

module _ {J : Json} (V : JsonView J) where
  -- The system text of a request is that of the last system message alone, wherever it stands: what earlier
  -- system messages say is in no part of the request.
  pub system_from-last :
      (s : Bytes × J.Object) (m : SystemMessage J) (before behind : Prompt J)
      → All (λ m. is_system m ≡ false) behind
      → (system_from s (before ++ Message.system m ∷ behind) ≡ (m.content, m.provider_options))
        × (wire_messages V (before ++ Message.system m ∷ behind)
            ≡ wire_messages V (filter (λ m. not (is_system m)) before) ++ wire_messages V behind)
  unfolding system_from wire_messages
  system_from-last s m [] behind h = (without_system (m.content, m.provider_options) behind h, refl)
    where
      without_system :
          (s : Bytes × J.Object) (ms : Prompt J)
          → All (λ m. is_system m ≡ false) ms
          → system_from s ms ≡ s
      without_system s [] h = refl
      without_system s (Message.system m ∷ ms) h = absurd (cc h.0)
      without_system s (Message.user m ∷ ms) h = without_system s ms h.1
      without_system s (Message.assistant m ∷ ms) h = without_system s ms h.1
      without_system s (Message.tool m ∷ ms) h = without_system s ms h.1
  system_from-last s m (Message.system n ∷ ms) behind h =
      system_from-last (n.content, n.provider_options) m ms behind h
  system_from-last s m (Message.user n ∷ ms) behind h =
      let (a, b) = system_from-last s m ms behind h in
      (a, ap (◌++◌ (wire_messages V (Message.user n ∷ []))) b)
  system_from-last s m (Message.assistant n ∷ ms) behind h =
      let (a, b) = system_from-last s m ms behind h in
      (a, ap (◌++◌ (wire_messages V (Message.assistant n ∷ []))) b)
  system_from-last s m (Message.tool n ∷ ms) behind h =
      let (a, b) = system_from-last s m ms behind h in
      (a, ap (◌++◌ (wire_messages V (Message.tool n ∷ []))) b)

with_summary-placed :
    {J : Json} (summary : Bytes) (history : Prompt J) (system_count kept_start : ℕ)
    → is_empty summary ≡ false
    → with_summary summary history system_count kept_start
      ≡ take system_count history
        ++ (system_message J (codes "## Earlier in this session\n" ++ summary)
            ∷ drop kept_start history)
unfolding with_summary
with_summary-placed [] history system_count kept_start ne = absurd (cc ne)
with_summary-placed (c ∷ cs) history system_count kept_start ne = refl

module _ {J : Json} {W S : Type 0} where
  -- What stands in front of the summary: the instructions of the call and the system messages.
  abbrev pub kept : GenerateTextOptions J W S → Prompt J → ℕ → Prompt J
  kept o history system_count =
      (elim o.system as (λ x. Prompt J) [ none ↦ [] | some s ↦ system_message J s ∷ [] ])
      ++ take system_count history

  build_prompt-compacted :
      (o : GenerateTextOptions J W S) (summary : Bytes) (history : Prompt J)
      (system_count kept_start : ℕ)
      → o.messages ≡ some (with_summary summary history system_count kept_start)
      → is_empty summary ≡ false
      → build_prompt o
        ≡ kept o history system_count
          ++ (system_message J (codes "## Earlier in this session\n" ++ summary)
              ∷ drop kept_start history)
  unfolding build_prompt
  build_prompt-compacted o summary history system_count kept_start has ne =
      let front = elim o.system as (λ x. Prompt J) [
        | none ↦ []
        | some s ↦ system_message J s ∷ []
      ] in
      ap
        (λ (x : Option (Prompt J)). front ++ (elim x as (λ x. Prompt J) [
          | some ms ↦ ms
          | none ↦ elim o.prompt as (λ x. Prompt J) [
            | none ↦ []
            | some p ↦
                Message.user (record {
                  content = UserPart.text (text_part J p) ∷ [];
                  provider_options = J.empty_object;
                })
                ∷ []
          ]
        ]))
        has
      ∙ (ap (◌++◌ front) (with_summary-placed summary history system_count kept_start ne)
          ∙ sym (
              append_assoc front (take system_count history) (
                system_message J (codes "## Earlier in this session\n" ++ summary)
                ∷ drop kept_start history)))

module _ {J : Json} {W S : Type 0} (V : JsonView J) where
  -- Behind a compaction the system text of the next request is the summary: neither the system messages of
  -- the history nor the instructions that the call puts in front of it are in the request.
  pub compacted-system_from :
      (o : GenerateTextOptions J W S) (summary : Bytes) (history : Prompt J)
      (system_count kept_start : ℕ)
      → o.messages ≡ some (with_summary summary history system_count kept_start)
      → is_empty summary ≡ false
      → All (λ m. is_system m ≡ false) (drop kept_start history)
      → (system_from ([], J.empty_object) (build_prompt o)
          ≡ (codes "## Earlier in this session\n" ++ summary, J.empty_object))
        × (wire_messages V (build_prompt o)
            ≡ wire_messages V (filter (λ m. not (is_system m)) (kept o history system_count))
              ++ wire_messages V (drop kept_start history))
  compacted-system_from o summary history system_count kept_start has ne h =
      let m : SystemMessage J = record {
        content = codes "## Earlier in this session\n" ++ summary;
        provider_options = J.empty_object;
      } in
      let (text, messages) =
        system_from-last V ([], J.empty_object) m (kept o history system_count)
          (drop kept_start history) h in
      let prompt = build_prompt-compacted o summary history system_count kept_start has ne in
      (ap (system_from ([], J.empty_object)) prompt ∙ text, ap (wire_messages V) prompt ∙ messages)
