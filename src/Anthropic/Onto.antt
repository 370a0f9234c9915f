-- ===== src/Anthropic/Onto.antt =====
-- What stream_text accumulates from the parts of a message.
use ai_sdk_cpp.Prelude.{
  ◌≡◌, refl, sym, ap, ◌∙◌, List, [], ◌∷◌, ◌++◌, map, append-nil, append_assoc, none,
}
use ai_sdk_cpp.Prompt.{Json}
use ai_sdk_cpp.Generate.{text_of, calls_of}
use ai_sdk_cpp.StreamText.{StreamPart, Accumulated, consume}
use ai_sdk_cpp.StreamText.Blocks.{joined, call_of}
use ai_sdk_cpp.StreamText.Render.{
  consume_front, consume-text_parts, consume-call_parts, consume-reasoning_parts,
}
use ai_sdk_cpp.Anthropic.Stream.{zero_id, signature_of}
use ai_sdk_cpp.Anthropic.Told.{
  Told, text_told, tool_told, thinking_told, redacted_told, thought, called, told_content,
  told_parts, all_parts,
}

module _ (J : Json) where
  -- What a block adds.
  abbrev pub told_onto : Accumulated → Told → Accumulated
  told_onto a (text_told ds) = record a { text = a.text ++ joined ds }
  told_onto a (tool_told id name ds) = record a {
    tool_calls = a.tool_calls ++ call_of (called id name ds) ∷ [];
    pending = [];
  }
  told_onto a (thinking_told ds sigs) = record a {
    reasoning = joined ds;
    signature = signature_of (joined sigs);
    redacted = none;
  }
  told_onto a (redacted_told opaque) = record a {
    reasoning = [];
    signature = none;
    redacted = opaque;
  }

  consume-told :
      (a : Accumulated) (b : Told) → a.pending ≡ [] → consume a (told_parts J b) ≡ told_onto a b
  consume-told a (text_told ds) h = consume-text_parts J a (record { id = zero_id; deltas = ds })
  consume-told a (tool_told id name ds) h = consume-call_parts J a (called id name ds) h
  consume-told a (thinking_told ds sigs) h = consume-reasoning_parts J a (thought ds sigs)
  consume-told a (redacted_told opaque) h =
      consume-reasoning_parts J a (record {
        block = record { id = zero_id; deltas = [] };
        signature = none;
        redacted = opaque;
      })

  told_onto-pending : (a : Accumulated) (b : Told) → a.pending ≡ [] → (told_onto a b).pending ≡ []
  told_onto-pending a (text_told ds) h = h
  told_onto-pending a (tool_told id name ds) h = refl
  told_onto-pending a (thinking_told ds sigs) h = h
  told_onto-pending a (redacted_told opaque) h = h

  abbrev pub all_onto : Accumulated → List Told → Accumulated
  all_onto a [] = a
  all_onto a (b ∷ bs) = all_onto (told_onto a b) bs

  pub consume-all :
      (a : Accumulated) (bs : List Told) (rest : List (StreamPart J))
      → a.pending ≡ []
      → consume a (all_parts J bs ++ rest) ≡ consume (all_onto a bs) rest
  unfolding consume
  consume-all a [] rest h = refl
  consume-all a (b ∷ bs) rest h =
      ap (consume a) (append_assoc (told_parts J b) (all_parts J bs) rest)
      ∙ (consume_front J a (told_parts J b) (all_parts J bs ++ rest) (consume-told a b h)
          ∙ consume-all (told_onto a b) bs rest (told_onto-pending a b h))

  -- What the blocks come to: the texts, the calls in order, the warnings from before, and no call that
  -- is pending.
  abbrev pub Comes : Accumulated → Accumulated → List Told → Type 0
  Comes a a' bs =
      (a'.text ≡ a.text ++ text_of (map (told_content J) bs))
      × (a'.tool_calls ≡ a.tool_calls ++ calls_of (map (told_content J) bs))
      × (a'.warnings ≡ a.warnings)
      × (a.pending ≡ [] → a'.pending ≡ [])

  pub all_onto-Comes : (a : Accumulated) (bs : List Told) → Comes a (all_onto a bs) bs
  unfolding text_of
  all_onto-Comes a [] = (sym (append-nil a.text), sym (append-nil a.tool_calls), refl, λ h. h)
  all_onto-Comes a (text_told ds ∷ bs) =
      let (t, c, w, p) = all_onto-Comes (record a { text = a.text ++ joined ds }) bs in
      (t ∙ append_assoc a.text (joined ds) (text_of (map (told_content J) bs)), c, w, p)
  all_onto-Comes a (tool_told id name ds ∷ bs) =
      let (t, c, w, p) =
        all_onto-Comes
          (record a { tool_calls = a.tool_calls ++ call_of (called id name ds) ∷ []; pending = [] })
          bs in
      (
        t,
        c
            ∙ append_assoc a.tool_calls (call_of (called id name ds) ∷ [])
                (calls_of (map (told_content J) bs)),
        w,
        λ h. p refl,
      )
  all_onto-Comes a (thinking_told ds sigs ∷ bs) =
      all_onto-Comes
        (record a {
          reasoning = joined ds;
          signature = signature_of (joined sigs);
          redacted = none;
        })
        bs
  all_onto-Comes a (redacted_told opaque ∷ bs) =
      all_onto-Comes (record a { reasoning = []; signature = none; redacted = opaque }) bs
