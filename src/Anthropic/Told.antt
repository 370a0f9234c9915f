-- ===== src/Anthropic/Told.antt =====
-- A message that is streamed, against the same message as one answer.
use ai_sdk_cpp.Prelude.{
  ℕ, ◌≡◌, refl, sym, ap, ◌∙◌, true, false, List, [], ◌∷◌, ◌++◌, map, append-nil, append_assoc,
  Option, none, some, Bytes,
}
use ai_sdk_cpp.Prompt.{Json}
use ai_sdk_cpp.Generate.{FinishReason, Usage, Content}
use ai_sdk_cpp.StreamText.{StreamPart}
use ai_sdk_cpp.StreamText.Blocks.{
  joined, CallBlock, ReasoningBlock, text_deltas, reasoning_deltas, input_deltas, text_parts,
  call_parts, reasoning_parts,
}
use ai_sdk_cpp.Anthropic.Events.{Event}
use ai_sdk_cpp.Anthropic.Stream.{StreamState, zero_id, signature_of, on_events}

-- A block of a message as the server tells it, in any number of deltas.
pub data Told : Type 0 where
  text_told : List Bytes → Told
  tool_told : Bytes → Bytes → List Bytes → Told
  thinking_told : List Bytes → List Bytes → Told
  redacted_told : Option Bytes → Told

-- Its events, in front of others.
abbrev pub told_events : Told → List Event → List Event
told_events (text_told ds) rest =
    Event.text_block ∷ map Event.text_delta ds ++ Event.block_stop ∷ rest
told_events (tool_told id name ds) rest =
    Event.tool_block (some id) (some name) ∷ map Event.json_delta ds ++ Event.block_stop ∷ rest
told_events (thinking_told ds sigs) rest =
    Event.thinking_block ∷ map Event.thinking_delta ds
    ++ (map Event.signature_delta sigs ++ Event.block_stop ∷ rest)
told_events (redacted_told opaque) rest = Event.redacted_block opaque ∷ Event.block_stop ∷ rest

-- A message: its counts, its blocks and its reason.
pub record Message : Type 0 where
  pub input : ℕ
  pub id : Option Bytes
  pub model : Option Bytes
  pub blocks : List Told
  pub reason : Bytes
  pub output : ℕ

abbrev pub blocks_events : List Told → List Event → List Event
blocks_events [] rest = rest
blocks_events (b ∷ bs) rest = told_events b (blocks_events bs rest)

abbrev pub message_events : Message → List Event
message_events m =
    Event.message_start (some (some m.input, (m.id, m.model)))
    ∷ blocks_events m.blocks
        (Event.message_delta (some m.reason) (some m.output) ∷ Event.message_stop ∷ [])

abbrev pub thought : List Bytes → List Bytes → ReasoningBlock
thought ds sigs = record {
  block = record { id = zero_id; deltas = ds };
  signature = signature_of (joined sigs);
  redacted = none;
}

abbrev pub called : Bytes → Bytes → List Bytes → CallBlock
called id name ds = record { block = record { id = id; deltas = ds }; name = name }

module _ (J : Json) where
  -- The block of an answer that says the same.
  abbrev pub told_content : Told → Content J
  told_content (text_told ds) = Content.text (joined ds)
  told_content (tool_told id name ds) =
      Content.tool_call (record { tool_call_id = id; tool_name = name; input = joined ds })
  told_content (thinking_told ds sigs) =
      Content.reasoning
        (record { text = joined ds; signature = signature_of (joined sigs); redacted_data = none })
  told_content (redacted_told opaque) =
      Content.reasoning (record { text = []; signature = none; redacted_data = opaque })

  -- The parts of a block.
  abbrev pub told_parts : Told → List (StreamPart J)
  told_parts (text_told ds) = text_parts (record { id = zero_id; deltas = ds })
  told_parts (tool_told id name ds) = call_parts (called id name ds)
  told_parts (thinking_told ds sigs) = reasoning_parts (thought ds sigs)
  told_parts (redacted_told opaque) =
      reasoning_parts (record {
        block = record { id = zero_id; deltas = [] };
        signature = none;
        redacted = opaque;
      })

  -- Between two blocks.
  abbrev pub between : Usage → FinishReason → Bytes → Bytes → Bytes → StreamState
  between usage reason id name sig = record {
    usage = usage;
    finish_reason = reason;
    current_tool_id = id;
    current_tool_name = name;
    in_text = false;
    in_tool_input = false;
    in_thinking = false;
    current_signature = sig;
  }

  on_events-text :
      (s : StreamState) (ds : List Bytes) (rest : List Event)
      → on_events J false s (map Event.text_delta ds ++ rest)
        ≡ text_deltas zero_id ds ++ on_events J false s rest
  unfolding on_events
  on_events-text s [] rest = refl
  on_events-text s (d ∷ ds) rest =
      ap (◌∷◌ (StreamPart.text_delta zero_id d)) (on_events-text s ds rest)

  on_events-json :
      (s : StreamState) (ds : List Bytes) (rest : List Event)
      → on_events J false s (map Event.json_delta ds ++ rest)
        ≡ input_deltas s.current_tool_id ds ++ on_events J false s rest
  unfolding on_events
  on_events-json s [] rest = refl
  on_events-json s (d ∷ ds) rest =
      ap (◌∷◌ (StreamPart.tool_input_delta s.current_tool_id d)) (on_events-json s ds rest)

  on_events-thinking :
      (s : StreamState) (ds : List Bytes) (rest : List Event)
      → on_events J false s (map Event.thinking_delta ds ++ rest)
        ≡ reasoning_deltas zero_id ds ++ on_events J false s rest
  unfolding on_events
  on_events-thinking s [] rest = refl
  on_events-thinking s (d ∷ ds) rest =
      ap (◌∷◌ (StreamPart.reasoning_delta zero_id d)) (on_events-thinking s ds rest)

  on_events-signature :
      (s : StreamState) (sigs : List Bytes) (rest : List Event)
      → on_events J false s (map Event.signature_delta sigs ++ rest)
        ≡ on_events J false
            (record s { current_signature = s.current_signature ++ joined sigs })
            rest
  unfolding on_events
  on_events-signature s [] rest =
      ap (λ t. on_events J false (record s { current_signature = t }) rest)
        (sym (append-nil s.current_signature))
  on_events-signature s (d ∷ ds) rest =
      on_events-signature (record s { current_signature = s.current_signature ++ d }) ds rest
      ∙ ap (λ t. on_events J false (record s { current_signature = t }) rest)
          (append_assoc s.current_signature d (joined ds))

  -- A block leaves the machine between two blocks again.
  abbrev Passes : Usage → FinishReason → Bytes → Bytes → Bytes → Told → List Event → Type 0
  Passes usage reason id name sig b rest =
      (id' : Bytes) × (name' : Bytes) × (sig' : Bytes) × (on_events J false
          (between usage reason id name sig) (told_events b rest)
        ≡ told_parts b ++ on_events J false (between usage reason id' name' sig') rest)

  on_events-told :
      (usage : Usage) (reason : FinishReason) (id name sig : Bytes) (b : Told) (rest : List Event)
      → Passes usage reason id name sig b rest
  unfolding on_events
  on_events-told usage reason id name sig (text_told ds) rest = (
    id,
    name,
    sig,
    ap (◌∷◌ (StreamPart.text_start zero_id)) (
        on_events-text (record (between usage reason id name sig) { in_text = true }) ds
          (Event.block_stop ∷ rest)
        ∙ sym (
            append_assoc (text_deltas zero_id ds) (StreamPart.text_end zero_id ∷ [])
              (on_events J false (between usage reason id name sig) rest))),
  )
  on_events-told usage reason id name sig (tool_told i n ds) rest = (
    i,
    n,
    sig,
    ap (◌∷◌ (StreamPart.tool_input_start i n false)) (
        on_events-json (record (between usage reason i n sig) { in_tool_input = true }) ds
          (Event.block_stop ∷ rest)
        ∙ sym (
            append_assoc (input_deltas i ds) (StreamPart.tool_input_end i ∷ [])
              (on_events J false (between usage reason i n sig) rest))),
  )
  on_events-told usage reason id name sig (thinking_told ds sigs) rest = (
    id,
    name,
    [],
    ap (◌∷◌ (StreamPart.reasoning_start zero_id)) (
        on_events-thinking (record (between usage reason id name []) { in_thinking = true }) ds
          (map Event.signature_delta sigs ++ Event.block_stop ∷ rest)
        ∙ (ap (◌++◌ (reasoning_deltas zero_id ds)) (
              on_events-signature (record (between usage reason id name []) { in_thinking = true })
                sigs (Event.block_stop ∷ rest))
            ∙ sym (
                append_assoc (reasoning_deltas zero_id ds)
                  (StreamPart.reasoning_end zero_id (signature_of (joined sigs)) none ∷ [])
                  (on_events J false (between usage reason id name []) rest)))),
  )
  on_events-told usage reason id name sig (redacted_told opaque) rest = (id, name, sig, refl)

  abbrev pub all_parts : List Told → List (StreamPart J)
  all_parts [] = []
  all_parts (b ∷ bs) = told_parts b ++ all_parts bs

  pub on_events-blocks :
      (usage : Usage) (reason : FinishReason) (id name sig : Bytes) (bs : List Told)
      (rest : List Event)
      → (id' : Bytes) × (name' : Bytes) × (sig' : Bytes) × (on_events J false
            (between usage reason id name sig)
            (blocks_events bs rest)
          ≡ all_parts bs ++ on_events J false (between usage reason id' name' sig') rest)
  on_events-blocks usage reason id name sig [] rest = (id, name, sig, refl)
  on_events-blocks usage reason id name sig (b ∷ bs) rest =
      let (i, n, t, first) = on_events-told usage reason id name sig b (blocks_events bs rest) in
      let (i', n', t', others) = on_events-blocks usage reason i n t bs rest in
      (
        i',
        n',
        t',
        first
            ∙ (ap (◌++◌ (told_parts b)) others
                ∙ sym (
                    append_assoc (told_parts b) (all_parts bs)
                      (on_events J false (between usage reason i' n' t') rest))),
      )
