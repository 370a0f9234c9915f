-- ===== src/Anthropic/Says.antt =====
-- How an answer that comes at once says a message, and what is read of it.
use ai_sdk_cpp.Prelude.{
  arith, true, ℕ, ◌≡◌, refl, ap, ap₂, ◌∙◌, List, [], ◌∷◌, ◌++◌, map, Option, none, some, value_or,
  Bytes, codes, str_eq, ℤ,
}
use ai_sdk_cpp.Prompt.{Json}
use ai_sdk_cpp.JsonView.{JsonView, as_object, as_int64, object_at, string_at, array_at}
use ai_sdk_cpp.Generate.{FinishReason, Usage, Content, GenerateResult}
use ai_sdk_cpp.StreamText.Blocks.{joined}
use ai_sdk_cpp.Anthropic.{finish_reason_of}
use ai_sdk_cpp.Anthropic.Stream.{signature_of}
use ai_sdk_cpp.Anthropic.Response.{
  usage_of, details_readable, result_of, input_text, read_text, read_tool_use, read_thinking,
  read_redacted, read_typed_block, read_block, read_blocks, read_usage, parse_response,
}
use ai_sdk_cpp.Anthropic.Payloads.{
  Counts, CacheIgnored, cache_readable-CacheIgnored, count_of-Counts,
}
use ai_sdk_cpp.Anthropic.Told.{
  Told, text_told, tool_told, thinking_told, redacted_told, Message, told_content,
}

module _ {J : Json} (V : JsonView J) (to_int : ℤ → ℕ) where
  -- The members of an object that says a block.
  pub data Says : Told → J.Object → Type 0 where
    says_text :
        {o : J.Object} (ds : List Bytes)
        → string_at V o (codes "type") ≡ some (codes "text")
        → string_at V o (codes "text") ≡ some (joined ds)
        → Says (text_told ds) o
    says_tool :
        {o : J.Object} (id name : Bytes) (ds : List Bytes) (input : J.Value)
        → string_at V o (codes "type") ≡ some (codes "tool_use")
        → string_at V o (codes "id") ≡ some id
        → string_at V o (codes "name") ≡ some name
        → V.member o (codes "input") ≡ some input
        → J.serialize input ≡ joined ds
        → Says (tool_told id name ds) o
    says_thinking :
        {o : J.Object} (ds sigs : List Bytes)
        → string_at V o (codes "type") ≡ some (codes "thinking")
        → string_at V o (codes "thinking") ≡ some (joined ds)
        → string_at V o (codes "signature") ≡ signature_of (joined sigs)
        → Says (thinking_told ds sigs) o
    says_redacted :
        {o : J.Object} (opaque : Option Bytes)
        → string_at V o (codes "type") ≡ some (codes "redacted_thinking")
        → string_at V o (codes "data") ≡ opaque
        → Says (redacted_told opaque) o

  abbrev pub AllSay : List Told → List J.Value → Type 0
  AllSay [] [] = Unit {0}
  AllSay (b ∷ bs) (v ∷ vs) = ((o : J.Object) × (as_object V v ≡ some o) × Says b o) × AllSay bs vs
  AllSay _ _ = ⊥

  -- The details of the output, which the result does not keep: there are none, or their number of
  -- thinking tokens is missing or a number.
  pub data DetailsIgnored (usage : J.Object) : Type 0 where
    no_details : object_at V usage (codes "output_tokens_details") ≡ none → DetailsIgnored usage
    no_thinking :
        (details : J.Object)
        → object_at V usage (codes "output_tokens_details") ≡ some details
        → V.member details (codes "thinking_tokens") ≡ none
        → DetailsIgnored usage
    thinking :
        (details : J.Object) (v : J.Value) (i : ℤ)
        → object_at V usage (codes "output_tokens_details") ≡ some details
        → V.member details (codes "thinking_tokens") ≡ some v
        → as_int64 V v ≡ some i
        → DetailsIgnored usage

  details_readable-DetailsIgnored :
      (usage : J.Object)
      → DetailsIgnored usage
      → details_readable V to_int (object_at V usage (codes "output_tokens_details")) ≡ true
  details_readable-DetailsIgnored usage (no_details n) = ap (details_readable V to_int) n
  details_readable-DetailsIgnored usage (no_thinking details d n) =
      ap (details_readable V to_int) d ∙ ground (arith, n)
  details_readable-DetailsIgnored usage (thinking details v i d m n) =
      ap (details_readable V to_int) d ∙ ground (arith, m, n)

  pub record MessageSays (m : Message) (response : J.Value) : Type 0 where
    pub object : J.Object
    pub usage : J.Object
    pub content : List J.Value
    pub is_object : as_object V response ≡ some object
    pub has_content : array_at V object (codes "content") ≡ some content
    pub has_reason : string_at V object (codes "stop_reason") ≡ some m.reason
    pub has_usage : object_at V object (codes "usage") ≡ some usage
    pub blocks : AllSay m.blocks content
    pub input : Counts V to_int usage (codes "input_tokens") m.input
    pub output : Counts V to_int usage (codes "output_tokens") m.output
    pub cache : CacheIgnored V to_int usage
    pub details : DetailsIgnored usage

  -- The result that says the message.
  abbrev pub told_answer : Message → GenerateResult J
  told_answer m = record {
    content = map (told_content J) m.blocks;
    finish_reason = finish_reason_of m.reason;
    usage = record { input_total = some m.input; output_total = some m.output };
    warnings = [];
  }

  abbrev call : Bytes → Bytes → Bytes → List (Content J)
  call id name input =
      Content.tool_call (record { tool_call_id = id; tool_name = name; input = input }) ∷ []

  by_type :
      (o : J.Object) {t : Bytes}
      → string_at V o (codes "type") ≡ some t
      → (elim (string_at V o (codes "type")) [
        | none ↦ []
        | some type ↦ read_typed_block V to_int type o
      ])
        ≡ read_typed_block V to_int t o
  by_type o e =
      ap
        (λ (x : Option Bytes). elim x as (λ x. List (Content J)) [
          | none ↦ []
          | some type ↦ read_typed_block V to_int type o
        ])
        e

  read_typed_block-Says :
      (b : Told) (o : J.Object)
      → Says b o
      → (elim (string_at V o (codes "type")) [
        | none ↦ []
        | some type ↦ read_typed_block V to_int type o
      ])
        ≡ told_content J b ∷ []
  unfolding read_typed_block str_eq read_text read_tool_use read_thinking read_redacted
  read_typed_block-Says _ o (says_text ds e t) =
      by_type o e
      ∙ ap
          (λ (x : Option Bytes). elim x as (λ x. List (Content J)) [
            | none ↦ []
            | some t ↦ Content.text t ∷ []
          ])
          t
  read_typed_block-Says _ o (says_tool id name ds input e i n m s) =
      by_type o e
      ∙ (ap
            (λ (x : Option Bytes). elim x as (λ x. List (Content J)) [
              | none ↦ []
              | some id ↦ elim (string_at V o (codes "name")) as (λ x. List (Content J)) [
                | none ↦ []
                | some name ↦ call id name (input_text V to_int (V.member o (codes "input")))
              ]
            ])
            i
          ∙ (ap
                (λ (x : Option Bytes). elim x as (λ x. List (Content J)) [
                  | none ↦ []
                  | some name ↦ call id name (input_text V to_int (V.member o (codes "input")))
                ])
                n
              ∙ (ap (λ x. call id name (input_text V to_int x)) m ∙ ap (call id name) s)))
  read_typed_block-Says _ o (says_thinking ds sigs e t s) =
      by_type o e
      ∙ ap₂
          (λ (x y : Option Bytes).
            Content.reasoning (record { text = value_or x []; signature = y; redacted_data = none })
            ∷ [])
          t s
  read_typed_block-Says _ o (says_redacted opaque e d) =
      by_type o e
      ∙ ap
          (λ (x : Option Bytes).
            Content.reasoning (record { text = []; signature = none; redacted_data = x }) ∷ [])
          d

  read_block-Says :
      (b : Told) (v : J.Value) (o : J.Object)
      → as_object V v ≡ some o
      → Says b o
      → read_block V to_int v ≡ told_content J b ∷ []
  unfolding read_block
  read_block-Says b v o e h =
      ap
        (λ (x : Option J.Object). elim x as (λ x. List (Content J)) [
          | none ↦ []
          | some block ↦ elim (string_at V block (codes "type")) as (λ x. List (Content J)) [
            | none ↦ []
            | some type ↦ read_typed_block V to_int type block
          ]
        ])
        e
      ∙ read_typed_block-Says b o h

  read_blocks-AllSay :
      (bs : List Told) (vs : List J.Value)
      → AllSay bs vs
      → read_blocks V to_int vs ≡ map (told_content J) bs
  unfolding read_blocks
  read_blocks-AllSay [] [] h = refl
  read_blocks-AllSay (b ∷ bs) (v ∷ vs) ((o, e, says), h) =
      ap₂ (◌++◌) (read_block-Says b v o e says) (read_blocks-AllSay bs vs h)
  read_blocks-AllSay [] (v ∷ vs) h = absurd h
  read_blocks-AllSay (b ∷ bs) [] h = absurd h

  read_usage-MessageSays :
      (m : Message) (response : J.Value) (h : MessageSays m response)
      → read_usage V to_int (some h.usage)
        ≡ some (record { input_total = some m.input; output_total = some m.output })
  unfolding read_usage
  read_usage-MessageSays m response h =
      ap₂
        (λ x y.
          usage_of V to_int x y
            (details_readable V to_int (object_at V h.usage (codes "output_tokens_details"))))
        (count_of-Counts V to_int h.usage (codes "input_tokens") m.input h.input)
        (cache_readable-CacheIgnored V to_int h.usage _ h.cache
          ∙ count_of-Counts V to_int h.usage (codes "output_tokens") m.output h.output)
      ∙ ap (usage_of V to_int (some (some m.input)) (some (some m.output)))
          (details_readable-DetailsIgnored h.usage h.details)

  -- An answer that says a message is parsed to the result that says it, with nothing left unset.
  pub parse_response-MessageSays :
      (unset : FinishReason) (m : Message) (response : J.Value)
      → MessageSays m response
      → parse_response V to_int unset response ≡ some (told_answer m)
  unfolding parse_response
  parse_response-MessageSays unset m response h =
      let usage : Option Usage =
        some (record { input_total = some m.input; output_total = some m.output }) in
      ap
        (λ (x : Option J.Object). elim x as (λ x. Option (GenerateResult J)) [
          | none ↦ none
          | some obj ↦
              result_of V to_int unset (read_usage V to_int (object_at V obj (codes "usage")))
                (array_at V obj (codes "content")) (string_at V obj (codes "stop_reason"))
        ])
        h.is_object
      ∙ (ap
            (λ u.
              result_of V to_int unset u (array_at V h.object (codes "content"))
                (string_at V h.object (codes "stop_reason")))
            (ap (read_usage V to_int) h.has_usage ∙ read_usage-MessageSays m response h)
          ∙ (ap₂ (λ c r. result_of V to_int unset usage c r) h.has_content h.has_reason
              ∙ ap
                  (λ c. some (record {
                    content = c;
                    finish_reason = finish_reason_of m.reason;
                    usage = record { input_total = some m.input; output_total = some m.output };
                    warnings = [];
                  }))
                  (read_blocks-AllSay m.blocks h.content h.blocks)))
