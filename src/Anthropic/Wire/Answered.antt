-- ===== src/Anthropic/Wire/Answered.antt =====
-- Results on the wire stand behind the calls that they answer.
use ai_sdk_cpp.Prelude.{
  ◌≡◌, refl, sym, ap, subst, ◌∙◌, ◌⊎◌, inl, inr, true, false, List, [], ◌∷◌, ◌++◌, map, Option,
  none, some, is_empty, All, Bytes, mem_str, if_either, str_eq, codes,
}
use ai_sdk_cpp.Prompt.{
  Json, FileData, FilePart, UserPart, AssistantPart, ReasoningPart, ToolMessage, ToolResultPart,
  Message, Prompt,
}
use ai_sdk_cpp.JsonView.{JsonView}
use ai_sdk_cpp.Context.{call_ids}
use ai_sdk_cpp.Context.Pairing.{Paired, Belongs}
use ai_sdk_cpp.Anthropic.Wire.{
  WireBlock, WireMessage, Role, reasoning_block, file_blocks, user_blocks, assistant_blocks,
  result_block, wire_messages,
}

module _ {J : Json} where
  -- The ids of the calls and of the results in some blocks.
  abbrev pub use_ids : List (WireBlock J) → List Bytes
  use_ids [] = []
  use_ids (WireBlock.tool_use_block id name input cached ∷ bs) = id ∷ use_ids bs
  use_ids (_ ∷ bs) = use_ids bs

  abbrev pub result_ids : List (WireBlock J) → List Bytes
  result_ids [] = []
  result_ids (WireBlock.tool_result_block id content is_error cached ∷ bs) = id ∷ result_ids bs
  result_ids (_ ∷ bs) = result_ids bs

  -- A message behind an assistant message with the calls `ids`: a user message has no results, or it
  -- has some and each is for one of those calls.
  abbrev pub AnsweredStep : Role → List (WireBlock J) → List Bytes → (List Bytes → Type 0) → Type 0
  AnsweredStep Role.assistant_role content ids rest = rest (use_ids content)
  AnsweredStep Role.user_role content ids rest =
      ((result_ids content ≡ []) × rest [])
      ⊎ ((is_empty (result_ids content) ≡ false)
          × All (λ id. mem_str id ids ≡ true) (result_ids content)
          × rest ids)

  -- Each result stands behind the assistant message with its call, or behind other results of it.
  abbrev pub Answered : List Bytes → List (WireMessage J) → Type 0
  Answered ids [] = Unit {0}
  Answered ids (m ∷ ms) = AnsweredStep m.role m.content ids (λ ids. Answered ids ms)

module _ {J : Json} (V : JsonView J) where
  result_ids-file_blocks :
      (p : FilePart J) (f : FileData J) (bs : List (WireBlock J))
      → result_ids (file_blocks V p f ++ bs) ≡ result_ids bs
  unfolding file_blocks
  result_ids-file_blocks p (FileData.data_file bytes) bs =
      if_either (λ b. result_ids (b ∷ bs) ≡ result_ids bs)
        (str_eq p.media_type (codes "application/pdf")) refl refl
  result_ids-file_blocks p (FileData.url_file url) bs = refl
  result_ids-file_blocks p (FileData.reference_file o) bs = refl
  result_ids-file_blocks p (FileData.text_file t) bs = refl

  result_ids-user_blocks : (ps : List (UserPart J)) → result_ids (user_blocks V ps) ≡ []
  unfolding user_blocks
  result_ids-user_blocks [] = refl
  result_ids-user_blocks (UserPart.text p ∷ ps) = result_ids-user_blocks ps
  result_ids-user_blocks (UserPart.file p ∷ ps) =
      result_ids-file_blocks p p.file_data (user_blocks V ps) ∙ result_ids-user_blocks ps

  use_ids-reasoning :
      (p : ReasoningPart J) (o : Option Bytes) (bs : List (WireBlock J))
      → use_ids (reasoning_block V p o ∷ bs) ≡ use_ids bs
  use_ids-reasoning p none bs = refl
  use_ids-reasoning p (some opaque) bs = refl

  use_ids-assistant_blocks :
      (ps : List (AssistantPart J)) → use_ids (assistant_blocks V ps) ≡ call_ids ps
  unfolding assistant_blocks
  use_ids-assistant_blocks [] = refl
  use_ids-assistant_blocks (AssistantPart.text p ∷ ps) = use_ids-assistant_blocks ps
  use_ids-assistant_blocks (AssistantPart.tool_call p ∷ ps) =
      ap (◌∷◌ p.tool_call_id) (use_ids-assistant_blocks ps)
  use_ids-assistant_blocks (AssistantPart.reasoning p ∷ ps) =
      use_ids-reasoning p p.redacted_data (assistant_blocks V ps) ∙ use_ids-assistant_blocks ps
  use_ids-assistant_blocks (AssistantPart.file p ∷ ps) = use_ids-assistant_blocks ps
  use_ids-assistant_blocks (AssistantPart.tool_result p ∷ ps) = use_ids-assistant_blocks ps

  all-results :
      (ids : List Bytes) (rs : List (ToolResultPart J))
      → All (λ r. mem_str r.tool_call_id ids ≡ true) rs
      → All (λ id. mem_str id ids ≡ true) (result_ids (map (result_block V) rs))
  unfolding result_block
  all-results ids [] h = tt
  all-results ids (r ∷ rs) h = (h.0, all-results ids rs h.1)

  some-results :
      (rs : List (ToolResultPart J))
      → is_empty rs ≡ false
      → is_empty (result_ids (map (result_block V) rs)) ≡ false
  unfolding result_block
  some-results [] h = h
  some-results (r ∷ rs) h = refl

  no_ids : (id : Bytes) → mem_str id [] ≡ true → ⊥
  unfolding mem_str
  no_ids id h = cc h

  Belongs-none : (t : ToolMessage J) → Belongs [] t → ⊥
  Belongs-none t h = none_of t.content h.0 h.1
    where
      none_of :
          (rs : List (ToolResultPart J))
          → is_empty rs ≡ false
          → All (λ r. mem_str r.tool_call_id [] ≡ true) rs
          → ⊥
      none_of [] e h = cc e
      none_of (r ∷ rs) e h = no_ids r.tool_call_id h.0

  wire_messages-Answered_from :
      (ids ids' : List Bytes) (ms : Prompt J)
      → (ids ≡ ids') ⊎ (ids ≡ [])
      → Paired ids ms
      → Answered ids' (wire_messages V ms)
  unfolding wire_messages
  wire_messages-Answered_from ids ids' [] same h = tt
  wire_messages-Answered_from ids ids' (Message.system m ∷ ms) same h =
      wire_messages-Answered_from [] ids' ms (inr refl) h
  wire_messages-Answered_from ids ids' (Message.user m ∷ ms) same h =
      inl (result_ids-user_blocks m.content, wire_messages-Answered_from [] [] ms (inr refl) h)
  wire_messages-Answered_from ids ids' (Message.assistant m ∷ ms) same h =
      wire_messages-Answered_from (call_ids m.content) (use_ids (assistant_blocks V m.content)) ms
        (inl (sym (use_ids-assistant_blocks m.content))) h
  wire_messages-Answered_from ids ids' (Message.tool m ∷ ms) (inl same) h = inr (
    some-results m.content h.0.0,
    all-results ids' m.content (subst (λ ids. Belongs ids m) same h.0).1,
    wire_messages-Answered_from ids ids' ms (inl same) h.1,
  )
  wire_messages-Answered_from ids ids' (Message.tool m ∷ ms) (inr empty) h =
      absurd (Belongs-none m (subst (λ ids. Belongs ids m) empty h.0))

  -- A paired conversation is a request in which each result stands behind the assistant message with its
  -- call, or behind other results of it, though the system messages are taken out.
  pub wire_messages-Answered : (ms : Prompt J) → Paired [] ms → Answered [] (wire_messages V ms)
  wire_messages-Answered ms h = wire_messages-Answered_from [] [] ms (inl refl) h
