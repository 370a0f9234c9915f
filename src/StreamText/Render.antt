-- ===== src/StreamText/Render.antt =====
-- What the loop over the parts accumulates from a step that was streamed in blocks.
use ai_sdk_cpp.Prelude.{
  ◌≡◌, refl, sym, ap, ap₂, ◌∙◌, List, [], ◌∷◌, ◌++◌, map, append-nil, append_assoc, Option, none,
  some, Bytes, str_eq_refl,
}
use ai_sdk_cpp.Prompt.{Json}
use ai_sdk_cpp.Generate.{ToolCallContent}
use ai_sdk_cpp.StreamText.{
  StreamPart, Accumulated, nothing_yet, accumulate, consume, set_pending, find_pending,
  erase_pending, add_delta, end_call, or_else,
}
use ai_sdk_cpp.StreamText.Blocks.{
  joined, Block, ReasoningBlock, CallBlock, StreamedStep, call_of, with_pending, text_deltas,
  reasoning_deltas, input_deltas, call_parts, calls_parts, text_parts, reasoning_parts, streamed,
  accumulated,
}

module _ (J : Json) where
  pub consume-append :
      (a : Accumulated) (xs ys : List (StreamPart J))
      → consume a (xs ++ ys) ≡ consume (consume a xs) ys
  unfolding consume
  consume-append a [] ys = refl
  consume-append a (x ∷ xs) ys = consume-append (accumulate a x) xs ys

  -- The parts in front first.
  pub consume_front :
      (a : Accumulated) {b : Accumulated} (xs ys : List (StreamPart J))
      → consume a xs ≡ b
      → consume a (xs ++ ys) ≡ consume b ys
  consume_front a xs ys h = consume-append a xs ys ∙ ap (λ c. consume c ys) h

  consume-text_deltas :
      (a : Accumulated) (id : Bytes) (ds : List Bytes)
      → consume a (text_deltas {J = J} id ds) ≡ record a { text = a.text ++ joined ds }
  unfolding consume
  consume-text_deltas a id [] = ap (λ t. record a { text = t }) (sym (append-nil a.text))
  consume-text_deltas a id (d ∷ ds) =
      consume-text_deltas (record a { text = a.text ++ d }) id ds
      ∙ ap (λ t. record a { text = t }) (append_assoc a.text d (joined ds))

  consume-reasoning_deltas :
      (a : Accumulated) (id : Bytes) (ds : List Bytes)
      → consume a (reasoning_deltas {J = J} id ds)
        ≡ record a { reasoning = a.reasoning ++ joined ds }
  unfolding consume
  consume-reasoning_deltas a id [] =
      ap (λ t. record a { reasoning = t }) (sym (append-nil a.reasoning))
  consume-reasoning_deltas a id (d ∷ ds) =
      consume-reasoning_deltas (record a { reasoning = a.reasoning ++ d }) id ds
      ∙ ap (λ t. record a { reasoning = t }) (append_assoc a.reasoning d (joined ds))

  find_one : (c : ToolCallContent) → find_pending c.tool_call_id (c ∷ []) ≡ some c
  unfolding find_pending
  find_one c = rw (str_eq_refl c.tool_call_id) refl

  set_one :
      (c : ToolCallContent) (input : Bytes)
      → set_pending (record c { input = input }) (c ∷ []) ≡ record c { input = input } ∷ []
  unfolding set_pending
  set_one c input = rw (str_eq_refl c.tool_call_id) refl

  erase_one : (c : ToolCallContent) → erase_pending c.tool_call_id (c ∷ []) ≡ []
  unfolding erase_pending
  erase_one c = rw (str_eq_refl c.tool_call_id) refl

  accumulate-delta :
      (a : Accumulated) (id name input d : Bytes)
      → accumulate {J = J} (with_pending a id name input) (StreamPart.tool_input_delta id d)
        ≡ with_pending a id name (input ++ d)
  unfolding accumulate
  accumulate-delta a id name input d =
      let c : ToolCallContent = record { tool_call_id = id; tool_name = name; input = input } in
      ap (λ f. record a { pending = add_delta f d (c ∷ []) }) (find_one c)
      ∙ ap (λ ps. record a { pending = ps }) (set_one c (input ++ d))

  accumulate-end :
      (a : Accumulated) (id name input : Bytes)
      → accumulate {J = J} (with_pending a id name input) (StreamPart.tool_input_end id)
        ≡ record a {
          tool_calls =
              a.tool_calls ++ record { tool_call_id = id; tool_name = name; input = input } ∷ [];
          pending = [];
        }
  unfolding accumulate
  accumulate-end a id name input =
      let c : ToolCallContent = record { tool_call_id = id; tool_name = name; input = input } in
      ap (λ f. end_call f (with_pending a id name input)) (find_one c)
      ∙ ap (λ ps. record a { tool_calls = a.tool_calls ++ c ∷ []; pending = ps }) (erase_one c)

  consume-input_deltas :
      (a : Accumulated) (id name input : Bytes) (ds : List Bytes)
      → consume (with_pending a id name input) (input_deltas {J = J} id ds)
        ≡ with_pending a id name (input ++ joined ds)
  unfolding consume
  consume-input_deltas a id name input [] = ap (with_pending a id name) (sym (append-nil input))
  consume-input_deltas a id name input (d ∷ ds) =
      ap (λ b. consume b (input_deltas {J = J} id ds)) (accumulate-delta a id name input d)
      ∙ (consume-input_deltas a id name (input ++ d) ds
          ∙ ap (with_pending a id name) (append_assoc input d (joined ds)))

  pub consume-call_parts :
      (a : Accumulated) (c : CallBlock)
      → a.pending ≡ []
      → consume a (call_parts {J = J} c)
        ≡ record a { tool_calls = a.tool_calls ++ call_of c ∷ []; pending = [] }
  unfolding consume set_pending
  consume-call_parts a c h =
      let id = c.block.id in
      let ends : List (StreamPart J) = StreamPart.tool_input_end id ∷ [] in
      ap
        (λ ps.
          consume
            (record a {
              pending =
                  set_pending (record { tool_call_id = id; tool_name = c.name; input = [] }) ps;
            })
            (input_deltas id c.block.deltas ++ ends))
        h
      ∙ (consume_front (with_pending a id c.name []) (input_deltas id c.block.deltas) ends
            (consume-input_deltas a id c.name [] c.block.deltas)
          ∙ accumulate-end a id c.name (joined c.block.deltas))

  consume-calls_parts :
      (a : Accumulated) (cs : List CallBlock)
      → a.pending ≡ []
      → consume a (calls_parts {J = J} cs)
        ≡ record a { tool_calls = a.tool_calls ++ map call_of cs; pending = [] }
  unfolding consume
  consume-calls_parts a [] h =
      ap₂ (λ ts ps. record a { tool_calls = ts; pending = ps }) (sym (append-nil a.tool_calls)) h
  consume-calls_parts a (c ∷ cs) h =
      consume_front a (call_parts c) (calls_parts cs) (consume-call_parts a c h)
      ∙ (consume-calls_parts
            (record a { tool_calls = a.tool_calls ++ call_of c ∷ []; pending = [] }) cs refl
          ∙ ap (λ ts. record a { tool_calls = ts; pending = [] })
              (append_assoc a.tool_calls (call_of c ∷ []) (map call_of cs)))

  or_else-none : (o : Option Bytes) → or_else o none ≡ o
  or_else-none none = refl
  or_else-none (some x) = refl

  pub consume-reasoning_parts :
      (a : Accumulated) (r : ReasoningBlock)
      → consume a (reasoning_parts {J = J} r) ≡ record a {
        reasoning = joined r.block.deltas;
        signature = r.signature;
        redacted = r.redacted;
      }
  unfolding consume
  consume-reasoning_parts a r =
      let b : Accumulated = record a { reasoning = []; signature = none; redacted = none } in
      let ends : List (StreamPart J) =
        StreamPart.reasoning_end r.block.id r.signature r.redacted ∷ [] in
      consume_front b (reasoning_deltas r.block.id r.block.deltas) ends
        (consume-reasoning_deltas b r.block.id r.block.deltas)
      ∙ ap₂ (λ s d. record a { reasoning = joined r.block.deltas; signature = s; redacted = d })
          (or_else-none r.signature) (or_else-none r.redacted)

  pub consume-text_parts :
      (a : Accumulated) (b : Block)
      → consume a (text_parts {J = J} b) ≡ record a { text = a.text ++ joined b.deltas }
  unfolding consume
  consume-text_parts a b =
      consume_front a (text_deltas b.id b.deltas) (StreamPart.text_end b.id ∷ [])
        (consume-text_deltas a b.id b.deltas)

-- A step with its reasoning, its text and its calls streamed in any number of deltas is accumulated
-- to the warnings, the joined reasoning with its signature, the joined text, each call with its id,
-- its name and its joined input in order, the reason and the usage; no call is left pending.
pub consume-streamed :
    (J : Json) (s : StreamedStep) → consume nothing_yet (streamed {J = J} s) ≡ accumulated s
unfolding consume
consume-streamed J s =
    let ends : List (StreamPart J) = StreamPart.finish s.reason s.usage none ∷ [] in
    let a : Accumulated = record nothing_yet { warnings = s.warnings } in
    let b : Accumulated = record a {
      reasoning = joined s.reasoning.block.deltas;
      signature = s.reasoning.signature;
      redacted = s.reasoning.redacted;
    } in
    consume_front J a (reasoning_parts s.reasoning)
      (text_parts s.text ++ (calls_parts s.calls ++ ends)) (consume-reasoning_parts J a s.reasoning)
    ∙ (consume_front J b (text_parts s.text) (calls_parts s.calls ++ ends)
          (consume-text_parts J b s.text)
        ∙ consume_front J (record b { text = joined s.text.deltas }) (calls_parts s.calls) ends
            (consume-calls_parts J (record b { text = joined s.text.deltas }) s.calls refl))
