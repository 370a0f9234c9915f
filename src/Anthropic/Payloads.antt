-- ===== src/Anthropic/Payloads.antt =====
-- How the payload of a server-sent event says an event of a message, by the members of its JSON, against
-- what the generator of do_stream in providers/anthropic/src/anthropic_model.cpp reads.
use Prim.Native.String.{String}
use ai_sdk_cpp.Prelude.{
  ℕ, ◌≡◌, ◌≢◌, ap, ◌∙◌, inl, inr, true, List, [], ◌∷◌, Option, none, some, Bytes, codes, str_eq,
  str_eq_iff, Bool-cases, ℤ, arith,
}
use ai_sdk_cpp.Prompt.{Json}
use ai_sdk_cpp.JsonView.{JsonView, is_null, as_object, as_string, as_int64, object_at, string_at}
use ai_sdk_cpp.Sse.{SseEvent}
use ai_sdk_cpp.Anthropic.{count_of, readable, cache_readable}
use ai_sdk_cpp.Anthropic.Events.{
  Event, total_in, read_block_start, read_block_delta, read_message_start, read_message_delta,
  read_typed, read_value, read_event,
}

module _ {J : Json} (V : JsonView J) (to_int : ℤ → ℕ) where
  -- A count of an object of counts.
  abbrev pub Counts : J.Object → Bytes → ℕ → Type 0
  Counts usage key n =
      (v : J.Value) × (i : ℤ) × (V.member usage key ≡ some v)
      × (as_int64 V v ≡ some i)
      × (to_int i ≡ n)

  -- A count that the result does not keep: it is not there, null or a number.
  pub data Ignored (usage : J.Object) (key : Bytes) : Type 0 where
    missing : V.member usage key ≡ none → Ignored usage key
    null :
        (v : J.Value) → V.member usage key ≡ some v → is_null (V.kind v) ≡ true → Ignored usage key
    number :
        (v : J.Value) (i : ℤ)
        → V.member usage key ≡ some v
        → as_int64 V v ≡ some i
        → Ignored usage key

  abbrev pub CacheIgnored : J.Object → Type 0
  CacheIgnored usage =
      Ignored usage (codes "cache_read_input_tokens")
      × Ignored usage (codes "cache_creation_input_tokens")

  -- The type of an object is a string.
  abbrev pub Typed : J.Object → String → Type 0
  Typed o name =
      (t : J.Value) × (V.member o (codes "type") ≡ some t) × (as_string V t ≡ some (codes name))

  -- The object in a member of an object, with a string as its type.
  abbrev pub Inner : J.Object → String → String → J.Object → Type 0
  Inner o key name block =
      (object_at V o (codes key) ≡ some block)
      × (string_at V block (codes "type") ≡ some (codes name))

  -- The members of an object that says an event.
  pub data EventSays : Event → J.Object → Type 0 where
    tells_start :
        {o : J.Object} (msg usage : J.Object) (n : ℕ) (id model : Option Bytes)
        → Typed o "message_start"
        → object_at V o (codes "message") ≡ some msg
        → string_at V msg (codes "id") ≡ id
        → string_at V msg (codes "model") ≡ model
        → object_at V msg (codes "usage") ≡ some usage
        → Counts usage (codes "input_tokens") n
        → CacheIgnored usage
        → EventSays (Event.message_start (some (some n, (id, model)))) o
    tells_text :
        {o : J.Object} (block : J.Object)
        → Typed o "content_block_start"
        → Inner o "content_block" "text" block
        → EventSays Event.text_block o
    tells_tool :
        {o : J.Object} (block : J.Object) (id name : Option Bytes)
        → Typed o "content_block_start"
        → Inner o "content_block" "tool_use" block
        → string_at V block (codes "id") ≡ id
        → string_at V block (codes "name") ≡ name
        → EventSays (Event.tool_block id name) o
    tells_thinking :
        {o : J.Object} (block : J.Object)
        → Typed o "content_block_start"
        → Inner o "content_block" "thinking" block
        → EventSays Event.thinking_block o
    tells_redacted :
        {o : J.Object} (block : J.Object) (opaque : Option Bytes)
        → Typed o "content_block_start"
        → Inner o "content_block" "redacted_thinking" block
        → string_at V block (codes "data") ≡ opaque
        → EventSays (Event.redacted_block opaque) o
    tells_text_delta :
        {o : J.Object} (delta : J.Object) (d : Bytes)
        → Typed o "content_block_delta"
        → Inner o "delta" "text_delta" delta
        → string_at V delta (codes "text") ≡ some d
        → EventSays (Event.text_delta d) o
    tells_json_delta :
        {o : J.Object} (delta : J.Object) (d : Bytes)
        → Typed o "content_block_delta"
        → Inner o "delta" "input_json_delta" delta
        → string_at V delta (codes "partial_json") ≡ some d
        → EventSays (Event.json_delta d) o
    tells_thinking_delta :
        {o : J.Object} (delta : J.Object) (d : Bytes)
        → Typed o "content_block_delta"
        → Inner o "delta" "thinking_delta" delta
        → string_at V delta (codes "thinking") ≡ some d
        → EventSays (Event.thinking_delta d) o
    tells_signature_delta :
        {o : J.Object} (delta : J.Object) (d : Bytes)
        → Typed o "content_block_delta"
        → Inner o "delta" "signature_delta" delta
        → string_at V delta (codes "signature") ≡ some d
        → EventSays (Event.signature_delta d) o
    tells_block_stop : {o : J.Object} → Typed o "content_block_stop" → EventSays Event.block_stop o
    tells_end :
        {o : J.Object} (delta usage : J.Object) (reason : Bytes) (n : ℕ)
        → Typed o "message_delta"
        → object_at V o (codes "delta") ≡ some delta
        → string_at V delta (codes "stop_reason") ≡ some reason
        → object_at V o (codes "usage") ≡ some usage
        → Counts usage (codes "output_tokens") n
        → CacheIgnored usage
        → EventSays (Event.message_delta (some reason) (some n)) o
    tells_message_stop : {o : J.Object} → Typed o "message_stop" → EventSays Event.message_stop o

  -- A payload is JSON for an object that says the event.
  pub record PayloadSays (e : Event) (payload : Bytes) : Type 0 where
    pub no_end : payload ≢ codes "[DONE]"
    pub value : J.Value
    pub object : J.Object
    pub parses : J.safe_parse payload ≡ some value
    pub is_object : as_object V value ≡ some object
    pub says : EventSays e object

  -- A payload that says nothing: the mark of the end, no JSON, or an object without a type or a ping.
  pub data Silent (payload : Bytes) : Type 0 where
    end_mark : payload ≡ codes "[DONE]" → Silent payload
    no_json : J.safe_parse payload ≡ none → Silent payload
    untyped :
        (v : J.Value) (o : J.Object)
        → J.safe_parse payload ≡ some v
        → as_object V v ≡ some o
        → V.member o (codes "type") ≡ none
        → Silent payload
    ping :
        (v : J.Value) (o : J.Object)
        → J.safe_parse payload ≡ some v
        → as_object V v ≡ some o
        → Typed o "ping"
        → Silent payload

  -- Server-sent events that say events in order, with silent ones anywhere between them.
  pub data Speaks : List SseEvent → List Event → Type 0 where
    no_more : Speaks [] []
    says :
        {x : SseEvent} {e : Event} {xs : List SseEvent} {es : List Event}
        → PayloadSays e x.payload
        → Speaks xs es
        → Speaks (x ∷ xs) (e ∷ es)
    silent :
        {x : SseEvent} {xs : List SseEvent} {es : List Event}
        → Silent x.payload
        → Speaks xs es
        → Speaks (x ∷ xs) es

  Ignored-readable :
      {usage : J.Object} {key : Bytes}
      → Ignored usage key
      → readable V to_int (V.member usage key) ≡ true
  Ignored-readable (missing m) = ap (readable V to_int) m
  Ignored-readable (null v m k) = ground (arith, m, k)
  Ignored-readable (number v i m n) = ground (arith, m, n)

  pub cache_readable-CacheIgnored :
      (usage : J.Object) (o : Option (Option ℕ))
      → CacheIgnored usage
      → cache_readable V to_int usage o ≡ o
  cache_readable-CacheIgnored usage o h = ground (arith, Ignored-readable h.0, Ignored-readable h.1)

  pub count_of-Counts :
      (usage : J.Object) (key : Bytes) (n : ℕ)
      → Counts usage key n
      → count_of V to_int (V.member usage key) ≡ some (some n)
  count_of-Counts usage key n (v, i, m, e, c) = ground (arith, m, e, c)

  total_in-Counts :
      (usage : J.Object) (key : Bytes) (n : ℕ)
      → Counts usage key n
      → CacheIgnored usage
      → total_in V to_int (some usage) key ≡ some (some n)
  total_in-Counts usage key n h c =
      cache_readable-CacheIgnored usage _ c ∙ count_of-Counts usage key n h

  read_value-Typed :
      (v : J.Value) (o : J.Object) (name : String)
      → as_object V v ≡ some o
      → Typed o name
      → read_value V to_int v ≡ read_typed V to_int (codes name) o
  unfolding read_value
  read_value-Typed v o name is (t, m, s) = ground (arith, is, m, s)

  payload-Typed :
      (payload : Bytes) (v : J.Value) (o : J.Object) (name : String)
      → payload ≢ codes "[DONE]"
      → J.safe_parse payload ≡ some v
      → as_object V v ≡ some o
      → Typed o name
      → read_event V to_int payload ≡ read_typed V to_int (codes name) o
  unfolding read_event
  payload-Typed payload v o name more parsed is typed =
      elim (Bool-cases (str_eq payload (codes "[DONE]"))) [
        | inl end ↦ absurd (more ((str_eq_iff payload (codes "[DONE]")).0 end))
        | inr go ↦ ground (arith, go, parsed, read_value-Typed v o name is typed)
      ]

  read_typed-EventSays :
      (e : Event) (o : J.Object) (payload : Bytes) (v : J.Value)
      → payload ≢ codes "[DONE]"
      → J.safe_parse payload ≡ some v
      → as_object V v ≡ some o
      → EventSays e o
      → read_event V to_int payload ≡ some e
  unfolding read_typed str_eq read_block_start read_block_delta read_message_start
      read_message_delta
  read_typed-EventSays _ o payload v ne p is (tells_start msg usage n id model t m i k u c r) =
      payload-Typed payload v o "message_start" ne p is t
      ∙ ground (
        arith,
        m,
        i,
        k,
        ap (λ x. total_in V to_int x (codes "input_tokens")) u,
        total_in-Counts usage (codes "input_tokens") n c r,
      )
  read_typed-EventSays _ o payload v ne p is (tells_text block t (b, k)) =
      payload-Typed payload v o "content_block_start" ne p is t ∙ ground (arith, b, k)
  read_typed-EventSays _ o payload v ne p is (tells_tool block id name t (b, k) i n) =
      payload-Typed payload v o "content_block_start" ne p is t ∙ ground (arith, b, k, i, n)
  read_typed-EventSays _ o payload v ne p is (tells_thinking block t (b, k)) =
      payload-Typed payload v o "content_block_start" ne p is t ∙ ground (arith, b, k)
  read_typed-EventSays _ o payload v ne p is (tells_redacted block opaque t (b, k) d) =
      payload-Typed payload v o "content_block_start" ne p is t ∙ ground (arith, b, k, d)
  read_typed-EventSays _ o payload v ne p is (tells_text_delta delta d t (b, k) x) =
      payload-Typed payload v o "content_block_delta" ne p is t ∙ ground (arith, b, k, x)
  read_typed-EventSays _ o payload v ne p is (tells_json_delta delta d t (b, k) x) =
      payload-Typed payload v o "content_block_delta" ne p is t ∙ ground (arith, b, k, x)
  read_typed-EventSays _ o payload v ne p is (tells_thinking_delta delta d t (b, k) x) =
      payload-Typed payload v o "content_block_delta" ne p is t ∙ ground (arith, b, k, x)
  read_typed-EventSays _ o payload v ne p is (tells_signature_delta delta d t (b, k) x) =
      payload-Typed payload v o "content_block_delta" ne p is t ∙ ground (arith, b, k, x)
  read_typed-EventSays _ o payload v ne p is (tells_block_stop t) =
      payload-Typed payload v o "content_block_stop" ne p is t
  read_typed-EventSays _ o payload v ne p is (tells_end delta usage reason n t d r u c k) =
      payload-Typed payload v o "message_delta" ne p is t
      ∙ ground (
        arith,
        d,
        r,
        ap (λ x. total_in V to_int x (codes "output_tokens")) u,
        total_in-Counts usage (codes "output_tokens") n c k,
      )
  read_typed-EventSays _ o payload v ne p is (tells_message_stop t) =
      payload-Typed payload v o "message_stop" ne p is t

  pub read_event-PayloadSays :
      (e : Event) (payload : Bytes) → PayloadSays e payload → read_event V to_int payload ≡ some e
  read_event-PayloadSays e payload h =
      read_typed-EventSays e h.object payload h.value h.no_end h.parses h.is_object h.says

  pub read_event-Silent :
      (payload : Bytes) → Silent payload → read_event V to_int payload ≡ some Event.skipped
  unfolding read_event read_value read_typed str_eq
  read_event-Silent payload (end_mark e) = ground (arith, (str_eq_iff payload (codes "[DONE]")).1 e)
  read_event-Silent payload (no_json e) = ground (arith, e)
  read_event-Silent payload (untyped v o p is t) = ground (arith, p, is, t)
  read_event-Silent payload (ping v o p is (t, m, s)) = ground (arith, p, is, m, s)
