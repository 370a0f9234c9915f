-- ===== src/Anthropic/Events.antt =====
-- The events of the Messages API, as `do_stream` reads them.
use ai_sdk_cpp.Prelude.{ℕ, Option, none, some, value_or, Bytes, codes, str_eq, ℤ, if◌then◌else◌}
use ai_sdk_cpp.Prompt.{Json}
use ai_sdk_cpp.JsonView.{JsonView, as_object, as_string, object_at, string_at}
use ai_sdk_cpp.Anthropic.{count_of, cache_readable}

-- What an event says. The start of a message has its input count, id and model, when there is a message,
-- and its end a reason and an output count.
pub data Event : Type 0 where
  skipped : Event
  message_start : Option (Option ℕ × (Option Bytes × Option Bytes)) → Event
  text_block : Event
  tool_block : Option Bytes → Option Bytes → Event
  thinking_block : Event
  redacted_block : Option Bytes → Event
  text_delta : Bytes → Event
  json_delta : Bytes → Event
  thinking_delta : Bytes → Event
  signature_delta : Bytes → Event
  block_stop : Event
  message_delta : Option Bytes → Option ℕ → Event
  message_stop : Event
  error_event : Bytes → Event

abbrev pub or_skip : {A : Type 0} → Option A → (A → Event) → Event
or_skip none f = Event.skipped
or_skip (some a) f = f a

module _ {J : Json} (V : JsonView J) (to_int : ℤ → ℕ) where
  unfoldable pub read_block_start : J.Object → Event
  read_block_start obj = or_skip (object_at V obj (codes "content_block")) (λ block.
      or_skip (string_at V block (codes "type")) (λ block_type.
        if str_eq block_type (codes "text")
        then Event.text_block
        else if str_eq block_type (codes "tool_use")
        then Event.tool_block (string_at V block (codes "id")) (string_at V block (codes "name"))
        else if str_eq block_type (codes "thinking")
        then Event.thinking_block
        else if str_eq block_type (codes "redacted_thinking")
        then Event.redacted_block (string_at V block (codes "data"))
        else Event.skipped))

  unfoldable pub read_block_delta : J.Object → Event
  read_block_delta obj = or_skip (object_at V obj (codes "delta")) (λ delta.
      or_skip (string_at V delta (codes "type")) (λ delta_type.
        if str_eq delta_type (codes "text_delta")
        then or_skip (string_at V delta (codes "text")) Event.text_delta
        else if str_eq delta_type (codes "input_json_delta")
        then or_skip (string_at V delta (codes "partial_json")) Event.json_delta
        else if str_eq delta_type (codes "thinking_delta")
        then or_skip (string_at V delta (codes "thinking")) Event.thinking_delta
        else if str_eq delta_type (codes "signature_delta")
        then or_skip (string_at V delta (codes "signature")) Event.signature_delta
        else Event.skipped))

  -- A total, if there is an object of counts; `none` is an exception.
  abbrev pub total_in : Option J.Object → Bytes → Option (Option ℕ)
  total_in none key = some none
  total_in (some usage) key = cache_readable V to_int usage (count_of V to_int (V.member usage key))

  unfoldable pub read_message_start : J.Object → Option Event
  read_message_start obj = elim (object_at V obj (codes "message")) [
    | none ↦ some (Event.message_start none)
    | some msg ↦ elim (total_in (object_at V msg (codes "usage")) (codes "input_tokens")) [
      | none ↦ none
      | some total ↦ some (
          Event.message_start
            (some (total, (string_at V msg (codes "id"), string_at V msg (codes "model")))))
    ]
  ]

  abbrev pub reason_in : Option J.Object → Option Bytes
  reason_in none = none
  reason_in (some delta) = string_at V delta (codes "stop_reason")

  unfoldable pub read_message_delta : J.Object → Option Event
  read_message_delta obj =
      elim (total_in (object_at V obj (codes "usage")) (codes "output_tokens")) [
        | none ↦ none
        | some total ↦
            some (Event.message_delta (reason_in (object_at V obj (codes "delta"))) total)
      ]

  abbrev pub message_in : Option J.Object → Option Bytes
  message_in none = none
  message_in (some err) = string_at V err (codes "message")

  unfoldable pub read_error : J.Object → Event
  read_error obj =
      Event.error_event
        (value_or (message_in (object_at V obj (codes "error"))) (codes "Unknown streaming error"))

  -- The tests of the type.
  unfoldable pub read_typed : Bytes → J.Object → Option Event
  unfolding read_block_start read_block_delta read_message_start read_message_delta read_error
  read_typed type obj =
      if str_eq type (codes "message_start")
      then read_message_start obj
      else if str_eq type (codes "content_block_start")
      then some (read_block_start obj)
      else if str_eq type (codes "content_block_delta")
      then some (read_block_delta obj)
      else if str_eq type (codes "content_block_stop")
      then some Event.block_stop
      else if str_eq type (codes "message_delta")
      then read_message_delta obj
      else if str_eq type (codes "message_stop")
      then some Event.message_stop
      else if str_eq type (codes "error")
      then some (read_error obj)
      else some Event.skipped

  -- `none` is an exception: the value is no object, or its type no string.
  unfoldable pub read_value : J.Value → Option Event
  unfolding read_typed
  read_value v = elim (as_object V v) [
    | none ↦ none
    | some obj ↦ elim (V.member obj (codes "type")) [
      | none ↦ some Event.skipped
      | some t ↦ elim (as_string V t) [ none ↦ none | some type ↦ read_typed type obj ]
    ]
  ]

  unfoldable pub read_event : Bytes → Option Event
  unfolding read_value
  read_event payload =
      if str_eq payload (codes "[DONE]")
      then some Event.skipped
      else (elim (J.safe_parse payload) [ none ↦ some Event.skipped | some v ↦ read_value v ])
