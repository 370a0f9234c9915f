-- ===== src/Anthropic/Structured/Tests.antt =====
-- A stream of structured output whose input comes in two deltas.
use Prim.Native.String.{String}
use ai_sdk_cpp.Prelude.{
  ℕ, ◌≡◌, refl, true, All, List, [], ◌∷◌, Option, none, some, Bytes, codes, str_eq, str_eq_iff, ℤ,
  pos, negsuc, if◌then◌else◌,
}
use ai_sdk_cpp.Prompt.{Json}
use ai_sdk_cpp.JsonView.{
  JsonView, as_object, as_string, as_int64, as_array, string_at, object_at, array_at,
}
use ai_sdk_cpp.JsonView.Trees.{
  Tree, Fields, arr, items_of, nil, num, text, obj, fields_of, lookup, tree_json, tree_view,
}
use ai_sdk_cpp.Sse.{SseEvent}
use ai_sdk_cpp.Generate.{FinishReason, GenerateResult, text_of}
use ai_sdk_cpp.GenerateObject.{start_state}
use ai_sdk_cpp.GenerateObject.Stream.{deltas, finished, IsNoError}
use ai_sdk_cpp.Anthropic.{finish_reason_of}
use ai_sdk_cpp.Anthropic.Payloads.{
  Speaks, no_more, says, missing, tells_start, tells_tool, tells_json_delta, tells_block_stop,
  tells_end, tells_message_stop,
}
use ai_sdk_cpp.Anthropic.Stream.{initial_state, generator}
use ai_sdk_cpp.Anthropic.Response.{read_response}
use ai_sdk_cpp.Anthropic.Told.{Message, message_events}
use ai_sdk_cpp.Anthropic.Says.{MessageSays, no_details, says_tool}
use ai_sdk_cpp.Anthropic.Structured.{forced, structured-text}

abbrev o : List (Bytes × Tree) → Tree
o fs = obj (fields_of fs)

abbrev entry : String → String → Bytes × Tree
entry key value = (codes key, text (codes value))

abbrev json_delta : String → Tree
json_delta json = o (
    entry "type" "content_block_delta"
    ∷ (codes "delta", o (entry "type" "input_json_delta" ∷ entry "partial_json" json ∷ []))
    ∷ [])

abbrev blocks : List Tree
blocks =
    o (entry "type" "tool_use" ∷ entry "id" "t" ∷ entry "name" "json" ∷ (codes "input", o []) ∷ [])
    ∷ []

abbrev counts : Fields
counts = fields_of ((codes "input_tokens", num (pos 5)) ∷ (codes "output_tokens", num (pos 7)) ∷ [])

abbrev answer : Fields
answer = fields_of (
    (codes "content", arr (items_of blocks))
    ∷ entry "stop_reason" "tool_use"
    ∷ (codes "usage", obj counts)
    ∷ [])

-- The payloads stand for the texts of these values.
unfoldable parse_payload : Bytes → Option Tree
parse_payload s =
    if str_eq s (codes "start")
    then some (
        o (
          entry "type" "message_start"
          ∷ (
            codes "message",
            o ((codes "usage", o ((codes "input_tokens", num (pos 5)) ∷ [])) ∷ []),
          )
          ∷ []))
    else if str_eq s (codes "tool")
    then some (
        o (
          entry "type" "content_block_start"
          ∷ (
            codes "content_block",
            o (entry "type" "tool_use" ∷ entry "id" "t" ∷ entry "name" "json" ∷ []),
          )
          ∷ []))
    else if str_eq s (codes "open")
    then some (json_delta "{")
    else if str_eq s (codes "close")
    then some (json_delta "}")
    else if str_eq s (codes "end")
    then some (o (entry "type" "content_block_stop" ∷ []))
    else if str_eq s (codes "delta")
    then some (
        o (
          entry "type" "message_delta"
          ∷ (codes "delta", o (entry "stop_reason" "tool_use" ∷ []))
          ∷ (codes "usage", o ((codes "output_tokens", num (pos 7)) ∷ []))
          ∷ []))
    else if str_eq s (codes "stop")
    then some (o (entry "type" "message_stop" ∷ []))
    else if str_eq s (codes "body")
    then some (obj answer)
    else none

abbrev json : Json
json = tree_json parse_payload (λ v. codes "{}")

abbrev view : JsonView json
view = tree_view parse_payload (λ v. codes "{}")

abbrev to_int : ℤ → ℕ
to_int (pos n) = n
to_int (negsuc n) = 0

abbrev told : String → SseEvent
told payload = record { event = codes "e"; payload = codes payload; id = []; retry = none }

abbrev events : List SseEvent
events =
    told "start"
    ∷ told "tool"
    ∷ told "open"
    ∷ told "close"
    ∷ told "end"
    ∷ told "delta"
    ∷ told "stop"
    ∷ []

abbrev inputs : List Bytes
inputs = codes "{" ∷ codes "}" ∷ []

abbrev message : Message
message = forced json 5 none none (codes "t") (codes "json") inputs (codes "tool_use") 7

events-Speaks : Speaks view to_int events (message_events message)
unfolding parse_payload lookup str_eq string_at object_at as_object as_string as_int64
events-Speaks =
    says
      (record {
        no_end = λ e. cc ((str_eq_iff _ (codes "[DONE]")).1 e);
        value = _;
        object = _;
        parses = refl;
        is_object = refl;
        says =
            tells_start _ _ _ _ _ (_, refl, refl) refl refl refl refl (_, pos 5, refl, refl, refl)
              (missing refl, missing refl);
      })
      (says
        (record {
          no_end = λ e. cc ((str_eq_iff _ (codes "[DONE]")).1 e);
          value = _;
          object = _;
          parses = refl;
          is_object = refl;
          says = tells_tool _ _ _ (_, refl, refl) (refl, refl) refl refl;
        })
        (says
          (record {
            no_end = λ e. cc ((str_eq_iff _ (codes "[DONE]")).1 e);
            value = _;
            object = _;
            parses = refl;
            is_object = refl;
            says = tells_json_delta _ _ (_, refl, refl) (refl, refl) refl;
          })
          (says
            (record {
              no_end = λ e. cc ((str_eq_iff _ (codes "[DONE]")).1 e);
              value = _;
              object = _;
              parses = refl;
              is_object = refl;
              says = tells_json_delta _ _ (_, refl, refl) (refl, refl) refl;
            })
            (says
              (record {
                no_end = λ e. cc ((str_eq_iff _ (codes "[DONE]")).1 e);
                value = _;
                object = _;
                parses = refl;
                is_object = refl;
                says = tells_block_stop (_, refl, refl);
              })
              (says
                (record {
                  no_end = λ e. cc ((str_eq_iff _ (codes "[DONE]")).1 e);
                  value = _;
                  object = _;
                  parses = refl;
                  is_object = refl;
                  says =
                      tells_end _ _ _ _ (_, refl, refl) refl refl refl (_, pos 7, refl, refl, refl)
                        (missing refl, missing refl);
                })
                (says
                  (record {
                    no_end = λ e. cc ((str_eq_iff _ (codes "[DONE]")).1 e);
                    value = _;
                    object = _;
                    parses = refl;
                    is_object = refl;
                    says = tells_message_stop (_, refl, refl);
                  })
                  (no_more)))))))

body_parses : json.safe_parse (codes "body") ≡ some (obj answer)
unfolding parse_payload str_eq
body_parses = refl

body-MessageSays : MessageSays view to_int message (obj answer)
unfolding lookup str_eq string_at object_at array_at as_object as_string as_int64 as_array
body-MessageSays = record {
  object = answer;
  usage = counts;
  content = blocks;
  is_object = refl;
  has_content = refl;
  has_reason = refl;
  has_usage = refl;
  blocks = ((_, refl, says_tool _ _ _ _ refl refl refl refl refl), tt);
  input = (num (pos 5), pos 5, refl, refl, refl);
  output = (num (pos 7), pos 7, refl, refl, refl);
  cache = (missing refl, missing refl);
  details = no_details refl;
}

structured-text_example :
    let s = generator view to_int (codes "bad") true initial_state events none in
    (r : GenerateResult json) × (read_response view to_int FinishReason.other true (codes "body")
      ≡ some r)
    × (s.failure ≡ none)
    × All IsNoError s.parts
    × (deltas s.parts ≡ codes "{}")
    × (text_of r.content ≡ codes "{}")
    × (r.finish_reason ≡ FinishReason.stop)
    × ((finished (start_state nil) s.parts).finish_reason ≡ finish_reason_of (codes "tool_use"))
structured-text_example =
    structured-text view to_int (codes "bad") 5 none none (codes "t") (codes "json") inputs
      (codes "tool_use") 7 events (start_state nil) FinishReason.other (codes "body") (obj answer)
      (λ e. cc e) refl events-Speaks body_parses body-MessageSays
