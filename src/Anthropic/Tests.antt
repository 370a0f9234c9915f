-- ===== src/Anthropic/Tests.antt =====
-- A message with a text and a call, on the wire and at once.
use Prim.Native.String.{String}
use ai_sdk_cpp.Prelude.{
  ℕ, ◌≡◌, refl, false, All, List, [], ◌∷◌, map, Option, none, some, Bytes, codes, str_eq,
  str_eq_iff, is_empty, ℤ, pos, negsuc, take, drop, arith, if◌then◌else◌,
}
use ai_sdk_cpp.Prompt.{Json}
use ai_sdk_cpp.JsonView.{
  JsonView, as_object, as_string, as_int64, as_array, string_at, object_at, array_at,
}
use ai_sdk_cpp.JsonView.Trees.{
  Tree, Fields, num, text, arr, obj, items_of, fields_of, lookup, tree_json, tree_view,
}
use ai_sdk_cpp.Sse.Render.{Outgoing, IsLine, IsSendable, render_all, to_event}
use ai_sdk_cpp.Generate.{FinishReason, GenerateResult}
use ai_sdk_cpp.StreamText.{ModelStream}
use ai_sdk_cpp.Anthropic.Payloads.{
  Speaks, no_more, says, silent, ping, missing, number, tells_start, tells_text, tells_tool,
  tells_text_delta, tells_json_delta, tells_block_stop, tells_end, tells_message_stop,
}
use ai_sdk_cpp.Anthropic.Stream.{do_stream}
use ai_sdk_cpp.Anthropic.Response.{parse_response}
use ai_sdk_cpp.Anthropic.Told.{Message, text_told, tool_told, message_events}
use ai_sdk_cpp.Anthropic.Says.{MessageSays, no_details, says_text, says_tool}
use ai_sdk_cpp.Anthropic.Agree.{TellsSame, do_stream-parse_response}

abbrev o : List (Bytes × Tree) → Tree
o fs = obj (fields_of fs)

abbrev entry : String → String → Bytes × Tree
entry key value = (codes key, text (codes value))

abbrev message : Message
message = record {
  input = 5;
  id = some (codes "m");
  model = some (codes "claude");
  blocks =
      text_told (codes "he" ∷ codes "y" ∷ [])
      ∷ tool_told (codes "t1") (codes "ls") (codes "{" ∷ codes "}" ∷ [])
      ∷ [];
  reason = codes "tool_use";
  output = 7;
}

-- The payloads stand for the texts of these values.
abbrev payloads : List (Bytes × Tree)
payloads =
    (
      codes "start",
      o (
          entry "type" "message_start"
          ∷ (
            codes "message",
            o (
                entry "id" "m"
                ∷ entry "model" "claude"
                ∷ (codes "usage", o ((codes "input_tokens", num (pos 5)) ∷ []))
                ∷ []),
          )
          ∷ []),
    )
    ∷ (
      codes "text",
      o (
          entry "type" "content_block_start"
          ∷ (codes "content_block", o (entry "type" "text" ∷ []))
          ∷ []),
    )
    ∷ (
      codes "he",
      o (
          entry "type" "content_block_delta"
          ∷ (codes "delta", o (entry "type" "text_delta" ∷ entry "text" "he" ∷ []))
          ∷ []),
    )
    ∷ (
      codes "y",
      o (
          entry "type" "content_block_delta"
          ∷ (codes "delta", o (entry "type" "text_delta" ∷ entry "text" "y" ∷ []))
          ∷ []),
    )
    ∷ (codes "end", o (entry "type" "content_block_stop" ∷ []))
    ∷ (
      codes "tool",
      o (
          entry "type" "content_block_start"
          ∷ (
            codes "content_block",
            o (entry "type" "tool_use" ∷ entry "id" "t1" ∷ entry "name" "ls" ∷ []),
          )
          ∷ []),
    )
    ∷ (
      codes "open",
      o (
          entry "type" "content_block_delta"
          ∷ (codes "delta", o (entry "type" "input_json_delta" ∷ entry "partial_json" "{" ∷ []))
          ∷ []),
    )
    ∷ (
      codes "close",
      o (
          entry "type" "content_block_delta"
          ∷ (codes "delta", o (entry "type" "input_json_delta" ∷ entry "partial_json" "}" ∷ []))
          ∷ []),
    )
    ∷ (
      codes "delta",
      o (
          entry "type" "message_delta"
          ∷ (codes "delta", o (entry "stop_reason" "tool_use" ∷ []))
          ∷ (codes "usage", o ((codes "output_tokens", num (pos 7)) ∷ []))
          ∷ []),
    )
    ∷ (codes "stop", o (entry "type" "message_stop" ∷ []))
    ∷ (codes "ping", o (entry "type" "ping" ∷ []))
    ∷ []

unfoldable find_payload : List (Bytes × Tree) → Bytes → Option Tree
find_payload [] s = none
find_payload ((k, t) ∷ ps) s = if str_eq k s then some t else find_payload ps s

abbrev json : Json
json = tree_json (find_payload payloads) (λ v. codes "{}")

abbrev view : JsonView json
view = tree_view (find_payload payloads) (λ v. codes "{}")

abbrev to_int : ℤ → ℕ
to_int (pos n) = n
to_int (negsuc n) = 0

abbrev blocks : List Tree
blocks =
    o (entry "type" "text" ∷ entry "text" "hey" ∷ [])
    ∷ o (entry "type" "tool_use" ∷ entry "id" "t1" ∷ entry "name" "ls" ∷ (codes "input", o []) ∷ [])
    ∷ []

abbrev counts : Fields
counts = fields_of (
    (codes "input_tokens", num (pos 5))
    ∷ (codes "output_tokens", num (pos 7))
    ∷ (codes "cache_read_input_tokens", num (pos 3))
    ∷ [])

abbrev answer : Fields
answer = fields_of (
    (codes "content", arr (items_of blocks))
    ∷ entry "stop_reason" "tool_use"
    ∷ (codes "usage", obj counts)
    ∷ [])

abbrev response : Tree
response = obj answer

abbrev say : Bytes → Outgoing
say payload = record { event = codes "e"; id = []; line = payload; more = [] }

say-IsSendable :
    (payload : Bytes) → IsLine payload → is_empty payload ≡ false → IsSendable (say payload)
say-IsSendable payload l n = record {
  event_line = omega arith;
  id_line = tt;
  id_nul = refl;
  first_line = l;
  first_ne_nil = n;
  more_lines = tt;
}

abbrev sent : List Outgoing
sent = map say (
    codes "start"
    ∷ codes "ping"
    ∷ codes "text"
    ∷ codes "he"
    ∷ codes "y"
    ∷ codes "end"
    ∷ codes "tool"
    ∷ codes "open"
    ∷ codes "close"
    ∷ codes "end"
    ∷ codes "delta"
    ∷ codes "stop"
    ∷ [])

sent-IsSendable : All IsSendable sent
sent-IsSendable = (
  say-IsSendable _ (omega arith) refl,
  (
    say-IsSendable _ (omega arith) refl,
    (
      say-IsSendable _ (omega arith) refl,
      (
        say-IsSendable _ (omega arith) refl,
        (
          say-IsSendable _ (omega arith) refl,
          (
            say-IsSendable _ (omega arith) refl,
            (
              say-IsSendable _ (omega arith) refl,
              (
                say-IsSendable _ (omega arith) refl,
                (
                  say-IsSendable _ (omega arith) refl,
                  (
                    say-IsSendable _ (omega arith) refl,
                    (
                      say-IsSendable _ (omega arith) refl,
                      (say-IsSendable _ (omega arith) refl, tt),
                    ),
                  ),
                ),
              ),
            ),
          ),
        ),
      ),
    ),
  ),
)

sent-Speaks : Speaks view to_int (map to_event sent) (message_events message)
unfolding find_payload lookup str_eq string_at object_at as_object as_string as_int64
sent-Speaks =
    says
      (record {
        no_end = λ e. cc ((str_eq_iff _ (codes "[DONE]")).1 e);
        value = _;
        object = _;
        parses = refl;
        is_object = refl;
        says =
            tells_start _ _ _ _ _ (_, refl, refl) refl refl refl refl (_, pos 5, refl, refl, refl)
              (missing refl, missing refl);
      })
      (silent (ping _ _ refl refl (_, refl, refl)) (
        says
          (record {
            no_end = λ e. cc ((str_eq_iff _ (codes "[DONE]")).1 e);
            value = _;
            object = _;
            parses = refl;
            is_object = refl;
            says = tells_text _ (_, refl, refl) (refl, refl);
          })
          (says
            (record {
              no_end = λ e. cc ((str_eq_iff _ (codes "[DONE]")).1 e);
              value = _;
              object = _;
              parses = refl;
              is_object = refl;
              says = tells_text_delta _ _ (_, refl, refl) (refl, refl) refl;
            })
            (says
              (record {
                no_end = λ e. cc ((str_eq_iff _ (codes "[DONE]")).1 e);
                value = _;
                object = _;
                parses = refl;
                is_object = refl;
                says = tells_text_delta _ _ (_, refl, refl) (refl, refl) refl;
              })
              (says
                (record {
                  no_end = λ e. cc ((str_eq_iff _ (codes "[DONE]")).1 e);
                  value = _;
                  object = _;
                  parses = refl;
                  is_object = refl;
                  says = tells_block_stop (_, refl, refl);
                })
                (says
                  (record {
                    no_end = λ e. cc ((str_eq_iff _ (codes "[DONE]")).1 e);
                    value = _;
                    object = _;
                    parses = refl;
                    is_object = refl;
                    says = tells_tool _ _ _ (_, refl, refl) (refl, refl) refl refl;
                  })
                  (says
                    (record {
                      no_end = λ e. cc ((str_eq_iff _ (codes "[DONE]")).1 e);
                      value = _;
                      object = _;
                      parses = refl;
                      is_object = refl;
                      says = tells_json_delta _ _ (_, refl, refl) (refl, refl) refl;
                    })
                    (says
                      (record {
                        no_end = λ e. cc ((str_eq_iff _ (codes "[DONE]")).1 e);
                        value = _;
                        object = _;
                        parses = refl;
                        is_object = refl;
                        says = tells_json_delta _ _ (_, refl, refl) (refl, refl) refl;
                      })
                      (says
                        (record {
                          no_end = λ e. cc ((str_eq_iff _ (codes "[DONE]")).1 e);
                          value = _;
                          object = _;
                          parses = refl;
                          is_object = refl;
                          says = tells_block_stop (_, refl, refl);
                        })
                        (says
                          (record {
                            no_end = λ e. cc ((str_eq_iff _ (codes "[DONE]")).1 e);
                            value = _;
                            object = _;
                            parses = refl;
                            is_object = refl;
                            says =
                                tells_end _ _ _ _ (_, refl, refl) refl refl refl
                                  (_, pos 7, refl, refl, refl) (missing refl, missing refl);
                          })
                          (says
                            (record {
                              no_end = λ e. cc ((str_eq_iff _ (codes "[DONE]")).1 e);
                              value = _;
                              object = _;
                              parses = refl;
                              is_object = refl;
                              says = tells_message_stop (_, refl, refl);
                            })
                            (no_more))))))))))))

response-MessageSays : MessageSays view to_int message response
unfolding lookup str_eq string_at object_at array_at as_object as_string as_int64 as_array
response-MessageSays = record {
  object = answer;
  usage = counts;
  content = blocks;
  is_object = refl;
  has_content = refl;
  has_reason = refl;
  has_usage = refl;
  blocks = (
    (_, refl, says_text _ refl refl),
    ((_, refl, says_tool _ _ _ _ refl refl refl refl refl), tt),
  );
  input = (num (pos 5), pos 5, refl, refl, refl);
  output = (num (pos 7), pos 7, refl, refl, refl);
  cache = (number _ (pos 3) refl refl, missing refl);
  details = no_details refl;
}

do_stream-parse_response_example :
    (s : ModelStream json) × (r : GenerateResult json) × (do_stream view to_int
        (codes "bad")
        false
        (take 40 (render_all sent) ∷ drop 40 (render_all sent) ∷ [])
      ≡ some s)
    × (parse_response view to_int FinishReason.other response ≡ some r)
    × TellsSame s r
do_stream-parse_response_example =
    do_stream-parse_response view to_int (codes "bad") FinishReason.other message response sent
      (take 40 (render_all sent)) (drop 40 (render_all sent) ∷ []) (λ e. cc e) sent-IsSendable refl
      sent-Speaks response-MessageSays
