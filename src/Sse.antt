-- ===== src/Sse.antt =====
-- src/stream/sse_parser.cpp and include/ai/stream/sse_parser.hpp: the incremental parser of
-- server-sent events. Text is a list of bytes. The loops of `next_event` and `parse` run on fuel,
-- one more than the bytes in the buffer; `none` means that the fuel ran out.
pub mod Machine
pub mod Chunks
pub mod Render
mod Tests
use ai_sdk_cpp.Prelude.{
  ℕ, zero, suc, Bool, true, false, not, ◌&&◌, List, [], ◌∷◌, ◌++◌, Option, none, some, Bytes, codes,
  str_eq, ◌==◌, if◌then◌else◌, length, is_empty, any_of,
}

-- `struct SseEvent`; no operation sets `retry`.
pub record SseEvent : Type 0 where
  pub event : Bytes
  pub payload : Bytes
  pub id : Bytes
  pub retry : Option ℕ

-- `class SseParser`.
pub record SseParser : Type 0 where
  pub buffer : Bytes
  pub event_type : Bytes
  pub data_buffer : Bytes
  pub last_id : Bytes
  pub bom_stripped : Bool

abbrev pub message : Bytes
message = codes "message"

abbrev pub initial : SseParser
initial = record {
  buffer = [];
  event_type = message;
  data_buffer = [];
  last_id = [];
  bom_stripped = false;
}

-- `s.find(c)`: the text before the first `c` and the text behind it.
unfoldable pub split_at : ℕ → Bytes → Option (Bytes × Bytes)
split_at c [] = none
split_at c (x ∷ xs) =
    if x == c
    then some ([], xs)
    else elim (split_at c xs) [ none ↦ none | some (before, after) ↦ some (x ∷ before, after) ]

unfoldable pub drop_bom : Bytes → Bytes
drop_bom (a ∷ b ∷ c ∷ rest) = if a == 0xEF && b == 0xBB && c == 0xBF then rest else a ∷ b ∷ c ∷ rest
drop_bom s = s

unfoldable pub strip_bom : SseParser → SseParser
unfolding drop_bom
strip_bom p =
    if p.bom_stripped then p else record p { buffer = drop_bom p.buffer; bom_stripped = true }

unfoldable pub feed : SseParser → Bytes → SseParser
unfolding strip_bom
feed p chunk =
    let q = record p { buffer = p.buffer ++ chunk } in if not p.bom_stripped then strip_bom q else q

-- `if (!line.empty() && line.back() == '\r') line.pop_back();`
unfoldable pub strip_cr : Bytes → Bytes
strip_cr [] = []
strip_cr (c ∷ []) = if c == b'\r' then [] else c ∷ []
strip_cr (c ∷ d ∷ rest) = c ∷ strip_cr (d ∷ rest)

-- `if (!value.empty() && value.front() == ' ') value.remove_prefix(1);`
unfoldable pub strip_space : Bytes → Bytes
strip_space [] = []
strip_space (c ∷ rest) = if c == b' ' then rest else c ∷ rest

-- The field's name and value in a line that is no comment.
unfoldable pub split_field : Bytes → Bytes × Bytes
unfolding split_at strip_space
split_field line = elim (split_at b':' line) [
  | none ↦ (line, [])
  | some (before, after) ↦ (before, strip_space after)
]

-- The chain on `field == …`.
unfoldable pub set_field : SseParser → Bytes → Bytes → SseParser
set_field p field value =
    if str_eq field (codes "event")
    then record p { event_type = value }
    else if str_eq field (codes "data")
    then record p {
      data_buffer = if not (is_empty p.data_buffer) then p.data_buffer ++ b'\n' ∷ value else value;
    }
    else if str_eq field (codes "id")
    then (if any_of (λ c. c == 0) value then p else record p { last_id = value })
    else p

unfoldable pub process_line : SseParser → Bytes → SseParser
unfolding split_field set_field
process_line p [] = p
process_line p (c ∷ cs) =
    if c == b':' then p else let (field, value) = split_field (c ∷ cs) in set_field p field value

unfoldable pub dispatch_event : SseParser → Option SseEvent × SseParser
dispatch_event p = if is_empty p.data_buffer then (none, record p { event_type = message }) else (
  some (record { event = p.event_type; payload = p.data_buffer; id = p.last_id; retry = none }),
  record p { data_buffer = []; event_type = message },
)

-- One round of the loop in `next_event`, on a line without its newline.
unfoldable pub take_line : SseParser → Bytes → Option SseEvent × SseParser
unfolding dispatch_event process_line
take_line p line =
    if is_empty (strip_cr line) then dispatch_event p else (none, process_line p (strip_cr line))

unfoldable pub next_loop : ℕ → SseParser → Option (Option SseEvent × SseParser)
unfolding split_at
next_loop zero p = none
next_loop (suc fuel) p = elim (split_at b'\n' p.buffer) [
  | none ↦ some (none, p)
  | some (line, rest) ↦
      let (event, q) = take_line (record p { buffer = rest }) line in
      elim event [ some e ↦ some (some e, q) | none ↦ next_loop fuel q ]
]

unfoldable pub next_event : SseParser → Option (Option SseEvent × SseParser)
unfolding next_loop
next_event p = next_loop (suc (length p.buffer)) p

-- `while (auto event = next_event()) co_yield …`
unfoldable pub drain_loop : ℕ → SseParser → Option (List SseEvent × SseParser)
unfolding next_event
drain_loop zero p = none
drain_loop (suc fuel) p = elim (next_event p) [
  | none ↦ none
  | some (event, q) ↦ elim event [
    | none ↦ some ([], q)
    | some e ↦ elim (drain_loop fuel q) [ none ↦ none | some (es, r) ↦ some (e ∷ es, r) ]
  ]
]

unfoldable pub drain : SseParser → Option (List SseEvent × SseParser)
unfolding drain_loop
drain p = drain_loop (suc (length p.buffer)) p

-- The loop over the chunks.
unfoldable pub parse_chunks : SseParser → List Bytes → Option (List SseEvent × SseParser)
parse_chunks p [] = some ([], p)
parse_chunks p (chunk ∷ chunks) = elim (drain (feed p chunk)) [
  | none ↦ none
  | some (es, q) ↦ elim (parse_chunks q chunks) [ none ↦ none | some (fs, r) ↦ some (es ++ fs, r) ]
]

-- The tail of `parse`: what is left in the buffer ends with a newline of the parser's own.
unfoldable pub flush : SseParser → Option (List SseEvent × SseParser)
flush p =
    if not (is_empty p.buffer)
    then drain (record p { buffer = p.buffer ++ b'\n' ∷ [] })
    else some ([], p)

-- All events of a byte stream.
unfoldable pub parse : List Bytes → Option (List SseEvent)
parse chunks = elim (parse_chunks initial chunks) [
  | none ↦ none
  | some (es, p) ↦ elim (flush p) [ none ↦ none | some (fs, q) ↦ some (es ++ fs) ]
]
