-- ===== src/Sse/Chunks.antt =====
-- `SseParser::parse` as a function of the whole byte stream: where the chunks are cut matters to the
-- byte order mark only.
use ai_sdk_cpp.Prelude.{
  ℕ, ◌≤◌, ◌≡◌, refl, sym, ap, ◌∙◌, inl, inr, true, List, [], ◌∷◌, ◌++◌, append-nil, some, arith,
  Bytes, ◌==◌, if◌then◌else◌, length, is_empty, Bool-cases,
}
use ai_sdk_cpp.Sse.{
  SseEvent, SseParser, initial, drop_bom, feed, set_field, process_line, split_field,
  dispatch_event, take_line, strip_cr, drain, parse_chunks, flush, parse,
}
use ai_sdk_cpp.Sse.Machine.{
  step, run, read_buffer, run-append_events, run-append_state, take_line-buffer, drain-read_buffer,
}

-- The bytes of all chunks.
abbrev pub concat : List Bytes → Bytes
concat [] = []
concat (c ∷ cs) = c ++ concat cs

abbrev pub start : SseParser
start = record initial { bom_stripped = true }

-- The events of a byte stream behind its byte order mark; an unfinished last line counts as ended.
unfoldable pub decode : Bytes → List SseEvent
decode s =
    (run start s).0
    ++ (if is_empty (run start s).1.buffer then [] else (step (run start s).1 b'\n').0)

set_field-bom_stripped :
    (p : SseParser) (field value : Bytes) → (set_field p field value).bom_stripped ≡ p.bom_stripped
unfolding set_field
set_field-bom_stripped p field value = ground arith

process_line-bom_stripped :
    (p : SseParser) (line : Bytes) → (process_line p line).bom_stripped ≡ p.bom_stripped
process_line-bom_stripped p [] = (unfold process_line in refl)
process_line-bom_stripped p (c ∷ cs) =
    (unfold process_line in
      ground (arith, set_field-bom_stripped p (split_field (c ∷ cs)).0 (split_field (c ∷ cs)).1))

take_line-bom_stripped :
    (p : SseParser) (line : Bytes) → (take_line p line).1.bom_stripped ≡ p.bom_stripped
unfolding take_line dispatch_event
take_line-bom_stripped p line = ground (arith, process_line-bom_stripped p (strip_cr line))

-- A parser between two chunks: past the byte order mark, with no whole line in its buffer.
record IsSettled (p : SseParser) : Type 0 where
  past_bom : p.bom_stripped ≡ true
  partial_line : read_buffer p ≡ ([], p)

take_line-IsSettled :
    (p : SseParser) (line : Bytes)
    → p.bom_stripped ≡ true
    → IsSettled (take_line (record p { buffer = [] }) line).1
take_line-IsSettled p line b = record {
  past_bom = take_line-bom_stripped (record p { buffer = [] }) line ∙ b;
  partial_line = rw (take_line-buffer p line []) (unfold run in refl);
}

-- Two machines one after the other.
abbrev also : List SseEvent × SseParser → Bytes → List SseEvent × SseParser
also (es, p) cs = let (fs, q) = run p cs in (es ++ fs, q)

run-append : (p : SseParser) (xs ys : Bytes) → run p (xs ++ ys) ≡ also (run p xs) ys
run-append p xs ys = λ i. (run-append_events p xs ys i, run-append_state p xs ys i)

step-IsSettled : (p : SseParser) (c : ℕ) → IsSettled p → IsSettled (step p c).1
step-IsSettled p c v = elim (Bool-cases (c == b'\n')) [
  | inl ends ↦ (unfold step in rw ends (take_line-IsSettled p p.buffer v.past_bom))
  | inr more ↦
      (unfold run step in
        rw more (record {
          past_bom = v.past_bom;
          partial_line =
              run-append (record p { buffer = [] }) p.buffer (c ∷ [])
              ∙ rw v.partial_line (ground (arith, more));
        }))
]

run-IsSettled : (p : SseParser) (cs : Bytes) → IsSettled p → IsSettled (run p cs).1
unfolding run
run-IsSettled p [] v = v
run-IsSettled p (c ∷ cs) v = run-IsSettled (step p c).1 cs (step-IsSettled p c v)

feed-append :
    (p : SseParser) (chunk : Bytes)
    → p.bom_stripped ≡ true
    → feed p chunk ≡ record p { buffer = p.buffer ++ chunk }
unfolding feed
feed-append p chunk b = ground arith

drain-append :
    (p : SseParser) (chunk : Bytes)
    → IsSettled p
    → drain (record p { buffer = p.buffer ++ chunk }) ≡ some (run p chunk)
drain-append p chunk v =
    drain-read_buffer (record p { buffer = p.buffer ++ chunk })
    ∙ ap some (run-append (record p { buffer = [] }) p.buffer chunk ∙ rw v.partial_line)

parse_chunks-cons :
    (p : SseParser) (c : Bytes) (cs : List Bytes) {r s : List SseEvent × SseParser}
    → drain (feed p c) ≡ some r
    → parse_chunks r.1 cs ≡ some s
    → parse_chunks p (c ∷ cs) ≡ some (r.0 ++ s.0, s.1)
unfolding parse_chunks
parse_chunks-cons p c cs e f = ground (arith, e, f)

parse_chunks-run :
    (p : SseParser) (chunks : List Bytes)
    → IsSettled p
    → parse_chunks p chunks ≡ some (run p (concat chunks))
parse_chunks-run p [] v = (unfold parse_chunks run in refl)
parse_chunks-run p (c ∷ cs) v =
    let ih = parse_chunks-run (run p c).1 cs (run-IsSettled p c v) in
    parse_chunks-cons p c cs (rw (feed-append p c v.past_bom) (drain-append p c v)) ih
    ∙ ap some (sym (run-append p c (concat cs)))

-- The events of a line that the end of the stream cuts off.
abbrev last_line : SseParser → List SseEvent
last_line p = if is_empty p.buffer then [] else (step p b'\n').0

run-newline : (p : SseParser) → run p (b'\n' ∷ []) ≡ step p b'\n'
unfolding run
run-newline p = ground (arith, append-nil (step p b'\n').0)

flush-run : (p : SseParser) → IsSettled p → (q : SseParser) × (flush p ≡ some (last_line p, q))
unfolding flush
flush-run p v = elim (Bool-cases (is_empty p.buffer)) [
  | inl clean ↦ (p, ground arith)
  | inr rest ↦ ((step p b'\n').1, ground (arith, drain-append p (b'\n' ∷ []) v, run-newline p))
]

first_chunk : (c : Bytes) → drain (feed initial c) ≡ some (run start (drop_bom c))
unfolding feed
first_chunk c = drain-read_buffer _

start-IsSettled : IsSettled start
start-IsSettled = record { past_bom = refl; partial_line = (unfold run in refl) }

parse-run :
    (c : Bytes) (cs : List Bytes) (p : SseParser) (es : List SseEvent)
    → IsSettled p
    → parse_chunks initial (c ∷ cs) ≡ some (es, p)
    → parse (c ∷ cs) ≡ some (es ++ last_line p)
unfolding parse
parse-run c cs p es v e = let (q, f) = flush-run p v in ground (arith, e, f)

pub parse-decode :
    (c : Bytes) (cs : List Bytes) → parse (c ∷ cs) ≡ some (decode (drop_bom c ++ concat cs))
unfolding decode
parse-decode c cs =
    let first = drop_bom c in
    let v = run-IsSettled start first start-IsSettled in
    let chunks =
      parse_chunks-cons initial c cs (first_chunk c) (parse_chunks-run (run start first).1 cs v) in
    parse-run c cs (run start (first ++ concat cs)).1 (run start (first ++ concat cs)).0
      (run-IsSettled start _ start-IsSettled)
      (chunks ∙ ap some (sym (run-append start first (concat cs))))

drop_bom-append : (c s : Bytes) → 3 ≤ length c → drop_bom (c ++ s) ≡ drop_bom c ++ s
unfolding drop_bom
drop_bom-append [] s h = absurd (omega arith)
drop_bom-append (x ∷ []) s h = absurd (omega arith)
drop_bom-append (x ∷ y ∷ []) s h = absurd (omega arith)
drop_bom-append (x ∷ y ∷ z ∷ r) s h = ground arith

-- Where both streams begin with a chunk of three bytes or more, the events depend on the bytes
-- alone, not on how they are cut into chunks.
pub parse-concat :
    (c d : Bytes) (cs ds : List Bytes)
    → 3 ≤ length c
    → 3 ≤ length d
    → c ++ concat cs ≡ d ++ concat ds
    → parse (c ∷ cs) ≡ parse (d ∷ ds)
parse-concat c d cs ds h k e =
    parse-decode c cs
    ∙ ap (λ s. some (decode s))
        (sym (drop_bom-append c (concat cs) h) ∙ ap drop_bom e ∙ drop_bom-append d (concat ds) k)
    ∙ sym (parse-decode d ds)
