-- ===== src/Sse/Machine.antt =====
-- The parser against a machine that reads one byte at a time; its `buffer` holds the line so far.
use ai_sdk_cpp.Prelude.{
  ℕ, zero, suc, ◌<◌, ◌≡◌, refl, sym, ap, ◌∙◌, ◌⊎◌, inl, inr, true, false, List, [], ◌∷◌, ◌++◌,
  append-nil, append_assoc, Option, none, some, arith, Bytes, ◌==◌, if◌then◌else◌, Option-cases,
  Bool-cases, length,
}
use ai_sdk_cpp.Sse.{
  SseEvent, SseParser, split_at, split_field, set_field, process_line, dispatch_event, strip_cr,
  take_line, next_loop, next_event, drain_loop, drain,
}

abbrev pub to_list {ℓ} : {A : Type ℓ} → Option A → List A
to_list none = []
to_list (some a) = a ∷ []

-- One byte: a newline ends the line.
unfoldable pub step : SseParser → ℕ → List SseEvent × SseParser
step p c =
    if c == b'\n'
    then (let (event, q) = take_line (record p { buffer = [] }) p.buffer in (to_list event, q))
    else ([], record p { buffer = p.buffer ++ c ∷ [] })

unfoldable pub run : SseParser → Bytes → List SseEvent × SseParser
unfolding step
run p [] = ([], p)
run p (c ∷ cs) = let (es, q) = step p c in let (fs, r) = run q cs in (es ++ fs, r)

-- The machine reads the buffer of `p` from the start of a line.
abbrev pub read_buffer : SseParser → List SseEvent × SseParser
read_buffer p = run (record p { buffer = [] }) p.buffer

pub run-append_events :
    (p : SseParser) (xs ys : Bytes) → (run p (xs ++ ys)).0 ≡ (run p xs).0 ++ (run (run p xs).1 ys).0
unfolding run
run-append_events p [] ys = refl
run-append_events p (c ∷ cs) ys =
    ap (◌++◌ (step p c).0) (run-append_events (step p c).1 cs ys)
    ∙ sym (append_assoc (step p c).0 _ _)

pub run-append_state :
    (p : SseParser) (xs ys : Bytes) → (run p (xs ++ ys)).1 ≡ (run (run p xs).1 ys).1
unfolding run
run-append_state p [] ys = refl
run-append_state p (c ∷ cs) ys = run-append_state (step p c).1 cs ys

-- With no newline ahead the bytes only join the line.
run-split_at-none :
    (p : SseParser) (cs : Bytes)
    → split_at b'\n' cs ≡ none
    → run p cs ≡ ([], record p { buffer = p.buffer ++ cs })
unfolding run step split_at
run-split_at-none p [] e = rw append-nil
run-split_at-none p (c ∷ cs) e =
    let ih = run-split_at-none (record p { buffer = p.buffer ++ c ∷ [] }) cs in
    ground (arith, ih, append_assoc p.buffer (c ∷ []) cs)

-- What a newline behind `line` does, and then the bytes of `rest`.
abbrev pub after_line : SseParser → Bytes → Bytes → List SseEvent × SseParser
after_line p line rest =
    let (event, q) = take_line (record p { buffer = [] }) line in
    let (fs, r) = run q rest in (to_list event ++ fs, r)

-- A split of `c ∷ cs` is one of `cs`, unless `c` is the byte that is looked for.
split_at-cons :
    (b c : ℕ) (cs line rest : Bytes)
    → split_at b (c ∷ cs) ≡ some (line, rest)
    → (((c == b) ≡ true) × (line ≡ []) × (rest ≡ cs))
      ⊎ ((before : Bytes) × ((c == b) ≡ false)
          × (split_at b cs ≡ some (before, rest))
          × (line ≡ c ∷ before))
unfolding split_at
split_at-cons b c cs line rest e = elim (Bool-cases (c == b)) [
  | inl hit ↦ inl (hit, ground arith, ground arith)
  | inr miss ↦ elim (Option-cases (split_at b cs)) [
    | inl stuck ↦ absurd (ground arith)
    | inr (s, found) ↦ inr (s.0, miss, ground arith, ground arith)
  ]
]

pub run-split_at-some :
    (p : SseParser) (cs : Bytes) (line rest : Bytes)
    → split_at b'\n' cs ≡ some (line, rest)
    → run p cs ≡ after_line p (p.buffer ++ line) rest
unfolding run step
run-split_at-some p [] line rest e = (unfold split_at in cc)
run-split_at-some p (c ∷ cs) line rest e = elim (split_at-cons b'\n' c cs line rest e) [
  | inl h ↦ ground (arith, append-nil p.buffer)
  | inr (before, miss, found, e') ↦
      let ih = run-split_at-some (record p { buffer = p.buffer ++ c ∷ [] }) cs before rest found in
      ground (arith, ih, append_assoc p.buffer (c ∷ []) before)
]

split_at-length :
    (b : ℕ) (cs line rest : Bytes) → split_at b cs ≡ some (line, rest) → length rest < length cs
split_at-length b [] line rest e = (unfold split_at in cc)
split_at-length b (x ∷ xs) line rest e = elim (split_at-cons b x xs line rest e) [
  | inl h ↦ omega (arith, ap length h.2)
  | inr (before, miss, found, e') ↦ omega (arith, split_at-length b xs before rest found)
]

-- No line handler reads or writes the buffer.
abbrev pub on_buffer : Bytes → Option SseEvent × SseParser → Option SseEvent × SseParser
on_buffer b (e, q) = (e, record q { buffer = b })

set_field-buffer :
    (p : SseParser) (field value b : Bytes)
    → set_field (record p { buffer = b }) field value
      ≡ record (set_field p field value) { buffer = b }
unfolding set_field
set_field-buffer p field value b = ground arith

process_line-buffer :
    (p : SseParser) (line b : Bytes)
    → process_line (record p { buffer = b }) line ≡ record (process_line p line) { buffer = b }
process_line-buffer p [] b = (unfold process_line in refl)
process_line-buffer p (c ∷ cs) b =
    (unfold process_line in
      ground (arith, set_field-buffer p (split_field (c ∷ cs)).0 (split_field (c ∷ cs)).1 b))

pub take_line-buffer :
    (p : SseParser) (line b : Bytes)
    → take_line (record p { buffer = b }) line ≡ on_buffer b (take_line p line)
unfolding take_line dispatch_event
take_line-buffer p line b = ground (arith, process_line-buffer p (strip_cr line) b)

-- What `next_event` returns is the first event of the machine.
abbrev First : SseParser → Option SseEvent × SseParser → Type 0
First p (none, q) = read_buffer p ≡ ([], q)
First p (some e, q) =
    (read_buffer p ≡ (e ∷ (read_buffer q).0, (read_buffer q).1))
    × (length q.buffer < length p.buffer)

-- The parser behind the first line of its buffer.
abbrev behind : SseParser → Bytes → Bytes → SseParser
behind p line rest = record (take_line p line).1 { buffer = rest }

read_buffer-split_at :
    (p : SseParser) (line rest : Bytes)
    → split_at b'\n' p.buffer ≡ some (line, rest)
    → read_buffer p ≡ (
      to_list (take_line p line).0 ++ (read_buffer (behind p line rest)).0,
      (read_buffer (behind p line rest)).1,
    )
read_buffer-split_at p line rest e =
    run-split_at-some (record p { buffer = [] }) p.buffer line rest e
    ∙ rw (take_line-buffer p line [])

First-mono :
    (p q : SseParser) (r : Option SseEvent × SseParser)
    → read_buffer p ≡ read_buffer q
    → length q.buffer < length p.buffer
    → First q r
    → First p r
First-mono p q (none, s) e h f = e ∙ f
First-mono p q (some a, s) e h f = (e ∙ f.0, omega arith)

next_loop-quiet :
    (fuel : ℕ) (p : SseParser) (line rest : Bytes)
    → split_at b'\n' p.buffer ≡ some (line, rest)
    → (take_line p line).0 ≡ none
    → next_loop (suc fuel) p ≡ next_loop fuel (behind p line rest)
unfolding next_loop
next_loop-quiet fuel p line rest found quiet = ground (arith, take_line-buffer p line rest)

next_loop-emits :
    (fuel : ℕ) (p : SseParser) (line rest : Bytes) {e : SseEvent}
    → split_at b'\n' p.buffer ≡ some (line, rest)
    → (take_line p line).0 ≡ some e
    → next_loop (suc fuel) p ≡ some (some e, behind p line rest)
unfolding next_loop
next_loop-emits fuel p line rest found emits = ground (arith, take_line-buffer p line rest)

next_loop-First :
    (fuel : ℕ) (p : SseParser)
    → length p.buffer < fuel
    → (r : Option SseEvent × SseParser) × (next_loop fuel p ≡ some r) × First p r
unfolding next_loop
next_loop-First zero p h = elim h [ ]
next_loop-First (suc fuel) p h = elim (Option-cases (split_at b'\n' p.buffer)) [
  | inl stuck ↦ (
    (none, p),
    rw (stuck, next_loop),
    run-split_at-none (record p { buffer = [] }) p.buffer stuck,
  )
  | inr ((line, rest), found) ↦
      let shorter = split_at-length b'\n' p.buffer line rest found in
      let read = read_buffer-split_at p line rest found in
      let q = behind p line rest in
      let (r, e, f) = next_loop-First fuel q (omega arith) in
      elim (Option-cases (take_line p line).0) [
        | inl quiet ↦ (
          r,
          next_loop-quiet fuel p line rest found quiet ∙ e,
          First-mono p q r (ground arith) shorter f,
        )
        | inr (event, emits) ↦
            ((some event, q), next_loop-emits fuel p line rest found emits, (ground arith, shorter))
      ]
]

drain_loop-read_buffer :
    (fuel : ℕ) (p : SseParser) → length p.buffer < fuel → drain_loop fuel p ≡ some (read_buffer p)
unfolding drain_loop next_event
drain_loop-read_buffer zero p h = elim h [ ]
drain_loop-read_buffer (suc fuel) p h =
    let (r, e, f) = next_loop-First (suc (length p.buffer)) p (omega arith) in
    go r e f (drain_loop-read_buffer fuel)
  where
    go :
        (r : Option SseEvent × SseParser)
        → next_loop (suc (length p.buffer)) p ≡ some r
        → First p r
        → ((q : SseParser) → length q.buffer < fuel → drain_loop fuel q ≡ some (read_buffer q))
        → drain_loop (suc fuel) p ≡ some (read_buffer p)
    go (none, q) e f ih = rw (e, drain_loop) (rw f)
    go (some a, q) e f ih = rw (e, drain_loop) (rw (ih q (omega arith)) (rw f.0))

-- Draining the parser is reading its buffer byte by byte.
pub drain-read_buffer : (p : SseParser) → drain p ≡ some (read_buffer p)
unfolding drain
drain-read_buffer p = drain_loop-read_buffer (suc (length p.buffer)) p (omega arith)
