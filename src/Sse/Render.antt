-- ===== src/Sse/Render.antt =====
-- Events written in the wire format, and read back.
pub mod Bom
use ai_sdk_cpp.Prelude.{
  ℕ, ◌≡◌, ◌≢◌, refl, sym, ap, ◌∙◌, inl, inr, Bool, true, false, List, [], ◌∷◌, ◌++◌, map,
  append-nil, append_assoc, Option, none, some, arith, Bytes, codes, str_eq, ◌==◌, if◌then◌else◌,
  is_empty, All, any_of,
}
use ai_sdk_cpp.Sse.{
  SseEvent, SseParser, initial, message, split_at, strip_cr, strip_space, split_field, set_field,
  process_line, dispatch_event, take_line, parse, drop_bom,
}
use ai_sdk_cpp.Sse.Machine.{
  to_list, after_line, run, on_buffer, take_line-buffer, run-split_at-some, run-append_events,
  run-append_state,
}
use ai_sdk_cpp.Sse.Chunks.{start, decode, concat, parse-decode}

-- No byte that ends a line.
abbrev pub IsLine : Bytes → Type 0
IsLine = All (λ c. (c ≢ b'\n') × (c ≢ b'\r'))

-- `data: line`, and so for the other fields.
abbrev pub field_line : Bytes → Bytes → Bytes
field_line name value = name ++ (b':' ∷ b' ' ∷ (value ++ b'\n' ∷ []))

abbrev pub data_lines : List Bytes → Bytes
data_lines [] = []
data_lines (l ∷ ls) = field_line (codes "data") l ++ data_lines ls

-- The lines of a payload, joined by newlines.
abbrev pub unlines : List Bytes → Bytes
unlines [] = []
unlines (l ∷ ls) = b'\n' ∷ (l ++ unlines ls)

-- An event to be written: `line` and `more` are the lines of its payload.
pub record Outgoing : Type 0 where
  pub event : Bytes
  pub id : Bytes
  pub line : Bytes
  pub more : List Bytes

abbrev pub render : Outgoing → Bytes
render o =
    field_line (codes "event") o.event
    ++ (field_line (codes "id") o.id ++ (data_lines (o.line ∷ o.more) ++ b'\n' ∷ []))

abbrev pub render_all : List Outgoing → Bytes
render_all [] = []
render_all (o ∷ os) = render o ++ render_all os

abbrev pub to_event : Outgoing → SseEvent
to_event o = record { event = o.event; payload = o.line ++ unlines o.more; id = o.id; retry = none }

-- What the wire format can carry: no line ends inside a line, no NUL in the id, and a first line
-- of the payload that is not empty.
pub record IsSendable (o : Outgoing) : Type 0 where
  pub event_line : IsLine o.event
  pub id_line : IsLine o.id
  pub id_nul : any_of (λ c. c == 0) o.id ≡ false
  pub first_line : IsLine o.line
  pub first_ne_nil : is_empty o.line ≡ false
  pub more_lines : All IsLine o.more

split_at-append :
    (b : ℕ) (xs ys : Bytes) → All (λ c. c ≢ b) xs → split_at b (xs ++ b ∷ ys) ≡ some (xs, ys)
unfolding split_at
split_at-append b [] ys h = ground arith
split_at-append b (x ∷ xs) ys h = ground (arith, split_at-append b xs ys h.1)

strip_cr-IsLine : (l : Bytes) → IsLine l → strip_cr l ≡ l
unfolding strip_cr
strip_cr-IsLine [] h = refl
strip_cr-IsLine (c ∷ []) h = ground arith
strip_cr-IsLine (c ∷ d ∷ r) h = ap (◌∷◌ c) (strip_cr-IsLine (d ∷ r) h.1)

IsLine-newline : (l : Bytes) → IsLine l → All (λ c. c ≢ b'\n') l
IsLine-newline [] h = tt
IsLine-newline (c ∷ cs) h = (h.0.0, IsLine-newline cs h.1)

abbrev emits : Option SseEvent × SseParser → Bytes → List SseEvent × SseParser
emits (e, q) rest = let (fs, r) = run q rest in (to_list e ++ fs, r)

-- A line up to its newline is handed to `take_line`.
run-line :
    (p : SseParser) (l rest : Bytes)
    → p.buffer ≡ []
    → IsLine l
    → run p (l ++ b'\n' ∷ rest) ≡ emits (on_buffer [] (take_line p l)) rest
run-line p l rest e h =
    run-split_at-some p _ l rest (split_at-append b'\n' l rest (IsLine-newline l h))
    ∙ ap (λ b. after_line p (b ++ l) rest) e
    ∙ ap (λ t. emits t rest) (take_line-buffer p l [])

take_line-field :
    (p : SseParser) (c : ℕ) (cs : Bytes)
    → IsLine (c ∷ cs)
    → take_line p (c ∷ cs) ≡ (none, process_line p (c ∷ cs))
take_line-field p c cs h = (unfold take_line in rw (strip_cr-IsLine (c ∷ cs) h))

IsLine-append : (xs ys : Bytes) → IsLine xs → IsLine ys → IsLine (xs ++ ys)
IsLine-append [] ys h k = k
IsLine-append (x ∷ xs) ys h k = (h.0, IsLine-append xs ys h.1 k)

process_line-split :
    (p : SseParser) (c : ℕ) (cs v : Bytes)
    → All (λ x. x ≢ b':') (c ∷ cs)
    → process_line p ((c ∷ cs) ++ b':' ∷ b' ' ∷ v) ≡ set_field p (c ∷ cs) v
process_line-split p c cs v h =
    (unfold process_line split_at in ground (arith, split_at-append b':' cs (b' ' ∷ v) h.1))

regroup :
    (cs v rest : Bytes)
    → (cs ++ (b':' ∷ b' ' ∷ (v ++ b'\n' ∷ []))) ++ rest ≡ (cs ++ b':' ∷ b' ' ∷ v) ++ b'\n' ∷ rest
regroup cs v rest = simp append_assoc

run-field_line :
    (p : SseParser) (c : ℕ) (cs v rest : Bytes)
    → p.buffer ≡ []
    → All (λ x. x ≢ b':') (c ∷ cs)
    → IsLine (c ∷ cs)
    → IsLine v
    → run p (field_line (c ∷ cs) v ++ rest)
      ≡ run (record (set_field p (c ∷ cs) v) { buffer = [] }) rest
run-field_line p c cs v rest e h k l =
    ap (λ t. run p (c ∷ t)) (regroup cs v rest)
    ∙ run-line p (c ∷ line) rest e whole
    ∙ ap (λ t. emits (on_buffer [] t) rest) (take_line-field p c line whole)
    ∙ ap (λ q. run (record q { buffer = [] }) rest) (process_line-split p c cs v h)
  where
    line : Bytes
    line = cs ++ b':' ∷ b' ' ∷ v

    whole : IsLine (c ∷ line)
    whole =
        IsLine-append (c ∷ cs) _ k
          ((λ x. omega arith, λ x. omega arith), ((λ x. omega arith, λ x. omega arith), l))

abbrev with_event : SseParser → Bytes → SseParser
with_event p v = record p { buffer = []; event_type = v }

abbrev with_id : SseParser → Bytes → SseParser
with_id p v = record p { buffer = []; last_id = v }

abbrev with_data : SseParser → Bytes → SseParser
with_data p v = record p { buffer = []; data_buffer = v }

run-event :
    (p : SseParser) (v rest : Bytes)
    → p.buffer ≡ []
    → IsLine v
    → run p (field_line (codes "event") v ++ rest) ≡ run (with_event p v) rest
unfolding set_field str_eq
run-event p v rest e h = run-field_line p b'e' (codes "vent") v rest e (omega arith) (omega arith) h

run-id :
    (p : SseParser) (v rest : Bytes)
    → p.buffer ≡ []
    → IsLine v
    → any_of (λ c. c == 0) v ≡ false
    → run p (field_line (codes "id") v ++ rest) ≡ run (with_id p v) rest
unfolding set_field str_eq
run-id p v rest e h z =
    run-field_line p b'i' (codes "d") v rest e (omega arith) (omega arith) h ∙ rw z

run-data :
    (p : SseParser) (v rest : Bytes)
    → p.buffer ≡ []
    → IsLine v
    → run p (field_line (codes "data") v ++ rest)
      ≡ run (with_data p (if is_empty p.data_buffer then v else p.data_buffer ++ b'\n' ∷ v)) rest
unfolding set_field str_eq
run-data p v rest e h =
    run-field_line p b'd' (codes "ata") v rest e (omega arith) (omega arith) h ∙ ground arith

is_empty-append : (b c : Bytes) → is_empty b ≡ false → is_empty (b ++ c) ≡ false
is_empty-append [] c h = cc
is_empty-append (x ∷ b) c h = refl

-- Further data lines, behind a payload that is not empty.
run-data_lines :
    (ls : List Bytes) (p : SseParser) (b rest : Bytes)
    → p.buffer ≡ []
    → p.data_buffer ≡ b
    → is_empty b ≡ false
    → All IsLine ls
    → run p (data_lines ls ++ rest) ≡ run (with_data p (b ++ unlines ls)) rest
run-data_lines [] p b rest e d n h = ap (λ q. run q rest) (ground (arith, append-nil b))
run-data_lines (l ∷ ls) p b rest e d n h =
    ap (run p) (append_assoc (field_line (codes "data") l) (data_lines ls) rest)
    ∙ run-data p l (data_lines ls ++ rest) e h.0
    ∙ rw (d, n)
        (run-data_lines ls (with_data p (b ++ b'\n' ∷ l)) (b ++ b'\n' ∷ l) rest refl refl
            (is_empty-append b _ n) h.1
          ∙ rw (append_assoc b (b'\n' ∷ l) (unlines ls)))

take_line-blank :
    (p : SseParser)
    → is_empty p.data_buffer ≡ false
    → take_line p [] ≡ (
      some (record { event = p.event_type; payload = p.data_buffer; id = p.last_id; retry = none }),
      record p { data_buffer = []; event_type = message },
    )
unfolding take_line dispatch_event strip_cr
take_line-blank p h = rw h

-- The parser behind an event: only the last id is kept.
abbrev after_event : SseParser → Bytes → SseParser
after_event p i = record p { buffer = []; event_type = message; data_buffer = []; last_id = i }

run-payload :
    (o : Outgoing) (p : SseParser) (rest : Bytes)
    → p.buffer ≡ []
    → p.data_buffer ≡ []
    → IsSendable o
    → run p (data_lines (o.line ∷ o.more) ++ b'\n' ∷ rest)
      ≡ run (with_data p (o.line ++ unlines o.more)) (b'\n' ∷ rest)
run-payload o p rest e d h =
    ap (run p) (append_assoc (field_line (codes "data") o.line) (data_lines o.more) _)
    ∙ run-data p o.line (data_lines o.more ++ b'\n' ∷ rest) e h.first_line
    ∙ rw d
        (run-data_lines o.more (with_data p o.line) o.line _ refl refl h.first_ne_nil h.more_lines)

render-append :
    (o : Outgoing) (rest : Bytes)
    → render o ++ rest
      ≡ field_line (codes "event") o.event
        ++ (field_line (codes "id") o.id ++ (data_lines (o.line ∷ o.more) ++ b'\n' ∷ rest))
render-append o rest = simp append_assoc

-- The lines behind the first: the event's type is the one that the parser holds.
run-render_tail :
    (o : Outgoing) (p : SseParser) (rest : Bytes)
    → p.buffer ≡ []
    → p.data_buffer ≡ []
    → IsSendable o
    → run p (field_line (codes "id") o.id ++ (data_lines (o.line ∷ o.more) ++ b'\n' ∷ rest)) ≡ (
      record (to_event o) { event = p.event_type } ∷ (run (after_event p o.id) rest).0,
      (run (after_event p o.id) rest).1,
    )
run-render_tail o p rest e d h =
    let q = with_id p o.id in
    run-id p o.id _ e h.id_line h.id_nul
    ∙ run-payload o q rest refl d h
    ∙ run-line (with_data q (o.line ++ unlines o.more)) [] rest refl tt
    ∙ ap (λ t. emits (on_buffer [] t) rest)
        (take_line-blank (with_data q (o.line ++ unlines o.more))
          (is_empty-append o.line _ h.first_ne_nil))

run-render :
    (o : Outgoing) (p : SseParser) (rest : Bytes)
    → p.buffer ≡ []
    → p.data_buffer ≡ []
    → IsSendable o
    → run p (render o ++ rest)
      ≡ (to_event o ∷ (run (after_event p o.id) rest).0, (run (after_event p o.id) rest).1)
run-render o p rest e d h =
    ap (run p) (render-append o rest)
    ∙ run-event p o.event _ e h.event_line
    ∙ run-render_tail o (with_event p o.event) rest refl d h

run-render_all :
    (os : List Outgoing) (p : SseParser)
    → p.buffer ≡ []
    → p.data_buffer ≡ []
    → All IsSendable os
    → ((run p (render_all os)).0 ≡ map to_event os) × ((run p (render_all os)).1.buffer ≡ [])
run-render_all [] p e d h = (unfold run in (refl, e))
run-render_all (o ∷ os) p e d h =
    let (events, clean) = run-render_all os (after_event p o.id) refl refl h.1 in
    rw (run-render o p (render_all os) e d h.0) (ap (◌∷◌ (to_event o)) events, clean)

-- The writer begins with no byte order mark.
drop_bom_lem : (os : List Outgoing) (c s : Bytes) → c ++ s ≡ render_all os → drop_bom c ≡ c
unfolding drop_bom
drop_bom_lem os (x ∷ y ∷ z ∷ r) s e = go os e
  where
    go :
        (os : List Outgoing)
        → x ∷ y ∷ z ∷ (r ++ s) ≡ render_all os
        → drop_bom (x ∷ y ∷ z ∷ r) ≡ x ∷ y ∷ z ∷ r
    go [] e = absurd (cc)
    go (o ∷ os) e = ground arith
drop_bom_lem os c s e = refl

-- The round trip: events with no line break in a type, an id or a payload line, no NUL in an id and a
-- first payload line that is not empty, in the wire format and cut into chunks anywhere, are read back
-- in order, each once, with the type, the id and all payload lines that were written.
pub parse-render_all :
    (os : List Outgoing) (c : Bytes) (cs : List Bytes)
    → All IsSendable os
    → c ++ concat cs ≡ render_all os
    → parse (c ∷ cs) ≡ some (map to_event os)
parse-render_all os c cs h e =
    let (events, clean) = run-render_all os start refl refl h in
    parse-decode c cs
    ∙ ap (λ s. some (decode s)) (ap (λ s. s ++ concat cs) (drop_bom_lem os c (concat cs) e) ∙ e)
    ∙ ap some (unfold decode in rw (clean, events) (append-nil (map to_event os)))
