-- ===== src/Sse/Render/Bom.antt =====
-- A byte order mark that the first read cuts: `strip_bom` looks once, at the first chunk only.
use ai_sdk_cpp.Prelude.{
  ◌≡◌, refl, ap, ◌∙◌, List, [], ◌∷◌, ◌++◌, map, append-nil, some, arith, Bytes, codes, str_eq, All,
}
use ai_sdk_cpp.Sse.{SseParser, message, drop_bom, set_field, parse}
use ai_sdk_cpp.Sse.Machine.{run}
use ai_sdk_cpp.Sse.Chunks.{start, decode, parse-decode}
use ai_sdk_cpp.Sse.Render.{
  Outgoing, IsSendable, IsLine, render, render_all, render-append, to_event, field_line,
  run-field_line, run-render_tail, run-render_all, after_event,
}

abbrev marked_name : Bytes
marked_name = 0xEF ∷ 0xBB ∷ 0xBF ∷ codes "event"

-- The mark joins the name of the first field, which is then unknown.
run-marked :
    (p : SseParser) (v rest : Bytes)
    → p.buffer ≡ []
    → IsLine v
    → run p (field_line marked_name v ++ rest) ≡ run p rest
unfolding set_field str_eq
run-marked p v rest e h =
    run-field_line p 0xEF (0xBB ∷ 0xBF ∷ codes "event") v rest e (omega arith) (omega arith) h
    ∙ ap (λ q. run q rest) (ground arith)

run-marked_render :
    (o : Outgoing) (rest : Bytes)
    → IsSendable o
    → run start (0xEF ∷ 0xBB ∷ 0xBF ∷ (render o ++ rest)) ≡ (
      record (to_event o) { event = message } ∷ (run (after_event start o.id) rest).0,
      (run (after_event start o.id) rest).1,
    )
run-marked_render o rest h =
    ap (λ t. run start (0xEF ∷ 0xBB ∷ 0xBF ∷ t)) (render-append o rest)
    ∙ run-marked start o.event _ refl h.event_line
    ∙ run-render_tail o start rest refl refl h

-- A mark of which the first chunk holds only one byte stays in the text: the first event loses its
-- type and becomes a `message`.
pub parse-cut_bom :
    (o : Outgoing) (os : List Outgoing)
    → IsSendable o
    → All IsSendable os
    → parse ((0xEF ∷ []) ∷ (0xBB ∷ 0xBF ∷ render_all (o ∷ os)) ∷ [])
      ≡ some (record (to_event o) { event = message } ∷ map to_event os)
unfolding drop_bom
parse-cut_bom o os h hs =
    let (events, clean) = run-render_all os (after_event start o.id) refl refl hs in
    parse-decode (0xEF ∷ []) _
    ∙ ap (λ s. some (decode (0xEF ∷ 0xBB ∷ 0xBF ∷ s))) (append-nil (render_all (o ∷ os)))
    ∙ ap some (
        unfold decode in
        rw (run-marked_render o (render_all os) h) (rw (clean, events) (append-nil _)))
