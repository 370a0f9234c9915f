-- ===== src/Sse/Tests.antt =====
-- Runs of the parser, and the theorems at concrete streams.
use ai_sdk_cpp.Prelude.{◌≡◌, refl, [], ◌∷◌, some, none, arith, codes, str_eq}
use ai_sdk_cpp.Sse.{message, parse, parse_chunks, flush, feed, drain, take_line, strip_cr}
use ai_sdk_cpp.Sse.Render.{Outgoing, IsSendable, render_all, to_event, parse-render_all}
use ai_sdk_cpp.Sse.Render.Bom.{parse-cut_bom}

two_lines :
    parse (codes "data: a\nda" ∷ codes "ta:b\r\n\n" ∷ [])
    ≡ some (record { event = message; payload = codes "a\nb"; id = []; retry = none } ∷ [])
unfolding parse parse_chunks flush drain feed take_line str_eq strip_cr
two_lines = refl

-- An empty first data line leaves no trace.
empty_first_line :
    parse (codes "data:\ndata: x\n\n" ∷ [])
    ≡ some (record { event = message; payload = codes "x"; id = []; retry = none } ∷ [])
unfolding parse parse_chunks flush drain feed take_line str_eq strip_cr
empty_first_line = refl

abbrev ping : Outgoing
ping = record { event = codes "ping"; id = codes "7"; line = codes "a"; more = codes "b" ∷ [] }

ping-IsSendable : IsSendable ping
ping-IsSendable = record {
  event_line = omega arith;
  id_line = omega arith;
  id_nul = refl;
  first_line = omega arith;
  first_ne_nil = refl;
  more_lines = omega arith;
}

parse-render_all_example :
    parse (codes "event: ping\nid: 7\nda" ∷ codes "ta: a\ndata: b\n\n" ∷ [])
    ≡ some (to_event ping ∷ [])
parse-render_all_example =
    parse-render_all (ping ∷ []) (codes "event: ping\nid: 7\nda") (codes "ta: a\ndata: b\n\n" ∷ [])
      (ping-IsSendable, tt) refl

parse-cut_bom_example :
    parse ((0xEF ∷ []) ∷ (0xBB ∷ 0xBF ∷ render_all (ping ∷ [])) ∷ [])
    ≡ some (record (to_event ping) { event = message } ∷ [])
parse-cut_bom_example = parse-cut_bom ping [] ping-IsSendable tt
