-- ===== src/GenerateObject/Partials.antt =====
-- The values that a stream yields on its way.
use ai_sdk_cpp.Prelude.{
  ℕ, ◌≡◌, refl, sym, ap, subst, ◌∙◌, ◌⊎◌, inl, inr, Bool, true, false, Bool-cases, List, [], ◌∷◌,
  ◌++◌, append-nil, append_assoc, All, Option, none, some, codes, Bytes, arith, if◌then◌else◌,
}
use ai_sdk_cpp.Prompt.{Json}
use ai_sdk_cpp.JsonView.{JsonView, Among}
use ai_sdk_cpp.Schema.{ValidationResult, validate}
use ai_sdk_cpp.StreamText.{StreamPart}
use ai_sdk_cpp.GenerateObject.{
  Outcome, returned, raised, Failure, FinalState, Drained, after_delta, assemble, suffixes,
  first_some, parse_with, try_parse_partial, object_of_text, judged, drain,
}
use ai_sdk_cpp.GenerateObject.Stream.{deltas}

-- What may close a value that is cut off.
abbrev pub closings : List Bytes
closings = codes "}" ∷ codes "}}" ∷ codes "]}}" ∷ codes "\"}" ∷ codes "\"]}" ∷ []

module _ {J : Json} (V : JsonView J) (fuel : ℕ) where
  -- A value that the text, or a beginning of it with one of the closings, parses to.
  abbrev pub IsRecovered : Bytes → J.Value → Type 0
  IsRecovered text v =
      (seen : Bytes) × (rest : Bytes) × (s : Bytes) × (seen ++ rest ≡ text)
      × Among s ([] ∷ closings)
      × (J.safe_parse (seen ++ s) ≡ some v)

  -- Each value differs from the one before it.
  abbrev pub Changes : J.Value → List J.Value → Type 0
  Changes last [] = Unit {0}
  Changes last (v ∷ vs) = (V.same v last ≡ false) × Changes v vs

  abbrev pub last_of : J.Value → List J.Value → J.Value
  last_of last [] = last
  last_of last (v ∷ vs) = last_of v vs

  -- The first of two.
  first_some-cases :
      {A : Type 0} (a b : Option A) (v : A) → first_some a b ≡ some v → (a ≡ some v) ⊎ (b ≡ some v)
  first_some-cases none b v h = inr h
  first_some-cases (some u) b v h = inl h

  parse_with-Recovered :
      (buffer : Bytes) (ss : List Bytes) (v : J.Value)
      → parse_with J buffer ss ≡ some v
      → (s : Bytes) × Among s ss × (J.safe_parse (buffer ++ s) ≡ some v)
  unfolding parse_with
  parse_with-Recovered buffer [] v h = absurd (cc h)
  parse_with-Recovered buffer (s ∷ ss) v h =
      elim (first_some-cases (J.safe_parse (buffer ++ s)) (parse_with J buffer ss) v h) [
        | inl here ↦ (s, inl refl, here)
        | inr later ↦ let (s', m, p) = parse_with-Recovered buffer ss v later in (s', inr m, p)
      ]

  try_parse_partial-IsRecovered :
      (buffer rest : Bytes) (v : J.Value)
      → try_parse_partial J buffer ≡ some v
      → IsRecovered (buffer ++ rest) v
  unfolding try_parse_partial
  try_parse_partial-IsRecovered buffer rest v h =
      elim (first_some-cases (J.safe_parse buffer) (parse_with J buffer suffixes) v h) [
        | inl here ↦ (buffer, rest, [], refl, inl refl, ap J.safe_parse (append-nil buffer) ∙ here)
        | inr later ↦
            let (s, m, p) = parse_with-Recovered buffer suffixes v later in
            (buffer, rest, s, refl, inr m, p)
      ]

  -- What a drained stream has yielded: values of the text, each other than the one before, and at the
  -- end of a stream that has not failed the object of the final state, or a value that is the same.
  abbrev pub IsGood : Bytes → J.Value → Drained J → Type 0
  IsGood text last d =
      All (IsRecovered text) d.yielded
      × Changes last d.yielded
      × (d.failure ≡ none
          → V.same d.state.object (last_of last d.yielded) ≡ true
            ⊎ (last_of last d.yielded ≡ d.state.object))

  judged-parsed :
      (o : Option J.Value) (schema : J.Object) (text : Bytes) (v : J.Value)
      → (elim o [
        | none ↦ raised (Failure.parse_error text)
        | some u ↦ judged V fuel u (validate V fuel schema u)
      ])
        ≡ returned v
      → o ≡ some v
  judged-parsed none schema text v h = absurd (cc h)
  judged-parsed (some u) schema text v h = by_result (validate V fuel schema u) h
    where
      by_success :
          (b : Bool) (e : Failure J)
          → (if b then returned u else raised e) ≡ returned v
          → some u ≡ some v
      by_success true e h = ground (arith, h)
      by_success false e h = absurd (cc h)

      by_result :
          (r : Option (ValidationResult J)) → judged V fuel u r ≡ returned v → some u ≡ some v
      by_result none h = absurd (cc h)
      by_result (some r) h = by_success r.success _ h

  object_of_text-parsed :
      (schema : J.Object) (text : Bytes) (v : J.Value)
      → object_of_text V fuel schema text ≡ returned v
      → J.safe_parse text ≡ some v
  unfolding object_of_text
  object_of_text-parsed schema [] v h = absurd (cc h)
  object_of_text-parsed schema (c ∷ cs) v h =
      judged-parsed (J.safe_parse (c ∷ cs)) schema (c ∷ cs) v h

  assemble-IsGood :
      (text : Bytes) (last : J.Value) (state : FinalState J) (x : Outcome J J.Value)
      → ((v : J.Value) → x ≡ returned v → J.safe_parse text ≡ some v)
      → IsGood text last (assemble V last state x)
  assemble-IsGood text last state (raised e) parsed = (tt, tt, (λ h. absurd (cc h)))
  assemble-IsGood text last state (returned v) parsed = elim (Bool-cases (V.same v last)) [
    | inl same ↦ rw same (tt, tt, (λ h. inl same))
    | inr other ↦ rw other (
      (
        (
          text,
          [],
          [],
          append-nil text,
          inl refl,
          ap J.safe_parse (append-nil text) ∙ parsed v refl,
        ),
        tt,
      ),
      (other, tt),
      (λ h. inr refl),
    )
  ]

  after_delta-IsGood :
      (text : Bytes) (last : J.Value) (o : Option J.Value) (rest : J.Value → Drained J)
      → ((v : J.Value) → o ≡ some v → IsRecovered text v)
      → ((v : J.Value) → IsGood text v (rest v))
      → IsGood text last (after_delta V o last rest)
  after_delta-IsGood text last none rest recovered h = h last
  after_delta-IsGood text last (some v) rest recovered h = elim (Bool-cases (V.same v last)) [
    | inl same ↦ rw same (h last)
    | inr other ↦ rw other ((recovered v refl, (h v).0), (other, (h v).1), (h v).2)
  ]

  -- However the stream ends: each value that it yields is parsed from the text of its deltas, or from a
  -- beginning of it with a closing suffix, and differs from the one before. If the stream does not
  -- fail, the last value that it has yielded, or the initial one if it has yielded none, is its object,
  -- or one that the comparison takes for the same.
  pub drain-IsGood :
      (schema : J.Object) (parts : List (StreamPart J)) (buffer : Bytes) (last : J.Value)
      (state : FinalState J) (failure : Option Bytes)
      → IsGood (buffer ++ deltas parts) last (drain V fuel schema buffer last state parts failure)
  unfolding drain deltas
  drain-IsGood schema [] buffer last state none =
      subst (λ text. IsGood text last (assemble V last state (object_of_text V fuel schema buffer)))
        (sym (append-nil buffer))
        (assemble-IsGood buffer last state _ (object_of_text-parsed schema buffer))
  drain-IsGood schema [] buffer last state (some e) = (tt, tt, (λ h. absurd (cc h)))
  drain-IsGood schema (StreamPart.text_delta id delta ∷ parts) buffer last state failure =
      subst
        (λ text.
          IsGood text last (
            drain V fuel schema buffer last state (StreamPart.text_delta id delta ∷ parts) failure))
        (append_assoc buffer delta (deltas parts))
        (after_delta-IsGood ((buffer ++ delta) ++ deltas parts) last
          (try_parse_partial J (buffer ++ delta)) _
          (try_parse_partial-IsRecovered (buffer ++ delta) (deltas parts))
          (λ v. drain-IsGood schema parts (buffer ++ delta) v state failure))
  drain-IsGood schema (StreamPart.error_part message code ∷ parts) buffer last state failure =
      (tt, tt, (λ h. absurd (cc h)))
  drain-IsGood schema (StreamPart.finish reason usage metadata ∷ parts) buffer last state failure =
      drain-IsGood schema parts buffer last _ failure
  drain-IsGood schema (StreamPart.stream_start ws ∷ parts) buffer last state failure =
      drain-IsGood schema parts buffer last _ failure
  drain-IsGood schema (StreamPart.text_start id ∷ parts) buffer last state failure =
      drain-IsGood schema parts buffer last _ failure
  drain-IsGood schema (StreamPart.text_end id ∷ parts) buffer last state failure =
      drain-IsGood schema parts buffer last _ failure
  drain-IsGood schema (StreamPart.reasoning_start id ∷ parts) buffer last state failure =
      drain-IsGood schema parts buffer last _ failure
  drain-IsGood schema (StreamPart.reasoning_delta id d ∷ parts) buffer last state failure =
      drain-IsGood schema parts buffer last _ failure
  drain-IsGood schema (StreamPart.reasoning_end id s r ∷ parts) buffer last state failure =
      drain-IsGood schema parts buffer last _ failure
  drain-IsGood schema (StreamPart.tool_input_start id n p ∷ parts) buffer last state failure =
      drain-IsGood schema parts buffer last _ failure
  drain-IsGood schema (StreamPart.tool_input_delta id d ∷ parts) buffer last state failure =
      drain-IsGood schema parts buffer last _ failure
  drain-IsGood schema (StreamPart.tool_input_end id ∷ parts) buffer last state failure =
      drain-IsGood schema parts buffer last _ failure
  drain-IsGood schema (StreamPart.response_metadata i m t ∷ parts) buffer last state failure =
      drain-IsGood schema parts buffer last _ failure
  drain-IsGood schema (StreamPart.raw v ∷ parts) buffer last state failure =
      drain-IsGood schema parts buffer last _ failure
