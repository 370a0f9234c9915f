-- ===== src/Session/State.antt =====
-- What the operations on a session's state keep: the system message, the bookkeeping and snapshots.
use ai_sdk_cpp.Prelude.{ℕ, ◌+◌, none, some, suc, ◌≡◌, refl, ap, [], ◌∷◌, ◌++◌, Option, Bytes}
use ai_sdk_cpp.Prompt.{Json, UserPart, Message, Prompt}
use ai_sdk_cpp.Tools.{Attempt, ok, threw, Task}
use ai_sdk_cpp.Generate.{GenerateTextResult}
use ai_sdk_cpp.Context.Pairing.{Paired}
use ai_sdk_cpp.Agent.{Agent}
use ai_sdk_cpp.Session.{
  Session, SessionMetadata, set_system, add_user, with_system, add_if, update_metadata,
  answered_turn, managed_turn, send, extract_turn_messages,
}

-- A total behind a turn: the same if no number is known, and else larger by it.
abbrev pub Grown : ℕ → Option ℕ → ℕ → Type 0
Grown total none after = after ≡ total
Grown total (some n) after = after ≡ total + n

add_if-Grown : (total : ℕ) (o : Option ℕ) → Grown total o (add_if total o)
add_if-Grown total none = refl
add_if-Grown total (some n) = refl

-- The session with one more message of the user at the end.
abbrev pub asked_session : {J : Json} → Session J → Bytes → Session J
asked_session {J} s text = record {
  id = s.id;
  history =
      s.history
      ++ Message.user (record {
        content = UserPart.text (record { text = text; provider_options = J.empty_object }) ∷ [];
        provider_options = J.empty_object;
      })
        ∷ [];
  metadata = s.metadata;
}

module _ {J : Json} {W : Type 0} (manage : Prompt J → Task W (Prompt J)) (agent : Agent J W) where
  -- How `send` ends, by what the strategy and the agent do: the answer and the session behind it.
  pub data Sent (s : Session J) (w : W) : Attempt (GenerateTextResult J) → Session J → Type 0 where
    unmanaged : (e : Bytes) (w1 : W) → manage s.history w ≡ (threw e, w1) → Sent s w (threw e) s
    unanswered :
        (m : Prompt J) (e : Bytes) (w1 w2 : W)
        → manage s.history w ≡ (ok m, w1)
        → agent.call m w1 ≡ (threw e, w2)
        → Sent s w (threw e) s
    answered :
        (m : Prompt J) (r : GenerateTextResult J) (md : SessionMetadata) (w1 w2 : W)
        → manage s.history w ≡ (ok m, w1)
        → agent.call m w1 ≡ (ok r, w2)
        → md.turns ≡ suc s.metadata.turns
        → Grown s.metadata.total_input_tokens r.usage.input_total md.total_input_tokens
        → Grown s.metadata.total_output_tokens r.usage.output_total md.total_output_tokens
        → Sent s w
            (ok r)
            (record { id = s.id; history = m ++ extract_turn_messages r; metadata = md })

  module _ (hook : Option (Session J → Task W (Unit {0}))) where
    answered_turn-Sent :
        (asked : Session J) (w w1 : W) (m : Prompt J)
        → manage asked.history w ≡ (ok m, w1)
        → (x : Attempt (GenerateTextResult J) × W) → agent.call m w1 ≡ x
        → Sent asked w (answered_turn hook asked m x).0 (answered_turn hook asked m x).1
    unfolding answered_turn update_metadata
    answered_turn-Sent asked w w1 m f (threw e, w2) g = unanswered m e w1 w2 f g
    answered_turn-Sent asked w w1 m f (ok r, w2) g =
        answered m r _ w1 w2 f g refl (add_if-Grown _ r.usage.input_total)
          (add_if-Grown _ r.usage.output_total)

    managed_turn-Sent :
        (asked : Session J) (w : W) (x : Attempt (Prompt J) × W)
        → manage asked.history w ≡ x
        → Sent asked w (managed_turn agent hook asked x).0 (managed_turn agent hook asked x).1
    unfolding managed_turn
    managed_turn-Sent asked w (threw e, w1) f = unmanaged e w1 f
    managed_turn-Sent asked w (ok m, w1) f =
        answered_turn-Sent asked w w1 m f (agent.call m w1) refl

    -- Every call of `send` ends in one of three ways, from the session with the user's message at the
    -- end of its history. If
    -- the strategy or the agent throws, that session stays: the message is kept and no turn is counted.
    -- If both return, the result is returned, whatever the hook does, one turn more is counted, the
    -- input and output tokens that the result names are added, and the history is the managed one with the turn behind it.
    pub send-Sent :
        (s : Session J) (text : Bytes) (w : W)
        → Sent
            (asked_session s text)
            w
            (send manage agent hook s text w).0
            (send manage agent hook s text w).1
    unfolding send add_user
    send-Sent s text w =
        managed_turn-Sent (asked_session s text) w (manage (asked_session s text).history w) refl

module _ {J : Json} where
  with_system_again :
      (first second : Bytes) (ms : Prompt J)
      → with_system second (with_system first ms) ≡ with_system second ms
  with_system_again first second [] = refl
  with_system_again first second (Message.system m ∷ ms) = refl
  with_system_again first second (Message.user m ∷ ms) = refl
  with_system_again first second (Message.assistant m ∷ ms) = refl
  with_system_again first second (Message.tool m ∷ ms) = refl

  with_system-Paired :
      (text : Bytes) (ms : Prompt J) → Paired [] ms → Paired [] (with_system text ms)
  with_system-Paired text [] h = tt
  with_system-Paired text (Message.system m ∷ ms) h = h
  with_system-Paired text (Message.user m ∷ ms) h = h
  with_system-Paired text (Message.assistant m ∷ ms) h = h
  with_system-Paired text (Message.tool m ∷ ms) h = h

  -- Only the system message that was set last counts, and setting one keeps a paired history paired.
  set_system_again :
      (s : Session J) (first second : Bytes)
      → Paired [] s.history
      → (set_system (set_system s first) second ≡ set_system s second)
        × Paired [] (set_system s second).history
  unfolding set_system
  set_system_again s first second h = (
    ap (λ ms. record s { history = ms }) (with_system_again first second s.history),
    with_system-Paired second s.history h,
  )
