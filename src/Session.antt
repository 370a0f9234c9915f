-- ===== src/Session.antt =====
-- src/session/session.cpp and include/ai/session/session.hpp: the owner of a conversation. The agent,
-- the context strategy and the hook behind a turn are arguments: the strategy is one of those of
-- Context, with its window, counter and summarizer given; `none` is an exception it lets through.
mod State
pub mod Turn
mod Tests
use ai_sdk_cpp.Prelude.{
  ℕ, suc, ◌+◌, Bool, true, false, not, ◌&&◌, ◌||◌, List, [], ◌∷◌, ◌++◌, map, Option, none, some,
  Bytes, codes, is_empty, any_of, str_eq, take, length, if◌then◌else◌,
}
use ai_sdk_cpp.Prompt.{
  Json, AssistantPart, UserPart, Message, Prompt, is_system, text_part, system_message,
}
use ai_sdk_cpp.Tools.{Attempt, ok, threw, Task, ToolCallResult}
use ai_sdk_cpp.Generate.{
  Content, GenerateResult, StepResult, GenerateTextResult, Usage, calls_of, parse_or_text,
  result_part,
}
use ai_sdk_cpp.Agent.{Agent}

pub record SessionMetadata : Type 0 where
  pub turns : ℕ
  pub total_input_tokens : ℕ
  pub total_output_tokens : ℕ
  pub compaction_summary : Option Bytes

-- The state of a `Session`.
pub record Session (J : Json) : Type 0 where
  pub id : Bytes
  pub history : Prompt J
  pub metadata : SessionMetadata

pub record SessionSnapshot (J : Json) : Type 0 where
  pub id : Bytes
  pub history : Prompt J
  pub metadata : SessionMetadata
  pub model_id : Bytes
  pub provider_id : Bytes

module _ {J : Json} where
  abbrev pub user_text : Bytes → Message J
  user_text s =
      Message.user
        (record { content = UserPart.text (text_part J s) ∷ []; provider_options = J.empty_object })

  abbrev pub assistant_text : Bytes → Message J
  assistant_text s = Message.assistant (record {
    content = AssistantPart.text (text_part J s) ∷ [];
    provider_options = J.empty_object;
  })

  -- The parts of a step's assistant message: no empty text, and no file.
  unfoldable pub turn_parts : List (Content J) → List (AssistantPart J)
  turn_parts [] = []
  turn_parts (Content.text t ∷ cs) =
      if not (is_empty t) then AssistantPart.text (text_part J t) ∷ turn_parts cs else turn_parts cs
  turn_parts (Content.reasoning r ∷ cs) =
      AssistantPart.reasoning (record {
        text = r.text;
        signature = r.signature;
        redacted_data = r.redacted_data;
        provider_options = J.empty_object;
      })
      ∷ turn_parts cs
  turn_parts (Content.tool_call c ∷ cs) =
      AssistantPart.tool_call (record {
        tool_call_id = c.tool_call_id;
        tool_name = c.tool_name;
        input = parse_or_text J c.input;
        provider_executed = false;
        provider_options = J.empty_object;
      })
      ∷ turn_parts cs
  turn_parts (Content.file d m f ∷ cs) = turn_parts cs

  -- `if (!content.empty()) delta.push_back(AssistantMessage{...})`.
  unfoldable pub assistant_of : List (AssistantPart J) → Prompt J
  assistant_of parts =
      if not (is_empty parts)
      then Message.assistant (record { content = parts; provider_options = J.empty_object }) ∷ []
      else []

  -- `if (!tc_content.empty()) delta.push_back(ToolMessage{...})`.
  unfoldable pub tool_of : List (ToolCallResult J) → Prompt J
  tool_of results =
      if not (is_empty results)
      then Message.tool
          (record { content = map result_part results; provider_options = J.empty_object })
        ∷ []
      else []

  unfoldable pub step_messages : StepResult J → Prompt J
  unfolding turn_parts assistant_of tool_of
  step_messages s =
      if not (is_empty (calls_of s.result.content))
      then assistant_of (turn_parts s.result.content) ++ tool_of s.tool_results
      else []

  unfoldable pub steps_messages : List (StepResult J) → Prompt J
  unfolding step_messages
  steps_messages [] = []
  steps_messages (s ∷ ss) = step_messages s ++ steps_messages ss

  abbrev pub is_some_text : AssistantPart J → Bool
  is_some_text (AssistantPart.text t) = not (is_empty t.text)
  is_some_text _ = false

  -- Whether the last message is an assistant's with a text in it.
  unfoldable pub ends_with_assistant_text : Prompt J → Bool
  ends_with_assistant_text [] = false
  ends_with_assistant_text (Message.assistant a ∷ []) = any_of is_some_text a.content
  ends_with_assistant_text (_ ∷ []) = false
  ends_with_assistant_text (_ ∷ m ∷ ms) = ends_with_assistant_text (m ∷ ms)

  unfoldable pub extract_turn_messages : GenerateTextResult J → Prompt J
  unfolding steps_messages ends_with_assistant_text
  extract_turn_messages result =
      let delta = steps_messages result.steps in
      if not (ends_with_assistant_text delta) && not (is_empty result.text)
      then delta ++ assistant_text result.text ∷ []
      else delta

  unfoldable pub add_user : Session J → Bytes → Session J
  add_user s text = record s { history = s.history ++ user_text text ∷ [] }

  unfoldable pub add_assistant : Session J → Bytes → Session J
  add_assistant s text = record s { history = s.history ++ assistant_text text ∷ [] }

  abbrev pub with_system : Bytes → Prompt J → Prompt J
  with_system text [] = system_message J text ∷ []
  with_system text (m ∷ ms) =
      if is_system m then system_message J text ∷ ms else system_message J text ∷ m ∷ ms

  unfoldable pub set_system : Session J → Bytes → Session J
  set_system s text = record s { history = with_system text s.history }

  unfoldable pub set_id : Session J → Bytes → Session J
  set_id s i = record s { id = i }

  unfoldable pub increment_turn : Session J → Session J
  increment_turn s = record s { metadata = record s.metadata { turns = suc s.metadata.turns } }

  unfoldable pub snapshot : Session J → Bytes → Bytes → SessionSnapshot J
  snapshot s model_id provider_id = record {
    id = s.id;
    history = s.history;
    metadata = s.metadata;
    model_id = model_id;
    provider_id = provider_id;
  }

  unfoldable pub restore : Session J → SessionSnapshot J → Session J
  restore s snap = record { id = snap.id; history = snap.history; metadata = snap.metadata }

-- `rfind("## Earlier in this session", 0) == 0`.
unfoldable pub is_summary : Bytes → Bool
is_summary text =
    let mark = codes "## Earlier in this session" in str_eq (take (length mark) text) mark

abbrev pub add_if : ℕ → Option ℕ → ℕ
add_if total none = total
add_if total (some n) = total + n

module _ {J : Json} where
  -- The last summary in the history, or the one remembered.
  unfoldable pub find_summary : Option Bytes → Prompt J → Option Bytes
  find_summary last [] = last
  find_summary last (Message.system m ∷ ms) =
      find_summary (if is_summary m.content then some m.content else last) ms
  find_summary last (_ ∷ ms) = find_summary last ms

  unfoldable pub update_metadata : SessionMetadata → Usage → Prompt J → SessionMetadata
  unfolding find_summary is_summary
  update_metadata md usage history = record {
    turns = suc md.turns;
    total_input_tokens = add_if md.total_input_tokens usage.input_total;
    total_output_tokens = add_if md.total_output_tokens usage.output_total;
    compaction_summary = find_summary md.compaction_summary history;
  }

  -- What is done with a result: the history is what the agent was given and the turn.
  unfoldable pub finish_turn : Session J → Prompt J → GenerateTextResult J → Session J
  unfolding extract_turn_messages update_metadata
  finish_turn s managed result =
      let history = managed ++ extract_turn_messages result in
      record s { history = history; metadata = update_metadata s.metadata result.usage history }

module _ {J : Json} {W : Type 0} where
  -- `on_turn_finish_`: what it returns or throws is dropped.
  unfoldable pub fire_turn_finish : Option (Session J → Task W (Unit {0})) → Session J → W → W
  fire_turn_finish none s w = w
  fire_turn_finish (some hook) s w = (hook s w).1

  -- Behind the agent's call: an exception leaves the session as it is.
  unfoldable pub answered_turn :
      Option (Session J → Task W (Unit {0}))
      → Session J
      → Prompt J
      → Attempt (GenerateTextResult J) × W
      → Attempt (GenerateTextResult J) × Session J × W
  unfolding finish_turn fire_turn_finish
  answered_turn hook asked managed (threw e, w) = (threw e, asked, w)
  answered_turn hook asked managed (ok result, w) = (
    ok result,
    finish_turn asked managed result,
    fire_turn_finish hook (finish_turn asked managed result) w,
  )

  -- Behind the strategy's call.
  unfoldable pub managed_turn :
      Agent J W
      → Option (Session J → Task W (Unit {0}))
      → Session J
      → Attempt (Prompt J) × W
      → Attempt (GenerateTextResult J) × Session J × W
  unfolding answered_turn
  managed_turn agent hook asked (threw e, w) = (threw e, asked, w)
  managed_turn agent hook asked (ok managed, w) =
      answered_turn hook asked managed (agent.call managed w)

  unfoldable pub send :
      (Prompt J → Task W (Prompt J))
      → Agent J W
      → Option (Session J → Task W (Unit {0}))
      → Session J
      → Bytes
      → W
      → Attempt (GenerateTextResult J) × Session J × W
  unfolding add_user managed_turn
  send manage agent hook s user_msg w =
      let asked = add_user s user_msg in managed_turn agent hook asked (manage asked.history w)

  -- The history is the managed one before the agent's stream is asked for; no turn is counted.
  unfoldable pub send_stream :
      {R : Type 0}
      → (Prompt J → Task W (Prompt J))
      → (Prompt J → Task W R)
      → Session J
      → Bytes
      → W
      → Attempt R × Session J × W
  unfolding add_user
  send_stream manage stream s user_msg w =
      let asked = add_user s user_msg in
      let (attempt, w1) = manage asked.history w in
      elim attempt [
        | threw e ↦ (threw e, asked, w1)
        | ok managed ↦
            let (answer, w2) = stream managed w1 in (answer, record asked { history = managed }, w2)
      ]
