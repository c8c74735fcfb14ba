-- ===== src/Chat/Session.antt =====
-- web/src/hooks/useChatMessages.ts: the state of an open chat and what changes it.
--
-- The setters of React's state are updates of `ChatState`. The server's answers arrive as calls of
-- `on_subscribed`, `on_subscribe_failed` and `on_send_failed`; `cancelled` is the hook's variable.
pub mod Laws
mod Tests
use Prim.Native.String
use pockode.Prelude.{
  ℕ, Bool, true, false, not, ◌&&◌, ◌||◌, Option, none, some, List, [], ◌∷◌, ◌++◌, map, String, last,
  if◌then◌else◌, ◌===◌,
}
use pockode.Chat.Message.{
  MessageStatus, sending, streaming, complete, PermissionStatus, QuestionStatus, Answers,
  UserMessage, AssistantMessage, Message, user, assistant,
}
use pockode.Chat.Event.{Nullish, null, value, WireRecord, normalize_event}
use pockode.Chat.Updates.{
  expire_pending_dialogs, update_permission_request_status, update_question_status,
}
use pockode.Chat.Reducer.{Fresh, apply_server_event, replay_history}

pub data SessionMode : Type 0 where
  default yolo : SessionMode

pub data AgentType : Type 0 where
  claude codex : AgentType

pub data ProcessState : Type 0 where
  idle running ended : ProcessState

pub record ChatState : Type 0 where
  pub messages : List Message
  pub is_loading_history : Bool
  pub is_process_running : Bool
  pub mode : SessionMode
  pub agent_type : AgentType
  pub subscription_id : Option String

-- `ChatMessagesSubscribeResult`
pub record SubscribeResult : Type 0 where
  pub id : String
  pub history : List WireRecord
  pub state : ProcessState
  pub mode : SessionMode
  pub agent_type : AgentType

abbrev pub is_ended : ProcessState → Bool
is_ended ended = true
is_ended _ = false

-- The effect that runs when `sessionId` changes.
unfoldable pub reset : ChatState → ChatState
reset s = record s {
  messages = [];
  is_loading_history = true;
  is_process_running = false;
  mode = default;
  agent_type = claude;
}

-- The effects that follow the session list.
unfoldable pub sync_mode : Option SessionMode → ChatState → ChatState
sync_mode none s = s
sync_mode (some mode) s = record s { mode = mode }

unfoldable pub sync_agent_type : Option AgentType → ChatState → ChatState
sync_agent_type none s = s
sync_agent_type (some agent_type) s = record s { agent_type = agent_type }

module _ (stringify : WireRecord → String) where
  unfoldable pub handle_notification : Fresh → WireRecord → ChatState → ChatState
  handle_notification fresh notification s = record s {
    is_process_running = not (notification.type === "process_ended");
    messages = apply_server_event fresh s.messages (normalize_event stringify notification);
  }

  -- The history as it is shown: where the process has ended, no dialog is left open.
  unfoldable pub initial_messages : (ℕ → Fresh) → SubscribeResult → List Message
  initial_messages supply result =
      let messages = replay_history stringify supply result.history in
      if is_ended result.state then (expire_pending_dialogs messages).items else messages

  -- `chatMessagesSubscribe` resolved. A subscription that was cancelled meanwhile is given back,
  -- and changes nothing here.
  unfoldable pub on_subscribed : Bool → (ℕ → Fresh) → SubscribeResult → ChatState → ChatState
  on_subscribed true supply result s = s
  on_subscribed false supply result s = record s {
    subscription_id = some result.id;
    is_process_running = not (is_ended result.state);
    mode = result.mode;
    agent_type = result.agent_type;
    messages = initial_messages supply result;
    is_loading_history = false;
  }

-- `chatMessagesSubscribe` was rejected.
unfoldable pub on_subscribe_failed : Bool → ChatState → ChatState
on_subscribe_failed true s = s
on_subscribe_failed false s = record s { is_loading_history = false }

-- The two messages of `sendUserMessage`.
abbrev pub user_message : Fresh → String → Message
user_message fresh content = user (record {
  id = fresh.user_id;
  content = content;
  status = complete;
  created_at = fresh.user_date;
})

abbrev pub sent_message : Fresh → AssistantMessage
sent_message fresh = record {
  id = fresh.assistant_id;
  parts = [];
  status = sending;
  error = none;
  created_at = fresh.assistant_date;
}

unfoldable pub send_user_message : Fresh → String → ChatState → ChatState
send_user_message fresh content s = record s {
  messages = s.messages ++ user_message fresh content ∷ assistant (sent_message fresh) ∷ [];
}

abbrev pub failed : AssistantMessage → AssistantMessage
failed m = record m { status = MessageStatus.error; error = some "Failed to send message" }

abbrev pub fail_message : String → Message → Message
fail_message id (user m) = user m
fail_message id (assistant m) = if m.id === id then assistant (failed m) else assistant m

-- `sendMessage` was rejected.
unfoldable pub on_send_failed : Fresh → ChatState → ChatState
on_send_failed fresh s = record s { messages = map (fail_message fresh.assistant_id) s.messages }

unfoldable pub update_permission_status : String → PermissionStatus → ChatState → ChatState
update_permission_status id status s = record s {
  messages = (update_permission_request_status s.messages id status).items;
}

-- `answers ?? null`
abbrev pub answers_or_null : Option Answers → Nullish Answers
answers_or_null none = null
answers_or_null (some answers) = value answers

unfoldable pub set_question_status :
    String → QuestionStatus → Option Answers → ChatState → ChatState
set_question_status id status answers s = record s {
  messages = (update_question_status s.messages id status (answers_or_null answers)).items;
}

abbrev pub last_is : MessageStatus → List Message → Bool
last_is sending messages = elim (last messages) [
  | some (assistant m) ↦ elim m.status [ sending ↦ true | _ ↦ false ]
  | _ ↦ false
]
last_is streaming messages = elim (last messages) [
  | some (assistant m) ↦ elim m.status [ streaming ↦ true | _ ↦ false ]
  | _ ↦ false
]
last_is _ messages = false

-- The input is blocked: always while a message is being sent, and while one streams only if the
-- process runs.
unfoldable pub is_streaming : ChatState → Bool
is_streaming s =
    last_is sending s.messages || (last_is streaming s.messages && s.is_process_running)
