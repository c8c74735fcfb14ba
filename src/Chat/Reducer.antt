-- ===== src/Chat/Reducer.antt =====
-- web/src/lib/messageReducer.ts: the effect of an event on the messages of a chat.
--
-- `generateUUID` and `new Date()` are outside the code: what they return in one call stands in a
-- `Fresh`, and a run over several events takes a supply of these.
use pockode.Prelude.{
  ℕ, suc, Bool, true, false, not, Option, none, some, List, [], ◌∷◌, ◌++◌, String, last, init, keep,
  if◌then◌else◌, ◌===◌,
}
use pockode.Chat.Message.{
  Date, MessageStatus, sending, streaming, complete, PermissionStatus, QuestionStatus,
  AssistantMessage, Message, user, assistant,
}
use pockode.Chat.Event.{NormalizedEvent, Nullish, null, WireRecord, normalize_event}
use pockode.Chat.Parts.{apply_event_to_parts}
use pockode.Chat.Updates.{
  expire_pending_dialogs, expire_permission_request, update_permission_request_status,
  update_question_status, update_tool_result,
}

-- The results of `generateUUID` and `new Date()` for a user message and for an assistant message.
pub record Fresh : Type 0 where
  pub user_id : String
  pub user_date : Date
  pub assistant_id : String
  pub assistant_date : Date

unfoldable pub create_assistant_message : Fresh → MessageStatus → AssistantMessage
create_assistant_message fresh status = record {
  id = fresh.assistant_id;
  parts = [];
  status = status;
  error = none;
  created_at = fresh.assistant_date;
}

abbrev pub is_active_status : MessageStatus → Bool
is_active_status sending = true
is_active_status streaming = true
is_active_status _ = false

-- An assistant message that is sending or streaming.
abbrev pub is_active : Message → Bool
is_active (user m) = false
is_active (assistant m) = is_active_status m.status

abbrev pub finalize : Message → Message
finalize (user m) = user m
finalize (assistant m) =
    if is_active_status m.status then assistant (record m { status = complete }) else assistant m

abbrev pub finalize_all : List Message → List Message
finalize_all [] = []
finalize_all (m ∷ messages) = finalize m ∷ finalize_all messages

unfoldable pub apply_user_message : Fresh → List Message → String → List Message
apply_user_message fresh messages content =
    finalize_all messages
    ++ user (record {
      id = fresh.user_id;
      content = content;
      status = complete;
      created_at = fresh.user_date;
    })
      ∷ assistant (create_assistant_message fresh streaming)
      ∷ []

abbrev pub is_terminal : NormalizedEvent → Bool
is_terminal NormalizedEvent.interrupted = true
is_terminal NormalizedEvent.process_ended = true
is_terminal NormalizedEvent.done = true
is_terminal (NormalizedEvent.error _) = true
is_terminal _ = false

-- The last message, if it is an active assistant message.
abbrev pub active_last : List Message → Option AssistantMessage
active_last messages = elim (last messages) [
  | some (assistant m) ↦ if is_active_status m.status then some m else none
  | _ ↦ none
]

-- Before an event that no active message can take: `null` for a message that is sending, and a
-- streaming one completed.
abbrev pub retire : List Message → List Message
retire [] = []
retire (user m ∷ messages) = user m ∷ retire messages
retire (assistant m ∷ messages) = elim m.status [
  | sending ↦ retire messages
  | streaming ↦ assistant (record m { status = complete }) ∷ retire messages
  | _ ↦ assistant m ∷ retire messages
]

-- The status that an event leaves the message with.
abbrev pub set_status : NormalizedEvent → AssistantMessage → AssistantMessage
set_status (NormalizedEvent.text _) m = record m { status = streaming }
set_status NormalizedEvent.done m = record m { status = complete }
set_status NormalizedEvent.interrupted m = record m { status = MessageStatus.interrupted }
set_status (NormalizedEvent.error reason) m = record m {
  status = MessageStatus.error;
  error = some reason;
}
set_status NormalizedEvent.process_ended m = record m { status = MessageStatus.process_ended }
set_status _ m = m

-- The event's parts and its effect on the status of the message that takes it.
unfoldable pub receive : NormalizedEvent → AssistantMessage → AssistantMessage
receive e current = set_status e (record current { parts = apply_event_to_parts current.parts e })

abbrev pub is_empty_sending : Message → Bool
is_empty_sending (user m) = false
is_empty_sending (assistant m) = elim m.status [
  | sending ↦ elim m.parts [ [] ↦ true | _ ∷ _ ↦ false ]
  | _ ↦ false
]

-- `process_ended` expires the dialogs; a terminal event removes empty sending messages.
unfoldable pub clean_up : NormalizedEvent → List Message → List Message
clean_up NormalizedEvent.process_ended messages =
    keep (λ m. not (is_empty_sending m)) (expire_pending_dialogs messages).items
clean_up e messages =
    if is_terminal e then keep (λ m. not (is_empty_sending m)) messages else messages

-- A terminal event that finds no active message.
unfoldable pub end_idle : NormalizedEvent → List Message → List Message
end_idle NormalizedEvent.process_ended messages = (expire_pending_dialogs messages).items
end_idle _ messages = messages

-- The events that belong to the message at the end.
unfoldable pub apply_to_last : Fresh → List Message → NormalizedEvent → List Message
apply_to_last fresh messages e = elim (active_last messages) [
  | some current ↦ clean_up e (init messages ++ assistant (receive e current) ∷ [])
  | none ↦
      if is_terminal e
      then end_idle e messages
      else clean_up e
          (retire messages ++ assistant (receive e (create_assistant_message fresh streaming)) ∷ [])
]

unfoldable pub cancel_request : List Message → String → List Message
cancel_request messages id =
    let updated = expire_permission_request messages id in
    if updated.changed
    then updated.items
    else (update_question_status messages id QuestionStatus.expired null).items

-- `event.answers === null ? "cancelled" : "answered"`
abbrev pub response_status : Nullish (List (String × String)) → QuestionStatus
response_status null = QuestionStatus.cancelled
response_status _ = QuestionStatus.answered

unfoldable pub apply_server_event : Fresh → List Message → NormalizedEvent → List Message
apply_server_event fresh messages (NormalizedEvent.message content) =
    apply_user_message fresh messages content
apply_server_event fresh messages (NormalizedEvent.permission_response id choice) =
    (update_permission_request_status messages id
      (if choice === "deny" then PermissionStatus.denied else PermissionStatus.allowed)).items
apply_server_event fresh messages (NormalizedEvent.request_cancelled id) =
    cancel_request messages id
apply_server_event fresh messages (NormalizedEvent.question_response id answers) =
    (update_question_status messages id (response_status answers) answers).items
apply_server_event fresh messages (NormalizedEvent.tool_result id result) =
    (update_tool_result messages id result).items
apply_server_event fresh messages e = apply_to_last fresh messages e

-- The loop of `replayHistory`; `k` counts the records.
unfoldable pub replay_from :
    (WireRecord → String) → (ℕ → Fresh) → ℕ → List Message → List WireRecord → List Message
replay_from stringify supply k messages [] = messages
replay_from stringify supply k messages (e ∷ records) =
    replay_from stringify supply (suc k)
      (apply_server_event (supply k) messages (normalize_event stringify e)) records

unfoldable pub replay_history : (WireRecord → String) → (ℕ → Fresh) → List WireRecord → List Message
replay_history stringify supply records = replay_from stringify supply 0 [] records
