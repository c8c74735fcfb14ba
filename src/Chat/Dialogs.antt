-- ===== src/Chat/Dialogs.antt =====
-- web/src/lib/messageReducer.ts: permission dialogs, questions and tool results. What an answer, a
-- cancellation or a result does to them, and in what order they may come.
use pockode.Prelude.{
  ◌≡◌, refl, ◌≢◌, Bool, true, false, List, [], ◌∷◌, map, String, any, arith, ◌===◌, if◌then◌else◌,
  Bool-cases, inl, inr,
}
use pockode.Chat.Message.{
  ContentPart, text, permission_request, ask_user_question, PermissionStatus, QuestionStatus,
  Message, Answers,
}
use pockode.Chat.Event.{NormalizedEvent, Nullish}
use pockode.Chat.Updates.{
  expire_dialog, expire_pending_dialogs, set_permission, set_question,
  update_permission_request_status, update_question_status, set_result, update_tool_result,
}
use pockode.Chat.Reducer.{Fresh, response_status, apply_server_event}
use pockode.Chat.Transcript.{all_parts, revised, revise}
use pockode.Chat.Revisions.{update_messages-items, all_parts-revise}

-- A dialog that waits for the user.
abbrev pub is_pending : ContentPart → Bool
is_pending (permission_request _ PermissionStatus.pending) = true
is_pending (ask_user_question _ QuestionStatus.pending _) = true
is_pending _ = false

expire_dialog_settles : (part : ContentPart) → is_pending (revised expire_dialog part) ≡ false
unfolding expire_dialog
expire_dialog_settles (text _) = refl
expire_dialog_settles (permission_request _ PermissionStatus.pending) = refl
expire_dialog_settles (permission_request _ PermissionStatus.allowed) = refl
expire_dialog_settles (permission_request _ PermissionStatus.denied) = refl
expire_dialog_settles (permission_request _ PermissionStatus.expired) = refl
expire_dialog_settles (ask_user_question _ QuestionStatus.pending _) = refl
expire_dialog_settles (ask_user_question _ QuestionStatus.answered _) = refl
expire_dialog_settles (ask_user_question _ QuestionStatus.cancelled _) = refl
expire_dialog_settles (ask_user_question _ QuestionStatus.expired _) = refl
expire_dialog_settles _ = refl

map-expire_dialog_settles :
    (parts : List ContentPart) → any is_pending (map (revised expire_dialog) parts) ≡ false
map-expire_dialog_settles [] = refl
map-expire_dialog_settles (part ∷ parts) =
    rw (expire_dialog_settles part) (map-expire_dialog_settles parts)

pub expire_pending_dialogs-items :
    (messages : List Message)
    → (expire_pending_dialogs messages).items ≡ revise expire_dialog messages
unfolding expire_pending_dialogs
expire_pending_dialogs-items = update_messages-items expire_dialog

pub expire_pending_dialogs_settles :
    (messages : List Message)
    → any is_pending (all_parts (expire_pending_dialogs messages).items) ≡ false
expire_pending_dialogs_settles messages =
    rw (expire_pending_dialogs-items messages, all_parts-revise expire_dialog messages)
      (map-expire_dialog_settles (all_parts messages))

abbrev pub choice_status : String → PermissionStatus
choice_status choice =
    if choice === "deny" then PermissionStatus.denied else PermissionStatus.allowed

module _ (fresh : Fresh) (messages : List Message) where
  pub apply-permission_response :
      (id choice : String)
      → apply_server_event fresh messages (NormalizedEvent.permission_response id choice)
        ≡ revise (set_permission id (choice_status choice)) messages
  unfolding apply_server_event update_permission_request_status
  apply-permission_response id choice = update_messages-items _ messages

  pub apply-question_response :
      (id : String) (answers : Nullish Answers)
      → apply_server_event fresh messages (NormalizedEvent.question_response id answers)
        ≡ revise (set_question id (response_status answers) answers) messages
  unfolding apply_server_event update_question_status
  apply-question_response id answers = update_messages-items _ messages

  pub apply-tool_result :
      (id result : String)
      → apply_server_event fresh messages (NormalizedEvent.tool_result id result)
        ≡ revise (set_result id result) messages
  unfolding apply_server_event update_tool_result
  apply-tool_result id result = update_messages-items _ messages

-- A status that an answer can set: never `pending`.
pub choice_status_cases :
    (P : PermissionStatus → Type 0) (choice : String)
    → P PermissionStatus.denied
    → P PermissionStatus.allowed
    → P (choice_status choice)
choice_status_cases P choice d a = elim (Bool-cases (choice === "deny")) [
  | inl e ↦ rw e d
  | inr e ↦ rw e a
]

pub set_permission_twice :
    (id : String) (s t : PermissionStatus)
    → s ≢ PermissionStatus.pending
    → (part : ContentPart)
    → revised (set_permission id t) (revised (set_permission id s) part)
      ≡ revised (set_permission id s) part
unfolding set_permission
set_permission_twice id s t h (permission_request r PermissionStatus.pending) = ground arith
set_permission_twice id s t h _ = refl

pub set_question_twice :
    (id : String) (s t : QuestionStatus) (a b : Nullish Answers)
    → s ≢ QuestionStatus.pending
    → (part : ContentPart)
    → revised (set_question id t b) (revised (set_question id s a) part)
      ≡ revised (set_question id s a) part
unfolding set_question
set_question_twice id s t a b h (ask_user_question r QuestionStatus.pending x) = ground arith
set_question_twice id s t a b h _ = refl
