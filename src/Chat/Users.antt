-- ===== src/Chat/Users.antt =====
-- web/src/lib/messageReducer.ts: the users' messages in a chat, and those that events send.
use pockode.Prelude.{
  ℕ, suc, ◌≡◌, refl, ap, ◌∙◌, sym, not, Option, List, [], ◌∷◌, ◌++◌, String, init, arith,
  append-nil, append_assoc, keep,
}
use pockode.Chat.Message.{PermissionStatus, QuestionStatus, ContentPart, Message, user, assistant}
use pockode.Chat.Event.{NormalizedEvent, null, WireRecord, normalize_event}
use pockode.Chat.Updates.{
  expire_dialog, expire_pending_dialogs, set_permission, set_question, set_result,
}
use pockode.Chat.Reducer.{
  response_status, Fresh, is_empty_sending, apply_user_message, finalize_all, retire, clean_up,
  apply_to_last, apply_server_event, replay_from, replay_history,
}
use pockode.Chat.Transcript.{user_contents, revise}
use pockode.Chat.Revisions.{user_contents-append, user_contents-revise}
use pockode.Chat.Dialogs.{
  choice_status, expire_pending_dialogs-items, apply-permission_response, apply-question_response,
  apply-tool_result,
}
use pockode.Chat.Answers.{cancel_request_cases}
use pockode.Chat.Cases.{apply_to_last_cases, end_dialogs, end_idle-end_dialogs}

-- What a user sends by an event.
abbrev pub sent_by : NormalizedEvent → List String
sent_by (NormalizedEvent.message content) = content ∷ []
sent_by _ = []

abbrev pub all_sent : List NormalizedEvent → List String
all_sent [] = []
all_sent (e ∷ es) = sent_by e ++ all_sent es

user_contents-keep :
    (messages : List Message)
    → user_contents (keep (λ m. not (is_empty_sending m)) messages) ≡ user_contents messages
user_contents-keep [] = refl
user_contents-keep (user m ∷ messages) = ap (◌∷◌ m.content) (user_contents-keep messages)
user_contents-keep (assistant m ∷ messages) = ground (arith, user_contents-keep messages)

user_contents-finalize_all :
    (messages : List Message) → user_contents (finalize_all messages) ≡ user_contents messages
user_contents-finalize_all [] = refl
user_contents-finalize_all (user m ∷ messages) =
    ap (◌∷◌ m.content) (user_contents-finalize_all messages)
user_contents-finalize_all (assistant m ∷ messages) =
    ground (arith, user_contents-finalize_all messages)

user_contents-retire :
    (messages : List Message) → user_contents (retire messages) ≡ user_contents messages
user_contents-retire [] = refl
user_contents-retire (user m ∷ messages) = ap (◌∷◌ m.content) (user_contents-retire messages)
user_contents-retire (assistant m ∷ messages) = ground (arith, user_contents-retire messages)

user_contents-clean_up :
    (e : NormalizedEvent) (messages : List Message)
    → user_contents (clean_up e messages) ≡ user_contents messages
unfolding clean_up
user_contents-clean_up NormalizedEvent.process_ended messages =
    user_contents-keep (expire_pending_dialogs messages).items
    ∙ rw (expire_pending_dialogs-items messages) (user_contents-revise expire_dialog messages)
user_contents-clean_up NormalizedEvent.done messages = user_contents-keep messages
user_contents-clean_up NormalizedEvent.interrupted messages = user_contents-keep messages
user_contents-clean_up (NormalizedEvent.error _) messages = user_contents-keep messages
user_contents-clean_up _ messages = refl

user_contents-end_dialogs :
    (e : NormalizedEvent) (messages : List Message)
    → user_contents (end_dialogs e messages) ≡ user_contents messages
user_contents-end_dialogs NormalizedEvent.process_ended messages =
    user_contents-revise expire_dialog messages
user_contents-end_dialogs _ messages = refl

user_contents-snoc :
    (front : List Message) (m : _) → user_contents (front ++ assistant m ∷ []) ≡ user_contents front
user_contents-snoc front m = user_contents-append front (assistant m ∷ []) ∙ append-nil _

apply_to_last-users :
    (fresh : Fresh) (messages : List Message) (e : NormalizedEvent)
    → user_contents (apply_to_last fresh messages e) ≡ user_contents messages
apply_to_last-users fresh messages e =
    apply_to_last_cases (λ ms. user_contents ms ≡ user_contents messages) fresh messages e
      (λ m split _.
        user_contents-clean_up e _
        ∙ user_contents-snoc (init messages) _
        ∙ sym (ap user_contents split ∙ user_contents-snoc (init messages) m))
      (λ _ _. rw (end_idle-end_dialogs e messages) (user_contents-end_dialogs e messages))
      (λ _.
        user_contents-clean_up e _
        ∙ user_contents-snoc (retire messages) _
        ∙ user_contents-retire messages)

revise-users :
    (f : ContentPart → Option ContentPart) (messages : List Message)
    → user_contents (revise f messages) ≡ user_contents messages ++ []
revise-users f messages = user_contents-revise f messages ∙ sym (append-nil _)

-- An event adds what it sends and changes no user message.
pub apply_server_event-users :
    (fresh : Fresh) (messages : List Message) (e : NormalizedEvent)
    → user_contents (apply_server_event fresh messages e) ≡ user_contents messages ++ sent_by e
unfolding apply_server_event apply_user_message
apply_server_event-users fresh messages (NormalizedEvent.message content) =
    user_contents-append (finalize_all messages) _
    ∙ ap (λ cs. cs ++ content ∷ []) (user_contents-finalize_all messages)
apply_server_event-users fresh messages (NormalizedEvent.permission_response id choice) =
    rw (apply-permission_response fresh messages id choice)
      (revise-users (set_permission id (choice_status choice)) messages)
apply_server_event-users fresh messages (NormalizedEvent.request_cancelled id) =
    cancel_request_cases (λ ms. user_contents ms ≡ user_contents messages ++ []) messages id
      (revise-users (set_permission id PermissionStatus.expired) messages)
      (revise-users (set_question id QuestionStatus.expired null) messages)
apply_server_event-users fresh messages (NormalizedEvent.question_response id answers) =
    rw (apply-question_response fresh messages id answers)
      (revise-users (set_question id (response_status answers) answers) messages)
apply_server_event-users fresh messages (NormalizedEvent.tool_result id result) =
    rw (apply-tool_result fresh messages id result) (revise-users (set_result id result) messages)
apply_server_event-users fresh messages e =
    apply_to_last-users fresh messages e ∙ sym (append-nil _)

abbrev pub events : (WireRecord → String) → List WireRecord → List NormalizedEvent
events stringify [] = []
events stringify (r ∷ records) = normalize_event stringify r ∷ events stringify records

module _ (stringify : WireRecord → String) (supply : ℕ → Fresh) where
  replay_from-users :
      (k : ℕ) (messages : List Message) (records : List WireRecord)
      → user_contents (replay_from stringify supply k messages records)
        ≡ user_contents messages ++ all_sent (events stringify records)
  unfolding replay_from
  replay_from-users k messages [] = sym (append-nil _)
  replay_from-users k messages (r ∷ records) =
      let e = normalize_event stringify r in
      replay_from-users (suc k) (apply_server_event (supply k) messages e) records
      ∙ ap (λ cs. cs ++ all_sent (events stringify records))
          (apply_server_event-users (supply k) messages e)
      ∙ append_assoc (user_contents messages) (sent_by e) (all_sent (events stringify records))

  -- A replayed history shows the users' messages exactly: each that was sent, once, unchanged and
  -- in order.
  pub replay_history-users :
      (records : List WireRecord)
      → user_contents (replay_history stringify supply records)
        ≡ all_sent (events stringify records)
  unfolding replay_history
  replay_history-users records = replay_from-users 0 [] records
