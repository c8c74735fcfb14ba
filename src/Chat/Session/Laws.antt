-- ===== src/Chat/Session/Laws.antt =====
-- web/src/hooks/useChatMessages.ts: when the input is blocked, and what a failed send leaves.
use pockode.Prelude.{
  last-append_two, ℕ, ◌≡◌, refl, ◌∙◌, Bool, true, false, none, List, [], ◌∷◌, ◌++◌, map, String,
  any, map-append, arith, ◌===◌, ===_iff,
}
use pockode.Chat.Message.{Message, user, assistant}
use pockode.Chat.Event.{WireRecord, normalize_event}
use pockode.Chat.Reducer.{Fresh, active_last, is_terminal}
use pockode.Chat.Transcript.{all_parts}
use pockode.Chat.Dialogs.{is_pending, expire_pending_dialogs_settles}
use pockode.Chat.Terminal.{terminal_inactive}
use pockode.Chat.Session.{
  ChatState, SubscribeResult, handle_notification, initial_messages, on_subscribed, user_message,
  sent_message, send_user_message, failed, fail_message, on_send_failed, is_streaming, ended,
}

-- The input is blocked only by an open message at the end of the chat.
is_streaming_of_inactive : (s : ChatState) → active_last s.messages ≡ none → is_streaming s ≡ false
unfolding is_streaming
is_streaming_of_inactive s h = ground arith

-- A notification that ends a turn unblocks the input, whatever the chat was.
pub handle_notification_terminal :
    (stringify : WireRecord → String) (fresh : Fresh) (notification : WireRecord) (s : ChatState)
    → is_terminal (normalize_event stringify notification) ≡ true
    → is_streaming (handle_notification stringify fresh notification s) ≡ false
unfolding handle_notification
handle_notification_terminal stringify fresh notification s t =
    is_streaming_of_inactive _
      (terminal_inactive fresh s.messages (normalize_event stringify notification) t)

-- When the server says that the process has ended, a subscription leaves no dialog open.
pub on_subscribed_ended :
    (stringify : WireRecord → String) (supply : ℕ → Fresh) (result : SubscribeResult)
    (s : ChatState)
    → result.state ≡ ended
    → any is_pending (all_parts (on_subscribed stringify false supply result s).messages) ≡ false
unfolding on_subscribed initial_messages
on_subscribed_ended stringify supply result s h = rw h (expire_pending_dialogs_settles _)

-- A send blocks the input at once.
send_user_message_blocks :
    (fresh : Fresh) (content : String) (s : ChatState)
    → is_streaming (send_user_message fresh content s) ≡ true
unfolding send_user_message is_streaming
send_user_message_blocks fresh content s = ground (
  arith,
  last-append_two s.messages (user_message fresh content) (assistant (sent_message fresh)),
)

abbrev pub has_id : String → Message → Bool
has_id id (user m) = m.id === id
has_id id (assistant m) = m.id === id

fail_message_others :
    (id : String) (messages : List Message)
    → any (has_id id) messages ≡ false
    → map (fail_message id) messages ≡ messages
fail_message_others id [] h = refl
fail_message_others id (user m ∷ messages) h = ground (arith, fail_message_others id messages)
fail_message_others id (assistant m ∷ messages) h = ground (arith, fail_message_others id messages)

failed_messages :
    (fresh : Fresh) (content : String) (messages : List Message)
    → any (has_id fresh.assistant_id) messages ≡ false
    → map
        (fail_message fresh.assistant_id)
        (messages ++ user_message fresh content ∷ assistant (sent_message fresh) ∷ [])
      ≡ messages ++ user_message fresh content ∷ assistant (failed (sent_message fresh)) ∷ []
failed_messages fresh content messages h =
    map-append (fail_message fresh.assistant_id) messages _
    ∙ rw (
      fail_message_others fresh.assistant_id messages h,
      (===_iff fresh.assistant_id fresh.assistant_id).1 refl,
    )

-- A send that fails leaves the earlier messages as they were, shows what the user wrote, and marks
-- its own reply as failed, if the id that was drawn for the reply is new. The input is free again.
send_user_message-failed :
    (fresh : Fresh) (content : String) (s : ChatState)
    → any (has_id fresh.assistant_id) s.messages ≡ false
    → let after = on_send_failed fresh (send_user_message fresh content s) in
      (after.messages
        ≡ s.messages ++ user_message fresh content ∷ assistant (failed (sent_message fresh)) ∷ [])
      × (is_streaming after ≡ false)
unfolding send_user_message on_send_failed
send_user_message-failed fresh content s h =
    let messages = failed_messages fresh content s.messages h in
    (
      messages,
      is_streaming_of_inactive _ (
          rw messages (
            ground (
              arith,
              last-append_two s.messages (user_message fresh content)
                  (assistant (failed (sent_message fresh))),
            ))),
    )

-- A send blocks the input at once. If it fails, the earlier messages are as they were, what the user
-- wrote is shown, and the reply is marked as failed, if the id that was drawn for the reply is new;
-- the input is free again.
pub sent_then_failed :
    (fresh : Fresh) (content : String) (s : ChatState)
    → any (has_id fresh.assistant_id) s.messages ≡ false
    → let sent = send_user_message fresh content s in
      let after = on_send_failed fresh sent in
      (is_streaming sent ≡ true)
      × (after.messages
          ≡ s.messages ++ user_message fresh content ∷ assistant (failed (sent_message fresh)) ∷ [])
      × (is_streaming after ≡ false)
sent_then_failed fresh content s h =
    let after = send_user_message-failed fresh content s h in
    (send_user_message_blocks fresh content s, after.0, after.1)
