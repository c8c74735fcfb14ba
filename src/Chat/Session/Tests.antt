-- ===== src/Chat/Session/Tests.antt =====
-- The theorems about an open chat, applied to one.
use pockode.Prelude.{◌≡◌, refl, true, false, some, [], ◌∷◌, ◌++◌}
use pockode.Chat.Message.{assistant, streaming}
use pockode.Chat.Tests.{fresh, record_of, chat}
use pockode.Chat.Session.{
  ChatState, SubscribeResult, default, claude, ended, user_message, sent_message, send_user_message,
  failed, on_send_failed, is_streaming,
}
use pockode.Chat.Session.Laws.{sent_then_failed}

abbrev open_chat : ChatState
open_chat = record {
  messages = chat streaming;
  is_loading_history = false;
  is_process_running = true;
  mode = default;
  agent_type = claude;
  subscription_id = some "c1";
}

abbrev result : SubscribeResult
result = record {
  id = "c2";
  history = record_of "message" ∷ record_of "permission_request" ∷ [];
  state = ended;
  mode = default;
  agent_type = claude;
}

sent_then_failed_example :
    let sent = send_user_message fresh "go on" open_chat in
    let after = on_send_failed fresh sent in
    (is_streaming sent ≡ true)
    × (after.messages
        ≡ chat streaming
          ++ user_message fresh "go on" ∷ assistant (failed (sent_message fresh)) ∷ [])
    × (is_streaming after ≡ false)
sent_then_failed_example = sent_then_failed fresh "go on" open_chat refl
