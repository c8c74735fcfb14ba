-- ===== src/Chat/Replay.antt =====
-- web/src/lib/messageReducer.ts: what holds of a replayed history, whatever the server sent.
use pockode.Prelude.{
  subst, ℕ, suc, ◌≡◌, refl, ◌∙◌, false, List, [], ◌∷◌, ◌++◌, String, any, init, init-append,
  append_assoc,
}
use pockode.Chat.Message.{streaming, Message, assistant}
use pockode.Chat.Event.{NormalizedEvent, WireRecord, normalize_event}
use pockode.Chat.Updates.{expire_dialog}
use pockode.Chat.Reducer.{
  Fresh, create_assistant_message, is_active, apply_user_message, finalize_all, retire, receive,
  apply_to_last, apply_server_event, replay_from, replay_history,
}
use pockode.Chat.Transcript.{revise}
use pockode.Chat.Revisions.{any-append}
use pockode.Chat.Growth.{apply_server_event_cases}
use pockode.Chat.Cases.{
  is_sending, apply_to_last_sent, end_dialogs, any-is_sending-revise, any-is_active-init-revise,
  retire_inactive, finalize_all_inactive, sending_of_inactive, receive_not_sending,
}

-- No message is being sent, and only the last one may be open for more content.
pub record IsReplayed (messages : List Message) : Type 0 where
  pub sent : any is_sending messages ≡ false
  pub at_most_last : any is_active (init messages) ≡ false

pub revise-IsReplayed :
    (f : _) (messages : List Message) → IsReplayed messages → IsReplayed (revise f messages)
revise-IsReplayed f messages v = record {
  sent = any-is_sending-revise f messages ∙ v.sent;
  at_most_last = any-is_active-init-revise f messages ∙ v.at_most_last;
}

end_dialogs-IsReplayed :
    (e : NormalizedEvent) (messages : List Message)
    → IsReplayed messages
    → IsReplayed (end_dialogs e messages)
end_dialogs-IsReplayed NormalizedEvent.process_ended messages v =
    revise-IsReplayed expire_dialog messages v
end_dialogs-IsReplayed _ messages v = v

-- A list whose front is inactive and whose last message is not sending.
append-IsReplayed :
    (front : List Message) (m : Message)
    → any is_active front ≡ false
    → is_sending m ≡ false
    → IsReplayed (front ++ m ∷ [])
append-IsReplayed front m h k = record {
  sent = rw (any-append is_sending front (m ∷ []), sending_of_inactive front h, k);
  at_most_last = rw (init-append front m) h;
}

append_two-IsReplayed :
    (front : List Message) (m n : Message)
    → any is_active front ≡ false
    → is_active m ≡ false
    → is_sending n ≡ false
    → IsReplayed (front ++ m ∷ n ∷ [])
append_two-IsReplayed front m n h k l =
    subst IsReplayed (append_assoc front (m ∷ []) (n ∷ []))
      (append-IsReplayed (front ++ m ∷ []) n (rw (any-append is_active front (m ∷ []), h, k)) l)

pub apply_to_last-IsReplayed :
    (fresh : Fresh) (messages : List Message) (e : NormalizedEvent)
    → IsReplayed messages
    → IsReplayed (apply_to_last fresh messages e)
unfolding create_assistant_message
apply_to_last-IsReplayed fresh messages e v =
    apply_to_last_sent IsReplayed fresh messages e v.sent
      (λ m _ kept.
        end_dialogs-IsReplayed e _
          (append-IsReplayed (init messages) (assistant (receive e m)) v.at_most_last kept))
      (λ _. end_dialogs-IsReplayed e messages v)
      (λ _. end_dialogs-IsReplayed e _ (
        append-IsReplayed (retire messages) _ (retire_inactive messages)
          (receive_not_sending e (create_assistant_message fresh streaming) refl)))

-- Every event keeps a chat that way.
pub apply_server_event-IsReplayed :
    (fresh : Fresh) (messages : List Message) (e : NormalizedEvent)
    → IsReplayed messages
    → IsReplayed (apply_server_event fresh messages e)
unfolding apply_user_message create_assistant_message
apply_server_event-IsReplayed fresh messages e v =
    apply_server_event_cases IsReplayed fresh messages e
      (λ content _.
        append_two-IsReplayed (finalize_all messages) _ _ (finalize_all_inactive messages) refl
          refl)
      (λ f _ _ _. revise-IsReplayed f messages v) (apply_to_last-IsReplayed fresh messages e v)

module _ (stringify : WireRecord → String) (supply : ℕ → Fresh) where
  pub replay_from-IsReplayed :
      (k : ℕ) (messages : List Message) (records : List WireRecord)
      → IsReplayed messages
      → IsReplayed (replay_from stringify supply k messages records)
  unfolding replay_from
  replay_from-IsReplayed k messages [] v = v
  replay_from-IsReplayed k messages (e ∷ records) v =
      replay_from-IsReplayed (suc k) _ records
        (apply_server_event-IsReplayed (supply k) messages (normalize_event stringify e) v)

  -- In a replayed history no message is sending, and at most the last one is open.
  pub replay_history-IsReplayed :
      (records : List WireRecord) → IsReplayed (replay_history stringify supply records)
  unfolding replay_history
  replay_history-IsReplayed records =
      replay_from-IsReplayed 0 [] records (record { sent = refl; at_most_last = refl })
