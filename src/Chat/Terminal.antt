-- ===== src/Chat/Terminal.antt =====
-- web/src/lib/messageReducer.ts: what the end of a turn leaves behind, and what an event that no
-- message waits for does.
use pockode.Prelude.{
  ◌≡◌, refl, ap, ◌∙◌, Bool, true, false, not, Option, none, some, List, [], ◌∷◌, ◌++◌, map, any,
  keep, last, init, last-append, arith,
}
use pockode.Chat.Message.{streaming, ContentPart, AssistantMessage, Message, user, assistant}
use pockode.Chat.Event.{NormalizedEvent}
use pockode.Chat.Parts.{apply_event_to_parts}
use pockode.Chat.Updates.{expire_dialog, expire_pending_dialogs}
use pockode.Chat.Reducer.{
  Fresh, create_assistant_message, is_active_status, is_terminal, active_last, retire, receive,
  is_empty_sending, clean_up, end_idle, apply_to_last, apply_server_event,
}
use pockode.Chat.Transcript.{all_parts, revised, revise, revise_message}
use pockode.Chat.Dialogs.{is_pending, expire_pending_dialogs-items, expire_pending_dialogs_settles}
use pockode.Chat.Cases.{is_sending, apply_to_last_cases}
use pockode.Chat.Growth.{is_direct}
use pockode.Chat.History.{all_parts-snoc, receive-parts}

module _ {ℓ} {A : Type ℓ} (p : A → Bool) where
  keep-append : (xs ys : List A) → keep p (xs ++ ys) ≡ keep p xs ++ keep p ys
  keep-append [] ys = refl
  keep-append (x ∷ xs) ys = ground (arith, keep-append xs ys)

any-keep {ℓ} : {A : Type ℓ} (p : A → Bool) (xs : List A) → any p (keep (λ x. not (p x)) xs) ≡ false
any-keep p [] = refl
any-keep p (x ∷ xs) = ground (arith, any-keep p xs)

-- Only messages without parts are removed at the end of a turn.
all_parts-keep :
    (messages : List Message)
    → all_parts (keep (λ m. not (is_empty_sending m)) messages) ≡ all_parts messages
all_parts-keep [] = refl
all_parts-keep (user m ∷ messages) = all_parts-keep messages
all_parts-keep (assistant m ∷ messages) = ground (arith, all_parts-keep messages)

apply_of_not_direct :
    (fresh : Fresh) (messages : List Message) (e : NormalizedEvent)
    → is_direct e ≡ false
    → apply_server_event fresh messages e ≡ apply_to_last fresh messages e
unfolding apply_server_event
apply_of_not_direct fresh messages (NormalizedEvent.message _) d = cc
apply_of_not_direct fresh messages (NormalizedEvent.permission_response _ _) d = cc
apply_of_not_direct fresh messages (NormalizedEvent.request_cancelled _) d = cc
apply_of_not_direct fresh messages (NormalizedEvent.question_response _ _) d = cc
apply_of_not_direct fresh messages (NormalizedEvent.tool_result _ _) d = cc
apply_of_not_direct fresh messages e d = refl

not_direct_of_terminal : (e : NormalizedEvent) → is_terminal e ≡ true → is_direct e ≡ false
not_direct_of_terminal NormalizedEvent.done t = refl
not_direct_of_terminal NormalizedEvent.interrupted t = refl
not_direct_of_terminal NormalizedEvent.process_ended t = refl
not_direct_of_terminal (NormalizedEvent.error _) t = refl
not_direct_of_terminal _ t = cc

clean_up_of_not_terminal :
    (e : NormalizedEvent) (messages : List Message)
    → is_terminal e ≡ false
    → clean_up e messages ≡ messages
unfolding clean_up
clean_up_of_not_terminal NormalizedEvent.process_ended messages t = cc
clean_up_of_not_terminal NormalizedEvent.done messages t = cc
clean_up_of_not_terminal NormalizedEvent.interrupted messages t = cc
clean_up_of_not_terminal (NormalizedEvent.error _) messages t = cc
clean_up_of_not_terminal _ messages t = refl

receive_of_terminal :
    (e : NormalizedEvent) (m : AssistantMessage)
    → is_terminal e ≡ true
    → is_active_status (receive e m).status ≡ false
unfolding receive
receive_of_terminal NormalizedEvent.done m t = refl
receive_of_terminal NormalizedEvent.interrupted m t = refl
receive_of_terminal NormalizedEvent.process_ended m t = refl
receive_of_terminal (NormalizedEvent.error _) m t = refl
receive_of_terminal _ m t = cc

active_last_of_last :
    (messages : List Message) (m : AssistantMessage)
    → last messages ≡ some (assistant m)
    → is_active_status m.status ≡ false
    → active_last messages ≡ none
active_last_of_last messages m h k = ground arith

keep_at_end :
    (front : List Message) (m : AssistantMessage)
    → is_active_status m.status ≡ false
    → last (keep (λ m. not (is_empty_sending m)) (front ++ assistant m ∷ [])) ≡ some (assistant m)
keep_at_end front m h =
    rw (keep-append (λ m. not (is_empty_sending m)) front (assistant m ∷ []), kept)
      (last-append (keep (λ m. not (is_empty_sending m)) front) (assistant m))
  where
    kept : keep (λ m. not (is_empty_sending m)) (assistant m ∷ []) ≡ assistant m ∷ []
    kept = ground arith

revise-append :
    (f : ContentPart → Option ContentPart) (xs ys : List Message)
    → revise f (xs ++ ys) ≡ revise f xs ++ revise f ys
revise-append f [] ys = refl
revise-append f (x ∷ xs) ys = ap (◌∷◌ (revise_message f x)) (revise-append f xs ys)

keep_inactive :
    (front : List Message) (m : AssistantMessage)
    → is_active_status m.status ≡ false
    → active_last (keep (λ n. not (is_empty_sending n)) (front ++ assistant m ∷ [])) ≡ none
keep_inactive front m h =
    active_last_of_last (keep (λ n. not (is_empty_sending n)) (front ++ assistant m ∷ [])) m
      (keep_at_end front m h) h

clean_up_inactive :
    (e : NormalizedEvent) (front : List Message) (m : AssistantMessage)
    → is_terminal e ≡ true
    → is_active_status m.status ≡ false
    → active_last (clean_up e (front ++ assistant m ∷ [])) ≡ none
unfolding clean_up
clean_up_inactive NormalizedEvent.process_ended front m t h =
    rw
      (
        expire_pending_dialogs-items (front ++ assistant m ∷ []),
        revise-append expire_dialog front (assistant m ∷ []),
      )
      (keep_inactive (revise expire_dialog front)
        (record m { parts = map (revised expire_dialog) m.parts }) h)
clean_up_inactive NormalizedEvent.done front m t h = keep_inactive front m h
clean_up_inactive NormalizedEvent.interrupted front m t h = keep_inactive front m h
clean_up_inactive (NormalizedEvent.error _) front m t h = keep_inactive front m h
clean_up_inactive _ front m t h = cc

active_last-revise :
    (f : ContentPart → Option ContentPart) (messages : List Message)
    → active_last messages ≡ none
    → active_last (revise f messages) ≡ none
active_last-revise f [] h = refl
active_last-revise f (user m ∷ []) h = refl
active_last-revise f (assistant m ∷ []) h = ground arith
active_last-revise f (x ∷ y ∷ messages) h = active_last-revise f (y ∷ messages) h

end_idle_inactive :
    (e : NormalizedEvent) (messages : List Message)
    → active_last messages ≡ none
    → active_last (end_idle e messages) ≡ none
unfolding end_idle
end_idle_inactive NormalizedEvent.process_ended messages h =
    rw (expire_pending_dialogs-items messages) (active_last-revise expire_dialog messages h)
end_idle_inactive _ messages h = h

-- After `done`, `interrupted`, `error` or `process_ended` the last message is not open any more,
-- whatever the chat was.
pub terminal_inactive :
    (fresh : Fresh) (messages : List Message) (e : NormalizedEvent)
    → is_terminal e ≡ true
    → active_last (apply_server_event fresh messages e) ≡ none
terminal_inactive fresh messages e t =
    rw (apply_of_not_direct fresh messages e (not_direct_of_terminal e t)) (
      apply_to_last_cases (λ ms. active_last ms ≡ none) fresh messages e
        (λ m _ _. clean_up_inactive e (init messages) (receive e m) t (receive_of_terminal e m t))
        (λ _ h. end_idle_inactive e messages h) (λ f. cc))

-- When the process has ended no dialog waits for an answer, in any message of the chat.
pub process_ended_settles :
    (fresh : Fresh) (messages : List Message)
    → any is_pending (all_parts (apply_server_event fresh messages NormalizedEvent.process_ended))
      ≡ false
unfolding apply_server_event clean_up end_idle
process_ended_settles fresh messages =
    apply_to_last_cases (λ ms. any is_pending (all_parts ms) ≡ false) fresh messages
      NormalizedEvent.process_ended
      (λ m _ _.
        rw (all_parts-keep (expire_pending_dialogs (init messages ++ _ ∷ [])).items)
          (expire_pending_dialogs_settles _))
      (λ _ _. expire_pending_dialogs_settles messages) (λ f. cc)

all_parts-retire_sending :
    (messages : List Message)
    → all_parts (retire messages) ≡ all_parts (keep (λ m. not (is_sending m)) messages)
all_parts-retire_sending [] = refl
all_parts-retire_sending (user m ∷ messages) = all_parts-retire_sending messages
all_parts-retire_sending (assistant m ∷ messages) =
    ground (arith, all_parts-retire_sending messages)

-- An event that no open message waits for removes every message that is sending, with its parts,
-- keeps all other parts, and starts a message with what the event brings.
pub orphan_parts :
    (fresh : Fresh) (messages : List Message) (e : NormalizedEvent)
    → is_terminal e ≡ false
    → is_direct e ≡ false
    → active_last messages ≡ none
    → all_parts (apply_server_event fresh messages e)
      ≡ all_parts (keep (λ m. not (is_sending m)) messages) ++ apply_event_to_parts [] e
unfolding apply_to_last create_assistant_message
orphan_parts fresh messages e t d h =
    let new = receive e (create_assistant_message fresh streaming) in
    rw (apply_of_not_direct fresh messages e d, h, apply_to_last, t)
      (rw (clean_up_of_not_terminal e (retire messages ++ assistant new ∷ []) t) (
        all_parts-snoc (retire messages) new
        ∙ rw (
          all_parts-retire_sending messages,
          receive-parts e (create_assistant_message fresh streaming),
        )))
