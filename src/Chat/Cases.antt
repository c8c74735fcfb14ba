-- ===== src/Chat/Cases.antt =====
-- web/src/lib/messageReducer.ts: the branches of the reducer, as one rule, and what they do to the status of the messages.

use pockode.Prelude.{
  subst, ◌≡◌, refl, ap, ◌∙◌, sym, Bool, true, false, not, Option, none, some, List, [], ◌∷◌, ◌++◌,
  any, keep, last, init, init-last, arith, Option-cases, Bool-cases, inl, inr,
}
use pockode.Chat.Message.{
  sending, streaming, ContentPart, AssistantMessage, Message, user, assistant,
}
use pockode.Chat.Event.{NormalizedEvent}
use pockode.Chat.Updates.{expire_dialog}
use pockode.Chat.Reducer.{
  Fresh, create_assistant_message, is_active_status, is_active, finalize_all, is_terminal,
  active_last, retire, receive, is_empty_sending, clean_up, end_idle, apply_to_last,
}
use pockode.Chat.Transcript.{revise}
use pockode.Chat.Revisions.{any-append}
use pockode.Chat.Dialogs.{expire_pending_dialogs-items}

abbrev pub is_sending : Message → Bool
is_sending (user m) = false
is_sending (assistant m) = elim m.status [ sending ↦ true | _ ↦ false ]

pub active_last-some :
    (messages : List Message) (m : AssistantMessage)
    → active_last messages ≡ some m
    → (last messages ≡ some (assistant m)) × (is_active_status m.status ≡ true)
active_last-some messages m h = ground arith

-- What holds after each branch of `apply_to_last` holds after the call.
pub apply_to_last_cases {ℓ} :
    (P : List Message → Type ℓ) (fresh : Fresh) (messages : List Message) (e : NormalizedEvent)
    → ((m : AssistantMessage)
        → messages ≡ init messages ++ assistant m ∷ []
        → is_active_status m.status ≡ true
        → P (clean_up e (init messages ++ assistant (receive e m) ∷ [])))
    → (is_terminal e ≡ true → active_last messages ≡ none → P (end_idle e messages))
    → (is_terminal e ≡ false
        → P (
            clean_up e (
              retire messages
              ++ assistant (receive e (create_assistant_message fresh streaming)) ∷ [])))
    → P (apply_to_last fresh messages e)
unfolding apply_to_last
apply_to_last_cases P fresh messages e active idle orphan =
    elim (Option-cases (active_last messages)) [
      | inl h ↦
          rw (h, apply_to_last)
            (elim (Bool-cases (is_terminal e)) [
              | inl t ↦ rw t (idle t h)
              | inr t ↦ rw t (orphan t)
            ])
      | inr (m, h) ↦
          let (at_end, status) = active_last-some messages m h in
          rw (h, apply_to_last) (active m (init-last messages (assistant m) at_end) status)
    ]

pub any-init :
    (p : Message → Bool) (messages : List Message)
    → any p messages ≡ false
    → any p (init messages) ≡ false
any-init p [] h = refl
any-init p (m ∷ []) h = refl
any-init p (m ∷ n ∷ messages) h = ground (arith, any-init p (n ∷ messages))

pub keep_of_sending :
    (messages : List Message)
    → any is_sending messages ≡ false
    → keep (λ m. not (is_empty_sending m)) messages ≡ messages
keep_of_sending [] h = refl
keep_of_sending (user m ∷ messages) h = ap (◌∷◌ (user m)) (keep_of_sending messages h)
keep_of_sending (assistant m ∷ messages) h = ground (arith, keep_of_sending messages)

-- The end of a process expires the dialogs that are open.
abbrev pub end_dialogs : NormalizedEvent → List Message → List Message
end_dialogs NormalizedEvent.process_ended messages = revise expire_dialog messages
end_dialogs _ messages = messages

module _ (f : ContentPart → Option ContentPart) where
  pub any-is_sending-revise :
      (messages : List Message) → any is_sending (revise f messages) ≡ any is_sending messages
  any-is_sending-revise [] = refl
  any-is_sending-revise (user m ∷ messages) = any-is_sending-revise messages
  any-is_sending-revise (assistant m ∷ messages) = rw (any-is_sending-revise messages)

  pub any-is_active-init-revise :
      (messages : List Message)
      → any is_active (init (revise f messages)) ≡ any is_active (init messages)
  any-is_active-init-revise [] = refl
  any-is_active-init-revise (user m ∷ []) = refl
  any-is_active-init-revise (assistant m ∷ []) = refl
  any-is_active-init-revise (user m ∷ n ∷ messages) = any-is_active-init-revise (n ∷ messages)
  any-is_active-init-revise (assistant m ∷ n ∷ messages) =
      rw (any-is_active-init-revise (n ∷ messages))

pub clean_up_of_sending :
    (e : NormalizedEvent) (messages : List Message)
    → any is_sending messages ≡ false
    → clean_up e messages ≡ end_dialogs e messages
unfolding clean_up
clean_up_of_sending NormalizedEvent.process_ended messages h =
    rw (expire_pending_dialogs-items messages)
      (keep_of_sending _ (any-is_sending-revise expire_dialog messages ∙ h))
clean_up_of_sending NormalizedEvent.done messages h = keep_of_sending messages h
clean_up_of_sending NormalizedEvent.interrupted messages h = keep_of_sending messages h
clean_up_of_sending (NormalizedEvent.error _) messages h = keep_of_sending messages h
clean_up_of_sending _ messages h = refl

pub end_idle-end_dialogs :
    (e : NormalizedEvent) (messages : List Message) → end_idle e messages ≡ end_dialogs e messages
unfolding end_idle
end_idle-end_dialogs NormalizedEvent.process_ended messages = expire_pending_dialogs-items messages
end_idle-end_dialogs _ messages = refl

pub retire_inactive : (messages : List Message) → any is_active (retire messages) ≡ false
retire_inactive [] = refl
retire_inactive (user m ∷ messages) = retire_inactive messages
retire_inactive (assistant m ∷ messages) = ground (arith, retire_inactive messages)

pub finalize_all_inactive :
    (messages : List Message) → any is_active (finalize_all messages) ≡ false
finalize_all_inactive [] = refl
finalize_all_inactive (user m ∷ messages) = finalize_all_inactive messages
finalize_all_inactive (assistant m ∷ messages) = ground (arith, finalize_all_inactive messages)

pub sending_of_inactive :
    (messages : List Message) → any is_active messages ≡ false → any is_sending messages ≡ false
sending_of_inactive [] h = refl
sending_of_inactive (user m ∷ messages) h = sending_of_inactive messages h
sending_of_inactive (assistant m ∷ messages) h = ground (arith, sending_of_inactive messages)

-- A message that is not sending is not sending after an event.
pub receive_not_sending :
    (e : NormalizedEvent) (m : AssistantMessage)
    → is_sending (assistant m) ≡ false
    → is_sending (assistant (receive e m)) ≡ false
unfolding receive
receive_not_sending (NormalizedEvent.text _) m h = refl
receive_not_sending NormalizedEvent.done m h = refl
receive_not_sending NormalizedEvent.interrupted m h = refl
receive_not_sending NormalizedEvent.process_ended m h = refl
receive_not_sending (NormalizedEvent.error _) m h = refl
receive_not_sending _ m h = h

pub sending_at_end :
    (front : List Message) (m : Message)
    → any is_sending front ≡ false
    → is_sending m ≡ false
    → any is_sending (front ++ m ∷ []) ≡ false
sending_at_end front m h k = rw (any-append is_sending front (m ∷ []), h, k)

not_sending_of_append :
    (front : List Message) (m : Message)
    → any is_sending (front ++ m ∷ []) ≡ false
    → is_sending m ≡ false
not_sending_of_append front m h = ground (arith, any-append is_sending front (m ∷ []))

-- The rule for a chat in which no message is sending: nothing is removed.
pub apply_to_last_sent {ℓ} :
    (P : List Message → Type ℓ) (fresh : Fresh) (messages : List Message) (e : NormalizedEvent)
    → any is_sending messages ≡ false
    → ((m : AssistantMessage)
        → messages ≡ init messages ++ assistant m ∷ []
        → is_sending (assistant (receive e m)) ≡ false
        → P (end_dialogs e (init messages ++ assistant (receive e m) ∷ [])))
    → (is_terminal e ≡ true → P (end_dialogs e messages))
    → (is_terminal e ≡ false
        → P (
            end_dialogs e (
              retire messages
              ++ assistant (receive e (create_assistant_message fresh streaming)) ∷ [])))
    → P (apply_to_last fresh messages e)
unfolding create_assistant_message
apply_to_last_sent P fresh messages e sent active idle orphan =
    apply_to_last_cases P fresh messages e
      (λ m split _.
        let kept = receive_not_sending e m (
          not_sending_of_append (init messages) (assistant m)
            (subst (λ ms. any is_sending ms ≡ false) split sent)) in
        subst P
          (sym (
            clean_up_of_sending e _
              (sending_at_end (init messages) _ (any-init is_sending messages sent) kept)))
          (active m split kept))
      (λ t _. subst P (sym (end_idle-end_dialogs e messages)) (idle t))
      (λ t.
        subst P
          (sym (
            clean_up_of_sending e _ (
              sending_at_end (retire messages) _
                (sending_of_inactive (retire messages) (retire_inactive messages))
                (receive_not_sending e (create_assistant_message fresh streaming) refl))))
          (orphan t))
