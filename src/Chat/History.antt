-- ===== src/Chat/History.antt =====
-- web/src/lib/messageReducer.ts: the parts that a history shows, and what becomes of them as it
-- goes on.

use pockode.Prelude.{
  ℕ, suc, ◌≡◌, refl, ap, ◌∙◌, sym, subst, false, List, [], ◌∷◌, ◌++◌, String, any, init, arith,
  append-nil,
}
use pockode.Chat.Message.{AssistantMessage, Message, user, assistant}
use pockode.Chat.Event.{NormalizedEvent, WireRecord, normalize_event}
use pockode.Chat.Parts.{apply_event_to_parts}
use pockode.Chat.Updates.{expire_dialog}
use pockode.Chat.Reducer.{
  set_status, Fresh, apply_user_message, finalize_all, retire, receive, apply_to_last,
  apply_server_event, replay_from, replay_history,
}
use pockode.Chat.Transcript.{all_parts}
use pockode.Chat.Revisions.{all_parts-append}
use pockode.Chat.Cases.{is_sending, apply_to_last_sent, end_dialogs}
use pockode.Chat.Growth.{
  Evolves, Evolves-refl, Evolves-trans, Evolves-append, Evolves-append_left, Evolves-revise,
  expire_dialog-PartStep, apply_server_event_cases, apply_event_to_parts-Evolves,
}
use pockode.Chat.Replay.{IsReplayed, apply_server_event-IsReplayed, replay_from-IsReplayed}

pub all_parts-finalize_all :
    (messages : List Message) → all_parts (finalize_all messages) ≡ all_parts messages
all_parts-finalize_all [] = refl
all_parts-finalize_all (user m ∷ messages) = all_parts-finalize_all messages
all_parts-finalize_all (assistant m ∷ messages) = ground (arith, all_parts-finalize_all messages)

-- Where no message is sending, retiring them loses no part.
pub all_parts-retire :
    (messages : List Message)
    → any is_sending messages ≡ false
    → all_parts (retire messages) ≡ all_parts messages
all_parts-retire [] h = refl
all_parts-retire (user m ∷ messages) h = all_parts-retire messages h
all_parts-retire (assistant m ∷ messages) h = ground (arith, all_parts-retire messages)

end_dialogs-Evolves :
    (e : NormalizedEvent) (messages : List Message)
    → Evolves (all_parts messages) (all_parts (end_dialogs e messages))
end_dialogs-Evolves NormalizedEvent.process_ended messages =
    Evolves-revise expire_dialog expire_dialog-PartStep messages
end_dialogs-Evolves e messages = Evolves-refl (all_parts messages)

-- The parts of a chat in which one message was put at the end.
pub all_parts-snoc :
    (front : List Message) (m : AssistantMessage)
    → all_parts (front ++ assistant m ∷ []) ≡ all_parts front ++ m.parts
all_parts-snoc front m = rw (all_parts-append front (assistant m ∷ []), append-nil m.parts)

init_snoc-Evolves :
    (messages : List Message) (m n : AssistantMessage)
    → messages ≡ init messages ++ assistant m ∷ []
    → Evolves m.parts n.parts
    → Evolves (all_parts messages) (all_parts (init messages ++ assistant n ∷ []))
init_snoc-Evolves messages m n split h = rw (all_parts-snoc (init messages) n) (
    subst (λ ps. Evolves ps (all_parts (init messages) ++ n.parts))
      (sym (ap all_parts split ∙ all_parts-snoc (init messages) m))
      (Evolves-append_left (all_parts (init messages)) h))

retire_snoc-Evolves :
    (messages : List Message) (n : AssistantMessage)
    → any is_sending messages ≡ false
    → Evolves (all_parts messages) (all_parts (retire messages ++ assistant n ∷ []))
retire_snoc-Evolves messages n sent =
    rw (all_parts-snoc (retire messages) n, all_parts-retire messages sent)
      (Evolves-append (all_parts messages) n.parts)

set_status-parts : (e : NormalizedEvent) (m : AssistantMessage) → (set_status e m).parts ≡ m.parts
set_status-parts (NormalizedEvent.text _) m = refl
set_status-parts NormalizedEvent.done m = refl
set_status-parts NormalizedEvent.interrupted m = refl
set_status-parts NormalizedEvent.process_ended m = refl
set_status-parts (NormalizedEvent.error _) m = refl
set_status-parts _ m = refl

pub receive-parts :
    (e : NormalizedEvent) (m : AssistantMessage)
    → (receive e m).parts ≡ apply_event_to_parts m.parts e
unfolding receive
receive-parts e m = set_status-parts e _

receive-Evolves : (e : NormalizedEvent) (m : AssistantMessage) → Evolves m.parts (receive e m).parts
receive-Evolves e m = rw (receive-parts e m) (apply_event_to_parts-Evolves m.parts e)

apply_to_last-Evolves :
    (fresh : Fresh) (messages : List Message) (e : NormalizedEvent)
    → any is_sending messages ≡ false
    → Evolves (all_parts messages) (all_parts (apply_to_last fresh messages e))
apply_to_last-Evolves fresh messages e sent =
    apply_to_last_sent (λ ms. Evolves (all_parts messages) (all_parts ms)) fresh messages e sent
      (λ m split _.
        Evolves-trans (init_snoc-Evolves messages m (receive e m) split (receive-Evolves e m))
          (end_dialogs-Evolves e _))
      (λ _. end_dialogs-Evolves e messages)
      (λ _. Evolves-trans (retire_snoc-Evolves messages _ sent) (end_dialogs-Evolves e _))

-- Where no message is sending, an event keeps every part in its place.
pub apply_server_event-Evolves :
    (fresh : Fresh) (messages : List Message) (e : NormalizedEvent)
    → any is_sending messages ≡ false
    → Evolves (all_parts messages) (all_parts (apply_server_event fresh messages e))
unfolding apply_user_message
apply_server_event-Evolves fresh messages e sent =
    apply_server_event_cases (λ ms. Evolves (all_parts messages) (all_parts ms)) fresh messages e
      (λ content _.
        rw (all_parts-append (finalize_all messages) _, all_parts-finalize_all messages)
          (Evolves-append (all_parts messages) _))
      (λ f h _ _. Evolves-revise f h messages) (apply_to_last-Evolves fresh messages e sent)

module _ (stringify : WireRecord → String) (supply : ℕ → Fresh) where
  replay_from-Evolves :
      (k : ℕ) (messages : List Message) (records : List WireRecord)
      → IsReplayed messages
      → Evolves (all_parts messages) (all_parts (replay_from stringify supply k messages records))
  unfolding replay_from
  replay_from-Evolves k messages [] v = Evolves-refl (all_parts messages)
  replay_from-Evolves k messages (r ∷ records) v =
      let e = normalize_event stringify r in
      Evolves-trans (apply_server_event-Evolves (supply k) messages e v.sent) (
        replay_from-Evolves (suc k) _ records
          (apply_server_event-IsReplayed (supply k) messages e v))

  replay_from-append :
      (k : ℕ) (messages : List Message) (records later : List WireRecord)
      → (j : ℕ) × (replay_from stringify supply k messages (records ++ later)
          ≡ replay_from stringify supply j (replay_from stringify supply k messages records) later)
  unfolding replay_from
  replay_from-append k messages [] later = (k, refl)
  replay_from-append k messages (r ∷ records) later = replay_from-append (suc k) _ records later

  -- More records keep every part of a replayed history in its place: text is only added to, a
  -- tool call only gets a result, and a dialog that is settled stays as it is.
  pub replay_history-Evolves :
      (records later : List WireRecord)
      → Evolves
          (all_parts (replay_history stringify supply records))
          (all_parts (replay_history stringify supply (records ++ later)))
  unfolding replay_history
  replay_history-Evolves records later =
      let (j, e) = replay_from-append 0 [] records later in
      let v =
        replay_from-IsReplayed stringify supply 0 [] records
          (record { sent = refl; at_most_last = refl }) in
      subst (λ ms. Evolves (all_parts (replay_from stringify supply 0 [] records)) (all_parts ms))
        (sym e) (replay_from-Evolves j _ later v)
