-- ===== src/Chat/Written.antt =====
-- web/src/lib/messageReducer.ts: the assistant's text in a chat, and that of the events.
use Prim.Native.String
use package.text.Mathlib.TextLemmas.{
  append_assoc as concat_assoc, append-nil as concat-nil, nil-append as nil-concat,
}
use pockode.Prelude.{
  true, ℕ, suc, ◌≡◌, refl, ap, ◌∙◌, sym, false, Option, List, [], ◌∷◌, ◌++◌, map, String, any, last,
  init, init-last, append-nil, Option-cases, inl, inr,
}
use pockode.Chat.Message.{
  ContentPart, text, permission_request, ask_user_question, PermissionStatus, QuestionStatus,
  AssistantMessage, Message, assistant,
}
use pockode.Chat.Event.{NormalizedEvent, WireRecord, normalize_event}
use pockode.Chat.Parts.{append_text, apply_event_to_parts}
use pockode.Chat.Updates.{expire_dialog}
use pockode.Chat.Reducer.{
  Fresh, is_terminal, apply_user_message, finalize_all, retire, receive, apply_to_last,
  apply_server_event, replay_from, replay_history, create_assistant_message,
}
use pockode.Chat.Message.{streaming}
use pockode.Chat.Transcript.{all_parts, text_of, written, revised, revise}
use pockode.Chat.Revisions.{all_parts-append, all_parts-revise}
use pockode.Chat.Cases.{is_sending, apply_to_last_sent, end_dialogs}
use pockode.Chat.Growth.{is_direct, apply_server_event_cases}
use pockode.Chat.History.{all_parts-finalize_all, all_parts-retire, all_parts-snoc, receive-parts}
use pockode.Chat.Replay.{IsReplayed, apply_server_event-IsReplayed}
use pockode.Chat.Users.{events}

abbrev pub event_text : NormalizedEvent → String
event_text (NormalizedEvent.text content) = content
event_text _ = ""

abbrev pub all_text : List NormalizedEvent → String
all_text [] = ""
all_text (e ∷ es) = String.◌++◌ (event_text e) (all_text es)

written-append :
    (ps qs : List ContentPart) → written (ps ++ qs) ≡ String.◌++◌ (written ps) (written qs)
written-append [] qs = sym (nil-concat (written qs))
written-append (p ∷ ps) qs =
    ap (String.◌++◌ (text_of p)) (written-append ps qs)
    ∙ sym (concat_assoc (text_of p) (written ps) (written qs))

written-map :
    (f : ContentPart → Option ContentPart)
    → ((p : ContentPart) → text_of (revised f p) ≡ text_of p)
    → (ps : List ContentPart) → written (map (revised f) ps) ≡ written ps
written-map f h [] = refl
written-map f h (p ∷ ps) = rw (h p, written-map f h ps)

written-revise :
    (f : ContentPart → Option ContentPart)
    → ((p : ContentPart) → text_of (revised f p) ≡ text_of p)
    → (messages : List Message)
    → written (all_parts (revise f messages)) ≡ written (all_parts messages)
written-revise f h messages =
    rw (all_parts-revise f messages) (written-map f h (all_parts messages))

expire_dialog-text : (p : ContentPart) → text_of (revised expire_dialog p) ≡ text_of p
unfolding expire_dialog
expire_dialog-text (permission_request r PermissionStatus.pending) = refl
expire_dialog-text (ask_user_question r QuestionStatus.pending a) = refl
expire_dialog-text p = refl

written-end_dialogs :
    (e : NormalizedEvent) (messages : List Message)
    → written (all_parts (end_dialogs e messages)) ≡ written (all_parts messages)
written-end_dialogs NormalizedEvent.process_ended messages =
    written-revise expire_dialog expire_dialog-text messages
written-end_dialogs e messages = refl

written-one :
    (ps : List ContentPart) (p : ContentPart)
    → written (ps ++ p ∷ []) ≡ String.◌++◌ (written ps) (text_of p)
written-one ps p =
    written-append ps (p ∷ []) ∙ ap (String.◌++◌ (written ps)) (concat-nil (text_of p))

written-append_text :
    (parts : List ContentPart) (content : String)
    → written (append_text parts content) ≡ String.◌++◌ (written parts) content
unfolding append_text
written-append_text parts content = elim (Option-cases (last parts)) [
  | inl h ↦ rw (h, append_text) (written-one parts (text content))
  | inr (text before, h) ↦
      rw (h, append_text)
        (written-one (init parts) (text (String.◌++◌ before content))
          ∙ sym (concat_assoc (written (init parts)) before content)
          ∙ ap (λ s. String.◌++◌ s content)
              (sym (
                ap written (init-last parts (text before) h)
                ∙ written-one (init parts) (text before))))
  | inr (part, h) ↦ rw (h, append_text) (written-one parts (text content))
]

-- What an event adds to the text of a message.
pub written-apply_event_to_parts :
    (parts : List ContentPart) (e : NormalizedEvent)
    → written (apply_event_to_parts parts e) ≡ String.◌++◌ (written parts) (event_text e)
unfolding apply_event_to_parts
written-apply_event_to_parts parts (NormalizedEvent.text content) =
    written-append_text parts content
written-apply_event_to_parts parts (NormalizedEvent.tool_call _ _ _) = written-one parts _
written-apply_event_to_parts parts (NormalizedEvent.permission_request _ _ _ _ _) =
    written-one parts _
written-apply_event_to_parts parts (NormalizedEvent.ask_user_question _ _ _) = written-one parts _
written-apply_event_to_parts parts (NormalizedEvent.system _) = written-one parts _
written-apply_event_to_parts parts (NormalizedEvent.warning _ _) = written-one parts _
written-apply_event_to_parts parts (NormalizedEvent.raw _) = written-one parts _
written-apply_event_to_parts parts (NormalizedEvent.command_output _) = written-one parts _
written-apply_event_to_parts parts e = sym (concat-nil (written parts))

written-snoc :
    (front : List Message) (m : AssistantMessage) (e : NormalizedEvent)
    → written (all_parts (front ++ assistant (receive e m) ∷ []))
      ≡ String.◌++◌ (written (all_parts front ++ m.parts)) (event_text e)
written-snoc front m e =
    ap written (all_parts-snoc front (receive e m))
    ∙ rw
        (
          receive-parts e m,
          written-append (all_parts front) (apply_event_to_parts m.parts e),
          written-append (all_parts front) m.parts,
          written-apply_event_to_parts m.parts e,
        )
        (sym (concat_assoc (written (all_parts front)) (written m.parts) (event_text e)))

-- A terminal event brings no text.
event_text_of_terminal : (e : NormalizedEvent) → is_terminal e ≡ true → event_text e ≡ ""
event_text_of_terminal (NormalizedEvent.text _) h = cc
event_text_of_terminal e h = refl

apply_to_last-written :
    (fresh : Fresh) (messages : List Message) (e : NormalizedEvent)
    → any is_sending messages ≡ false
    → written (all_parts (apply_to_last fresh messages e))
      ≡ String.◌++◌ (written (all_parts messages)) (event_text e)
unfolding create_assistant_message
apply_to_last-written fresh messages e sent =
    apply_to_last_sent
      (λ ms. written (all_parts ms) ≡ String.◌++◌ (written (all_parts messages)) (event_text e))
      fresh messages e sent
      (λ m split _.
        written-end_dialogs e _
        ∙ written-snoc (init messages) m e
        ∙ ap (λ ps. String.◌++◌ (written ps) (event_text e))
            (sym (ap all_parts split ∙ all_parts-snoc (init messages) m)))
      (λ t.
        written-end_dialogs e messages
        ∙ rw (event_text_of_terminal e t) (sym (concat-nil (written (all_parts messages)))))
      (λ _.
        written-end_dialogs e _
        ∙ written-snoc (retire messages) (create_assistant_message fresh streaming) e
        ∙ ap (λ ps. String.◌++◌ (written ps) (event_text e))
            (append-nil (all_parts (retire messages)) ∙ all_parts-retire messages sent))

event_text_of_direct : (e : NormalizedEvent) → is_direct e ≡ true → event_text e ≡ ""
event_text_of_direct (NormalizedEvent.text _) h = cc
event_text_of_direct e h = refl

no_text :
    (e : NormalizedEvent) (before after : String)
    → is_direct e ≡ true
    → after ≡ before
    → after ≡ String.◌++◌ before (event_text e)
no_text e before after d h = rw (event_text_of_direct e d) (h ∙ sym (concat-nil before))

-- Where no message is sending, an event adds its text and changes no text.
pub apply_server_event-written :
    (fresh : Fresh) (messages : List Message) (e : NormalizedEvent)
    → any is_sending messages ≡ false
    → written (all_parts (apply_server_event fresh messages e))
      ≡ String.◌++◌ (written (all_parts messages)) (event_text e)
unfolding apply_user_message create_assistant_message
apply_server_event-written fresh messages e sent =
    apply_server_event_cases
      (λ ms. written (all_parts ms) ≡ String.◌++◌ (written (all_parts messages)) (event_text e))
      fresh messages e
      (λ content d. no_text e _ _ d (
        ap written (
          all_parts-append (finalize_all messages) _
          ∙ append-nil (all_parts (finalize_all messages))
          ∙ all_parts-finalize_all messages)))
      (λ f _ t d. no_text e _ _ d (written-revise f t messages))
      (apply_to_last-written fresh messages e sent)

module _ (stringify : WireRecord → String) (supply : ℕ → Fresh) where
  replay_from-written :
      (k : ℕ) (messages : List Message) (records : List WireRecord)
      → IsReplayed messages
      → written (all_parts (replay_from stringify supply k messages records))
        ≡ String.◌++◌ (written (all_parts messages)) (all_text (events stringify records))
  unfolding replay_from
  replay_from-written k messages [] v = sym (concat-nil (written (all_parts messages)))
  replay_from-written k messages (r ∷ records) v =
      let e = normalize_event stringify r in
      let es = all_text (events stringify records) in
      replay_from-written (suc k) (apply_server_event (supply k) messages e) records
        (apply_server_event-IsReplayed (supply k) messages e v)
      ∙ ap (λ s. String.◌++◌ s es) (apply_server_event-written (supply k) messages e v.sent)
      ∙ concat_assoc (written (all_parts messages)) (event_text e) es

  -- The text parts of a replayed history, put together, are the contents of its text events, put
  -- together in order.
  pub replay_history-written :
      (records : List WireRecord)
      → written (all_parts (replay_history stringify supply records))
        ≡ all_text (events stringify records)
  unfolding replay_history
  replay_history-written records =
      replay_from-written 0 [] records (record { sent = refl; at_most_last = refl })
      ∙ nil-concat (all_text (events stringify records))
