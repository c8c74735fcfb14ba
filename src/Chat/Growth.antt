-- ===== src/Chat/Growth.antt =====
-- web/src/lib/messageReducer.ts: how the parts of a chat may change from one state to a later one.
use Prim.Native.String
use package.text.Mathlib.TextLemmas.{append_assoc as concat_assoc}
use pockode.Prelude.{
  get_or, if◌then◌else◌, ◌≡◌, refl, sym, subst, Bool, true, false, Option, none, some, List, [],
  ◌∷◌, ◌++◌, map, String, last, init, init-last, arith, ◌===◌, Option-cases, inl, inr,
}
use pockode.Chat.Message.{
  Answers, ToolCall, ContentPart, text, tool_call, permission_request, ask_user_question,
  PermissionStatus, QuestionStatus, PermissionRequest, AskUserQuestionRequest, Message,
}
use pockode.Chat.Event.{NormalizedEvent, Nullish, null}
use pockode.Chat.Parts.{append_text, apply_event_to_parts}
use pockode.Chat.Updates.{
  answers_or_undefined, expire_dialog, set_permission, set_question, set_result,
}
use pockode.Chat.Reducer.{
  Fresh, response_status, apply_user_message, apply_to_last, apply_server_event,
}
use pockode.Chat.Dialogs.{
  choice_status, apply-permission_response, apply-question_response, apply-tool_result,
}
use pockode.Chat.Answers.{cancel_request_cases}
use pockode.Chat.Transcript.{text_of, all_parts, revised, revise}
use pockode.Chat.Revisions.{all_parts-revise}

-- What may become of one part.
pub data PartStep : ContentPart → ContentPart → Type 0 where
  same : (part : ContentPart) → PartStep part part
  grow : (before more : String) → PartStep (text before) (text (String.◌++◌ before more))
  settle :
      (request : PermissionRequest) (status : PermissionStatus)
      → PartStep
          (permission_request request PermissionStatus.pending)
          (permission_request request status)
  respond :
      (request : AskUserQuestionRequest) (status : QuestionStatus) (before after : Option Answers)
      → PartStep
          (ask_user_question request QuestionStatus.pending before)
          (ask_user_question request status after)
  return :
      (tool : ToolCall) (result : String)
      → PartStep (tool_call tool) (tool_call (record tool { result = some result }))

PartStep-trans : {p q r : ContentPart} → PartStep p q → PartStep q r → PartStep p r
PartStep-trans (same _) t = t
PartStep-trans (grow s a) (same _) = grow s a
PartStep-trans (grow s a) (grow _ b) =
    subst (λ x. PartStep (text s) (text x)) (sym (concat_assoc s a b)) (grow s (String.◌++◌ a b))
PartStep-trans (settle r s) (same _) = settle r s
PartStep-trans (settle r s) (settle _ t) = settle r t
PartStep-trans (respond r s a b) (same _) = respond r s a b
PartStep-trans (respond r s a b) (respond _ t _ c) = respond r t a c
PartStep-trans (return tool x) (same _) = return tool x
PartStep-trans (return tool x) (return _ y) = return tool y

-- Each part of the first list in its place in the second, which may go on.
pub data Evolves : List ContentPart → List ContentPart → Type 0 where
  more : (parts : List ContentPart) → Evolves [] parts
  step :
      {p q : ContentPart} {ps qs : List ContentPart}
      → PartStep p q
      → Evolves ps qs
      → Evolves (p ∷ ps) (q ∷ qs)

pub Evolves-refl : (ps : List ContentPart) → Evolves ps ps
Evolves-refl [] = more []
Evolves-refl (p ∷ ps) = step (same p) (Evolves-refl ps)

pub Evolves-trans : {ps qs rs : List ContentPart} → Evolves ps qs → Evolves qs rs → Evolves ps rs
Evolves-trans {rs = rs} (more _) t = more rs
Evolves-trans (step s e) (step t f) = step (PartStep-trans s t) (Evolves-trans e f)

pub Evolves-append_left :
    (ps : List ContentPart) {qs rs : List ContentPart}
    → Evolves qs rs
    → Evolves (ps ++ qs) (ps ++ rs)
Evolves-append_left [] e = e
Evolves-append_left (p ∷ ps) e = step (same p) (Evolves-append_left ps e)

pub Evolves-append : (ps qs : List ContentPart) → Evolves ps (ps ++ qs)
Evolves-append [] qs = more qs
Evolves-append (p ∷ ps) qs = step (same p) (Evolves-append ps qs)

pub Evolves-map :
    (f : ContentPart → Option ContentPart)
    → ((p : ContentPart) → PartStep p (revised f p))
    → (ps : List ContentPart) → Evolves ps (map (revised f) ps)
Evolves-map f h [] = more []
Evolves-map f h (p ∷ ps) = step (h p) (Evolves-map f h ps)

pub Evolves-revise :
    (f : ContentPart → Option ContentPart)
    → ((p : ContentPart) → PartStep p (revised f p))
    → (messages : List Message) → Evolves (all_parts messages) (all_parts (revise f messages))
Evolves-revise f h messages =
    rw (all_parts-revise f messages) (Evolves-map f h (all_parts messages))

pub expire_dialog-PartStep : (p : ContentPart) → PartStep p (revised expire_dialog p)
unfolding expire_dialog
expire_dialog-PartStep (permission_request r PermissionStatus.pending) = settle r _
expire_dialog-PartStep (ask_user_question r QuestionStatus.pending a) = respond r _ a a
expire_dialog-PartStep p = same _

PartStep-if :
    (b : Bool) {p q : ContentPart}
    → PartStep p q
    → PartStep p (get_or (if b then some q else none) p)
PartStep-if true s = s
PartStep-if false {p} s = same p

set_permission-PartStep :
    (id : String) (status : PermissionStatus) (p : ContentPart)
    → PartStep p (revised (set_permission id status) p)
unfolding set_permission
set_permission-PartStep id status (permission_request r PermissionStatus.pending) =
    PartStep-if (r.request_id === id) (settle r status)
set_permission-PartStep id status p = same _

set_question-PartStep :
    (id : String) (status : QuestionStatus) (answers : Nullish Answers) (p : ContentPart)
    → PartStep p (revised (set_question id status answers) p)
unfolding set_question
set_question-PartStep id status answers (ask_user_question r QuestionStatus.pending a) =
    PartStep-if (r.request_id === id) (respond r status a (answers_or_undefined answers))
set_question-PartStep id status answers p = same _

set_result-PartStep :
    (id result : String) (p : ContentPart) → PartStep p (revised (set_result id result) p)
unfolding set_result
set_result-PartStep id result (tool_call tool) = PartStep-if (tool.id === id) (return tool result)
set_result-PartStep id result p = same _

set_permission-text :
    (id : String) (status : PermissionStatus) (p : ContentPart)
    → text_of (revised (set_permission id status) p) ≡ text_of p
unfolding set_permission
set_permission-text id status (permission_request r PermissionStatus.pending) = ground arith
set_permission-text id status p = refl

set_question-text :
    (id : String) (status : QuestionStatus) (answers : Nullish Answers) (p : ContentPart)
    → text_of (revised (set_question id status answers) p) ≡ text_of p
unfolding set_question
set_question-text id status answers (ask_user_question r QuestionStatus.pending a) = ground arith
set_question-text id status answers p = refl

set_result-text :
    (id result : String) (p : ContentPart) → text_of (revised (set_result id result) p) ≡ text_of p
unfolding set_result
set_result-text id result (tool_call tool) = ground arith
set_result-text id result p = refl

-- The events that `applyServerEvent` handles before it looks for an active message.
abbrev pub is_direct : NormalizedEvent → Bool
is_direct (NormalizedEvent.message _) = true
is_direct (NormalizedEvent.permission_response _ _) = true
is_direct (NormalizedEvent.request_cancelled _) = true
is_direct (NormalizedEvent.question_response _ _) = true
is_direct (NormalizedEvent.tool_result _ _) = true
is_direct _ = false

-- A user message, a revision that lets every part take a step and keeps the text, or the last
-- message.
pub apply_server_event_cases {ℓ} :
    (P : List Message → Type ℓ) (fresh : Fresh) (messages : List Message) (e : NormalizedEvent)
    → ((content : String) → is_direct e ≡ true → P (apply_user_message fresh messages content))
    → ((f : ContentPart → Option ContentPart)
        → ((p : ContentPart) → PartStep p (revised f p))
        → ((p : ContentPart) → text_of (revised f p) ≡ text_of p)
        → is_direct e ≡ true
        → P (revise f messages))
    → P (apply_to_last fresh messages e)
    → P (apply_server_event fresh messages e)
unfolding apply_server_event
apply_server_event_cases P fresh messages (NormalizedEvent.message content) sent _ _ =
    sent content refl
apply_server_event_cases P fresh messages (NormalizedEvent.permission_response id choice) _ answer
      _ =
    let status = choice_status choice in
    subst P (sym (apply-permission_response fresh messages id choice)) (
      answer (set_permission id status) (set_permission-PartStep id status)
        (set_permission-text id status) refl)
apply_server_event_cases P fresh messages (NormalizedEvent.request_cancelled id) _ answer _ =
    cancel_request_cases P messages id
      (answer (set_permission id PermissionStatus.expired)
        (set_permission-PartStep id PermissionStatus.expired)
        (set_permission-text id PermissionStatus.expired) refl)
      (answer (set_question id QuestionStatus.expired null)
        (set_question-PartStep id QuestionStatus.expired null)
        (set_question-text id QuestionStatus.expired null) refl)
apply_server_event_cases P fresh messages (NormalizedEvent.question_response id answers) _ answer
      _ =
    let status = response_status answers in
    subst P (sym (apply-question_response fresh messages id answers)) (
      answer (set_question id status answers) (set_question-PartStep id status answers)
        (set_question-text id status answers) refl)
apply_server_event_cases P fresh messages (NormalizedEvent.tool_result id result) _ answer _ =
    subst P (sym (apply-tool_result fresh messages id result)) (
      answer (set_result id result) (set_result-PartStep id result) (set_result-text id result)
        refl)
apply_server_event_cases P fresh messages e _ _ at_end = at_end

append_text-Evolves :
    (parts : List ContentPart) (content : String) → Evolves parts (append_text parts content)
unfolding append_text
append_text-Evolves parts content = elim (Option-cases (last parts)) [
  | inl h ↦ rw (h, append_text) (Evolves-append parts _)
  | inr (text before, h) ↦
      rw (h, append_text)
        (subst (λ ps. Evolves ps (init parts ++ text (String.◌++◌ before content) ∷ []))
          (sym (init-last parts (text before) h))
          (Evolves-append_left (init parts) (step (grow before content) (more []))))
  | inr (part, h) ↦ rw (h, append_text) (Evolves-append parts _)
]

-- An event adds to the parts of the message that takes it.
pub apply_event_to_parts-Evolves :
    (parts : List ContentPart) (e : NormalizedEvent) → Evolves parts (apply_event_to_parts parts e)
unfolding apply_event_to_parts
apply_event_to_parts-Evolves parts (NormalizedEvent.text content) =
    append_text-Evolves parts content
apply_event_to_parts-Evolves parts (NormalizedEvent.tool_call _ _ _) = Evolves-append parts _
apply_event_to_parts-Evolves parts (NormalizedEvent.permission_request _ _ _ _ _) =
    Evolves-append parts _
apply_event_to_parts-Evolves parts (NormalizedEvent.ask_user_question _ _ _) =
    Evolves-append parts _
apply_event_to_parts-Evolves parts (NormalizedEvent.system _) = Evolves-append parts _
apply_event_to_parts-Evolves parts (NormalizedEvent.warning _ _) = Evolves-append parts _
apply_event_to_parts-Evolves parts (NormalizedEvent.raw _) = Evolves-append parts _
apply_event_to_parts-Evolves parts (NormalizedEvent.command_output _) = Evolves-append parts _
apply_event_to_parts-Evolves parts _ = Evolves-refl parts
