-- ===== src/Chat/Kinds.antt =====
-- web/src/lib/messageReducer.ts: the types of records and of their normal forms.
use pockode.Prelude.{
  ◌≡◌, refl, ◌∙◌, sym, Bool, ◌||◌, List, [], ◌∷◌, String, any, ◌===◌, ===_iff, if◌then◌else◌, inl,
  inr, Bool-cases,
}
use pockode.Chat.Event.{
  NormalizedEvent, WireRecord, normalize_event, text, tool_call, tool_result, warning, error, done,
  interrupted, process_ended, system, message, permission_request, permission_response,
  request_cancelled, question_response, raw, command_output,
}

-- The `type` of a normalized event.
abbrev pub type_of : NormalizedEvent → String
type_of (text _) = "text"
type_of (tool_call _ _ _) = "tool_call"
type_of (tool_result _ _) = "tool_result"
type_of (warning _ _) = "warning"
type_of (error _) = "error"
type_of done = "done"
type_of interrupted = "interrupted"
type_of process_ended = "process_ended"
type_of (system _) = "system"
type_of (message _) = "message"
type_of (permission_request _ _ _ _ _) = "permission_request"
type_of (permission_response _ _) = "permission_response"
type_of (request_cancelled _) = "request_cancelled"
type_of (NormalizedEvent.ask_user_question _ _ _) = "ask_user_question"
type_of (question_response _ _) = "question_response"
type_of (raw _) = "raw"
type_of (command_output _) = "command_output"

abbrev pub known_types : List String
known_types =
    "text" ∷ "tool_call" ∷ "tool_result" ∷ "warning" ∷ "error" ∷ "done" ∷ "interrupted"
    ∷ "process_ended" ∷ "system" ∷ "message" ∷ "permission_request" ∷ "permission_response"
    ∷ "request_cancelled" ∷ "ask_user_question" ∷ "question_response" ∷ "raw" ∷ "command_output"
    ∷ []

-- One `case` of the switch.
kind :
    (tag type : String) (k rest : NormalizedEvent) (others : Bool)
    → type_of rest ≡ (if others then type else "raw")
    → type_of k ≡ tag
    → type_of (if type === tag then k else rest)
      ≡ (if (type === tag) || others then type else "raw")
kind tag type k rest others h same = elim (Bool-cases (type === tag)) [
  | inl e ↦ rw e (same ∙ sym ((===_iff type tag).0 e))
  | inr e ↦ rw e h
]

-- The type of a record that has a known type is kept; any other record is shown raw.
pub normalize_event-type_of :
    (stringify : WireRecord → String) (e : WireRecord)
    → type_of (normalize_event stringify e)
      ≡ (if any (λ t. e.type === t) known_types then e.type else "raw")
unfolding normalize_event
normalize_event-type_of stringify e =
    (kind "text" e.type _ _ _
      (kind "tool_call" e.type _ _ _
        (kind "tool_result" e.type _ _ _
          (kind "warning" e.type _ _ _
            (kind "error" e.type _ _ _
              (kind "done" e.type _ _ _
                (kind "interrupted" e.type _ _ _
                  (kind "process_ended" e.type _ _ _
                    (kind "system" e.type _ _ _
                      (kind "message" e.type _ _ _
                        (kind "permission_request" e.type _ _ _
                          (kind "permission_response" e.type _ _ _
                            (kind "request_cancelled" e.type _ _ _
                              (kind "ask_user_question" e.type _ _ _
                                (kind "question_response" e.type _ _ _
                                  (kind "raw" e.type _ _ _
                                    (kind "command_output" e.type _ _ _ refl refl) refl)
                                  refl)
                                refl)
                              refl)
                            refl)
                          refl)
                        refl)
                      refl)
                    refl)
                  refl)
                refl)
              refl)
            refl)
          refl)
        refl)
      refl)
