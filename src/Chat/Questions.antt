-- ===== src/Chat/Questions.antt =====
-- web/src/lib/messageReducer.ts: the status of a question after a response, and after a response
-- that was read back from the history.
--
-- server/agent/history.go writes `answers` with `omitempty`: of a cancelled question, whose answers
-- are nil, the record has no such field.
use pockode.Prelude.{◌≡◌, refl, ap, ◌∙◌, List, [], ◌∷◌, map, String, arith, ◌===◌, if◌then◌else◌}
use pockode.Chat.Message.{ContentPart, ask_user_question, QuestionStatus, Answers, Message}
use pockode.Chat.Event.{
  NormalizedEvent, Nullish, undefined, null, value, WireRecord, normalize_event,
}
use pockode.Chat.Updates.{set_question}
use pockode.Chat.Reducer.{Fresh, response_status, apply_server_event}
use pockode.Chat.Transcript.{all_parts, revised}
use pockode.Chat.Revisions.{all_parts-revise}
use pockode.Chat.Dialogs.{apply-question_response}

-- The statuses of the questions with an id, in order.
abbrev pub statuses_of : String → List ContentPart → List QuestionStatus
statuses_of id [] = []
statuses_of id (ask_user_question request status answers ∷ parts) =
    if request.request_id === id then status ∷ statuses_of id parts else statuses_of id parts
statuses_of id (part ∷ parts) = statuses_of id parts

-- A pending question takes the new status; any other keeps its own.
abbrev pub resolve : QuestionStatus → QuestionStatus → QuestionStatus
resolve new QuestionStatus.pending = new
resolve new old = old

statuses_of-set_question :
    (id : String) (status : QuestionStatus) (answers : Nullish Answers) (parts : List ContentPart)
    → statuses_of id (map (revised (set_question id status answers)) parts)
      ≡ map (resolve status) (statuses_of id parts)
unfolding set_question
statuses_of-set_question id status answers [] = refl
statuses_of-set_question id status answers (ask_user_question r QuestionStatus.pending a ∷ parts) =
    ground (arith, statuses_of-set_question id status answers parts)
statuses_of-set_question id status answers (ask_user_question r QuestionStatus.answered a ∷ parts) =
    ground (arith, statuses_of-set_question id status answers parts)
statuses_of-set_question id status answers
      (ask_user_question r QuestionStatus.cancelled a ∷ parts) =
    ground (arith, statuses_of-set_question id status answers parts)
statuses_of-set_question id status answers (ask_user_question r QuestionStatus.expired a ∷ parts) =
    ground (arith, statuses_of-set_question id status answers parts)
statuses_of-set_question id status answers (part ∷ parts) =
    statuses_of-set_question id status answers parts

responded :
    (fresh : Fresh) (messages : List Message) (id : String) (answers : Nullish Answers)
    → statuses_of id (
        all_parts
          (apply_server_event fresh messages (NormalizedEvent.question_response id answers)))
      ≡ map (resolve (response_status answers)) (statuses_of id (all_parts messages))
responded fresh messages id answers =
    rw
      (
        apply-question_response fresh messages id answers,
        all_parts-revise (set_question id (response_status answers) answers) messages,
      )
      (statuses_of-set_question id (response_status answers) answers (all_parts messages))

-- A response whose answers are `null` makes each pending question with its id cancelled, and one
-- with answers makes it answered; a question that is not pending keeps its status.
pub question_response-statuses :
    (fresh : Fresh) (messages : List Message) (id : String) (answers : Answers)
    → let after = λ (a : Nullish Answers).
      statuses_of id
        (all_parts (apply_server_event fresh messages (NormalizedEvent.question_response id a))) in
      let before = statuses_of id (all_parts messages) in
      (after null ≡ map (resolve QuestionStatus.cancelled) before)
      × (after (value answers) ≡ map (resolve QuestionStatus.answered) before)
question_response-statuses fresh messages id answers =
    (responded fresh messages id null, responded fresh messages id (value answers))

normalize_question_response :
    (stringify : WireRecord → String) (e : WireRecord)
    → e.type ≡ "question_response"
    → normalize_event stringify e ≡ NormalizedEvent.question_response e.request_id e.answers
unfolding normalize_event
normalize_question_response stringify e h = rw (h, normalize_event)

-- A response whose record has no `answers` field is shown as answered, never as cancelled.
pub response_without_answers :
    (stringify : WireRecord → String) (fresh : Fresh) (messages : List Message) (e : WireRecord)
    → e.type ≡ "question_response"
    → e.answers ≡ undefined
    → statuses_of e.request_id
        (all_parts (apply_server_event fresh messages (normalize_event stringify e)))
      ≡ map (resolve QuestionStatus.answered) (statuses_of e.request_id (all_parts messages))
response_without_answers stringify fresh messages e t a =
    rw (normalize_question_response stringify e t) (
      responded fresh messages e.request_id e.answers
      ∙ ap (λ x. map (resolve (response_status x)) (statuses_of e.request_id (all_parts messages)))
          a)
