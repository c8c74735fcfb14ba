-- ===== src/Chat/Event.antt =====
-- web/src/lib/messageReducer.ts: the events, and their normal form.
--
-- A record of the server is read through casts; `WireRecord` has each field at the type of its
-- cast, as an `Option` where the code provides for its absence.
use pockode.Prelude.{String, Bool, Option, List, map, get_or, if◌then◌else◌, ◌===◌}
use pockode.Chat.Message.{Unknown, Answers, PermissionUpdate, QuestionOption, AskUserQuestion}

-- A field that may be missing, `null` or a value.
pub data Nullish {ℓ} (A : Type ℓ) : Type ℓ where
  undefined null : Nullish A
  value : A → Nullish A

pub data NormalizedEvent : Type 0 where
  text : (content : String) → NormalizedEvent
  tool_call : (tool_use_id tool_name : String) (tool_input : Unknown) → NormalizedEvent
  tool_result : (tool_use_id tool_result : String) → NormalizedEvent
  warning : (message code : String) → NormalizedEvent
  error : (error : String) → NormalizedEvent
  done interrupted process_ended : NormalizedEvent
  system : (content : String) → NormalizedEvent
  message : (content : String) → NormalizedEvent
  permission_request :
      (request_id tool_name : String) (tool_input : Unknown) (tool_use_id : String)
      (permission_suggestions : Option (List PermissionUpdate))
      → NormalizedEvent
  permission_response : (request_id choice : String) → NormalizedEvent
  request_cancelled : (request_id : String) → NormalizedEvent
  ask_user_question :
      (request_id tool_use_id : String) (questions : List AskUserQuestion) → NormalizedEvent
  question_response : (request_id : String) (answers : Nullish Answers) → NormalizedEvent
  raw : (content : String) → NormalizedEvent
  command_output : (content : String) → NormalizedEvent

-- A question as the server's encoder writes it: `options` is `null` for a nil slice.
pub record WireQuestion : Type 0 where
  pub question : String
  pub header : String
  pub options : Option (List QuestionOption)
  pub multi_select : Bool

pub record WireRecord : Type 0 where
  pub type : String
  pub content : Option String
  pub tool_use_id : String
  pub tool_name : String
  pub tool_input : Unknown
  pub tool_result : Option String
  pub message : Option String
  pub code : Option String
  pub error : Option String
  pub request_id : String
  pub permission_suggestions : Option (List PermissionUpdate)
  pub choice : String
  pub questions : Option (List WireQuestion)
  pub answers : Nullish Answers

-- `{ ...q, options: q.options ?? [] }`
unfoldable pub normalize_question : WireQuestion → AskUserQuestion
normalize_question q = record {
  question = q.question;
  header = q.header;
  options = get_or q.options List.[];
  multi_select = q.multi_select;
}

-- `stringify` stands for `JSON.stringify`.
unfoldable pub normalize_event : (stringify : WireRecord → String) → WireRecord → NormalizedEvent
unfolding normalize_question
normalize_event stringify e =
    if e.type === "text"
    then text (get_or e.content "")
    else if e.type === "tool_call"
    then tool_call e.tool_use_id e.tool_name e.tool_input
    else if e.type === "tool_result"
    then tool_result e.tool_use_id (get_or e.tool_result "")
    else if e.type === "warning"
    then warning (get_or e.message "") (get_or e.code "")
    else if e.type === "error"
    then error (get_or e.error "")
    else if e.type === "done"
    then done
    else if e.type === "interrupted"
    then interrupted
    else if e.type === "process_ended"
    then process_ended
    else if e.type === "system"
    then system (get_or e.content "")
    else if e.type === "message"
    then message (get_or e.content "")
    else if e.type === "permission_request"
    then permission_request e.request_id e.tool_name e.tool_input e.tool_use_id
        e.permission_suggestions
    else if e.type === "permission_response"
    then permission_response e.request_id e.choice
    else if e.type === "request_cancelled"
    then request_cancelled e.request_id
    else if e.type === "ask_user_question"
    then ask_user_question e.request_id e.tool_use_id
        (map normalize_question (get_or e.questions List.[]))
    else if e.type === "question_response"
    then question_response e.request_id e.answers
    else if e.type === "raw"
    then raw (get_or e.content "")
    else if e.type === "command_output"
    then command_output (get_or e.content "")
    else raw (stringify e)
