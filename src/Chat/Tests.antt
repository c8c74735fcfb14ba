-- ===== src/Chat/Tests.antt =====
-- The theorems about chats, applied to a small chat and a small history.
use pockode.Prelude.{
  some, none, ℕ, ◌≡◌, refl, false, none, some, List, [], ◌∷◌, ◌++◌, String, any, ===_iff, arith,
}
use pockode.Chat.Message.{
  ContentPart, text, tool_call, permission_request, ask_user_question, PermissionStatus,
  QuestionStatus, MessageStatus, streaming, complete, Message, user, assistant,
}
use pockode.Chat.Event.{Nullish, undefined, null, value, NormalizedEvent, WireRecord}
use pockode.Chat.Reducer.{Fresh, active_last, apply_server_event, replay_history}
use pockode.Chat.Transcript.{all_parts, user_contents, written}
use pockode.Chat.Dialogs.{is_pending}
use pockode.Chat.Answers.{results_of, settled_once, tool_results}
use pockode.Chat.Growth.{Evolves}
use pockode.Chat.History.{replay_history-Evolves}
use pockode.Chat.Users.{all_sent, events, replay_history-users}
use pockode.Chat.Written.{all_text, replay_history-written}
use pockode.Chat.Terminal.{terminal_inactive, process_ended_settles}
use pockode.Chat.Questions.{statuses_of, question_response-statuses}

abbrev pub fresh : Fresh
fresh = record { user_id = "u2"; user_date = 20; assistant_id = "a2"; assistant_date = 21 }

abbrev pub supply : ℕ → Fresh
supply k = fresh

abbrev pub stringify : WireRecord → String
stringify e = e.type

abbrev pub record_of : String → WireRecord
record_of type = record {
  type = type;
  content = some "hello";
  tool_use_id = "t1";
  tool_name = "Bash";
  tool_input = "{}";
  tool_result = some "done";
  message = none;
  code = none;
  error = none;
  request_id = "q1";
  permission_suggestions = none;
  choice = "deny";
  questions = none;
  answers = undefined;
}

abbrev pub records : List WireRecord
records =
    record_of "message"
    ∷ record_of "text"
    ∷ record_of "tool_call"
    ∷ record_of "permission_request"
    ∷ record_of "permission_response"
    ∷ record_of "tool_result"
    ∷ record_of "text"
    ∷ []

abbrev pub later : List WireRecord
later =
    record_of "text"
    ∷ record_of "ask_user_question"
    ∷ record_of "question_response"
    ∷ record_of "done"
    ∷ record_of "message"
    ∷ record_of "process_ended"
    ∷ []

abbrev permission : ContentPart
permission =
    permission_request
      (record {
        request_id = "p1";
        tool_name = "Bash";
        tool_input = "{}";
        tool_use_id = "t1";
        permission_suggestions = none;
      })
      PermissionStatus.pending

abbrev question : ContentPart
question =
    ask_user_question (record { request_id = "q1"; tool_use_id = "t2"; questions = [] })
      QuestionStatus.pending none

abbrev call : String → ContentPart
call id = tool_call (record { id = id; name = "Bash"; input = "{}"; result = none })

abbrev reply : MessageStatus → Message
reply status = assistant (record {
  id = "a1";
  parts = text "hi" ∷ call "t1" ∷ call "t2" ∷ permission ∷ question ∷ [];
  status = status;
  error = none;
  created_at = 11;
})

-- A chat with an open reply, in which a permission request and a question wait.
abbrev pub chat : MessageStatus → List Message
chat status =
    user (record { id = "u1"; content = "go"; status = complete; created_at = 10 })
    ∷ reply status
    ∷ []

abbrev answers : Nullish (List (String × String))
answers = value (("Which?", "this") ∷ [])

replay_history-users_example :
    user_contents (replay_history stringify supply records) ≡ all_sent (events stringify records)
replay_history-users_example = replay_history-users stringify supply records

replay_history-written_example :
    written (all_parts (replay_history stringify supply records))
    ≡ all_text (events stringify records)
replay_history-written_example = replay_history-written stringify supply records

replay_history-Evolves_example :
    Evolves
      (all_parts (replay_history stringify supply records))
      (all_parts (replay_history stringify supply (records ++ later)))
replay_history-Evolves_example = replay_history-Evolves stringify supply records later

terminal_inactive_example :
    active_last (apply_server_event fresh (chat streaming) NormalizedEvent.interrupted) ≡ none
terminal_inactive_example =
    terminal_inactive fresh (chat streaming) NormalizedEvent.interrupted refl

process_ended_settles_example :
    any is_pending
      (all_parts (apply_server_event fresh (chat complete) NormalizedEvent.process_ended))
    ≡ false
process_ended_settles_example = process_ended_settles fresh (chat complete)

question_response-statuses_example :
    let after = λ (a : Nullish (List (String × String))). statuses_of "q1" (
      all_parts
        (apply_server_event fresh (chat streaming) (NormalizedEvent.question_response "q1" a))) in
    (after null ≡ QuestionStatus.cancelled ∷ [])
    × (after (value (("Which?", "this") ∷ [])) ≡ QuestionStatus.answered ∷ [])
question_response-statuses_example =
    question_response-statuses fresh (chat streaming) "q1" (("Which?", "this") ∷ [])

settled_once_example :
    (apply_server_event fresh
        (apply_server_event fresh
          (chat streaming)
          (NormalizedEvent.permission_response "p1" "deny"))
        (NormalizedEvent.permission_response "p1" "allow")
      ≡ apply_server_event fresh (chat streaming) (NormalizedEvent.permission_response "p1" "deny"))
    × (apply_server_event fresh
          (apply_server_event fresh (chat streaming) (NormalizedEvent.question_response "p1" null))
          (NormalizedEvent.question_response "p1" answers)
        ≡ apply_server_event fresh (chat streaming) (NormalizedEvent.question_response "p1" null))
    × (apply_server_event fresh
          (apply_server_event fresh (chat streaming) (NormalizedEvent.request_cancelled "p1"))
          (NormalizedEvent.permission_response "p1" "deny")
        ≡ apply_server_event fresh (chat streaming) (NormalizedEvent.request_cancelled "p1"))
settled_once_example = settled_once fresh fresh (chat streaming) "p1" "deny" "allow" null answers

tool_results_example :
    (results_of "t1" (
        all_parts
          (apply_server_event fresh (chat streaming) (NormalizedEvent.tool_result "t1" "x")))
      ≡ some "x" ∷ [])
    × (results_of "t2" (
          all_parts
            (apply_server_event fresh (chat streaming) (NormalizedEvent.tool_result "t1" "x")))
        ≡ none ∷ [])
    × (apply_server_event fresh
          (apply_server_event fresh (chat streaming) (NormalizedEvent.tool_result "t1" "x"))
          (NormalizedEvent.tool_result "t2" "y")
        ≡ apply_server_event fresh
            (apply_server_event fresh (chat streaming) (NormalizedEvent.tool_result "t2" "y"))
            (NormalizedEvent.tool_result "t1" "x"))
    × (apply_server_event fresh
          (apply_server_event fresh (chat streaming) (NormalizedEvent.tool_result "t1" "x"))
          (NormalizedEvent.tool_result "t1" "y")
        ≡ apply_server_event fresh (chat streaming) (NormalizedEvent.tool_result "t1" "y"))
tool_results_example =
    tool_results fresh fresh (chat streaming) "t1" "x" "t2" "y" (ground (arith, ===_iff "t1" "t2"))
