-- ===== src/Chat/Parts.antt =====
-- web/src/lib/messageReducer.ts: what an event adds to the parts of a message.
use Prim.Native.String
use pockode.Prelude.{none, some, List, [], ◌∷◌, ◌++◌, String, last, init}
use pockode.Chat.Message.{
  ContentPart, text, tool_call, system, warning, permission_request, ask_user_question, raw,
  command_output, PermissionStatus, QuestionStatus,
}
use pockode.Chat.Event.{NormalizedEvent}

-- Appends to a last part that is text, and starts one otherwise.
unfoldable pub append_text : List ContentPart → String → List ContentPart
append_text parts content = elim (last parts) [
  | some (text before) ↦ init parts ++ text (String.◌++◌ before content) ∷ []
  | _ ↦ parts ++ text content ∷ []
]

unfoldable pub apply_event_to_parts : List ContentPart → NormalizedEvent → List ContentPart
apply_event_to_parts parts (NormalizedEvent.text content) = append_text parts content
apply_event_to_parts parts (NormalizedEvent.tool_call id name input) =
    parts ++ tool_call (record { id = id; name = name; input = input; result = none }) ∷ []
apply_event_to_parts parts (NormalizedEvent.permission_request id name input use_id suggestions) =
    parts
    ++ permission_request
        (record {
          request_id = id;
          tool_name = name;
          tool_input = input;
          tool_use_id = use_id;
          permission_suggestions = suggestions;
        })
        PermissionStatus.pending
      ∷ []
apply_event_to_parts parts (NormalizedEvent.ask_user_question id use_id questions) =
    parts
    ++ ask_user_question (record { request_id = id; tool_use_id = use_id; questions = questions })
        QuestionStatus.pending none
      ∷ []
apply_event_to_parts parts (NormalizedEvent.system content) = parts ++ system content ∷ []
apply_event_to_parts parts (NormalizedEvent.warning message code) =
    parts ++ warning message code ∷ []
apply_event_to_parts parts (NormalizedEvent.raw content) = parts ++ raw content ∷ []
apply_event_to_parts parts (NormalizedEvent.command_output content) =
    parts ++ command_output content ∷ []
apply_event_to_parts parts _ = parts
