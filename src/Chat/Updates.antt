-- ===== src/Chat/Updates.antt =====
-- web/src/lib/messageReducer.ts: the functions that revise parts which are already there.
use pockode.Prelude.{
  Bool, true, false, Option, none, some, List, [], ◌∷◌, String, if◌then◌else◌, ◌===◌,
}
use pockode.Chat.Message.{
  Answers, ContentPart, tool_call, permission_request, ask_user_question, PermissionStatus,
  QuestionStatus, Message, user, assistant,
}
use pockode.Chat.Event.{Nullish, undefined, null, value}

-- A list with a flag: was any member replaced? Where none was, the source returns the very list
-- that it was given, so that `updated !== messages` is the flag.
pub record Update {ℓ} (A : Type ℓ) : Type ℓ where
  pub items : List A
  pub changed : Bool

-- `parts.map(...)` with its `changed` variable; `none` returns the part as it is.
unfoldable pub map_parts :
    (ContentPart → Option ContentPart) → List ContentPart → Update ContentPart
map_parts f [] = record { items = []; changed = false }
map_parts f (part ∷ parts) =
    let rest = map_parts f parts in
    elim (f part) [
      | none ↦ record { items = part ∷ rest.items; changed = rest.changed }
      | some part' ↦ record { items = part' ∷ rest.items; changed = true }
    ]

-- `messages.map(...)` with its `anyChanged` variable.
unfoldable pub map_messages : (ContentPart → Option ContentPart) → List Message → Update Message
map_messages f [] = record { items = []; changed = false }
map_messages f (user m ∷ messages) =
    let rest = map_messages f messages in
    record { items = user m ∷ rest.items; changed = rest.changed }
map_messages f (assistant m ∷ messages) =
    let rest = map_messages f messages in
    let parts = map_parts f m.parts in
    if parts.changed
    then record {
      items = assistant (record m { parts = parts.items }) ∷ rest.items;
      changed = true;
    }
    else record { items = assistant m ∷ rest.items; changed = rest.changed }

-- `return anyChanged ? updated : messages`
unfoldable pub update_messages : (ContentPart → Option ContentPart) → List Message → Update Message
update_messages f messages =
    let updated = map_messages f messages in
    if updated.changed then updated else record { items = messages; changed = false }

unfoldable pub expire_dialog : ContentPart → Option ContentPart
expire_dialog (permission_request request PermissionStatus.pending) =
    some (permission_request request PermissionStatus.expired)
expire_dialog (ask_user_question request QuestionStatus.pending answers) =
    some (ask_user_question request QuestionStatus.expired answers)
expire_dialog _ = none

unfoldable pub expire_pending_dialogs : List Message → Update Message
expire_pending_dialogs = update_messages expire_dialog

unfoldable pub set_permission : String → PermissionStatus → ContentPart → Option ContentPart
set_permission id status (permission_request request PermissionStatus.pending) =
    if request.request_id === id then some (permission_request request status) else none
set_permission id status _ = none

unfoldable pub expire_permission_request : List Message → String → Update Message
expire_permission_request messages id =
    update_messages (set_permission id PermissionStatus.expired) messages

unfoldable pub update_permission_request_status :
    List Message → String → PermissionStatus → Update Message
update_permission_request_status messages id status =
    update_messages (set_permission id status) messages

-- `answers ?? undefined`
abbrev pub answers_or_undefined : Nullish Answers → Option Answers
answers_or_undefined undefined = none
answers_or_undefined null = none
answers_or_undefined (value answers) = some answers

unfoldable pub set_question :
    String → QuestionStatus → Nullish Answers → ContentPart → Option ContentPart
set_question id status answers (ask_user_question request QuestionStatus.pending before) =
    if request.request_id === id
    then some (ask_user_question request status (answers_or_undefined answers))
    else none
set_question id status answers _ = none

unfoldable pub update_question_status :
    List Message → String → QuestionStatus → Nullish Answers → Update Message
update_question_status messages id status answers =
    update_messages (set_question id status answers) messages

unfoldable pub set_result : String → String → ContentPart → Option ContentPart
set_result id result (tool_call tool) =
    if tool.id === id then some (tool_call (record tool { result = some result })) else none
set_result id result _ = none

unfoldable pub update_tool_result : List Message → String → String → Update Message
update_tool_result messages id result = update_messages (set_result id result) messages
