-- ===== src/Chat/Message.antt =====
-- web/src/types/message.ts: the messages of a chat and their parts.
use pockode.Prelude.{ℕ, String, Bool, Option, List}

pub data MessageStatus : Type 0 where
  sending streaming complete error interrupted process_ended : MessageStatus

pub data PermissionStatus : Type 0 where
  pending allowed denied expired : PermissionStatus

pub data QuestionStatus : Type 0 where
  pending answered cancelled expired : QuestionStatus

-- A value of the type `unknown`, which no code here looks into: its JSON text.
abbrev pub Unknown : Type 0
Unknown = String

-- Milliseconds since the epoch.
abbrev pub Date : Type 0
Date = ℕ

-- `Record<string, string>`
abbrev pub Answers : Type 0
Answers = List (String × String)

pub record ToolCall : Type 0 where
  pub id : String
  pub name : String
  pub input : Unknown
  pub result : Option String

pub data PermissionBehavior : Type 0 where
  allow deny ask : PermissionBehavior

pub data PermissionUpdateDestination : Type 0 where
  user_settings project_settings local_settings session : PermissionUpdateDestination

pub record PermissionRuleValue : Type 0 where
  pub tool_name : String
  pub rule_content : Option String

pub data PermissionMode : Type 0 where
  default accept_edits bypass_permissions plan : PermissionMode

pub data PermissionUpdate : Type 0 where
  add_rules replace_rules remove_rules :
      (rules : List PermissionRuleValue) (behavior : PermissionBehavior)
      (destination : PermissionUpdateDestination)
      → PermissionUpdate
  set_mode : (mode : PermissionMode) (destination : PermissionUpdateDestination) → PermissionUpdate
  add_directories remove_directories :
      (directories : List String) (destination : PermissionUpdateDestination) → PermissionUpdate

pub record PermissionRequest : Type 0 where
  pub request_id : String
  pub tool_name : String
  pub tool_input : Unknown
  pub tool_use_id : String
  pub permission_suggestions : Option (List PermissionUpdate)

pub record QuestionOption : Type 0 where
  pub label : String
  pub description : String

pub record AskUserQuestion : Type 0 where
  pub question : String
  pub header : String
  pub options : List QuestionOption
  pub multi_select : Bool

pub record AskUserQuestionRequest : Type 0 where
  pub request_id : String
  pub tool_use_id : String
  pub questions : List AskUserQuestion

pub data ContentPart : Type 0 where
  text : (content : String) → ContentPart
  tool_call : (tool : ToolCall) → ContentPart
  system : (content : String) → ContentPart
  warning : (message code : String) → ContentPart
  permission_request : (request : PermissionRequest) (status : PermissionStatus) → ContentPart
  ask_user_question :
      (request : AskUserQuestionRequest) (status : QuestionStatus) (answers : Option Answers)
      → ContentPart
  raw : (content : String) → ContentPart
  command_output : (content : String) → ContentPart

pub record UserMessage : Type 0 where
  pub id : String
  pub content : String
  pub status : MessageStatus
  pub created_at : Date

pub record AssistantMessage : Type 0 where
  pub id : String
  pub parts : List ContentPart
  pub status : MessageStatus
  pub error : Option String
  pub created_at : Date

pub data Message : Type 0 where
  user : UserMessage → Message
  assistant : AssistantMessage → Message
