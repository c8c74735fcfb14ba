-- ===== src/Rpc.antt =====
-- web/src/lib/rpc: the requests behind the actions of the store, and web-cluster/src/lib/rpc/node.ts.
--
-- An action of a group is a constructor with the arguments of the call. Params that a caller hands
-- over as an object are passed on as their fields.
pub mod Commands
pub mod Readers
pub mod Reading
pub mod Merging
mod Tests
use pockode.Prelude.{
  ℕ, Bool, true, false, Option, none, some, List, [], ◌∷◌, ◌++◌, String, is_truthy, get_or, ◌⊎◌,
  inl, inr, if◌then◌else◌,
}
use pockode.Chat.Session.{SessionMode, default, yolo, AgentType, claude, codex}
use pockode.Stores.Works.{Settings, SettingsState}
use pockode.Extensions.{spread}

-- A field of params. `json` is the text of any value that is only passed on.
pub data Value : Type 0 where
  text json : String → Value
  number : ℕ → Value
  boolean : Bool → Value
  texts : List String → Value
  object : List (String × String) → Value

abbrev pub Params : Type 0
Params = List (String × Value)

pub record Request : Type 0 where
  pub method : String
  pub params : Params

abbrev pub request : (method : String) (params : Params) → Request
request method params = record { method = method; params = params }

pub data ChatAction : Type 0 where
  send_message : (session_id content : String) → ChatAction
  interrupt : (session_id : String) → ChatAction
  permission_response question_response : Params → ChatAction

unfoldable pub chat_request : ChatAction → Request
chat_request (send_message session_id content) =
    request "chat.message" (("session_id", text session_id) ∷ ("content", text content) ∷ [])
chat_request (interrupt session_id) =
    request "chat.interrupt" (("session_id", text session_id) ∷ [])
chat_request (permission_response params) = request "chat.permission_response" params
chat_request (question_response params) = request "chat.question_response" params

pub data SessionAction : Type 0 where
  create_session : SessionAction
  delete_session mark_session_read : (session_id : String) → SessionAction
  update_session_title : (session_id title : String) → SessionAction
  set_session_mode : (session_id : String) → SessionMode → SessionAction
  set_session_agent_type : (session_id : String) → AgentType → SessionAction

abbrev pub session_mode_name : SessionMode → String
session_mode_name default = "default"
session_mode_name yolo = "yolo"

abbrev pub agent_type_name : AgentType → String
agent_type_name claude = "claude"
agent_type_name codex = "codex"

unfoldable pub session_request : SessionAction → Request
session_request create_session = request "session.create" []
session_request (delete_session session_id) =
    request "session.delete" (("session_id", text session_id) ∷ [])
session_request (update_session_title session_id title) =
    request "session.update_title" (("session_id", text session_id) ∷ ("title", text title) ∷ [])
session_request (set_session_mode session_id mode) =
    request "session.set_mode"
      (("session_id", text session_id) ∷ ("mode", text (session_mode_name mode)) ∷ [])
session_request (set_session_agent_type session_id agent_type) =
    request "session.set_agent_type"
      (("session_id", text session_id) ∷ ("agent_type", text (agent_type_name agent_type)) ∷ [])
session_request (mark_session_read session_id) =
    request "session.mark_read" (("session_id", text session_id) ∷ [])

pub data FileAction : Type 0 where
  get_file : (path : Option String) → FileAction
  write_file : (path content : String) → FileAction
  delete_file : (path : String) → FileAction

unfoldable pub file_request : FileAction → Request
file_request (get_file path) = request "file.get" (("path", text (get_or path "")) ∷ [])
file_request (write_file path content) =
    request "file.write" (("path", text path) ∷ ("content", text content) ∷ [])
file_request (delete_file path) = request "file.delete" (("path", text path) ∷ [])

pub data GitAction : Type 0 where
  get_status : GitAction
  get_log : (limit : Option ℕ) → GitAction
  get_commit : (hash : String) → GitAction
  get_commit_diff : (hash path : String) (hide_whitespace : Option Bool) → GitAction
  stage unstage : (paths : List String) → GitAction

unfoldable pub git_request : GitAction → Request
git_request get_status = request "git.status" []
git_request (get_log limit) = request "git.log" (("limit", number (get_or limit 50)) ∷ [])
git_request (get_commit hash) = request "git.show" (("hash", text hash) ∷ [])
git_request (get_commit_diff hash path hide_whitespace) = request "git.show.diff" (
    ("hash", text hash)
    ∷ ("path", text path)
    ∷ ("hide_whitespace", boolean (get_or hide_whitespace false))
    ∷ [])
git_request (stage paths) = request "git.add" (("paths", texts paths) ∷ [])
git_request (unstage paths) = request "git.reset" (("paths", texts paths) ∷ [])

pub data WorkAction : Type 0 where
  create_work update_work update_comment : Params → WorkAction
  delete_work start_work stop_work reopen_work : (id : String) → WorkAction

unfoldable pub work_request : WorkAction → Request
work_request (create_work params) = request "work.create" params
work_request (update_work params) = request "work.update" params
work_request (delete_work id) = request "work.delete" (("id", text id) ∷ [])
work_request (start_work id) = request "work.start" (("id", text id) ∷ [])
work_request (stop_work id) = request "work.stop" (("id", text id) ∷ [])
work_request (reopen_work id) = request "work.reopen" (("id", text id) ∷ [])
work_request (update_comment params) = request "work.comment.update" params

pub data AgentRoleAction : Type 0 where
  create_agent_role update_agent_role : Params → AgentRoleAction
  delete_agent_role : (id : String) → AgentRoleAction
  reset_agent_role_defaults : AgentRoleAction

unfoldable pub agent_role_request : AgentRoleAction → Request
agent_role_request (create_agent_role params) = request "agent_role.create" params
agent_role_request (update_agent_role params) = request "agent_role.update" params
agent_role_request (delete_agent_role id) = request "agent_role.delete" (("id", text id) ∷ [])
agent_role_request reset_agent_role_defaults = request "agent_role.reset_defaults" []

pub data WorktreeAction : Type 0 where
  list_worktrees : WorktreeAction
  create_worktree : (name branch : String) (base_branch : Option String) → WorktreeAction
  delete_worktree : (name : String) → WorktreeAction

-- The base branch is left out when it is empty.
abbrev pub base_branch_param : Option String → Params
base_branch_param none = []
base_branch_param (some base_branch) =
    if is_truthy base_branch then ("base_branch", text base_branch) ∷ [] else []

unfoldable pub worktree_request : WorktreeAction → Request
worktree_request list_worktrees = request "worktree.list" []
worktree_request (create_worktree name branch base_branch) =
    request "worktree.create"
      (("name", text name) ∷ ("branch", text branch) ∷ base_branch_param base_branch)
worktree_request (delete_worktree name) = request "worktree.delete" (("name", text name) ∷ [])

pub data NodeAction : Type 0 where
  list_nodes : NodeAction
  get_node delete_node get_node_status : (id : String) → NodeAction
  create_node update_node start_node stop_node : Params → NodeAction

unfoldable pub node_request : NodeAction → Request
node_request list_nodes = request "node.list" []
node_request (get_node id) = request "node.get" (("id", text id) ∷ [])
node_request (create_node params) = request "node.create" params
node_request (update_node params) = request "node.update" params
node_request (delete_node id) = request "node.delete" (("id", text id) ∷ [])
node_request (get_node_status id) = request "node.status" (("id", text id) ∷ [])
node_request (start_node params) = request "node.start" params
node_request (stop_node params) = request "node.stop" params

-- The fields of `Settings` that are there.
abbrev pub text_field : String → Option String → List (String × String)
text_field name none = []
text_field name (some v) = (name, v) ∷ []

abbrev pub optional_name : {A : Type 0} → (A → String) → Option A → Option String
optional_name name none = none
optional_name name (some x) = some (name x)

abbrev pub settings_fields : Settings → List (String × String)
settings_fields s =
    text_field "default_agent_role_id" s.default_agent_role_id
    ++ text_field "default_agent_type" (optional_name agent_type_name s.default_agent_type)
    ++ text_field "default_mode" (optional_name session_mode_name s.default_mode)

-- `settings ?? {}`
abbrev pub current_fields : SettingsState → List (String × String)
current_fields none = []
current_fields (some settings) = settings_fields settings

-- `updateSettings`, with what the store of settings has.
unfoldable pub update_settings : (patch : List (String × String)) → SettingsState → Request
update_settings patch settings =
    request "settings.update" (("settings", object (spread (current_fields settings) patch)) ∷ [])

pub data NotConnected : Type 0 where
  not_connected : NotConnected

-- `requireClient` and the call of `request`: which client is sent what.
unfoldable pub act : {A : Type 0} → (A → Request) → Option ℕ → A → NotConnected ⊎ (ℕ × Request)
act request_of none action = inl not_connected
act request_of (some client) action = inr (client, request_of action)
