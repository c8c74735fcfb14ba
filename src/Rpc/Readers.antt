-- ===== src/Rpc/Readers.antt =====
-- What a reader of the requests of web/src/lib/rpc and web-cluster/src/lib/rpc/node.ts can tell.
--
-- A reader goes by the method and by the names of the params.
use pockode.Prelude.{
  ℕ, Bool, false, Option, none, some, List, String, is_truthy, get_or, if◌then◌else◌, ◌===◌,
}
use pockode.Ws.Watch.{get}
use pockode.Chat.Session.{SessionMode, default, yolo, AgentType, claude, codex}
use pockode.Rpc.{
  Value, text, number, boolean, texts, Params, Request, ChatAction, send_message, interrupt,
  permission_response, question_response, SessionAction, create_session, delete_session,
  mark_session_read, update_session_title, set_session_mode, set_session_agent_type, FileAction,
  get_file, write_file, delete_file, GitAction, get_status, get_log, get_commit, get_commit_diff,
  stage, unstage, WorkAction, create_work, update_work, update_comment, delete_work, start_work,
  stop_work, reopen_work, AgentRoleAction, create_agent_role, update_agent_role, delete_agent_role,
  reset_agent_role_defaults, WorktreeAction, list_worktrees, create_worktree, delete_worktree,
  NodeAction, list_nodes, get_node, delete_node, get_node_status, create_node, update_node,
  start_node, stop_node,
}

module _ {A : Type 0} where
  abbrev in_text : (String → Option A) → Option Value → Option A
  in_text f (some (text v)) = f v
  in_text f _ = none

  abbrev in_texts : (List String → A) → Option Value → Option A
  in_texts f (some (texts v)) = some (f v)
  in_texts f _ = none

  abbrev in_number : (ℕ → A) → Option Value → Option A
  in_number f (some (number v)) = some (f v)
  in_number f _ = none

  abbrev in_boolean : (Bool → A) → Option Value → Option A
  in_boolean f (some (boolean v)) = some (f v)
  in_boolean f _ = none

  -- The text of a field.
  abbrev with_text : String → (String → A) → Params → Option A
  with_text name f params = in_text (λ v. some (f v)) (get name params)

  abbrev with_two_texts : (first second : String) → (String → String → A) → Params → Option A
  with_two_texts first second f params =
      in_text (λ v. with_text second (f v) params) (get first params)

abbrev pub read_chat : Request → Option ChatAction
read_chat r =
    if r.method === "chat.message"
    then with_two_texts "session_id" "content" send_message r.params
    else if r.method === "chat.interrupt"
    then with_text "session_id" interrupt r.params
    else if r.method === "chat.permission_response"
    then some (permission_response r.params)
    else if r.method === "chat.question_response"
    then some (question_response r.params)
    else none

abbrev as_mode : String → SessionMode
as_mode name = if name === "yolo" then yolo else default

abbrev as_agent_type : String → AgentType
as_agent_type name = if name === "codex" then codex else claude

abbrev pub read_session : Request → Option SessionAction
read_session r =
    if r.method === "session.create"
    then some create_session
    else if r.method === "session.delete"
    then with_text "session_id" delete_session r.params
    else if r.method === "session.mark_read"
    then with_text "session_id" mark_session_read r.params
    else if r.method === "session.update_title"
    then with_two_texts "session_id" "title" update_session_title r.params
    else if r.method === "session.set_mode"
    then with_two_texts "session_id" "mode" (λ id mode. set_session_mode id (as_mode mode)) r.params
    else if r.method === "session.set_agent_type"
    then with_two_texts "session_id" "agent_type"
        (λ id agent_type. set_session_agent_type id (as_agent_type agent_type)) r.params
    else none

abbrev pub read_file : Request → Option FileAction
read_file r =
    if r.method === "file.get"
    then with_text "path" (λ path. get_file (some path)) r.params
    else if r.method === "file.write"
    then with_two_texts "path" "content" write_file r.params
    else if r.method === "file.delete"
    then with_text "path" delete_file r.params
    else none

abbrev pub read_git : Request → Option GitAction
read_git r =
    if r.method === "git.status"
    then some get_status
    else if r.method === "git.log"
    then in_number (λ n. get_log (some n)) (get "limit" r.params)
    else if r.method === "git.show"
    then with_text "hash" get_commit r.params
    else if r.method === "git.show.diff"
    then in_text
        (λ hash.
          in_text
            (λ path.
              in_boolean (λ b. get_commit_diff hash path (some b)) (get "hide_whitespace" r.params))
            (get "path" r.params))
        (get "hash" r.params)
    else if r.method === "git.add"
    then in_texts stage (get "paths" r.params)
    else if r.method === "git.reset"
    then in_texts unstage (get "paths" r.params)
    else none

abbrev pub read_work : Request → Option WorkAction
read_work r =
    if r.method === "work.create"
    then some (create_work r.params)
    else if r.method === "work.update"
    then some (update_work r.params)
    else if r.method === "work.comment.update"
    then some (update_comment r.params)
    else if r.method === "work.delete"
    then with_text "id" delete_work r.params
    else if r.method === "work.start"
    then with_text "id" start_work r.params
    else if r.method === "work.stop"
    then with_text "id" stop_work r.params
    else if r.method === "work.reopen"
    then with_text "id" reopen_work r.params
    else none

abbrev pub read_agent_role : Request → Option AgentRoleAction
read_agent_role r =
    if r.method === "agent_role.create"
    then some (create_agent_role r.params)
    else if r.method === "agent_role.update"
    then some (update_agent_role r.params)
    else if r.method === "agent_role.delete"
    then with_text "id" delete_agent_role r.params
    else if r.method === "agent_role.reset_defaults"
    then some reset_agent_role_defaults
    else none

abbrev base_branch_of : Option Value → Option String
base_branch_of (some (text v)) = some v
base_branch_of _ = none

abbrev pub read_worktree : Request → Option WorktreeAction
read_worktree r =
    if r.method === "worktree.list"
    then some list_worktrees
    else if r.method === "worktree.create"
    then with_two_texts "name" "branch"
        (λ name branch. create_worktree name branch (base_branch_of (get "base_branch" r.params)))
        r.params
    else if r.method === "worktree.delete"
    then with_text "name" delete_worktree r.params
    else none

abbrev pub read_node : Request → Option NodeAction
read_node r =
    if r.method === "node.list"
    then some list_nodes
    else if r.method === "node.get"
    then with_text "id" get_node r.params
    else if r.method === "node.delete"
    then with_text "id" delete_node r.params
    else if r.method === "node.status"
    then with_text "id" get_node_status r.params
    else if r.method === "node.create"
    then some (create_node r.params)
    else if r.method === "node.update"
    then some (update_node r.params)
    else if r.method === "node.start"
    then some (start_node r.params)
    else if r.method === "node.stop"
    then some (stop_node r.params)
    else none

-- The arguments with the defaults filled in.
abbrev pub filled_file : FileAction → FileAction
filled_file (get_file path) = get_file (some (get_or path ""))
filled_file action = action

abbrev pub filled_git : GitAction → GitAction
filled_git (get_log limit) = get_log (some (get_or limit 50))
filled_git (get_commit_diff hash path hide_whitespace) =
    get_commit_diff hash path (some (get_or hide_whitespace false))
filled_git action = action

abbrev pub filled_worktree : WorktreeAction → WorktreeAction
filled_worktree (create_worktree name branch (some base)) =
    create_worktree name branch (if is_truthy base then some base else none)
filled_worktree action = action
