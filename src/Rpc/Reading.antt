-- ===== src/Rpc/Reading.antt =====
-- web/src/lib/rpc and web-cluster/src/lib/rpc/node.ts: what a reader of the requests can tell.
use pockode.Prelude.{◌≡◌, refl, none, some, is_truthy, inl, inr, Bool-cases}
use pockode.Chat.Session.{default, yolo, claude, codex}
use pockode.Rpc.{
  ChatAction, send_message, interrupt, permission_response, question_response, chat_request,
  SessionAction, create_session, delete_session, mark_session_read, update_session_title,
  set_session_mode, set_session_agent_type, session_request, FileAction, get_file, write_file,
  delete_file, file_request, GitAction, get_status, get_log, get_commit, get_commit_diff, stage,
  unstage, git_request, WorkAction, create_work, update_work, update_comment, delete_work,
  start_work, stop_work, reopen_work, work_request, AgentRoleAction, create_agent_role,
  update_agent_role, delete_agent_role, reset_agent_role_defaults, agent_role_request,
  WorktreeAction, list_worktrees, create_worktree, delete_worktree, worktree_request, NodeAction,
  list_nodes, get_node, delete_node, get_node_status, create_node, update_node, start_node,
  stop_node, node_request,
}
use pockode.Rpc.Readers.{
  read_chat, read_session, read_file, read_git, read_work, read_agent_role, read_worktree,
  read_node, filled_file, filled_git, filled_worktree,
}

chat_read : (a : ChatAction) → read_chat (chat_request a) ≡ some a
unfolding chat_request
chat_read (send_message session_id content) = refl
chat_read (interrupt session_id) = refl
chat_read (permission_response params) = refl
chat_read (question_response params) = refl

session_read : (a : SessionAction) → read_session (session_request a) ≡ some a
unfolding session_request
session_read create_session = refl
session_read (delete_session session_id) = refl
session_read (mark_session_read session_id) = refl
session_read (update_session_title session_id title) = refl
session_read (set_session_mode session_id default) = refl
session_read (set_session_mode session_id yolo) = refl
session_read (set_session_agent_type session_id claude) = refl
session_read (set_session_agent_type session_id codex) = refl

file_read : (a : FileAction) → read_file (file_request a) ≡ some (filled_file a)
unfolding file_request
file_read (get_file path) = refl
file_read (write_file path content) = refl
file_read (delete_file path) = refl

git_read : (a : GitAction) → read_git (git_request a) ≡ some (filled_git a)
unfolding git_request
git_read get_status = refl
git_read (get_log limit) = refl
git_read (get_commit hash) = refl
git_read (get_commit_diff hash path hide_whitespace) = refl
git_read (stage paths) = refl
git_read (unstage paths) = refl

work_read : (a : WorkAction) → read_work (work_request a) ≡ some a
unfolding work_request
work_read (create_work params) = refl
work_read (update_work params) = refl
work_read (update_comment params) = refl
work_read (delete_work id) = refl
work_read (start_work id) = refl
work_read (stop_work id) = refl
work_read (reopen_work id) = refl

agent_role_read : (a : AgentRoleAction) → read_agent_role (agent_role_request a) ≡ some a
unfolding agent_role_request
agent_role_read (create_agent_role params) = refl
agent_role_read (update_agent_role params) = refl
agent_role_read (delete_agent_role id) = refl
agent_role_read reset_agent_role_defaults = refl

worktree_read : (a : WorktreeAction) → read_worktree (worktree_request a) ≡ some (filled_worktree a)
unfolding worktree_request
worktree_read list_worktrees = refl
worktree_read (create_worktree name branch none) = refl
worktree_read (create_worktree name branch (some base)) = elim (Bool-cases (is_truthy base)) [
  | inl e ↦ rw e refl
  | inr e ↦ rw e refl
]
worktree_read (delete_worktree name) = refl

node_read : (a : NodeAction) → read_node (node_request a) ≡ some a
unfolding node_request
node_read list_nodes = refl
node_read (get_node id) = refl
node_read (delete_node id) = refl
node_read (get_node_status id) = refl
node_read (create_node params) = refl
node_read (update_node params) = refl
node_read (start_node params) = refl
node_read (stop_node params) = refl

-- The request of an action tells the action, with defaults filled in and an empty base branch left
-- out, so that no two other actions of a group send the same.
pub requests_read :
    (chat : ChatAction) (session : SessionAction) (file : FileAction) (git : GitAction)
    (work : WorkAction) (agent_role : AgentRoleAction) (worktree : WorktreeAction)
    (node : NodeAction)
    → (read_chat (chat_request chat) ≡ some chat)
      × (read_session (session_request session) ≡ some session)
      × (read_file (file_request file) ≡ some (filled_file file))
      × (read_git (git_request git) ≡ some (filled_git git))
      × (read_work (work_request work) ≡ some work)
      × (read_agent_role (agent_role_request agent_role) ≡ some agent_role)
      × (read_worktree (worktree_request worktree) ≡ some (filled_worktree worktree))
      × (read_node (node_request node) ≡ some node)
requests_read chat session file git work agent_role worktree node = (
  chat_read chat,
  session_read session,
  file_read file,
  git_read git,
  work_read work,
  agent_role_read agent_role,
  worktree_read worktree,
  node_read node,
)
