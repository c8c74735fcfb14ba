-- ===== src/Rpc/Tests.antt =====
-- The theorems about the requests, applied to one action of each group.
use pockode.Prelude.{◌≡◌, none, some, List, [], ◌∷◌, String}
use pockode.Chat.Session.{SessionMode, AgentType}
use pockode.Stores.Works.{SettingsState}
use pockode.Rpc.{
  text, chat_request, interrupt, session_request, set_session_mode, file_request, get_file,
  git_request, get_log, work_request, update_work, agent_role_request, delete_agent_role,
  worktree_request, create_worktree, node_request, start_node, Params,
}
use pockode.Rpc.Readers.{
  read_chat, read_session, read_file, read_git, read_work, read_agent_role, read_worktree,
  read_node, filled_file, filled_git, filled_worktree,
}
use pockode.Rpc.Reading.{requests_read}

abbrev start_params : Params
start_params = ("id", text "n1") ∷ ("token", text "secret") ∷ []

abbrev title_params : Params
title_params = ("id", text "w1") ∷ ("title", text "Parser") ∷ []

requests_read_example :
    (read_chat (chat_request (interrupt "s1")) ≡ some (interrupt "s1"))
    × (read_session (session_request (set_session_mode "s1" SessionMode.yolo))
        ≡ some (set_session_mode "s1" SessionMode.yolo))
    × (read_file (file_request (get_file none)) ≡ some (filled_file (get_file none)))
    × (read_git (git_request (get_log none)) ≡ some (filled_git (get_log none)))
    × (read_work (work_request (update_work title_params)) ≡ some (update_work title_params))
    × (read_agent_role (agent_role_request (delete_agent_role "r1"))
        ≡ some (delete_agent_role "r1"))
    × (read_worktree (worktree_request (create_worktree "fix" "fix" (some "")))
        ≡ some (filled_worktree (create_worktree "fix" "fix" (some ""))))
    × (read_node (node_request (start_node start_params)) ≡ some (start_node start_params))
requests_read_example =
    requests_read (interrupt "s1") (set_session_mode "s1" SessionMode.yolo) (get_file none)
      (get_log none) (update_work title_params) (delete_agent_role "r1")
      (create_worktree "fix" "fix" (some "")) (start_node start_params)

abbrev settings : SettingsState
settings = some (record {
  default_agent_role_id = some "r1";
  default_agent_type = some AgentType.codex;
  default_mode = none;
})

abbrev patch : List (String × String)
patch = ("default_mode", "yolo") ∷ []
