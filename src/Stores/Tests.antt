-- ===== src/Stores/Tests.antt =====
-- The theorems about the lists, applied to small lists of sessions, works and agent roles.
use pockode.Prelude.{pos, ◌≡◌, refl, true, false, none, some, List, [], ◌∷◌, String}
use pockode.Chat.Session.{SessionMode, AgentType, ProcessState}
use pockode.Stores.Collection.{ListChanged, create, update, delete, sync, find}
use pockode.Stores.Items.{
  SessionListItem, session_keyed, Work, WorkType, WorkStatus, work_keyed, AgentRole, role_keyed,
}
use pockode.Stores.Sessions.{SessionState}
use pockode.Stores.Works.{WorkState, AgentRoleState}
use pockode.Stores.Refinement.{change_maps}
use pockode.Stores.Refinement.Unique.{IsUnique}
use pockode.Stores.Refinement.Stores.{
  sessions_changed, works_changed, roles_changed, stores_refine, ids-IsUnique,
}

abbrev session : (id title : String) → SessionListItem
session id title = record {
  id = id;
  title = title;
  created_at = "2025-01-01";
  updated_at = "2025-01-02";
  mode = SessionMode.default;
  agent_type = AgentType.claude;
  state = ProcessState.idle;
  needs_input = false;
  unread = true;
}

abbrev sessions : SessionState
sessions = record {
  sessions = session "s1" "of a task" ∷ session "s2" "free" ∷ [];
  is_loading = false;
  is_success = true;
  show_task_sessions = false;
}

abbrev work : (id title : String) → Work
work id title = record {
  id = id;
  type = WorkType.task;
  parent_id = none;
  agent_role_id = some "r1";
  title = title;
  body = none;
  status = WorkStatus.in_progress;
  session_id = some "s1";
  current_step = some (pos 2);
  created_at = "2025-01-01";
  updated_at = "2025-01-02";
}

abbrev works : WorkState
works = record { works = work "w1" "Parser" ∷ []; is_loading = false; error = none }

abbrev role : (id name : String) → AgentRole
role id name = record {
  id = id;
  name = name;
  role_prompt = "Write tests.";
  steps = none;
  created_at = "2025-01-01";
  updated_at = "2025-01-02";
}

abbrev roles : AgentRoleState
roles = record { roles = role "r1" "Tester" ∷ []; is_loading = false; error = none }

abbrev session_changes : List (ListChanged SessionListItem)
session_changes = create (session "s3" "new") ∷ update (session "s1" "renamed") ∷ delete "s2" ∷ []

abbrev work_changes : List (ListChanged Work)
work_changes =
    create (work "w2" "Printer") ∷ create (work "w1" "Lexer") ∷ sync (work "w3" "All" ∷ []) ∷ []

abbrev role_changes : List (ListChanged AgentRole)
role_changes = update (role "r1" "Reviewer") ∷ create (role "r2" "Writer") ∷ []

stores_refine_example :
    ((λ j. find j (sessions_changed session_changes sessions).sessions)
      ≡ change_maps session_changes (λ j. find j sessions.sessions))
    × ((λ j. find j (works_changed work_changes works).works)
        ≡ change_maps work_changes (λ j. find j works.works))
    × ((λ j. find j (roles_changed role_changes roles).roles)
        ≡ change_maps role_changes (λ j. find j roles.roles))
stores_refine_example = stores_refine session_changes sessions work_changes works role_changes roles

ids-IsUnique_example :
    IsUnique (sessions_changed session_changes sessions).sessions
    × IsUnique (works_changed work_changes works).works
ids-IsUnique_example =
    ids-IsUnique session_changes sessions work_changes works (tt, (tt, (tt, tt))) (refl, (refl, tt))
      (tt, (tt, ((refl, tt), tt))) (refl, tt)
