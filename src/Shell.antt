-- ===== src/Shell.antt =====
-- web/src/components/AppShell.tsx: where the app goes by itself, and where its handlers lead.
--
-- An effect is what it does when it runs: a navigation is a result for the router.
pub mod Redirects
mod Tests
use pockode.Prelude.{
  Bool, true, false, not, ◌&&◌, Option, none, some, List, [], ◌∷◌, String, any, is_truthy,
  if◌then◌else◌, ◌===◌,
}
use pockode.Navigation.Routes.{OverlayState, diff, file, commit}
use pockode.Navigation.Build.{NavTarget, NavigationResult, build_navigation, overlay_to_navigation}
use pockode.Ws.State.{ConnectionStatus, disconnected, auth_failed}
use pockode.Stores.Collection.{remove}
use pockode.Stores.Items.{SessionListItem, session_keyed}

pub record WorktreeInfo : Type 0 where
  pub name : String
  pub path : String
  pub branch : String
  pub is_main : Bool

abbrev pub go_to_session : (worktree id : String) (replace : Option Bool) → NavigationResult
go_to_session worktree id replace = build_navigation (NavTarget.session worktree id) replace

abbrev pub go_home : (worktree : String) (replace : Option Bool) → NavigationResult
go_home worktree replace = build_navigation (NavTarget.home worktree) replace

-- `string | null` as a condition.
abbrev pub has_session : Option String → Bool
has_session none = false
has_session (some id) = is_truthy id

-- What the effect does that follows the worktree of the URL.
pub record WorktreeSync : Type 0 where
  pub sets_current : Option String
  pub navigates : Option NavigationResult
  pub prev_worktree : String

unfoldable pub sync_worktree :
    (prev_worktree url_worktree store_worktree : String) (route_session_id : Option String)
    → WorktreeSync
sync_worktree prev_worktree url_worktree store_worktree route_session_id = record {
  sets_current = if url_worktree === store_worktree then none else some url_worktree;
  navigates =
      if not (prev_worktree === url_worktree) && has_session route_session_id
      then some (go_home url_worktree (some true))
      else none;
  prev_worktree = url_worktree;
}

abbrev is_disconnected : ConnectionStatus → Bool
is_disconnected disconnected = true
is_disconnected _ = false

abbrev is_auth_failed : ConnectionStatus → Bool
is_auth_failed auth_failed = true
is_auth_failed _ = false

-- The token that the app connects with when the token changes.
unfoldable pub connects_with : (token : Option String) → ConnectionStatus → Option String
connects_with none ws_status = none
connects_with (some token) ws_status =
    if is_truthy token && is_disconnected ws_status then some token else none

unfoldable pub logs_out : ConnectionStatus → Bool
logs_out ws_status = is_auth_failed ws_status

abbrev pub is_listed : String → List WorktreeInfo → Bool
is_listed name worktrees = any (λ (w : WorktreeInfo). w.name === name) worktrees

abbrev is_empty : List WorktreeInfo → Bool
is_empty [] = true
is_empty (w ∷ worktrees) = false

-- The effect that leaves a worktree which does not exist.
unfoldable pub leave_missing_worktree :
    (is_loaded is_git_repo : Bool) (worktrees : List WorktreeInfo) (url_worktree : String)
    → Option NavigationResult
leave_missing_worktree is_loaded is_git_repo worktrees url_worktree =
    if not is_loaded
    then none
    else if not (is_truthy url_worktree)
    then none
    else if not is_git_repo
    then none
    else if is_empty worktrees
    then none
    else if is_listed url_worktree worktrees
    then none
    else some (go_home "" (some true))

-- `navResult`
abbrev pub redirect_target :
    (id : String) (url_worktree : String) (overlay : Option OverlayState) → NavigationResult
redirect_target id url_worktree none = go_to_session url_worktree id none
redirect_target id url_worktree (some state) = overlay_to_navigation state url_worktree (some id)

-- The effect that goes to the session which `useSession` names.
unfoldable pub redirect_to_session :
    (redirect_id : Option String) (url_worktree : String) (overlay : Option OverlayState)
    → Option NavigationResult
redirect_to_session none url_worktree overlay = none
redirect_to_session (some id) url_worktree overlay =
    if is_truthy id
    then some (record (redirect_target id url_worktree overlay) { replace = some true })
    else none

-- Does the effect create a session, and is one being created after it?
unfoldable pub create_when_needed : (needs_new is_creating : Bool) → Bool × Bool
create_when_needed needs_new is_creating =
    if needs_new && not is_creating then (true, true) else (false, is_creating)

unfoldable pub created_for_need : (url_worktree new_id : String) → NavigationResult
created_for_need url_worktree new_id = go_to_session url_worktree new_id (some true)

unfoldable pub select_session : (url_worktree id : String) → NavigationResult
select_session url_worktree id = go_to_session url_worktree id none

-- `handleDeleteSession`, once the session is deleted.
unfoldable pub session_deleted :
    (id : String) (current : Option String) (filtered : List SessionListItem)
    (url_worktree : String)
    → Option NavigationResult
session_deleted id none filtered url_worktree = none
session_deleted id (some current) filtered url_worktree =
    if id === current
    then elim (remove id filtered) [
      | [] ↦ none
      | next ∷ _ ↦ some (go_to_session url_worktree next.id (some true))
    ]
    else none

unfoldable pub select_diff_file :
    (path : String) (staged : Bool) (url_worktree : String) (current : Option String)
    → NavigationResult
select_diff_file path staged url_worktree current =
    overlay_to_navigation (diff path staged) url_worktree current

unfoldable pub select_file :
    (path : String) (url_worktree : String) (current : Option String) → NavigationResult
select_file path url_worktree current = overlay_to_navigation (file path none) url_worktree current

unfoldable pub select_commit :
    (hash : String) (url_worktree : String) (current : Option String) → NavigationResult
select_commit hash url_worktree current = overlay_to_navigation (commit hash) url_worktree current

unfoldable pub close_overlay : (url_worktree : String) (current : Option String) → NavigationResult
close_overlay url_worktree none = go_home url_worktree none
close_overlay url_worktree (some id) =
    if is_truthy id then go_to_session url_worktree id none else go_home url_worktree none

unfoldable pub open_settings : (url_worktree : String) (current : Option String) → NavigationResult
open_settings url_worktree current =
    overlay_to_navigation OverlayState.settings url_worktree current

unfoldable pub open_work_list : (url_worktree : String) (current : Option String) → NavigationResult
open_work_list url_worktree current =
    overlay_to_navigation OverlayState.work_list url_worktree current

unfoldable pub open_work_detail :
    (work_id : String) (url_worktree : String) (current : Option String) → NavigationResult
open_work_detail work_id url_worktree current =
    overlay_to_navigation (OverlayState.work_detail work_id) url_worktree current

unfoldable pub open_agent_role_list :
    (url_worktree : String) (current : Option String) → NavigationResult
open_agent_role_list url_worktree current =
    overlay_to_navigation OverlayState.agent_role_list url_worktree current

unfoldable pub open_agent_role_detail :
    (role_id : String) (url_worktree : String) (current : Option String) → NavigationResult
open_agent_role_detail role_id url_worktree current =
    overlay_to_navigation (OverlayState.agent_role_detail role_id) url_worktree current

unfoldable pub navigate_to_session : (url_worktree session_id : String) → NavigationResult
navigate_to_session url_worktree session_id = go_to_session url_worktree session_id none
