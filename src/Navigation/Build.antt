-- ===== src/Navigation/Build.antt =====
-- web/src/lib/navigation.ts: the options for the router. A field that is left out of an object is
-- an empty list here, and `none` for `replace`.
use pockode.Prelude.{
  Bool, true, false, Option, none, some, List, [], ◌∷◌, ◌++◌, String, is_truthy, if◌then◌else◌,
}
use pockode.Navigation.Routes.{RouteKey, routes, wt_routes, OverlayState}

-- `Record<string, string>`
abbrev pub Fields : Type 0
Fields = List (String × String)

pub data PathOverlay : Type 0 where
  staged unstaged file : PathOverlay

-- What distinguishes the members of `NavToOverlay`.
pub data OverlayTarget : Type 0 where
  at_path : (overlay_type : PathOverlay) (path : String) (edit : Option Bool) → OverlayTarget
  commit : (hash : String) → OverlayTarget
  commit_diff : (hash path : String) → OverlayTarget
  settings work_list : OverlayTarget
  work_detail : (work_id : String) → OverlayTarget
  agent_role_list : OverlayTarget
  agent_role_detail : (role_id : String) → OverlayTarget

pub data NavTarget : Type 0 where
  session : (worktree session_id : String) → NavTarget
  overlay : (worktree : String) (session_id : Option String) (target : OverlayTarget) → NavTarget
  home : (worktree : String) → NavTarget

pub record NavigationResult : Type 0 where
  pub to : String
  pub params : Fields
  pub search : Fields
  pub replace : Option Bool

-- `x?: boolean` as a condition.
abbrev pub is_set : Option Bool → Bool
is_set (some true) = true
is_set _ = false

-- `string | null` as a condition.
abbrev pub session_search : Option String → Fields
session_search none = []
session_search (some id) = if is_truthy id then ("session", id) ∷ [] else []

abbrev pub edit_search : Option Bool → Fields
edit_search edit = if is_set edit then ("mode", "edit") ∷ [] else []

-- `isMain ? ROUTES[key] : WT_ROUTES[key]`
abbrev pub route : String → RouteKey → String
route worktree key = if is_truthy worktree then wt_routes key else routes key

-- `if (!isMain) result.params.worktree = target.worktree`
abbrev pub with_worktree : String → Fields → Fields
with_worktree worktree params =
    if is_truthy worktree then params ++ ("worktree", worktree) ∷ [] else params

abbrev pub path_route : PathOverlay → RouteKey
path_route staged = RouteKey.staged
path_route unstaged = RouteKey.unstaged
path_route file = RouteKey.files

-- The branches of the case "overlay".
unfoldable pub overlay_navigation :
    String → Option String → Option Bool → OverlayTarget → NavigationResult
overlay_navigation worktree id replace (agent_role_detail role_id) = record {
  to = route worktree RouteKey.agent_role_detail;
  params = with_worktree worktree (("roleId", role_id) ∷ []);
  search = session_search id;
  replace = replace;
}
overlay_navigation worktree id replace (work_detail work_id) = record {
  to = route worktree RouteKey.work_detail;
  params = with_worktree worktree (("workId", work_id) ∷ []);
  search = session_search id;
  replace = replace;
}
overlay_navigation worktree id replace settings = record {
  to = route worktree RouteKey.settings;
  params = with_worktree worktree [];
  search = session_search id;
  replace = replace;
}
overlay_navigation worktree id replace work_list = record {
  to = route worktree RouteKey.works;
  params = with_worktree worktree [];
  search = session_search id;
  replace = replace;
}
overlay_navigation worktree id replace agent_role_list = record {
  to = route worktree RouteKey.agent_roles;
  params = with_worktree worktree [];
  search = session_search id;
  replace = replace;
}
overlay_navigation worktree id replace (commit hash) = record {
  to = route worktree RouteKey.commit;
  params = with_worktree worktree (("_splat", hash) ∷ []);
  search = session_search id;
  replace = replace;
}
overlay_navigation worktree id replace (commit_diff hash path) = record {
  to = route worktree RouteKey.commit_diff;
  params = with_worktree worktree (("hash", hash) ∷ ("_splat", path) ∷ []);
  search = session_search id;
  replace = replace;
}
overlay_navigation worktree id replace (at_path overlay_type path edit) = record {
  to = route worktree (path_route overlay_type);
  params = with_worktree worktree (("_splat", path) ∷ []);
  search = session_search id ++ edit_search edit;
  replace = replace;
}

-- `options` is the flag `options?.replace`.
unfoldable pub build_navigation : NavTarget → Option Bool → NavigationResult
unfolding overlay_navigation
build_navigation (session worktree id) options = record {
  to = route worktree RouteKey.session;
  params =
      if is_truthy worktree
      then ("worktree", worktree) ∷ ("sessionId", id) ∷ []
      else ("sessionId", id) ∷ [];
  search = [];
  replace = if is_set options then some true else none;
}
build_navigation (overlay worktree id target) options =
    overlay_navigation worktree id (if is_set options then some true else none) target
build_navigation (home worktree) options = record {
  to = route worktree RouteKey.index;
  params = with_worktree worktree [];
  search = [];
  replace = if is_set options then some true else none;
}

abbrev pub overlay_target : OverlayState → OverlayTarget
overlay_target (OverlayState.diff path is_staged) =
    at_path (if is_staged then staged else unstaged) path none
overlay_target (OverlayState.file path edit) = at_path file path edit
overlay_target (OverlayState.commit hash) = commit hash
overlay_target (OverlayState.commit_diff hash path) = commit_diff hash path
overlay_target OverlayState.settings = settings
overlay_target OverlayState.work_list = work_list
overlay_target (OverlayState.work_detail work_id) = work_detail work_id
overlay_target OverlayState.agent_role_list = agent_role_list
overlay_target (OverlayState.agent_role_detail role_id) = agent_role_detail role_id

unfoldable pub overlay_to_navigation : OverlayState → String → Option String → NavigationResult
unfolding build_navigation
overlay_to_navigation state worktree id =
    build_navigation (overlay worktree id (overlay_target state)) none
