-- ===== src/Navigation/Routes.antt =====
-- web/src/lib/routes.ts: the paths of the routes, and web/src/types/overlay.ts.
use Prim.Native.String
use pockode.Prelude.{String, Bool, Option}

-- The keys of `BASE`.
pub data RouteKey : Type 0 where
  index session staged unstaged files commit commit_diff settings works work_detail : RouteKey
  agent_roles agent_role_detail : RouteKey

-- `ROUTES`
abbrev pub routes : RouteKey → String
routes index = "/"
routes session = "/s/$sessionId"
routes staged = "/staged/$"
routes unstaged = "/unstaged/$"
routes files = "/files/$"
routes commit = "/commit/$"
routes commit_diff = "/commit/$hash/diff/$"
routes settings = "/settings"
routes works = "/works"
routes work_detail = "/works/$workId"
routes agent_roles = "/agent-roles"
routes agent_role_detail = "/agent-roles/$roleId"

-- `WT_ROUTES`
abbrev pub wt_routes : RouteKey → String
wt_routes key = String.◌++◌ "/w/$worktree" (routes key)

-- `OverlayState` without its `null`.
pub data OverlayState : Type 0 where
  diff : (path : String) (staged : Bool) → OverlayState
  file : (path : String) (edit : Option Bool) → OverlayState
  commit : (hash : String) → OverlayState
  commit_diff : (hash path : String) → OverlayState
  settings work_list : OverlayState
  work_detail : (work_id : String) → OverlayState
  agent_role_list : OverlayState
  agent_role_detail : (role_id : String) → OverlayState
