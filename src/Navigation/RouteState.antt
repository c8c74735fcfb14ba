-- ===== src/Navigation/RouteState.antt =====
-- web/src/hooks/useRouteState.ts: what the current route shows.
--
-- The router is outside the code: `use_match` gives the match of a route, if it is the current
-- one, and `use_params` a parameter of the current route.
use pockode.Prelude.{
  Bool, true, false, Option, none, some, [], ◌∷◌, String, get_or, is_some, is_truthy, if◌then◌else◌,
  ◌===◌,
}
use pockode.Navigation.Routes.{
  RouteKey, routes, wt_routes, OverlayState, diff, file, commit, commit_diff, settings, work_list,
  work_detail, agent_role_list, agent_role_detail,
}
use pockode.Navigation.Build.{Fields}

pub record RouteMatch : Type 0 where
  pub params : Fields
  pub search : Fields

pub record Router : Type 0 where
  pub use_match : (from : String) → Option RouteMatch
  pub use_params : (name : String) → Option String

pub record RouteInfo : Type 0 where
  pub overlay : Option OverlayState
  pub session_id : Option String
  pub worktree : String

-- A field of an object.
abbrev pub field : String → Fields → Option String
field name [] = none
field name ((key, v) ∷ fields) = if key === name then some v else field name fields

-- `a ?? b`
abbrev pub or_else {ℓ} : {A : Type ℓ} → Option A → Option A → Option A
or_else none b = b
or_else (some a) b = some a

-- `match?.params[name]`
abbrev pub param : String → Option RouteMatch → Option String
param name none = none
param name (some m) = field name m.params

-- `search.session ?? null`; in the code a match is there wherever the search is read.
abbrev pub session_of : Option RouteMatch → Option String
session_of none = none
session_of (some m) = field "session" m.search

-- `search.mode === "edit"`
abbrev pub is_edit : Option RouteMatch → Bool
is_edit none = false
is_edit (some m) = get_or (field "mode" m.search) "" === "edit"

-- A parameter of the path of a route that matched.
abbrev pub path_param : String → RouteMatch → String
path_param name m = get_or (field name m.params) ""

unfoldable pub use_current_worktree : Router → String
use_current_worktree r = get_or (r.use_params "worktree") ""

-- The match of a main route, or else of the route under a worktree.
abbrev pub matched : Router → RouteKey → Option RouteMatch
matched r key = or_else (r.use_match (routes key)) (r.use_match (wt_routes key))

-- `mainMatch?.params[name] ?? wtMatch?.params[name]`
abbrev pub matched_param : Router → RouteKey → String → Option String
matched_param r key name =
    or_else (param name (r.use_match (routes key))) (param name (r.use_match (wt_routes key)))

abbrev pub shows : Router → OverlayState → RouteKey → RouteInfo
shows r state key = record {
  overlay = some state;
  session_id = session_of (matched r key);
  worktree = get_or (r.use_params "worktree") "";
}

abbrev pub no_overlay : Router → Option String → RouteInfo
no_overlay r id = record {
  overlay = none;
  session_id = id;
  worktree = get_or (r.use_params "worktree") "";
}

-- The second half of the chain of tests: the routes whose match alone is tested.
unfoldable pub state_by_match : Router → RouteInfo
state_by_match r = elim (matched r RouteKey.commit_diff) [
  | some m ↦
      shows r (commit_diff (path_param "hash" m) (path_param "_splat" m)) RouteKey.commit_diff
  | none ↦
      if is_some (matched r RouteKey.settings)
      then shows r settings RouteKey.settings
      else elim (matched r RouteKey.work_detail) [
        | some m ↦ shows r (work_detail (path_param "workId" m)) RouteKey.work_detail
        | none ↦
            if is_some (matched r RouteKey.works)
            then shows r work_list RouteKey.works
            else elim (matched r RouteKey.agent_role_detail) [
              | some m ↦
                  shows r (agent_role_detail (path_param "roleId" m)) RouteKey.agent_role_detail
              | none ↦
                  if is_some (matched r RouteKey.agent_roles)
                  then shows r agent_role_list RouteKey.agent_roles
                  else no_overlay r none
            ]
      ]
]

-- The first half: the routes that end in a path.
unfoldable pub state_by_path : Router → RouteInfo
unfolding state_by_match
state_by_path r = elim (matched_param r RouteKey.staged "_splat") [
  | some path ↦ shows r (diff path true) RouteKey.staged
  | none ↦ elim (matched_param r RouteKey.unstaged "_splat") [
    | some path ↦ shows r (diff path false) RouteKey.unstaged
    | none ↦ elim (matched_param r RouteKey.files "_splat") [
      | some path ↦ shows r (file path (some (is_edit (matched r RouteKey.files)))) RouteKey.files
      | none ↦ elim (matched_param r RouteKey.commit "_splat") [
        | some hash ↦ shows r (commit hash) RouteKey.commit
        | none ↦ state_by_match r
      ]
    ]
  ]
]

unfoldable pub use_route_state : Router → RouteInfo
unfolding state_by_path
use_route_state r = elim (matched_param r RouteKey.session "sessionId") [
  | some id ↦ if is_truthy id then no_overlay r (some id) else state_by_path r
  | none ↦ state_by_path r
]
