-- ===== src/Navigation/Laws.antt =====
-- web/src/lib/navigation.ts and web/src/hooks/useRouteState.ts: what the route shows after a
-- navigation.
use pockode.Prelude.{
  ◌≡◌, refl, Bool, true, false, Option, none, some, String, is_truthy, if◌then◌else◌, ◌===◌,
  ===_iff, Bool-cases, inl, inr, arith,
}
use pockode.Navigation.Routes.{OverlayState, diff, file}
use pockode.Navigation.Build.{
  NavTarget, NavigationResult, build_navigation, overlay_to_navigation, is_set,
}
use pockode.Navigation.RouteState.{Router, RouteInfo, field, use_route_state}

-- The router after a navigation, by its documentation: the route of `to` is the one that matches,
-- with the parameters and the search that were given.
abbrev pub arrived : NavigationResult → Router
arrived result = record {
  use_match = λ from.
      if from === result.to
      then some (record { params = result.params; search = result.search })
      else none;
  use_params = λ name. field name result.params;
}

-- `null` for an empty session id.
abbrev pub session_shown : Option String → Option String
session_shown none = none
session_shown (some id) = if is_truthy id then some id else none

-- The route says whether a file is edited, never `undefined`.
abbrev pub overlay_shown : OverlayState → OverlayState
overlay_shown (file path edit) = file path (some (is_set edit))
overlay_shown state = state

abbrev shown : OverlayState → String → Option String → RouteInfo
shown state worktree id = record {
  overlay = some (overlay_shown state);
  session_id = session_shown id;
  worktree = worktree;
}

not_truthy : (s : String) → is_truthy s ≡ false → s ≡ ""
not_truthy s h = ground (arith, ===_iff s "")

-- The statement at one choice of the session.
abbrev IsShown : OverlayState → String → Option String → Type 0
IsShown state worktree id =
    use_route_state (arrived (overlay_to_navigation state worktree id)) ≡ shown state worktree id

arrives_in_worktree :
    (state : OverlayState) (worktree : String)
    → is_truthy worktree ≡ true
    → IsShown state worktree none
unfolding use_route_state overlay_to_navigation
arrives_in_worktree (diff path true) worktree h = rw h refl
arrives_in_worktree (diff path false) worktree h = rw h refl
arrives_in_worktree (file path none) worktree h = rw h refl
arrives_in_worktree (file path (some true)) worktree h = rw h refl
arrives_in_worktree (file path (some false)) worktree h = rw h refl
arrives_in_worktree _ worktree h = rw h refl

arrives_in_session :
    (state : OverlayState) (worktree id : String)
    → is_truthy worktree ≡ true
    → is_truthy id ≡ true
    → IsShown state worktree (some id)
unfolding use_route_state overlay_to_navigation
arrives_in_session (diff path true) worktree id h k = rw (h, k) refl
arrives_in_session (diff path false) worktree id h k = rw (h, k) refl
arrives_in_session (file path none) worktree id h k = rw (h, k) refl
arrives_in_session (file path (some true)) worktree id h k = rw (h, k) refl
arrives_in_session (file path (some false)) worktree id h k = rw (h, k) refl
arrives_in_session _ worktree id h k = rw (h, k) refl

arrives_in_no_session :
    (state : OverlayState) (worktree id : String)
    → is_truthy worktree ≡ true
    → is_truthy id ≡ false
    → IsShown state worktree (some id)
unfolding use_route_state overlay_to_navigation
arrives_in_no_session (diff path true) worktree id h k = rw (h, k) refl
arrives_in_no_session (diff path false) worktree id h k = rw (h, k) refl
arrives_in_no_session (file path none) worktree id h k = rw (h, k) refl
arrives_in_no_session (file path (some true)) worktree id h k = rw (h, k) refl
arrives_in_no_session (file path (some false)) worktree id h k = rw (h, k) refl
arrives_in_no_session _ worktree id h k = rw (h, k) refl

arrives_in_main :
    (state : OverlayState) (worktree : String) → worktree ≡ "" → IsShown state worktree none
unfolding use_route_state overlay_to_navigation
arrives_in_main (diff path true) worktree h = rw h refl
arrives_in_main (diff path false) worktree h = rw h refl
arrives_in_main (file path none) worktree h = rw h refl
arrives_in_main (file path (some true)) worktree h = rw h refl
arrives_in_main (file path (some false)) worktree h = rw h refl
arrives_in_main _ worktree h = rw h refl

arrives_in_main_session :
    (state : OverlayState) (worktree id : String)
    → worktree ≡ ""
    → is_truthy id ≡ true
    → IsShown state worktree (some id)
unfolding use_route_state overlay_to_navigation
arrives_in_main_session (diff path true) worktree id h k = rw (h, k) refl
arrives_in_main_session (diff path false) worktree id h k = rw (h, k) refl
arrives_in_main_session (file path none) worktree id h k = rw (h, k) refl
arrives_in_main_session (file path (some true)) worktree id h k = rw (h, k) refl
arrives_in_main_session (file path (some false)) worktree id h k = rw (h, k) refl
arrives_in_main_session _ worktree id h k = rw (h, k) refl

arrives_in_main_no_session :
    (state : OverlayState) (worktree id : String)
    → worktree ≡ ""
    → is_truthy id ≡ false
    → IsShown state worktree (some id)
unfolding use_route_state overlay_to_navigation
arrives_in_main_no_session (diff path true) worktree id h k = rw (h, k) refl
arrives_in_main_no_session (diff path false) worktree id h k = rw (h, k) refl
arrives_in_main_no_session (file path none) worktree id h k = rw (h, k) refl
arrives_in_main_no_session (file path (some true)) worktree id h k = rw (h, k) refl
arrives_in_main_no_session (file path (some false)) worktree id h k = rw (h, k) refl
arrives_in_main_no_session _ worktree id h k = rw (h, k) refl

-- After a navigation to an overlay the route shows that overlay, with the worktree and the session
-- that were given; an empty session id is shown as no session.
pub overlay_to_navigation_shown :
    (state : OverlayState) (worktree : String) (id : Option String)
    → use_route_state (arrived (overlay_to_navigation state worktree id)) ≡ record {
      overlay = some (overlay_shown state);
      session_id = session_shown id;
      worktree = worktree;
    }
overlay_to_navigation_shown state worktree none = elim (Bool-cases (is_truthy worktree)) [
  | inl h ↦ arrives_in_worktree state worktree h
  | inr h ↦ arrives_in_main state worktree (not_truthy worktree h)
]
overlay_to_navigation_shown state worktree (some id) = elim (Bool-cases (is_truthy worktree)) [
  | inl h ↦ elim (Bool-cases (is_truthy id)) [
    | inl k ↦ arrives_in_session state worktree id h k
    | inr k ↦ arrives_in_no_session state worktree id h k
  ]
  | inr h ↦ elim (Bool-cases (is_truthy id)) [
    | inl k ↦ arrives_in_main_session state worktree id (not_truthy worktree h) k
    | inr k ↦ arrives_in_main_no_session state worktree id (not_truthy worktree h) k
  ]
]

-- After a navigation to a session the route shows that session, if its id is not empty.
pub session_shown_after :
    (worktree id : String)
    → is_truthy id ≡ true
    → use_route_state (arrived (build_navigation (NavTarget.session worktree id) none))
      ≡ record { overlay = none; session_id = some id; worktree = worktree }
unfolding use_route_state build_navigation
session_shown_after worktree id k = elim (Bool-cases (is_truthy worktree)) [
  | inl h ↦ rw (h, k) refl
  | inr h ↦ rw (not_truthy worktree h, k) refl
]

-- After a navigation home no overlay and no session is shown.
pub home_shown :
    (worktree : String) (options : Option Bool)
    → use_route_state (arrived (build_navigation (NavTarget.home worktree) options))
      ≡ record { overlay = none; session_id = none; worktree = worktree }
unfolding use_route_state build_navigation
home_shown worktree options = elim (Bool-cases (is_truthy worktree)) [
  | inl h ↦ rw h refl
  | inr h ↦ rw (not_truthy worktree h) refl
]
