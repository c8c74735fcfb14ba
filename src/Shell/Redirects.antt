-- ===== src/Shell/Redirects.antt =====
-- web/src/components/AppShell.tsx: what the route shows once the app has gone where it goes.
use pockode.Prelude.{
  any, not, ◌&&◌, ◌||◌, [], ◌∷◌, ◌≡◌, refl, ◌∙◌, ap, Bool, true, false, Option, none, some, List,
  String, is_some, is_truthy, if◌then◌else◌, ◌===◌, ===_iff, arith, Bool-cases, inl, inr,
  if-of_true,
}
use pockode.Navigation.Routes.{OverlayState}
use pockode.Navigation.Build.{NavigationResult}
use pockode.Navigation.RouteState.{RouteInfo, use_route_state}
use pockode.Navigation.Laws.{
  arrived, overlay_shown, session_shown, overlay_to_navigation_shown, session_shown_after,
  home_shown,
}
use pockode.Stores.Collection.{find}
use pockode.Stores.Items.{session_keyed, Work}
use pockode.Stores.Sessions.{SessionState, filtered_sessions, redirect_session_id}
use pockode.Stores.Sessions.Redirect.{redirect_settles}
use pockode.Shell.{
  WorktreeInfo, go_home, sync_worktree, leave_missing_worktree, redirect_target,
  redirect_to_session, close_overlay, has_session,
}

abbrev pub overlays_shown : Option OverlayState → Option OverlayState
overlays_shown none = none
overlays_shown (some state) = some (overlay_shown state)

-- The route after a navigation, or the old one where there is none.
abbrev pub route_after : Option NavigationResult → RouteInfo → RouteInfo
route_after none route = route
route_after (some result) route = use_route_state (arrived result)

session_shown_of : (id : String) → is_truthy id ≡ true → session_shown (some id) ≡ some id
session_shown_of id t = rw t refl

redirect_target_shown :
    (id : String) (worktree : String) (overlay : Option OverlayState)
    → is_truthy id ≡ true
    → use_route_state (arrived (redirect_target id worktree overlay))
      ≡ record { overlay = overlays_shown overlay; session_id = some id; worktree = worktree }
redirect_target_shown id worktree none t = session_shown_after worktree id t
redirect_target_shown id worktree (some state) t =
    overlay_to_navigation_shown state worktree (some id)
    ∙ ap
        (λ (shown : Option String). record {
          overlay = some (overlay_shown state);
          session_id = shown;
          worktree = worktree;
        })
        (session_shown_of id t)

redirected :
    (id : String) (route : RouteInfo)
    → is_truthy id ≡ true
    → route_after (redirect_to_session (some id) route.worktree route.overlay) route ≡ record {
      overlay = overlays_shown route.overlay;
      session_id = some id;
      worktree = route.worktree;
    }
unfolding redirect_to_session
redirected id route t =
    ap (λ (o : Option NavigationResult). route_after o route) (if-of_true (is_truthy id) _ _ t)
    ∙ redirect_target_shown id route.worktree route.overlay t

goes_nowhere :
    (redirect_id : Option String) (worktree : String) (overlay : Option OverlayState)
    → redirect_id ≡ none
    → redirect_to_session redirect_id worktree overlay ≡ none
unfolding redirect_to_session
goes_nowhere redirect_id worktree overlay h = ground arith

-- Where `useSession` names a session to go to, the app arrives there: the route then names that
-- session, one of those that the list shows, with the worktree and the overlay as before, and the
-- app is sent nowhere else. Ids are not empty.
pub redirect_arrives :
    (route : RouteInfo) (works : List Work) (s : SessionState) (id : String)
    → redirect_session_id route.session_id works s ≡ some id
    → is_truthy id ≡ true
    → let go = λ (r : RouteInfo).
      redirect_to_session (redirect_session_id r.session_id works s) r.worktree r.overlay in
      let after = route_after (go route) route in
      (after ≡ record {
        overlay = overlays_shown route.overlay;
        session_id = some id;
        worktree = route.worktree;
      })
      × (is_some (find id (filtered_sessions works s)) ≡ true)
      × (go after ≡ none)
redirect_arrives route works s id h t =
    let go = λ (r : RouteInfo).
      redirect_to_session (redirect_session_id r.session_id works s) r.worktree r.overlay in
    let settled = redirect_settles route.session_id works s id h t in
    let there =
      ap
        (λ (o : Option String).
          route_after (redirect_to_session o route.worktree route.overlay) route)
        h
      ∙ redirected id route t in
    (
      there,
      settled.0,
      ap go there
          ∙ goes_nowhere (redirect_session_id (some id) works s) route.worktree
              (overlays_shown route.overlay) settled.1,
    )

-- Closing the overlay leaves the session and the worktree that were shown, and no overlay.
close_overlay_shown :
    (worktree : String) (current : Option String)
    → use_route_state (arrived (close_overlay worktree current))
      ≡ record { overlay = none; session_id = session_shown current; worktree = worktree }
unfolding close_overlay
close_overlay_shown worktree none = home_shown worktree none
close_overlay_shown worktree (some id) = elim (Bool-cases (is_truthy id)) [
  | inl t ↦ rw t (session_shown_after worktree id t)
  | inr e ↦ rw e (home_shown worktree none)
]

synced :
    (prev store : String) (route : RouteInfo)
    → let sync = sync_worktree prev route.worktree store route.session_id in
      let after = route_after sync.navigates route in
      (after.worktree ≡ route.worktree)
      × (has_session after.session_id
          ≡ (if prev === route.worktree then has_session route.session_id else false))
unfolding sync_worktree
synced prev store route = ground (arith, home_shown route.worktree (some true))

sync_again :
    (prev worktree store : String) (session_id : Option String)
    → worktree ≡ prev
    → (sync_worktree prev worktree store session_id).navigates ≡ none
unfolding sync_worktree
sync_again prev worktree store session_id h = ground (arith, ===_iff prev worktree)

-- Is the worktree one that is known to be missing? The list of a repository never comes empty once
-- it is loaded: it has the main worktree.
abbrev pub is_missing :
    (is_loaded is_git_repo : Bool) (worktrees : List WorktreeInfo) (worktree : String) → Bool
is_missing is_loaded is_git_repo [] worktree = false
is_missing is_loaded is_git_repo (w ∷ worktrees) worktree =
    is_loaded
    && is_git_repo
    && is_truthy worktree
    && not ((w.name === worktree) || any (λ (v : WorktreeInfo). v.name === worktree) worktrees)

abbrev pub main_route : RouteInfo
main_route = record { overlay = none; session_id = none; worktree = "" }

leave_missing_worktree_lem :
    (is_loaded is_git_repo : Bool) (worktrees : List WorktreeInfo) (worktree : String)
    → leave_missing_worktree is_loaded is_git_repo worktrees worktree ≡ (
        if is_missing is_loaded is_git_repo worktrees worktree
        then some (go_home "" (some true))
        else none)
unfolding leave_missing_worktree
leave_missing_worktree_lem is_loaded is_git_repo [] worktree = ground arith
leave_missing_worktree_lem is_loaded is_git_repo (w ∷ worktrees) worktree = ground arith

leaves_where_missing :
    (b : Bool) (route : RouteInfo)
    → route_after (if b then some (go_home "" (some true)) else none) route
      ≡ (if b then main_route else route)
leaves_where_missing true route = home_shown "" (some true)
leaves_where_missing false route = refl

-- When the worktree of the URL changes, the route keeps that worktree and drops a session of the old
-- one, and the effect that did it does nothing more. When the URL names a worktree that is not in
-- the loaded list of a repository, the route becomes that of the main one, without a session or an
-- overlay; in every other case it stays.
pub worktree_settles :
    (prev store : String) (is_loaded is_git_repo : Bool) (worktrees : List WorktreeInfo)
    (route : RouteInfo)
    → let sync = λ (p : String) (r : RouteInfo). sync_worktree p r.worktree store r.session_id in
      let leave =
        λ (r : RouteInfo). leave_missing_worktree is_loaded is_git_repo worktrees r.worktree in
      let after = route_after (sync prev route).navigates route in
      (after.worktree ≡ route.worktree)
      × (has_session after.session_id
          ≡ (if prev === route.worktree then has_session route.session_id else false))
      × ((sync (sync prev route).prev_worktree after).navigates ≡ none)
      × (route_after (leave route) route ≡ (
          if is_missing is_loaded is_git_repo worktrees route.worktree then main_route else route))
unfolding sync_worktree
worktree_settles prev store is_loaded is_git_repo worktrees route =
    let after =
      route_after (sync_worktree prev route.worktree store route.session_id).navigates route in
    let kept = synced prev store route in
    (
      kept.0,
      kept.1,
      sync_again route.worktree after.worktree store after.session_id kept.0,
      ap (λ (o : Option NavigationResult). route_after o route)
            (leave_missing_worktree_lem is_loaded is_git_repo worktrees route.worktree)
          ∙ leaves_where_missing (is_missing is_loaded is_git_repo worktrees route.worktree) route,
    )
