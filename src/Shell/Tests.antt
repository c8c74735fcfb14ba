-- ===== src/Shell/Tests.antt =====
-- The theorems about the shell, applied to a route and a list of sessions.
use pockode.Prelude.{
  ◌≡◌, refl, true, false, none, some, [], ◌∷◌, String, is_some, if◌then◌else◌, ◌===◌,
}
use pockode.Chat.Session.{SessionMode, AgentType, ProcessState}
use pockode.Navigation.Routes.{OverlayState}
use pockode.Navigation.RouteState.{RouteInfo}
use pockode.Stores.Collection.{find}
use pockode.Stores.Items.{session_keyed}
use pockode.Stores.Sessions.{SessionState, filtered_sessions, redirect_session_id}
use pockode.Shell.{
  WorktreeInfo, sync_worktree, leave_missing_worktree, redirect_to_session, has_session,
}
use pockode.Shell.Redirects.{
  overlays_shown, route_after, redirect_arrives, worktree_settles, main_route,
}

abbrev sessions : SessionState
sessions = record {
  sessions =
      record {
        id = "s1";
        title = "New";
        created_at = "2025-01-01";
        updated_at = "2025-01-02";
        mode = SessionMode.default;
        agent_type = AgentType.claude;
        state = ProcessState.idle;
        needs_input = false;
        unread = false;
      }
      ∷ [];
  is_loading = false;
  is_success = true;
  show_task_sessions = false;
}

abbrev at_gone : RouteInfo
at_gone = record {
  overlay = some (OverlayState.file "src/a.ts" none);
  session_id = some "gone";
  worktree = "feature";
}

redirect_arrives_example :
    let go = λ (r : RouteInfo).
      redirect_to_session (redirect_session_id r.session_id [] sessions) r.worktree r.overlay in
    let after = route_after (go at_gone) at_gone in
    (after ≡ record {
      overlay = overlays_shown at_gone.overlay;
      session_id = some "s1";
      worktree = "feature";
    })
    × (is_some (find "s1" (filtered_sessions [] sessions)) ≡ true)
    × (go after ≡ none)
unfolding redirect_session_id filtered_sessions
redirect_arrives_example = redirect_arrives at_gone [] sessions "s1" refl refl

abbrev main : WorktreeInfo
main = record { name = ""; path = "/repo"; branch = "main"; is_main = true }

worktree_settles_example :
    let sync = λ (p : String) (r : RouteInfo). sync_worktree p r.worktree "old" r.session_id in
    let leave = λ (r : RouteInfo). leave_missing_worktree true true (main ∷ []) r.worktree in
    let after = route_after (sync "old" at_gone).navigates at_gone in
    (after.worktree ≡ at_gone.worktree)
    × (has_session after.session_id
        ≡ (if "old" === at_gone.worktree then has_session at_gone.session_id else false))
    × ((sync (sync "old" at_gone).prev_worktree after).navigates ≡ none)
    × (route_after (leave at_gone) at_gone ≡ main_route)
worktree_settles_example = worktree_settles "old" "old" true true (main ∷ []) at_gone
