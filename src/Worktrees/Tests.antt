-- ===== src/Worktrees/Tests.antt =====
-- The theorem about worktrees, applied to one that is created while the main one is shown.
use pockode.Prelude.{◌≡◌, refl, true, none, some, [], ◌∷◌, get_or, if◌then◌else◌, ◌===◌}
use pockode.Navigation.RouteState.{RouteInfo}
use pockode.Shell.{is_listed}
use pockode.Shell.Redirects.{route_after}
use pockode.Worktrees.{Worktrees, worktree_created, worktree_removed}
use pockode.Worktrees.Laws.{main_shown, worktree_comes_and_goes}

abbrev worktrees : Worktrees
worktrees = record {
  current = "fix";
  is_git_repo = true;
  list = some (record { name = ""; path = "/repo"; branch = "main"; is_main = true } ∷ []);
  has_connected_once = true;
}

abbrev route : RouteInfo
route = record { overlay = none; session_id = some "s1"; worktree = "fix" }

worktree_comes_and_goes_example :
    let created = worktree_created "fix" "fix-it" worktrees in
    let removed = worktree_removed "fix" created in
    (is_listed "fix" (get_or created.list []) ≡ true)
    × (get_or removed.1.list [] ≡ get_or worktrees.list [])
    × (route_after removed.0 route ≡ (if worktrees.current === "fix" then main_shown else route))
worktree_comes_and_goes_example = worktree_comes_and_goes "fix" "fix-it" worktrees route refl
