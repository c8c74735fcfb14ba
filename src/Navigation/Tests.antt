-- ===== src/Navigation/Tests.antt =====
-- The theorems about navigation, applied to a few targets.
use pockode.Prelude.{◌≡◌, true, some}
use pockode.Navigation.Routes.{file}
use pockode.Navigation.Build.{overlay_to_navigation}
use pockode.Navigation.RouteState.{use_route_state}
use pockode.Navigation.Laws.{arrived, overlay_to_navigation_shown}

overlay_to_navigation_shown_example :
    use_route_state
      (arrived (overlay_to_navigation (file "src/a.ts" (some true)) "feature" (some "s1")))
    ≡ record {
      overlay = some (file "src/a.ts" (some true));
      session_id = some "s1";
      worktree = "feature";
    }
overlay_to_navigation_shown_example =
    overlay_to_navigation_shown (file "src/a.ts" (some true)) "feature" (some "s1")
