-- ===== src/Worktrees/Laws.antt =====
-- web/src/hooks/useWorktree.ts: a worktree that is created, and deleted again.
use pockode.Prelude.{
  ◌≡◌, refl, ◌∙◌, true, false, none, some, List, [], ◌∷◌, ◌++◌, String, get_or, if◌then◌else◌,
  ◌===◌, ===_iff, arith, append-nil,
}
use pockode.Navigation.RouteState.{RouteInfo}
use pockode.Navigation.Laws.{home_shown}
use pockode.Shell.{WorktreeInfo, is_listed}
use pockode.Shell.Redirects.{route_after}
use pockode.Worktrees.{Worktrees, add_worktree, drop_worktree, worktree_created, worktree_removed}

drop_worktree-append :
    (name : String) (xs ys : List WorktreeInfo)
    → drop_worktree name (xs ++ ys) ≡ drop_worktree name xs ++ drop_worktree name ys
drop_worktree-append name [] ys = refl
drop_worktree-append name (w ∷ xs) ys = ground (arith, drop_worktree-append name xs ys)

drop_unlisted :
    (name : String) (worktrees : List WorktreeInfo)
    → is_listed name worktrees ≡ false
    → drop_worktree name worktrees ≡ worktrees
drop_unlisted name [] h = refl
drop_unlisted name (w ∷ worktrees) h = ground (arith, drop_unlisted name worktrees)

listed_last :
    (name branch : String) (worktrees : List WorktreeInfo)
    → is_listed name
        (worktrees ++ record { name = name; path = ""; branch = branch; is_main = false } ∷ [])
      ≡ true
listed_last name branch [] = ground (arith, ===_iff name name)
listed_last name branch (w ∷ worktrees) = ground (arith, listed_last name branch worktrees)

add_then_drop :
    (name branch : String) (worktrees : List WorktreeInfo)
    → is_listed name worktrees ≡ false
    → (is_listed name (add_worktree name branch worktrees) ≡ true)
      × (drop_worktree name (add_worktree name branch worktrees) ≡ worktrees)
add_then_drop name branch worktrees h =
    let w : WorktreeInfo = record { name = name; path = ""; branch = branch; is_main = false } in
    rw h (
      listed_last name branch worktrees,
      drop_worktree-append name worktrees (w ∷ [])
          ∙ rw (drop_unlisted name worktrees h, (===_iff name name).1 refl) (append-nil worktrees),
    )

abbrev pub main_shown : RouteInfo
main_shown = record { overlay = none; session_id = none; worktree = "" }

leaves :
    (name : String) (s : Worktrees) (route : RouteInfo)
    → route_after (worktree_removed name s).0 route
      ≡ (if s.current === name then main_shown else route)
unfolding worktree_removed
leaves name s route = ground (arith, home_shown "" (some true))

-- A worktree that was not in the list is in it once it is created. When it is deleted again, the
-- list is as it was, and the app goes to the main worktree, without a session, if the worktree was
-- the current one, and stays where it is otherwise.
pub worktree_comes_and_goes :
    (name branch : String) (s : Worktrees) (route : RouteInfo)
    → is_listed name (get_or s.list []) ≡ false
    → let created = worktree_created name branch s in
      let removed = worktree_removed name created in
      (is_listed name (get_or created.list []) ≡ true)
      × (get_or removed.1.list [] ≡ get_or s.list [])
      × (route_after removed.0 route ≡ (if s.current === name then main_shown else route))
unfolding worktree_created worktree_removed
worktree_comes_and_goes name branch s route h =
    let both = add_then_drop name branch (get_or s.list []) h in
    (both.0, both.1, leaves name (worktree_created name branch s) route)
