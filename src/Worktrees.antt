-- ===== src/Worktrees.antt =====
-- web/src/hooks/useWorktree.ts: the list of worktrees that is kept, and the worktree that is shown.
--
-- The query library keeps the list. That a list is invalidated is a result, upon which the library
-- asks for it again.
pub mod Laws
mod Tests
use pockode.Prelude.{
  Bool, true, false, not, ◌&&◌, Option, none, some, List, [], ◌∷◌, ◌++◌, String, is_truthy, get_or,
  if◌then◌else◌, ◌===◌,
}
use pockode.Navigation.Build.{NavigationResult}
use pockode.Ws.State.{ConnectionStatus, connected}
use pockode.Shell.{WorktreeInfo, go_home, is_listed}

pub record Worktrees : Type 0 where
  pub current : String
  pub is_git_repo : Bool
  -- `["worktrees"]` of the query client.
  pub list : Option (List WorktreeInfo)
  pub has_connected_once : Bool

abbrev pub is_connected : ConnectionStatus → Bool
is_connected connected = true
is_connected _ = false

-- The effect that runs when the connection comes or goes: is the list invalidated?
unfoldable pub on_connection : ConnectionStatus → Worktrees → Bool × Worktrees
on_connection ws_status s =
    if is_connected ws_status
    then (s.has_connected_once, record s { has_connected_once = true })
    else (false, s)

-- The answer of `listWorktrees`, and whether it is asked for at all.
unfoldable pub on_worktrees : List WorktreeInfo → Worktrees → Worktrees
on_worktrees worktrees s = record s { list = some worktrees }

unfoldable pub asks_worktrees : (enabled : Bool) → ConnectionStatus → Worktrees → Bool
asks_worktrees enabled ws_status s = enabled && is_connected ws_status && s.is_git_repo

-- The listener to the deletion of a worktree, which invalidates the list, and the one to a worktree
-- that is not found.
unfoldable pub on_worktree_gone : (was_current : Bool) → Option NavigationResult
on_worktree_gone was_current = if was_current then some (go_home "" (some true)) else none

unfoldable pub on_worktree_not_found : NavigationResult
on_worktree_not_found = go_home "" (some true)

abbrev pub add_worktree : (name branch : String) → List WorktreeInfo → List WorktreeInfo
add_worktree name branch old =
    if is_listed name old
    then old
    else old ++ record { name = name; path = ""; branch = branch; is_main = false } ∷ []

abbrev pub drop_worktree : (name : String) → List WorktreeInfo → List WorktreeInfo
drop_worktree name [] = []
drop_worktree name (w ∷ old) =
    if w.name === name then drop_worktree name old else w ∷ drop_worktree name old

-- A request to create a worktree was answered.
unfoldable pub worktree_created : (name branch : String) → Worktrees → Worktrees
worktree_created name branch s = record s {
  list = some (add_worktree name branch (get_or s.list []));
}

-- And one to delete it.
unfoldable pub worktree_removed : (name : String) → Worktrees → Option NavigationResult × Worktrees
worktree_removed name s = (
  if s.current === name then some (go_home "" (some true)) else none,
  record s { list = some (drop_worktree name (get_or s.list [])) },
)

unfoldable pub select_worktree : (name : String) → Worktrees → Option NavigationResult
select_worktree name s = if name === s.current then none else some (go_home name none)

abbrev pub find_worktree : (WorktreeInfo → Bool) → List WorktreeInfo → Option WorktreeInfo
find_worktree p [] = none
find_worktree p (w ∷ worktrees) = if p w then some w else find_worktree p worktrees

abbrev pub or_main : Option WorktreeInfo → List WorktreeInfo → Option WorktreeInfo
or_main (some w) worktrees = some w
or_main none worktrees = find_worktree (λ (w : WorktreeInfo). w.is_main) worktrees

unfoldable pub current_worktree : Worktrees → Option WorktreeInfo
current_worktree s =
    let worktrees = get_or s.list [] in
    or_main
      (find_worktree
        (λ (w : WorktreeInfo). if is_truthy s.current then w.name === s.current else w.is_main)
        worktrees)
      worktrees

unfoldable pub display_name : WorktreeInfo → String
display_name worktree = if worktree.is_main then worktree.branch else worktree.name
