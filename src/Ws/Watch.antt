-- ===== src/Ws/Watch.antt =====
-- web/src/lib/wsStore.ts: the maps from subscription ids to callbacks.
--
-- The ten module-level maps are one function from their names. A callback is a value of any type
-- `C`: which callback is called with what is all that the code decides.
use pockode.Prelude.{
  Bool, true, false, Option, none, some, List, [], ◌∷◌, String, if◌then◌else◌, ◌===◌,
}

pub data Namespace : Type 0 where
  fs git git_diff worktree session_list chat_messages settings work_list : Namespace
  work_detail agent_role_list : Namespace

abbrev pub same : Namespace → Namespace → Bool
same fs fs = true
same git git = true
same git_diff git_diff = true
same worktree worktree = true
same session_list session_list = true
same chat_messages chat_messages = true
same settings settings = true
same work_list work_list = true
same work_detail work_detail = true
same agent_role_list agent_role_list = true
same _ _ = false

module _ {ℓ} {V : Type ℓ} where
  -- `map.get(key)`, `map.set(key, v)` and `map.delete(key)`.
  abbrev pub get : String → List (String × V) → Option V
  get key [] = none
  get key ((k, v) ∷ entries) = if k === key then some v else get key entries

  abbrev pub set : String → V → List (String × V) → List (String × V)
  set key v [] = (key, v) ∷ []
  set key v ((k, w) ∷ entries) =
      if k === key then (key, v) ∷ entries else (k, w) ∷ set key v entries

  abbrev pub delete : String → List (String × V) → List (String × V)
  delete key [] = []
  delete key ((k, w) ∷ entries) =
      if k === key then delete key entries else (k, w) ∷ delete key entries

abbrev pub Callbacks : Type 0 → Type 0
Callbacks C = Namespace → List (String × C)

-- The maps that `clearWatchSubscriptions` clears.
abbrev pub is_cleared : Namespace → Bool
is_cleared fs = true
is_cleared git = true
is_cleared git_diff = true
is_cleared session_list = true
is_cleared chat_messages = true
is_cleared work_list = true
is_cleared work_detail = true
is_cleared agent_role_list = true
is_cleared _ = false

module _ {C : Type 0} where
  unfoldable pub add_callback : Namespace → String → C → Callbacks C → Callbacks C
  add_callback ns id callback callbacks other =
      if same ns other then set id callback (callbacks other) else callbacks other

  unfoldable pub delete_callback : Namespace → String → Callbacks C → Callbacks C
  delete_callback ns id callbacks other =
      if same ns other then delete id (callbacks other) else callbacks other

  unfoldable pub clear_watch_subscriptions : Callbacks C → Callbacks C
  clear_watch_subscriptions callbacks other = if is_cleared other then [] else callbacks other
