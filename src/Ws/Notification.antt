-- ===== src/Ws/Notification.antt =====
-- web/src/lib/wsStore.ts: `handleNotification`, which routes what the server tells.
use Prim.Native.Char.{Char, code}
use text.Mathlib.Text.{starts_with}
use pockode.Prelude.{
  Bool, true, false, Option, none, some, List, [], ◌∷◌, String, if◌then◌else◌, ◌===◌, ltb,
}
use pockode.Ws.Watch.{Namespace, get}
use pockode.Ws.State.{Ws, emit, set_current, worktree_deleted}

-- `params`: the fields that this file reads, and the rest of it.
pub record Params (D : Type 0) : Type 0 where
  pub id : String
  pub name : String
  pub rest : D

-- What a callback is called with: nothing, all of `params`, or a chat event.
pub data Argument (D : Type 0) : Type 0 where
  nothing : Argument D
  whole : Params D → Argument D
  notification : (type : String) (rest : D) → Argument D

-- The entries of `watchNotificationHandlers`: those that `createIdBasedHandler` makes, those that
-- hand on `params`, and that of "worktree.deleted".
pub data Handler : Type 0 where
  id_based : Namespace → Handler
  with_params : Namespace → Handler
  deleted : Handler

unfoldable pub watch_notification_handlers : String → Option Handler
watch_notification_handlers method = get method (
    ("fs.changed", id_based Namespace.fs)
    ∷ ("git.changed", id_based Namespace.git)
    ∷ ("git.diff.changed", with_params Namespace.git_diff)
    ∷ ("worktree.changed", id_based Namespace.worktree)
    ∷ ("worktree.deleted", deleted)
    ∷ ("session.list.changed", with_params Namespace.session_list)
    ∷ ("settings.changed", with_params Namespace.settings)
    ∷ ("work.list.changed", with_params Namespace.work_list)
    ∷ ("work.detail.changed", with_params Namespace.work_detail)
    ∷ ("agent_role.list.changed", with_params Namespace.agent_role_list)
    ∷ [])

abbrev is_dot : Char → Bool
is_dot c = if ltb (code c) b'.' then false else if ltb b'.' (code c) then false else true

-- What follows the first dot.
abbrev after_dot : String → Option String
after_dot String.[] = none
after_dot (String.◌∷◌ c s) = if is_dot c then some s else after_dot s

unfoldable pub strip_namespace : String → String
strip_namespace method = elim (after_dot method) [ none ↦ method | some s ↦ s ]

module _ {C : Type 0} where
  -- The handler of "worktree.deleted".
  unfoldable pub on_worktree_deleted : String → Ws C → Ws C
  on_worktree_deleted name s =
      if s.worktree === name
      then emit (worktree_deleted name true) (set_current "" s)
      else emit (worktree_deleted name false) s

module _ {C D : Type 0} where
  -- `map.get(id)?.(argument)`: the calls that are made.
  abbrev pub to_call : Option C → Argument D → List (C × Argument D)
  to_call none argument = []
  to_call (some callback) argument = (callback, argument) ∷ []

  unfoldable pub call : Namespace → String → Argument D → Ws C → List (C × Argument D)
  call ns id argument s = to_call (get id (s.callbacks ns)) argument

  -- The calls that are made, and the state after them.
  unfoldable pub handle_notification : String → Params D → Ws C → List (C × Argument D) × Ws C
  handle_notification method params s = elim (watch_notification_handlers method) [
    | some (id_based ns) ↦ (call ns params.id nothing s, s)
    | some (with_params ns) ↦ (call ns params.id (whole params) s, s)
    | some deleted ↦ ([], on_worktree_deleted params.name s)
    | none ↦
        if starts_with method "chat."
        then (
          call Namespace.chat_messages params.id (notification (strip_namespace method) params.rest)
              s,
          s,
        )
        else ([], s)
  ]
