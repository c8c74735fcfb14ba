-- ===== src/Ws/Subscribe/Deleted.antt =====
-- web/src/lib/wsStore.ts: the notification that a worktree was deleted.
use pockode.Prelude.{◌≡◌, [], arith, ◌===◌, ===_iff, if◌then◌else◌}
use pockode.Ws.State.{Ws, set_current}
use pockode.Ws.Notification.{
  Params, handle_notification, watch_notification_handlers, on_worktree_deleted,
}

module _ {C D : Type 0} where
  -- When the server tells that a worktree was deleted, no callback is called, a current worktree of
  -- that name is left for the main one, and subscriptions and connection stay as they were.
  pub worktree_deleted_leaves :
      (params : Params D) (s : Ws C)
      → let r = handle_notification "worktree.deleted" params s in
        (r.0 ≡ [])
        × (r.1.worktree ≡ (if s.worktree === params.name then "" else s.worktree))
        × (r.1.callbacks ≡ s.callbacks)
        × (r.1.status ≡ s.status)
  unfolding handle_notification watch_notification_handlers on_worktree_deleted set_current
  worktree_deleted_leaves params s =
      ground (arith, ===_iff s.worktree params.name, ===_iff s.worktree "")
