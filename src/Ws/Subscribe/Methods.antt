-- ===== src/Ws/Subscribe/Methods.antt =====
-- web/src/lib/wsStore.ts: the methods of the notifications, and what handles each.
use Prim.Native.String.{◌++◌ as concat}
use text.Mathlib.Text.{starts_with}
use text.Mathlib.TextLemmas.{cons-append, nil-append}
use text.Mathlib.TextPositions.{starts_with-append}
use pockode.Prelude.{
  ◌≡◌, refl, true, false, none, String, arith, Bool-cases, inl, inr, ◌===◌, ===_iff, sym, subst,
}
use pockode.Ws.Watch.{Namespace}
use pockode.Ws.State.{Ws}
use pockode.Ws.Notification.{
  Params, Argument, nothing, whole, notification, call, handle_notification, strip_namespace,
  watch_notification_handlers,
}

-- The method by which the server notifies a subscription. Of a chat it tells an event.
abbrev pub method_of : Namespace → (event : String) → String
method_of Namespace.fs event = "fs.changed"
method_of Namespace.git event = "git.changed"
method_of Namespace.git_diff event = "git.diff.changed"
method_of Namespace.worktree event = "worktree.changed"
method_of Namespace.session_list event = "session.list.changed"
method_of Namespace.chat_messages event = concat "chat." event
method_of Namespace.settings event = "settings.changed"
method_of Namespace.work_list event = "work.list.changed"
method_of Namespace.work_detail event = "work.detail.changed"
method_of Namespace.agent_role_list event = "agent_role.list.changed"

module _ {D : Type 0} where
  abbrev pub argument_of : Namespace → (event : String) → Params D → Argument D
  argument_of Namespace.fs event params = nothing
  argument_of Namespace.git event params = nothing
  argument_of Namespace.worktree event params = nothing
  argument_of Namespace.chat_messages event params = notification event params.rest
  argument_of _ event params = whole params

not_chat :
    (event key : String) → starts_with key "chat." ≡ false → (key === concat "chat." event) ≡ false
not_chat event key h = elim (Bool-cases (key === concat "chat." event)) [
  | inl e ↦
      let same_text = (===_iff key (concat "chat." event)).0 e in
      (let chat =
          subst (λ t. starts_with t "chat." ≡ true) (sym same_text)
            (starts_with-append "chat." event) in
        ground (arith, chat, h))
  | inr e ↦ e
]

chat-unhandled : (event : String) → watch_notification_handlers (concat "chat." event) ≡ none
unfolding watch_notification_handlers
chat-unhandled event =
    let out = not_chat event in
    rw
      (
        out "fs.changed" refl,
        out "git.changed" refl,
        out "git.diff.changed" refl,
        out "worktree.changed" refl,
        out "worktree.deleted" refl,
        out "session.list.changed" refl,
        out "settings.changed" refl,
        out "work.list.changed" refl,
        out "work.detail.changed" refl,
        out "agent_role.list.changed" refl,
      )
      refl

strip_namespace-chat : (event : String) → strip_namespace (concat "chat." event) ≡ event
unfolding strip_namespace
strip_namespace-chat event =
    rw (cons-append, cons-append, cons-append, cons-append, cons-append, nil-append) refl

module _ {C D : Type 0} where
  pub notify :
      (ns : Namespace) (event : String) (params : Params D) (s : Ws C)
      → handle_notification (method_of ns event) params s
        ≡ (call ns params.id (argument_of ns event params) s, s)
  unfolding handle_notification watch_notification_handlers strip_namespace
  notify Namespace.fs event params s = refl
  notify Namespace.git event params s = refl
  notify Namespace.git_diff event params s = refl
  notify Namespace.worktree event params s = refl
  notify Namespace.session_list event params s = refl
  notify Namespace.chat_messages event params s =
      rw
        (
          chat-unhandled event,
          handle_notification,
          starts_with-append "chat." event,
          strip_namespace-chat event,
        )
        refl
  notify Namespace.settings event params s = refl
  notify Namespace.work_list event params s = refl
  notify Namespace.work_detail event params s = refl
  notify Namespace.agent_role_list event params s = refl
