-- ===== src/Ws/Subscribe.antt =====
-- web/src/lib/wsStore.ts: the subscriptions of `WatchActions`.
--
-- A subscription is two steps: `subscribe` up to its request, and `on_subscribed`, when that is
-- answered.
pub mod Methods
pub mod Delivery
pub mod Deleted
pub mod Connected
use pockode.Prelude.{ℕ, Bool, true, false, Option, none, some, List, [], ◌∷◌, String, ◌⊎◌, inl, inr}
use pockode.Ws.Watch.{Namespace, add_callback, delete_callback}
use pockode.Ws.State.{Ws}

-- The actions, with their arguments other than the callback.
pub data Subscription : Type 0 where
  fs : (path : String) → Subscription
  git : Subscription
  git_diff : (path : String) (staged hide_whitespace : Bool) → Subscription
  worktree session_list : Subscription
  chat_messages : (session_id : String) → Subscription
  settings work_list : Subscription
  work_detail : (work_id : String) → Subscription
  agent_role_list : Subscription

-- The map that an action registers its callback in.
unfoldable pub namespace_of : Subscription → Namespace
namespace_of (fs path) = Namespace.fs
namespace_of git = Namespace.git
namespace_of (git_diff path staged hide_whitespace) = Namespace.git_diff
namespace_of worktree = Namespace.worktree
namespace_of session_list = Namespace.session_list
namespace_of (chat_messages session_id) = Namespace.chat_messages
namespace_of settings = Namespace.settings
namespace_of work_list = Namespace.work_list
namespace_of (work_detail work_id) = Namespace.work_detail
namespace_of agent_role_list = Namespace.agent_role_list

pub data Value : Type 0 where
  string : String → Value
  boolean : Bool → Value

pub record Request : Type 0 where
  pub method : String
  pub params : List (String × Value)

-- The request that an action sends.
unfoldable pub request_of : Subscription → Request
request_of (fs path) = record { method = "fs.subscribe"; params = ("path", string path) ∷ [] }
request_of git = record { method = "git.subscribe"; params = [] }
request_of (git_diff path staged hide_whitespace) = record {
  method = "git.diff.subscribe";
  params =
      ("path", string path)
      ∷ ("staged", boolean staged)
      ∷ ("hide_whitespace", boolean hide_whitespace)
      ∷ [];
}
request_of worktree = record { method = "worktree.subscribe"; params = [] }
request_of session_list = record { method = "session.list.subscribe"; params = [] }
request_of (chat_messages session_id) = record {
  method = "chat.messages.subscribe";
  params = ("session_id", string session_id) ∷ [];
}
request_of settings = record { method = "settings.subscribe"; params = [] }
request_of work_list = record { method = "work.list.subscribe"; params = [] }
request_of (work_detail work_id) = record {
  method = "work.detail.subscribe";
  params = ("work_id", string work_id) ∷ [];
}
request_of agent_role_list = record { method = "agent_role.list.subscribe"; params = [] }

abbrev pub unsubscribe_method : Namespace → String
unsubscribe_method Namespace.fs = "fs.unsubscribe"
unsubscribe_method Namespace.git = "git.unsubscribe"
unsubscribe_method Namespace.git_diff = "git.diff.unsubscribe"
unsubscribe_method Namespace.worktree = "worktree.unsubscribe"
unsubscribe_method Namespace.session_list = "session.list.unsubscribe"
unsubscribe_method Namespace.chat_messages = "chat.messages.unsubscribe"
unsubscribe_method Namespace.settings = "settings.unsubscribe"
unsubscribe_method Namespace.work_list = "work.list.unsubscribe"
unsubscribe_method Namespace.work_detail = "work.detail.unsubscribe"
unsubscribe_method Namespace.agent_role_list = "agent_role.list.unsubscribe"

-- Where the initial data of a subscription stand in the response.
pub data Initial : Type 0 where
  -- Without initial data.
  absent : Initial
  -- The response itself.
  response : Initial
  -- A field of it.
  field : (name : String) → Initial

abbrev pub initial_of : Namespace → Initial
initial_of Namespace.fs = absent
initial_of Namespace.git = absent
initial_of Namespace.git_diff = response
initial_of Namespace.worktree = absent
initial_of Namespace.session_list = field "sessions"
initial_of Namespace.chat_messages = response
initial_of Namespace.settings = field "settings"
initial_of Namespace.work_list = field "items"
initial_of Namespace.work_detail = response
initial_of Namespace.agent_role_list = field "items"

-- `WatchSubscribeResult`
pub record WatchSubscribeResult : Type 0 where
  pub id : String
  pub initial : Initial

pub data SubscribeError : Type 0 where
  not_connected : SubscribeError

module _ {C : Type 0} where
  -- An action up to its request: the error it throws, or the socket and the request.
  unfoldable pub subscribe : Subscription → Ws C → SubscribeError ⊎ (ℕ × Request)
  subscribe subscription s = elim s.rpc_requester [
    | none ↦ inl not_connected
    | some socket ↦ inr (socket, request_of subscription)
  ]

  -- The response, with the id that the server gave.
  unfoldable pub on_subscribed :
      Subscription → (id : String) → C → Ws C → WatchSubscribeResult × Ws C
  on_subscribed subscription id callback s = (
    record { id = id; initial = initial_of (namespace_of subscription) },
    record s { callbacks = add_callback (namespace_of subscription) id callback s.callbacks },
  )

  -- The request, if one is sent, and the state. What the server answers is ignored.
  unfoldable pub unsubscribe : Namespace → (id : String) → Ws C → Option (ℕ × Request) × Ws C
  unsubscribe ns id s =
      let s' = record s { callbacks = delete_callback ns id s.callbacks } in
      (
        elim s'.rpc_requester [
          | none ↦ none
          | some socket ↦
              some
                (socket, record { method = unsubscribe_method ns; params = ("id", string id) ∷ [] })
        ],
        s',
      )
