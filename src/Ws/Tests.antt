-- ===== src/Ws/Tests.antt =====
-- The theorems about the connection and its subscriptions, applied to a store.
use pockode.Prelude.{◌≤◌, ℕ, ◌+◌, ◌≡◌, refl, some, [], ◌∷◌, arith, if◌then◌else◌, ltb}
use pockode.Ws.Watch.{Namespace, Callbacks}
use pockode.Ws.State.{connected, reconnecting, error, Ws, initial}
use pockode.Ws.Connection.{
  AuthResult, max_reconnect_attempts, connect, on_open, on_auth_result, on_close,
}
use pockode.Ws.Connection.Invariant.{Step, Reach, start, next, IsSound, retries, Reach-IsSound}
use pockode.Ws.Connection.Retry.{failed_retries, outage_status}
use pockode.Ws.Notification.{Params, handle_notification}
use pockode.Ws.Subscribe.{Subscription, namespace_of, on_subscribed}
use pockode.Ws.Subscribe.Methods.{method_of, argument_of}
use pockode.Ws.Subscribe.Delivery.{delivery_after_subscribe}

abbrev answer : AuthResult
answer = record { version = "1.0"; title = "demo"; work_dir = "/work" }

-- A store with a connection that was authenticated; a callback is a number.
abbrev opened : Ws ℕ
opened = on_open 0 "token" (connect "token" initial)

abbrev ready : Ws ℕ
ready = on_auth_result "1.0" answer opened

ready-Reach : Reach "1.0" ready
unfolding on_open
ready-Reach =
    next
      (next (next start (Step.connects initial "token"))
        (Step.opens (connect "token" initial) 0 "token"))
      (Step.accepts opened 0 answer refl)

abbrev callbacks : Callbacks ℕ
callbacks Namespace.chat_messages = ("c1", 7) ∷ []
callbacks Namespace.settings = ("x1", 8) ∷ []
callbacks _ = []

-- In a worktree, with a subscription to a chat and one to the settings.
abbrev watching : Ws ℕ
watching = record {
  status = connected;
  project_title = "demo";
  work_dir = "/work";
  ws = some 0;
  rpc_receiver = some 0;
  rpc_requester = some 0;
  current_token = some "token";
  reconnect_attempts = 2;
  reconnect_timeout = some 1;
  timers = [];
  next = 3;
  callbacks = callbacks;
  worktree = "feature";
  log = [];
}

abbrev params : Params ℕ
params = record { id = "c1"; name = "feature"; rest = 5 }

Reach-IsSound_example : IsSound ready × (retries ready-Reach ≤ 5)
Reach-IsSound_example = Reach-IsSound ready-Reach

outage_status_example :
    (failed_retries 3 (on_close watching)).status
    ≡ (if ltb (2 + 3) max_reconnect_attempts then reconnecting else error)
outage_status_example = outage_status "token" 3 watching refl refl refl (omega arith)

delivery_after_subscribe_example :
    (handle_notification
      (method_of Namespace.chat_messages "text")
      params
      ((on_subscribed (Subscription.chat_messages "s1") "c1" 9 watching).1)).0
    ≡ (9, argument_of Namespace.chat_messages "text" params) ∷ []
unfolding namespace_of
delivery_after_subscribe_example =
    delivery_after_subscribe (Subscription.chat_messages "s1") "c1" 9 watching
      Namespace.chat_messages "text" params
