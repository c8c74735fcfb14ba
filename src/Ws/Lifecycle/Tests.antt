-- ===== src/Ws/Lifecycle/Tests.antt =====
-- The theorems about the life of a subscription, applied to one that was answered.
use pockode.Prelude.{◌≡◌, true, some, List, [], ◌∷◌, arith}
use pockode.Ws.State.{connected, reconnecting}
use pockode.Ws.Lifecycle.{
  Lifecycle, subscribed_as, unsubscribed, on_notification, make, on_result, notified, invalidate,
  effect,
}
use pockode.Ws.Lifecycle.Races.{
  Action, run_all, settle, asked, invalidated_silent, subscribe_succeeds,
}

abbrev subscription : Lifecycle
subscription = record {
  subscription_id = some "s1";
  generation = 3;
  listens = true;
  log = subscribed_as 3 ∷ [];
}

-- The connection is lost and comes back.
abbrev outage : List Action
outage =
    Action.cleans
    ∷ Action.runs true true reconnecting
    ∷ Action.runs true true connected
    ∷ Action.answered 7 "s2"
    ∷ []

invalidated_silent_example :
    let t = run_all outage (invalidate subscription) in
    (notified 3 t ≡ t) × (on_result 3 "s1" t ≡ make (unsubscribed "s1") t)
invalidated_silent_example = invalidated_silent 3 "s1" outage subscription (omega arith)

subscribe_succeeds_example :
    let t = settle subscription (effect true true connected subscription) in
    let u = on_result 4 "s2" t in
    (t.log ≡ asked subscription)
    × (u.subscription_id ≡ some "s2")
    × (notified 4 u ≡ make on_notification u)
subscribe_succeeds_example = subscribe_succeeds true "s2" subscription
