-- ===== src/Ws/Lifecycle.antt =====
-- web/src/hooks/useSubscription.ts: the life of one subscription, with its races.
--
-- `doSubscribe` waits twice, so it is three functions, which are handed its generation: up to the
-- end of the old subscription, up to the request, and the answer. `log` has what the hook asks of
-- the store, and of those of its options that are there; `unsubscribe` does not throw.
-- `has_on_error` and `resubscribes` tell whether there is an `onError`, and whether the hook listens
-- to switches of the worktree.
pub mod Races
mod Tests
use pockode.Prelude.{
  ℕ, ◌+◌, Bool, true, false, not, ◌||◌, Option, none, some, List, [], ◌∷◌, String, is_truthy,
  if◌then◌else◌, ltb,
}
use pockode.Ws.State.{ConnectionStatus, connected, reconnecting}

pub data Call : Type 0 where
  subscribed_as : (generation : ℕ) → Call
  unsubscribed : (id : String) → Call
  on_notification on_subscribed on_reset on_error : Call

pub record Lifecycle : Type 0 where
  pub subscription_id : Option String
  pub generation : ℕ
  -- Are the listeners of the effect there?
  pub listens : Bool
  pub log : List Call

abbrev pub make : Call → Lifecycle → Lifecycle
make call s = record s { log = call ∷ s.log }

-- `generationRef.current !== generation`
abbrev pub is_stale : ℕ → Lifecycle → Bool
is_stale g s = ltb g s.generation || ltb s.generation g

-- `if (subscriptionIdRef.current)`: the id, unless it is empty.
abbrev pub current_id : Lifecycle → Option String
current_id s = elim s.subscription_id [
  | none ↦ none
  | some id ↦ if is_truthy id then some id else none
]

-- From the end of the old subscription to the request.
unfoldable pub request : ℕ → Lifecycle → Lifecycle
request g s = if is_stale g s then s else make (subscribed_as g) s

-- The `await unsubscribe(...)` of a generation is over.
unfoldable pub after_unsubscribe : ℕ → Lifecycle → Lifecycle
unfolding request
after_unsubscribe g s = request g (record s { subscription_id = none })

unfoldable pub do_subscribe : Lifecycle → Lifecycle
unfolding request
do_subscribe s =
    let s' = record s { generation = s.generation + 1 } in
    elim (current_id s) [
      | none ↦ request (s.generation + 1) s'
      | some id ↦ make (unsubscribed id) s'
    ]

-- `subscribe` was answered with an id.
unfoldable pub on_result : ℕ → String → Lifecycle → Lifecycle
on_result g id s =
    if is_stale g s
    then make (unsubscribed id) s
    else make on_subscribed (record s { subscription_id = some id })

-- It was rejected.
unfoldable pub on_rejected : Bool → ℕ → Lifecycle → Lifecycle
on_rejected has_on_error g s =
    if is_stale g s then s else make (if has_on_error then on_error else on_reset) s

-- The callback of a generation is called.
unfoldable pub notified : ℕ → Lifecycle → Lifecycle
notified g s = if is_stale g s then s else make on_notification s

unfoldable pub invalidate : Lifecycle → Lifecycle
invalidate s =
    let s' = record s { generation = s.generation + 1 } in
    elim (current_id s) [
      | none ↦ s'
      | some id ↦ record s' { subscription_id = none; log = unsubscribed id ∷ s.log }
    ]

abbrev pub is_reconnecting : ConnectionStatus → Bool
is_reconnecting reconnecting = true
is_reconnecting _ = false

abbrev pub is_connected : ConnectionStatus → Bool
is_connected connected = true
is_connected _ = false

-- The effect, and the function that it returns for the next time.
unfoldable pub effect : (resubscribes enabled : Bool) → ConnectionStatus → Lifecycle → Lifecycle
unfolding invalidate do_subscribe
effect resubscribes enabled status s =
    if is_reconnecting status
    then invalidate s
    else if not enabled || not (is_connected status)
    then make on_reset (invalidate s)
    else (let s' = do_subscribe s in record s' { listens = resubscribes })

-- Only the branch that subscribes returns one.
unfoldable pub clean_up_subscription : Lifecycle → Lifecycle
unfolding invalidate
clean_up_subscription s = let s' = invalidate s in record s' { listens = false }

-- The listeners to a switch of the worktree.
unfoldable pub on_switch_start : Lifecycle → Lifecycle
unfolding invalidate
on_switch_start s = if s.listens then make on_reset (invalidate s) else s

unfoldable pub on_switch_end : Lifecycle → Lifecycle
unfolding do_subscribe
on_switch_end s = if s.listens then do_subscribe s else s
