-- ===== src/Ws/Lifecycle/Races.antt =====
-- web/src/hooks/useSubscription.ts: answers and notifications that come late.
use pockode.Prelude.{
  ℕ, ◌+◌, ◌≤◌, ◌<◌, ◌≡◌, refl, Bool, true, false, none, some, List, [], ◌∷◌, String, if◌then◌else◌,
  arith, Option-cases, inl, inr, is_some, ◌∙◌, ap, subst, sym,
}
use pockode.Ws.State.{ConnectionStatus, connected}
use pockode.Ws.Lifecycle.{
  Lifecycle, Call, subscribed_as, unsubscribed, on_notification, make, is_stale, current_id,
  request, after_unsubscribe, do_subscribe, on_result, on_rejected, notified, invalidate, effect,
  clean_up_subscription, on_switch_start, on_switch_end,
}

-- Whatever may happen to the hook.
pub data Action : Type 0 where
  ended : (generation : ℕ) → Action
  answered : (generation : ℕ) (id : String) → Action
  rejected : (has_on_error : Bool) (generation : ℕ) → Action
  told : (generation : ℕ) → Action
  runs : (resubscribes enabled : Bool) (status : ConnectionStatus) → Action
  cleans switch_starts switch_ends refreshes : Action

abbrev pub run : Action → Lifecycle → Lifecycle
run (ended g) s = after_unsubscribe g s
run (answered g id) s = on_result g id s
run (rejected has_on_error g) s = on_rejected has_on_error g s
run (told g) s = notified g s
run (runs resubscribes enabled status) s = effect resubscribes enabled status s
run cleans s = clean_up_subscription s
run switch_starts s = on_switch_start s
run switch_ends s = on_switch_end s
run refreshes s = do_subscribe s

abbrev pub run_all : List Action → Lifecycle → Lifecycle
run_all [] s = s
run_all (a ∷ actions) s = run_all actions (run a s)

request-generation : (g : ℕ) (s : Lifecycle) → (request g s).generation ≡ s.generation
unfolding request
request-generation g s = ground arith

do_subscribe-generation : (s : Lifecycle) → (do_subscribe s).generation ≡ s.generation + 1
unfolding do_subscribe request
do_subscribe-generation s = ground arith

invalidate-generation : (s : Lifecycle) → (invalidate s).generation ≡ s.generation + 1
unfolding invalidate
invalidate-generation s = ground arith

effect-generation :
    (resubscribes enabled : Bool) (status : ConnectionStatus) (s : Lifecycle)
    → (effect resubscribes enabled status s).generation ≡ s.generation + 1
unfolding effect
effect-generation resubscribes enabled status s =
    ground (arith, invalidate-generation s, do_subscribe-generation s)

run-generation : (a : Action) (s : Lifecycle) → s.generation ≤ (run a s).generation
unfolding after_unsubscribe request on_result on_rejected notified clean_up_subscription
    on_switch_start on_switch_end
run-generation (ended g) s = ground arith
run-generation (answered g id) s = ground arith
run-generation (rejected has_on_error g) s = ground arith
run-generation (told g) s = ground arith
run-generation (runs resubscribes enabled status) s =
    ground (arith, effect-generation resubscribes enabled status s)
run-generation cleans s = ground (arith, invalidate-generation s)
run-generation switch_starts s = ground (arith, invalidate-generation s)
run-generation switch_ends s = ground (arith, do_subscribe-generation s)
run-generation refreshes s = ground (arith, do_subscribe-generation s)

run_all-generation :
    (actions : List Action) (s : Lifecycle) → s.generation ≤ (run_all actions s).generation
run_all-generation [] s = omega arith
run_all-generation (a ∷ actions) s =
    let x = run-generation a s in let y = run_all-generation actions (run a s) in omega arith

older-is_stale : (g : ℕ) (s : Lifecycle) → g < s.generation → is_stale g s ≡ true
older-is_stale g s lt = ground arith

current-is_stale : (g : ℕ) (s : Lifecycle) → s.generation ≡ g → is_stale g s ≡ false
current-is_stale g s e = ground arith

on_result_current :
    (g : ℕ) (id : String) (s : Lifecycle)
    → s.generation ≡ g
    → on_result g id s ≡ make Call.on_subscribed (record s { subscription_id = some id })
unfolding on_result
on_result_current g id s e = rw (current-is_stale g s e, on_result) refl

notified_current :
    (g : ℕ) (s : Lifecycle) → s.generation ≡ g → notified g s ≡ make on_notification s
unfolding notified
notified_current g s e = rw (current-is_stale g s e, notified) refl

request_current :
    (g : ℕ) (s : Lifecycle) → s.generation ≡ g → request g s ≡ make (subscribed_as g) s
unfolding request
request_current g s e = rw (current-is_stale g s e, request) refl

after_unsubscribe_older :
    (g : ℕ) (s : Lifecycle)
    → g < s.generation
    → after_unsubscribe g s ≡ record s { subscription_id = none }
unfolding after_unsubscribe request
after_unsubscribe_older g s lt = rw (older-is_stale g s lt, request) refl

-- Once a subscription was invalidated, and whatever happens then, its notifications are dropped,
-- and an answer to its request is given back by an unsubscribe and changes nothing else.
pub invalidated_silent :
    (g : ℕ) (id : String) (actions : List Action) (s : Lifecycle)
    → g ≤ s.generation
    → let t = run_all actions (invalidate s) in
      (notified g t ≡ t) × (on_result g id t ≡ make (unsubscribed id) t)
unfolding notified on_result
invalidated_silent g id actions s le =
    let t = run_all actions (invalidate s) in
    let x = run_all-generation actions (invalidate s) in
    let y = invalidate-generation s in
    let stale : is_stale g t ≡ true = older-is_stale g t (omega arith) in
    (rw (stale, notified) refl, rw (stale, on_result) refl)

-- What follows an effect that subscribes, if nothing else happens: an old subscription ends first.
abbrev pub settle : Lifecycle → Lifecycle → Lifecycle
settle s t = if is_some (current_id s) then after_unsubscribe (s.generation + 1) t else t

-- What was asked for when the request of a new generation is sent.
abbrev pub asked : Lifecycle → List Call
asked s =
    subscribed_as (s.generation + 1)
    ∷ elim (current_id s) [ none ↦ s.log | some old ↦ unsubscribed old ∷ s.log ]

after_unsubscribe_current :
    (g : ℕ) (s : Lifecycle)
    → s.generation ≡ g
    → after_unsubscribe g s ≡ make (subscribed_as g) (record s { subscription_id = none })
unfolding after_unsubscribe
after_unsubscribe_current g s e = request_current g (record s { subscription_id = none }) e

do_subscribe_new :
    (s : Lifecycle)
    → current_id s ≡ none
    → do_subscribe s
      ≡ make (subscribed_as (s.generation + 1)) (record s { generation = s.generation + 1 })
unfolding do_subscribe
do_subscribe_new s e =
    rw (e, do_subscribe)
      (request_current (s.generation + 1) (record s { generation = s.generation + 1 }) refl)

do_subscribe_again :
    (old : String) (s : Lifecycle)
    → current_id s ≡ some old
    → do_subscribe s ≡ make (unsubscribed old) (record s { generation = s.generation + 1 })
unfolding do_subscribe
do_subscribe_again old s e = rw (e, do_subscribe) refl

settled :
    (resubscribes : Bool) (s : Lifecycle)
    → let t = settle s (effect resubscribes true connected s) in
      (t.generation ≡ s.generation + 1) × (t.log ≡ asked s)
unfolding effect
settled resubscribes s = elim (Option-cases (current_id s)) [
  | inl e ↦ rw e (do_subscribe-generation s, ap (λ (v : Lifecycle). v.log) (do_subscribe_new s e))
  | inr (old, e) ↦
      let g = s.generation + 1 in
      let u = effect resubscribes true connected s in
      let ended = after_unsubscribe_current g u (do_subscribe-generation s) in
      rw e (
        ap (λ (v : Lifecycle). v.generation) ended ∙ do_subscribe-generation s,
        ap (λ (v : Lifecycle). v.log) ended
            ∙ ap (λ (v : Lifecycle). subscribed_as g ∷ v.log) (do_subscribe_again old s e),
      )
]

-- With a connection, and where the hook is enabled, the effect ends an old subscription, if there is
-- one, and then sends a request.
-- If nothing else happens meanwhile, its answer becomes the current subscription, and the
-- notifications for it are handed on.
pub subscribe_succeeds :
    (resubscribes : Bool) (id : String) (s : Lifecycle)
    → let g = s.generation + 1 in
      let t = settle s (effect resubscribes true connected s) in
      let u = on_result g id t in
      (t.log ≡ asked s) × (u.subscription_id ≡ some id) × (notified g u ≡ make on_notification u)
subscribe_succeeds resubscribes id s =
    let g = s.generation + 1 in
    let t = settle s (effect resubscribes true connected s) in
    let h = settled resubscribes s in
    let e = on_result_current g id t h.0 in
    (
      h.1,
      ap (λ (v : Lifecycle). v.subscription_id) e,
      notified_current g (on_result g id t) (ap (λ (v : Lifecycle). v.generation) e ∙ h.0),
    )

-- When the end of an older subscription is awaited for so long that a newer one was answered
-- meanwhile, the newer one is forgotten: no unsubscribe is sent for it when the hook is done.
pub late_end_forgets :
    (g : ℕ) (id : String) (s : Lifecycle)
    → g < s.generation
    → let t = on_result s.generation id s in
      (t.subscription_id ≡ some id) × ((clean_up_subscription (after_unsubscribe g t)).log ≡ t.log)
unfolding clean_up_subscription invalidate
late_end_forgets g id s lt =
    let t = on_result s.generation id s in
    let e = on_result_current s.generation id s refl in
    (
      ap (λ (v : Lifecycle). v.subscription_id) e,
      ap (λ (v : Lifecycle). (clean_up_subscription v).log)
          (after_unsubscribe_older g t (subst (λ (v : Lifecycle). g < v.generation) (sym e) lt)),
    )
