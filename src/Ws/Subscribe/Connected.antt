-- ===== src/Ws/Subscribe/Connected.antt =====
-- web/src/lib/wsStore.ts: when an action finds a client.
use pockode.Prelude.{String, sym, ◌∙◌, ◌≡◌, refl, ℕ, some, Option-cases, inl, inr, arith}
use pockode.Ws.State.{Ws, connected}
use pockode.Ws.Connection.Invariant.{Reach, Reach-IsSound}
use pockode.Ws.Subscribe.{Subscription, subscribe, request_of}

module _ {C : Type 0} where
  -- In every state that can be reached, an action that subscribes does not throw while the store
  -- says "connected": its request goes to the socket whose responses are received.
  pub connected_subscribes :
      (app_version : String) (s : Ws C) (subscription : Subscription)
      → Reach app_version s
      → s.status ≡ connected
      → (socket : ℕ) × (s.rpc_receiver ≡ some socket)
        × (subscribe subscription s ≡ inr (socket, request_of subscription))
  unfolding subscribe
  connected_subscribes app_version s subscription r h =
      let v = (Reach-IsSound r).0 in
      elim (Option-cases s.rpc_requester) [
        | inl e ↦ ground (arith, v.usable, e)
        | inr (socket, e) ↦ (socket, sym v.paired ∙ e, rw (e, subscribe) refl)
      ]
