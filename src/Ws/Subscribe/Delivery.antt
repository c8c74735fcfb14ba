-- ===== src/Ws/Subscribe/Delivery.antt =====
-- web/src/lib/wsStore.ts: which callback a notification reaches.
use pockode.Prelude.{
  false, true, ◌≡◌, refl, Bool, Option, none, some, List, [], ◌∷◌, String, arith, Bool-cases, inl,
  inr, ◌===◌, ===_iff, if◌then◌else◌, ◌&&◌, ap, ◌∙◌,
}
use pockode.Ws.Watch.{Namespace, same, get, set, delete, add_callback, Callbacks}
use pockode.Ws.State.{Ws}
use pockode.Ws.Notification.{Params, Argument, to_call, call, handle_notification}
use pockode.Ws.Subscribe.{Subscription, namespace_of, on_subscribed}
use pockode.Ws.Subscribe.Methods.{method_of, argument_of, notify}

module _ {ℓ} {V : Type ℓ} where
  pub get-set :
      (i j : String) (v : V) (entries : List (String × V))
      → get j (set i v entries) ≡ (if i === j then some v else get j entries)
  get-set i j v [] = refl
  get-set i j v ((k, w) ∷ entries) =
      ground (arith, ===_iff k i, ===_iff k j, ===_iff i j, get-set i j v entries)

  pub get-delete :
      (i j : String) (entries : List (String × V))
      → get j (delete i entries) ≡ (if i === j then none else get j entries)
  get-delete i j [] = ground arith
  get-delete i j ((k, w) ∷ entries) =
      ground (arith, ===_iff k i, ===_iff k j, ===_iff i j, get-delete i j entries)

module _ {C : Type 0} where
  get-add_callback :
      (ns other : Namespace) (i j : String) (callback : C) (callbacks : Callbacks C)
      → get j (add_callback ns i callback callbacks other)
        ≡ (if same ns other && (i === j) then some callback else get j (callbacks other))
  unfolding add_callback
  get-add_callback ns other i j callback callbacks = elim (Bool-cases (same ns other)) [
    | inl e ↦ rw e (get-set i j callback (callbacks other))
    | inr e ↦ rw e refl
  ]

-- The namespaces that belong to no worktree.
abbrev pub is_manager_level : Namespace → Bool
is_manager_level Namespace.worktree = true
is_manager_level Namespace.settings = true
is_manager_level _ = false

module _ {C D : Type 0} where
  -- The calls of the callbacks of a namespace, by what `get` finds.
  call-get :
      (ns : Namespace) (id : String) (argument : Argument D) (s t : Ws C) (b : Bool)
      (found : Option C)
      → get id (t.callbacks ns) ≡ (if b then found else get id (s.callbacks ns))
      → call ns id argument t ≡ (if b then to_call found argument else call ns id argument s)
  unfolding call
  call-get ns id argument s t b found e = ap (λ c. to_call c argument) e ∙ ground arith

  delivery_after :
      (ns : Namespace) (event : String) (params : Params D) (s t : Ws C) (b : Bool)
      (found : Option C)
      → get params.id (t.callbacks ns) ≡ (if b then found else get params.id (s.callbacks ns))
      → (handle_notification (method_of ns event) params t).0 ≡ (
          if b
          then to_call found (argument_of ns event params)
          else (handle_notification (method_of ns event) params s).0)
  delivery_after ns event params s t b found e =
      rw (notify ns event params t, notify ns event params s)
        (call-get ns params.id (argument_of ns event params) s t b found e)

  -- Once a subscription was answered with an id, a notification for that id reaches the callback
  -- that was registered, and no other; every other notification reaches what it did before.
  pub delivery_after_subscribe :
      (subscription : Subscription) (id : String) (callback : C) (s : Ws C) (ns : Namespace)
      (event : String) (params : Params D)
      → let calls = λ (t : Ws C). (handle_notification (method_of ns event) params t).0 in
        calls ((on_subscribed subscription id callback s).1) ≡ (
          if same (namespace_of subscription) ns && (id === params.id)
          then (callback, argument_of ns event params) ∷ []
          else calls s)
  unfolding on_subscribed
  delivery_after_subscribe subscription id callback s ns event params =
      delivery_after ns event params s ((on_subscribed subscription id callback s).1)
        (same (namespace_of subscription) ns && (id === params.id)) (some callback)
        (get-add_callback (namespace_of subscription) ns id params.id callback s.callbacks)
