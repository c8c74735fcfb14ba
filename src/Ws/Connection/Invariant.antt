-- ===== src/Ws/Connection/Invariant.antt =====
-- web/src/lib/wsStore.ts: what holds in every state that the store can reach.
use pockode.Prelude.{
  Option-cases, Bool-cases, inl, inr, ℕ, suc, length, ltb, if◌then◌else◌, ◌===◌, refl, ◌≤◌, ◌≡◌,
  true, some, String, is_some, is_truthy, arith,
}
use pockode.Ws.Watch.{Namespace, add_callback, delete_callback}
use pockode.Ws.State.{connected, Timer, Ws, set_current, initial}
use pockode.Ws.Connection.{
  AuthResult, max_reconnect_attempts, connect, on_open, on_auth_result, on_auth_rejected,
  retry_or_fail, on_close, run_timer, clear_reconnect, close_current, disconnect,
  reconnect_web_socket, on_switched,
}

module _ {C : Type 0} where
  -- One call of a handler. A response reaches the client that `rpcReceiver` names, so a request
  -- is answered only while its socket is there; it may be rejected, by its timeout, at any time.
  pub data Step (app_version : String) : Ws C → Ws C → Type 0 where
    connects : (s : Ws C) (token : String) → Step app_version s (connect token s)
    opens : (s : Ws C) (socket : ℕ) (token : String) → Step app_version s (on_open socket token s)
    accepts :
        (s : Ws C) (socket : ℕ) (result : AuthResult)
        → s.rpc_receiver ≡ some socket
        → Step app_version s (on_auth_result app_version result s)
    rejects :
        (s : Ws C) (socket : ℕ) (token : String)
        → Step app_version s (on_auth_rejected socket token s)
    closes : (s : Ws C) → Step app_version s (on_close s)
    fires : (s : Ws C) (t : Timer) → Step app_version s (run_timer t s)
    disconnects : (s : Ws C) → Step app_version s (disconnect s)
    switches : (s : Ws C) (name : String) → Step app_version s (set_current name s)
    switched : (s : Ws C) (work_dir : String) → Step app_version s (on_switched work_dir s)
    switch_fails : (s : Ws C) → Step app_version s (reconnect_web_socket s)
    subscribed :
        (s : Ws C) (ns : Namespace) (id : String) (callback : C)
        → Step app_version s (record s { callbacks = add_callback ns id callback s.callbacks })
    unsubscribes :
        (s : Ws C) (ns : Namespace) (id : String)
        → Step app_version s (record s { callbacks = delete_callback ns id s.callbacks })

  pub data Reach (app_version : String) : Ws C → Type 0 where
    start : Reach app_version initial
    next : {s t : Ws C} → Reach app_version s → Step app_version s t → Reach app_version t

  -- The retries are bounded, requests and responses go by one socket, and a store that says
  -- "connected" has it.
  pub record IsSound (s : Ws C) : Type 0 where
    pub bounded : s.reconnect_attempts ≤ max_reconnect_attempts
    pub paired : s.rpc_requester ≡ s.rpc_receiver
    pub usable : s.status ≡ connected → is_some s.rpc_requester ≡ true

  -- The retries that a step leaves counted: a lost connection that sets a timer is one more, and an
  -- authentication starts anew.
  abbrev pub retried : {app_version : String} {s t : Ws C} → Step app_version s t → ℕ → ℕ
  retried (closes s) n = if ltb (length s.timers) (length (on_close s).timers) then suc n else n
  retried {app_version} (accepts s socket result h) n =
      if result.version === app_version then 0 else n
  retried _ n = n

  -- How often a lost connection was retried since the last authentication.
  abbrev pub retries : {app_version : String} {s : Ws C} → Reach app_version s → ℕ
  retries start = 0
  retries (next r step) = retried step (retries r)

  connect-IsSound : (token : String) (s : Ws C) → IsSound s → IsSound (connect token s)
  unfolding connect
  connect-IsSound token s v = ground (arith, v.usable)

  on_open-IsSound :
      (socket : ℕ) (token : String) (s : Ws C) → IsSound s → IsSound (on_open socket token s)
  unfolding on_open
  on_open-IsSound socket token s v = ground arith

  on_auth_result-IsSound :
      (app_version : String) (socket : ℕ) (result : AuthResult) (s : Ws C)
      → s.rpc_receiver ≡ some socket
      → IsSound s
      → IsSound (on_auth_result app_version result s)
  unfolding on_auth_result
  on_auth_result-IsSound app_version socket result s h v = ground (arith, v.usable)

  set_current-IsSound : (name : String) (s : Ws C) → IsSound s → IsSound (set_current name s)
  unfolding set_current
  set_current-IsSound name s v = ground (arith, v.usable)

  on_auth_rejected-IsSound :
      (socket : ℕ) (token : String) (s : Ws C)
      → IsSound s
      → IsSound (on_auth_rejected socket token s)
  unfolding on_auth_rejected
  on_auth_rejected-IsSound socket token s v =
      let w = set_current-IsSound "" s v in ground (arith, v.usable, w.usable, w.bounded, w.paired)

  on_close-IsSound : (s : Ws C) → IsSound s → IsSound (on_close s)
  unfolding on_close retry_or_fail
  on_close-IsSound s v = ground arith

  run_timer_cases {ℓ} :
      (P : Ws C → Type ℓ) (k : ℕ) (s : Ws C)
      → P s
      → ((token : String) → P (connect token s))
      → P (run_timer (Timer.reconnect k) s)
  unfolding run_timer
  run_timer_cases P k s p q = elim (Option-cases s.current_token) [
    | inl h ↦ rw (h, run_timer) p
    | inr (token, h) ↦
        rw (h, run_timer)
          (elim (Bool-cases (is_truthy token)) [ inl t ↦ rw t (q token) | inr t ↦ rw t p ])
  ]

  run_timer-IsSound : (t : Timer) (s : Ws C) → IsSound s → IsSound (run_timer t s)
  unfolding run_timer
  run_timer-IsSound (Timer.reconnect k) s v =
      run_timer_cases IsSound k s v (λ token. connect-IsSound token s v)
  run_timer-IsSound (Timer.connect_later token) s v = connect-IsSound token s v

  disconnect-IsSound : (s : Ws C) → IsSound s → IsSound (disconnect s)
  unfolding disconnect clear_reconnect close_current
  disconnect-IsSound s v = ground arith

  reconnect_web_socket-IsSound : (s : Ws C) → IsSound s → IsSound (reconnect_web_socket s)
  unfolding reconnect_web_socket
  reconnect_web_socket-IsSound s v =
      let w = disconnect-IsSound s v in ground (arith, v.usable, w.usable, w.bounded, w.paired)

  -- Every step keeps the store sound.
  pub Step-IsSound :
      {app_version : String} {s t : Ws C} → Step app_version s t → IsSound s → IsSound t
  unfolding on_switched
  Step-IsSound (connects s token) v = connect-IsSound token s v
  Step-IsSound (opens s socket token) v = on_open-IsSound socket token s v
  Step-IsSound {app_version} (accepts s socket result h) v =
      on_auth_result-IsSound app_version socket result s h v
  Step-IsSound (rejects s socket token) v = on_auth_rejected-IsSound socket token s v
  Step-IsSound (closes s) v = on_close-IsSound s v
  Step-IsSound (fires s t) v = run_timer-IsSound t s v
  Step-IsSound (disconnects s) v = disconnect-IsSound s v
  Step-IsSound (switches s name) v = set_current-IsSound name s v
  Step-IsSound (switched s work_dir) v = ground (arith, v.usable)
  Step-IsSound (switch_fails s) v = reconnect_web_socket-IsSound s v
  Step-IsSound (subscribed s ns id callback) v = ground (arith, v.usable)
  Step-IsSound (unsubscribes s ns id) v = ground (arith, v.usable)

  connect-attempts :
      (token : String) (s : Ws C) → (connect token s).reconnect_attempts ≡ s.reconnect_attempts
  unfolding connect
  connect-attempts token s = ground arith

  run_timer-attempts :
      (t : Timer) (s : Ws C) → (run_timer t s).reconnect_attempts ≡ s.reconnect_attempts
  unfolding run_timer
  run_timer-attempts (Timer.reconnect k) s =
      run_timer_cases (λ t. t.reconnect_attempts ≡ s.reconnect_attempts) k s refl
        (λ token. connect-attempts token s)
  run_timer-attempts (Timer.connect_later token) s = connect-attempts token s

  on_close-counted :
      (s : Ws C) (n : ℕ)
      → n ≤ s.reconnect_attempts
      → (if ltb (length s.timers) (length (on_close s).timers) then suc n else n)
        ≤ (on_close s).reconnect_attempts
  unfolding on_close retry_or_fail
  on_close-counted s n le = ground arith

  disconnect-attempts : (s : Ws C) → (disconnect s).reconnect_attempts ≡ max_reconnect_attempts
  unfolding disconnect clear_reconnect close_current
  disconnect-attempts s = ground arith

  set_current-attempts :
      (name : String) (s : Ws C) → (set_current name s).reconnect_attempts ≡ s.reconnect_attempts
  unfolding set_current
  set_current-attempts name s = ground arith

  -- No more retries are made than are counted.
  Step-counted :
      {app_version : String} {s t : Ws C} (step : Step app_version s t) (n : ℕ)
      → IsSound s
      → n ≤ s.reconnect_attempts
      → retried step n ≤ t.reconnect_attempts
  unfolding on_open on_auth_result on_auth_rejected reconnect_web_socket on_switched
  Step-counted (connects s token) n v le = let e = connect-attempts token s in omega arith
  Step-counted (opens s socket token) n v le = le
  Step-counted (accepts s socket result h) n v le = ground arith
  Step-counted (rejects s socket token) n v le = let e = set_current-attempts "" s in ground arith
  Step-counted (closes s) n v le = on_close-counted s n le
  Step-counted (fires s t) n v le = let e = run_timer-attempts t s in omega arith
  Step-counted (disconnects s) n v le =
      let e = disconnect-attempts s in let b = v.bounded in omega arith
  Step-counted (switches s name) n v le = let e = set_current-attempts name s in omega arith
  Step-counted (switched s work_dir) n v le = le
  Step-counted (switch_fails s) n v le =
      let e = disconnect-attempts s in let b = v.bounded in ground arith
  Step-counted (subscribed s ns id callback) n v le = le
  Step-counted (unsubscribes s ns id) n v le = le

  Reach-counted :
      {app_version : String} {s : Ws C} (r : Reach app_version s)
      → IsSound s × (retries r ≤ s.reconnect_attempts)
  Reach-counted start = (ground arith, omega arith)
  Reach-counted (next r step) =
      let before = Reach-counted r in
      (Step-IsSound step before.0, Step-counted step (retries r) before.0 before.1)

  -- In every state that can be reached, requests and responses go by one socket, "connected" means
  -- that requests can be sent, and at most five retries were made since the connection was last
  -- authenticated, whatever else was done meanwhile.
  pub Reach-IsSound :
      {app_version : String} {s : Ws C} (r : Reach app_version s) → IsSound s × (retries r ≤ 5)
  Reach-IsSound r =
      let counted = Reach-counted r in
      let bound = counted.0.bounded in let made = counted.1 in (counted.0, omega arith)
