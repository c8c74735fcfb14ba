-- ===== src/Ws/Connection/Disconnect.antt =====
-- web/src/lib/wsStore.ts: what `disconnect` puts an end to, and what it does not.
use pockode.Prelude.{
  ℕ, ◌≡◌, refl, Bool, true, false, not, none, some, List, [], ◌∷◌, String, is_truthy, any, keep,
  Bool-cases, ◌∙◌, ap, arith, Option-cases, inl, inr, ===_iff,
}
use pockode.Ws.State.{connecting, disconnected, error, Timer, connect_later, Ws}
use pockode.Ws.Connection.{
  AuthResult, is_reconnect, connect, on_open, on_auth_result, on_auth_rejected, retry_or_fail,
  on_close, run_timer, clear_reconnect, close_current, disconnect,
}

-- What may still come after a disconnect: the sockets close, and retry timers fire that were not
-- cleared.
pub data Late : Type 0 where
  closed : Late
  fired : ℕ → Late

abbrev pub is_connect_later : Timer → Bool
is_connect_later (connect_later _) = true
is_connect_later (Timer.reconnect _) = false

keep-connect_later :
    (k : ℕ) (ts : List Timer)
    → any is_connect_later ts ≡ true
    → any is_connect_later (keep (λ t. not (is_reconnect k t)) ts) ≡ true
keep-connect_later k [] h = h
keep-connect_later k (Timer.reconnect j ∷ ts) h =
    elim (Bool-cases (not (is_reconnect k (Timer.reconnect j)))) [
      | inl t ↦ rw t (keep-connect_later k ts h)
      | inr t ↦ rw t (keep-connect_later k ts h)
    ]
keep-connect_later k (connect_later token ∷ ts) h = refl

module _ {C : Type 0} where
  pub after_late : List Late → Ws C → Ws C
  after_late [] s = s
  after_late (closed ∷ es) s = after_late es (on_close s)
  after_late (fired k ∷ es) s = after_late es (run_timer (Timer.reconnect k) s)

  record IsQuiet (s : Ws C) : Type 0 where
    status : s.status ≡ disconnected
    forgotten : s.current_token ≡ none

  disconnect-IsQuiet : (s : Ws C) → IsQuiet (disconnect s)
  unfolding disconnect close_current
  disconnect-IsQuiet s = ground arith

  on_close-IsQuiet : (s : Ws C) → IsQuiet s → IsQuiet (on_close s)
  unfolding on_close
  on_close-IsQuiet s q = ground arith

  run_timer-IsQuiet : (k : ℕ) (s : Ws C) → IsQuiet s → IsQuiet (run_timer (Timer.reconnect k) s)
  unfolding run_timer
  run_timer-IsQuiet k s q = rw (q.forgotten, run_timer) q

  after_late-IsQuiet : (es : List Late) (s : Ws C) → IsQuiet s → IsQuiet (after_late es s)
  unfolding after_late
  after_late-IsQuiet [] s q = q
  after_late-IsQuiet (closed ∷ es) s q = after_late-IsQuiet es (on_close s) (on_close-IsQuiet s q)
  after_late-IsQuiet (fired k ∷ es) s q =
      after_late-IsQuiet es (run_timer (Timer.reconnect k) s) (run_timer-IsQuiet k s q)

  -- After a disconnect the store stays disconnected, whatever sockets close and retry timers fire,
  -- and the token is forgotten.
  pub disconnect_quiet :
      (es : List Late) (s : Ws C)
      → ((after_late es (disconnect s)).status ≡ disconnected)
        × ((after_late es (disconnect s)).current_token ≡ none)
  disconnect_quiet es s =
      let q = after_late-IsQuiet es (disconnect s) (disconnect-IsQuiet s) in (q.status, q.forgotten)

  -- A connection that is opened after a disconnect and lost before it is authenticated is not
  -- retried: the store goes to "error" at once.
  pub connect_after_disconnect :
      (token : String) (s : Ws C)
      → is_truthy token ≡ true
      → (on_close (connect token (disconnect s))).status ≡ error
  unfolding disconnect close_current connect on_close retry_or_fail
  connect_after_disconnect token s h = ground arith

  -- Where another socket was closed before a socket opened and authenticated, a disconnect leaves
  -- that socket open, and requests still go to it.
  pub disconnect_after_stale_close :
      (app_version token : String) (socket : ℕ) (result : AuthResult) (s : Ws C)
      → result.version ≡ app_version
      → let t =
          disconnect (on_auth_result app_version result (on_open socket token (on_close s))) in
        (t.status ≡ disconnected) × (t.rpc_requester ≡ some socket)
  unfolding disconnect clear_reconnect close_current on_auth_result on_open on_close retry_or_fail
  disconnect_after_stale_close app_version token socket result s h =
      ground (arith, ===_iff result.version app_version)

  clear_reconnect-connect_later :
      (s : Ws C)
      → any is_connect_later s.timers ≡ true
      → any is_connect_later (clear_reconnect s).timers ≡ true
  unfolding clear_reconnect
  clear_reconnect-connect_later s h = elim (Option-cases s.reconnect_timeout) [
    | inl e ↦ rw (e, clear_reconnect) h
    | inr (k, e) ↦ rw (e, clear_reconnect) (keep-connect_later k s.timers h)
  ]

  disconnect-timers : (s : Ws C) → (disconnect s).timers ≡ (clear_reconnect s).timers
  unfolding disconnect close_current
  disconnect-timers s = ground arith

  on_auth_rejected-connect_later :
      (socket : ℕ) (token : String) (s : Ws C)
      → is_truthy s.worktree ≡ true
      → any is_connect_later (on_auth_rejected socket token s).timers ≡ true
  unfolding on_auth_rejected
  on_auth_rejected-connect_later socket token s w = rw w refl

  connect-status :
      (token : String) (s : Ws C)
      → is_truthy token ≡ true
      → s.status ≡ disconnected
      → (connect token s).status ≡ connecting
  unfolding connect
  connect-status token s h e = ground arith

  -- The second attempt after a rejected worktree is not called off by a disconnect: its timer is
  -- still there, and connects again.
  pub auth_retry_survives :
      (socket : ℕ) (token : String) (s : Ws C)
      → is_truthy s.worktree ≡ true
      → is_truthy token ≡ true
      → let t = disconnect (on_auth_rejected socket token s) in
        (any is_connect_later t.timers ≡ true)
        × ((run_timer (connect_later token) t).status ≡ connecting)
  unfolding run_timer
  auth_retry_survives socket token s w h =
      let t = on_auth_rejected socket token s in
      (
        ap (any is_connect_later) (disconnect-timers t)
            ∙ clear_reconnect-connect_later t (on_auth_rejected-connect_later socket token s w),
        connect-status token (disconnect t) h ((disconnect-IsQuiet t).status),
      )
