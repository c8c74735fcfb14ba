-- ===== src/Ws/Connection/Retry.antt =====
-- web/src/lib/wsStore.ts: an outage, and the retries that follow it.
use pockode.Prelude.{
  subst, Bool-cases, inl, inr, ℕ, zero, suc, ◌+◌, ◌≤◌, ◌<◌, ◌≡◌, ap, ◌∙◌, true, false, some, String,
  is_truthy, arith, if◌then◌else◌, ltb,
}
use pockode.Ws.State.{reconnecting, error, Timer, Ws}
use pockode.Ws.Connection.{
  max_reconnect_attempts, stays_closed, connect, retry_or_fail, on_close, run_timer,
}

module _ {C : Type 0} where
  -- The retry timer fires, and the socket that it opens is closed before it can authenticate.
  abbrev pub failed_retry : Ws C → Ws C
  failed_retry s = on_close (run_timer (Timer.reconnect 0) s)

  abbrev pub failed_retries : ℕ → Ws C → Ws C
  failed_retries zero s = s
  failed_retries (suc n) s = failed_retries n (failed_retry s)

  record IsRetrying (token : String) (k : ℕ) (s : Ws C) : Type 0 where
    status : s.status ≡ reconnecting
    attempts : s.reconnect_attempts ≡ k
    saved : s.current_token ≡ some token

  failed_retry-IsRetrying :
      (token : String) (k : ℕ) (s : Ws C)
      → is_truthy token ≡ true
      → k < max_reconnect_attempts
      → IsRetrying token k s
      → IsRetrying token (k + 1) (failed_retry s)
  unfolding run_timer connect on_close retry_or_fail
  failed_retry-IsRetrying token k s h lt r = ground arith

  -- Where the attempts are used up.
  record HasFailed (s : Ws C) : Type 0 where
    status : s.status ≡ error
    attempts : s.reconnect_attempts ≡ max_reconnect_attempts

  failed_retry-HasFailed :
      (token : String) (s : Ws C)
      → is_truthy token ≡ true
      → IsRetrying token max_reconnect_attempts s
      → HasFailed (failed_retry s)
  unfolding run_timer connect on_close retry_or_fail
  failed_retry-HasFailed s h r = ground arith

  failed_retry_stays : (s : Ws C) → HasFailed s → HasFailed (failed_retry s)
  unfolding run_timer connect on_close retry_or_fail
  failed_retry_stays s f = ground arith

  failed_retries_stay : (n : ℕ) (s : Ws C) → HasFailed s → (failed_retries n s).status ≡ error
  failed_retries_stay zero s f = f.status
  failed_retries_stay (suc n) s f = failed_retries_stay n (failed_retry s) (failed_retry_stays s f)

  failed_retries-IsRetrying :
      (token : String) (n k : ℕ) (s : Ws C)
      → is_truthy token ≡ true
      → k ≤ max_reconnect_attempts
      → IsRetrying token k s
      → (failed_retries n s).status ≡ (if ltb (k + n) 6 then reconnecting else error)
  failed_retries-IsRetrying token zero k s h le r = ground (arith, r.status)
  failed_retries-IsRetrying token (suc n) k s h le r = elim (Bool-cases (ltb k 5)) [
    | inl lt ↦
        failed_retries-IsRetrying token n (k + 1) (failed_retry s) h (ground arith)
          (failed_retry-IsRetrying token k s h (ground arith) r)
        ∙ ap (λ j. if ltb j 6 then reconnecting else error) (omega arith)
    | inr ge ↦
        let full : k ≡ max_reconnect_attempts = ground arith in
        failed_retries_stay n (failed_retry s)
          (failed_retry-HasFailed token s h (subst (λ j. IsRetrying token j s) full r))
        ∙ ground arith
  ]

  on_close-IsRetrying :
      (token : String) (s : Ws C)
      → is_truthy token ≡ true
      → s.current_token ≡ some token
      → stays_closed s.status ≡ false
      → s.reconnect_attempts < max_reconnect_attempts
      → IsRetrying token (s.reconnect_attempts + 1) (on_close s)
  unfolding on_close retry_or_fail
  on_close-IsRetrying token s h saved live lt = ground arith

  on_close-HasFailed :
      (s : Ws C)
      → stays_closed s.status ≡ false
      → s.reconnect_attempts ≡ max_reconnect_attempts
      → HasFailed (on_close s)
  unfolding on_close retry_or_fail
  on_close-HasFailed s live e = ground arith

  -- When the connection is lost and no retry succeeds, the store is "reconnecting" until five
  -- retries have been used, those before the loss included, and in "error" from then on. Each retry
  -- fails by the close of its socket.
  pub outage_status :
      (token : String) (n : ℕ) (s : Ws C)
      → is_truthy token ≡ true
      → s.current_token ≡ some token
      → stays_closed s.status ≡ false
      → s.reconnect_attempts ≤ max_reconnect_attempts
      → (failed_retries n (on_close s)).status
        ≡ (if ltb (s.reconnect_attempts + n) max_reconnect_attempts then reconnecting else error)
  outage_status token n s h saved live le = elim (Bool-cases (ltb s.reconnect_attempts 5)) [
    | inl lt ↦
        failed_retries-IsRetrying token n (s.reconnect_attempts + 1) (on_close s) h (ground arith)
          (on_close-IsRetrying token s h saved live (ground arith))
        ∙ ground arith
    | inr ge ↦
        failed_retries_stay n (on_close s) (on_close-HasFailed s live (ground arith)) ∙ ground arith
  ]
