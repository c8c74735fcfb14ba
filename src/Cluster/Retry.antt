-- ===== src/Cluster/Retry.antt =====
-- web-cluster/src/lib/wsStore.ts: how often a lost connection is tried again.
use pockode.Prelude.{
  is_some, ℕ, zero, suc, ◌+◌, ◌≤◌, ◌<◌, ◌≡◌, refl, ◌∙◌, ap, true, false, none, some, List, [], ◌∷◌,
  String, is_truthy, arith, if◌then◌else◌, ltb, nat_eq, any, Bool-cases, inl, inr, subst,
  Option-cases,
}
use pockode.Ws.State.{reconnecting, error, disconnected}
use pockode.Cluster.{
  Cluster, max_reconnect_attempts, remove_timer, clear_reconnect_timeout, connect_internal,
  schedule_reconnect, run_timer, on_close, connect, disconnect, on_open, on_auth_result,
  on_auth_rejected, stays_closed, fresh_cluster, Happening, connects, disconnects, opens, closes,
  accepted, rejected, fires, happen, happen_all,
}

connect_internal-attempts :
    (token : String) (s : Cluster)
    → (connect_internal token s).reconnect_attempts ≡ s.reconnect_attempts
unfolding connect_internal clear_reconnect_timeout
connect_internal-attempts token s = ground arith

happen-bounded :
    (h : Happening) (s : Cluster)
    → s.reconnect_attempts ≤ max_reconnect_attempts
    → (happen h s).reconnect_attempts ≤ max_reconnect_attempts
unfolding happen connect disconnect on_open on_auth_result on_auth_rejected on_close
    schedule_reconnect run_timer clear_reconnect_timeout
happen-bounded (connects token) s le =
    ground (arith, connect_internal-attempts token (record s { reconnect_attempts = 0 }))
happen-bounded disconnects s le = ground arith
happen-bounded (opens socket) s le = le
happen-bounded (closes was_clean) s le = ground arith
happen-bounded (accepted version) s le = ground arith
happen-bounded (rejected err) s le = ground arith
happen-bounded (fires timer) s le = elim (Option-cases s.token) [
  | inl e ↦ ground arith
  | inr (token, e) ↦
      ground
        (arith, connect_internal-attempts token (record s { timers = remove_timer timer s.timers }))
]

happen_all-bounded :
    (happenings : List Happening) (s : Cluster)
    → s.reconnect_attempts ≤ max_reconnect_attempts
    → (happen_all happenings s).reconnect_attempts ≤ max_reconnect_attempts
happen_all-bounded [] s le = le
happen_all-bounded (h ∷ happenings) s le =
    happen_all-bounded happenings (happen h s) (happen-bounded h s le)

-- Whatever happens, the attempts that are counted are at most five.
pub attempts_bounded :
    (happenings : List Happening)
    → (happen_all happenings fresh_cluster).reconnect_attempts ≤ max_reconnect_attempts
attempts_bounded happenings = happen_all-bounded happenings fresh_cluster (ground arith)

-- The timer that was set last fires, and the socket that it opens closes uncleanly before it is
-- authenticated.
abbrev pub failed_retry : Cluster → Cluster
failed_retry s = elim s.reconnect_timeout [ none ↦ s | some k ↦ on_close false (run_timer k s) ]

abbrev pub failed_retries : ℕ → Cluster → Cluster
failed_retries zero s = s
failed_retries (suc n) s = failed_retries n (failed_retry s)

record IsRetrying (token : String) (k timer : ℕ) (s : Cluster) : Type 0 where
  status : s.status ≡ reconnecting
  attempts : s.reconnect_attempts ≡ k
  saved : s.token ≡ some token
  is_set : s.reconnect_timeout ≡ some timer
  pending : any (λ t. nat_eq t timer) s.timers ≡ true

record HasFailed (s : Cluster) : Type 0 where
  status : s.status ≡ error
  no_timer : s.reconnect_timeout ≡ none

failed_retry-IsRetrying :
    (token : String) (k timer : ℕ) (s : Cluster)
    → is_truthy token ≡ true
    → k < max_reconnect_attempts
    → IsRetrying token k timer s
    → IsRetrying token (k + 1) (s.next + 1) (failed_retry s)
unfolding run_timer connect_internal clear_reconnect_timeout on_close schedule_reconnect
failed_retry-IsRetrying token k timer s h lt r = ground arith

failed_retry-HasFailed :
    (token : String) (timer : ℕ) (s : Cluster)
    → is_truthy token ≡ true
    → IsRetrying token max_reconnect_attempts timer s
    → HasFailed (failed_retry s)
unfolding run_timer connect_internal clear_reconnect_timeout on_close schedule_reconnect
failed_retry-HasFailed token timer s h r = ground arith

failed_retry_stays : (s : Cluster) → HasFailed s → HasFailed (failed_retry s)
failed_retry_stays s f = ground arith

failed_retries_stay : (n : ℕ) (s : Cluster) → HasFailed s → HasFailed (failed_retries n s)
failed_retries_stay zero s f = f
failed_retries_stay (suc n) s f = failed_retries_stay n (failed_retry s) (failed_retry_stays s f)

-- Retrying while `n` is small enough, with a timer to come, and out of attempts from then on.
abbrev pub IsGivingUpAt : (bound n : ℕ) → Cluster → Type 0
IsGivingUpAt bound n s =
    (s.status ≡ (if ltb n bound then reconnecting else error))
    × (is_some s.reconnect_timeout ≡ ltb n bound)

failed_retries-status :
    (token : String) (n k timer : ℕ) (s : Cluster)
    → is_truthy token ≡ true
    → k ≤ max_reconnect_attempts
    → IsRetrying token k timer s
    → IsGivingUpAt 6 (k + n) (failed_retries n s)
failed_retries-status token zero k timer s h le r =
    (ground (arith, r.status), ground (arith, r.is_set))
failed_retries-status token (suc n) k timer s h le r = elim (Bool-cases (ltb k 5)) [
  | inl lt ↦
      subst (λ j. IsGivingUpAt 6 j (failed_retries n (failed_retry s))) (omega arith)
        (failed_retries-status token n (k + 1) (s.next + 1) (failed_retry s) h (ground arith)
          (failed_retry-IsRetrying token k timer s h (ground arith) r))
  | inr ge ↦
      let full : k ≡ max_reconnect_attempts = ground arith in
      let failed =
        failed_retries_stay n (failed_retry s) (
          failed_retry-HasFailed token timer s h
            (subst (λ j. IsRetrying token j timer s) full r)) in
      (failed.status ∙ ground arith, ap is_some failed.no_timer ∙ ground arith)
]

on_close-IsRetrying :
    (token : String) (s : Cluster)
    → s.token ≡ some token
    → stays_closed s.status ≡ false
    → s.reconnect_attempts < max_reconnect_attempts
    → IsRetrying token (s.reconnect_attempts + 1) s.next (on_close false s)
unfolding on_close schedule_reconnect
on_close-IsRetrying token s saved live lt = ground arith

closed_cleanly :
    (version : String) (s : Cluster)
    → (on_close true (on_auth_result version s)).status ≡ disconnected
unfolding on_close on_auth_result
closed_cleanly version s = refl

-- After an authenticated connection closes uncleanly, and as long as the socket of each retry also
-- closes uncleanly before it is authenticated, it is retried five times: the store is "reconnecting"
-- until then, with a timer set, and in "error" and without one afterwards. After a clean close it is
-- "disconnected", and sets no timer.
pub lost_connection_status :
    (token version : String) (n : ℕ) (s : Cluster)
    → is_truthy token ≡ true
    → s.token ≡ some token
    → let t = on_auth_result version s in
      IsGivingUpAt 5 n (failed_retries n (on_close false t))
      × ((on_close true t).status ≡ disconnected)
      × ((on_close true t).timers ≡ s.timers)
unfolding on_auth_result on_close
lost_connection_status token version n s h saved =
    let t = on_auth_result version s in
    let r =
      failed_retries-status token n 1 t.next (on_close false t) h (omega arith)
        (on_close-IsRetrying token t saved refl (omega arith)) in
    ((r.0 ∙ ground arith, r.1 ∙ ground arith), closed_cleanly version s, refl)
