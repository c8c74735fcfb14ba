-- ===== src/Cluster/Late.antt =====
-- web-cluster/src/lib/wsStore.ts: events that come late, from a connection that was given up.
use pockode.Prelude.{ℕ, ◌-◌, ◌≡◌, Bool, none, some, Option, List, [], ◌∷◌, String, arith}
use pockode.Ws.State.{connected, disconnected, auth_failed}
use pockode.Cluster.{
  Cluster, clear_reconnect_timeout, connect_internal, schedule_reconnect, run_timer, on_close,
  connect, disconnect, on_open, on_auth_result, on_auth_rejected,
}

-- What may still come from the browser once the user has disconnected.
pub data Late : Type 0 where
  closes : (was_clean : Bool) → Late
  fires : (timer : ℕ) → Late

abbrev pub come : List Late → Cluster → Cluster
come [] s = s
come (closes was_clean ∷ late) s = come late (on_close was_clean s)
come (fires timer ∷ late) s = come late (run_timer timer s)

record IsQuiet (s : Cluster) : Type 0 where
  status : s.status ≡ disconnected
  socket : s.socket ≡ none
  client : s.client ≡ none
  token : s.token ≡ none

disconnect-IsQuiet : (s : Cluster) → IsQuiet (disconnect s)
unfolding disconnect clear_reconnect_timeout
disconnect-IsQuiet s = ground arith

on_close-IsQuiet : (was_clean : Bool) (s : Cluster) → IsQuiet s → IsQuiet (on_close was_clean s)
unfolding on_close
on_close-IsQuiet was_clean s q = ground arith

run_timer-IsQuiet : (k : ℕ) (s : Cluster) → IsQuiet s → IsQuiet (run_timer k s)
unfolding run_timer
run_timer-IsQuiet k s q = ground arith

come-IsQuiet : (late : List Late) (s : Cluster) → IsQuiet s → IsQuiet (come late s)
come-IsQuiet [] s q = q
come-IsQuiet (closes was_clean ∷ late) s q =
    come-IsQuiet late (on_close was_clean s) (on_close-IsQuiet was_clean s q)
come-IsQuiet (fires timer ∷ late) s q =
    come-IsQuiet late (run_timer timer s) (run_timer-IsQuiet timer s q)

-- After a disconnect, whatever sockets close and timers fire, the store stays disconnected, without
-- a socket, a client or a token.
pub late_events_quiet :
    (late : List Late) (s : Cluster)
    → let t = come late (disconnect s) in
      (t.status ≡ disconnected) × (t.socket ≡ none) × (t.client ≡ none) × (t.token ≡ none)
late_events_quiet late s =
    let q = come-IsQuiet late (disconnect s) (disconnect-IsQuiet s) in
    (q.status, q.socket, q.client, q.token)

-- The request of a connection that was given up may be rejected when a later connection is
-- authenticated: the store then closes the socket of the later one, and says that the
-- authentication failed.
pub late_rejection :
    (token version : String) (err : Option String) (s : Cluster)
    → let t = connect token (disconnect s) in
      let u = on_auth_result version (on_open (t.next - 1) t) in
      (u.status ≡ connected)
      × ((on_auth_rejected err u).closing ≡ (t.next - 1) ∷ t.closing)
      × ((on_auth_rejected err u).status ≡ auth_failed)
unfolding connect connect_internal disconnect clear_reconnect_timeout on_auth_rejected
    on_auth_result on_open
late_rejection token version err s = ground arith

-- Where a socket is replaced by a new connection and closes after that, the store has lost the new
-- socket: a disconnect does not close it.
pub late_close :
    (token : String) (was_clean : Bool) (s : Cluster)
    → let t = connect token s in
      let u = disconnect (on_close was_clean t) in
      (t.socket ≡ some (t.next - 1)) × (u.closing ≡ t.closing)
unfolding connect connect_internal disconnect clear_reconnect_timeout on_close schedule_reconnect
late_close token was_clean s = ground arith
