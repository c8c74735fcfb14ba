-- ===== src/Cluster/Tests.antt =====
-- The theorems about the cluster's connection, applied to one that was authenticated.
use pockode.Prelude.{◌≡◌, ◌≤◌, refl, true, false, none, some, List, [], ◌∷◌}
use pockode.Ws.State.{connected, disconnected}
use pockode.Cluster.{
  Cluster, max_reconnect_attempts, fresh_cluster, disconnect, on_auth_result, on_close, Happening,
  connects, disconnects, opens, closes, accepted, fires, happen_all,
}
use pockode.Cluster.Retry.{attempts_bounded, failed_retries, IsGivingUpAt, lost_connection_status}
use pockode.Cluster.Late.{Late, come, late_events_quiet}

abbrev waiting : Cluster
waiting = record {
  status = connected;
  version = some "1.0";
  error_message = none;
  socket = some 0;
  client = some 0;
  token = some "secret";
  reconnect_attempts = 0;
  reconnect_timeout = none;
  timers = [];
  closing = [];
  next = 1;
}

abbrev day : List Happening
day =
    connects "secret"
    ∷ opens 0
    ∷ accepted "1.0"
    ∷ closes false
    ∷ fires 1
    ∷ closes false
    ∷ disconnects
    ∷ []

attempts_bounded_example :
    (happen_all day fresh_cluster).reconnect_attempts ≤ max_reconnect_attempts
attempts_bounded_example = attempts_bounded day

lost_connection_status_example :
    let t = on_auth_result "1.0" waiting in
    IsGivingUpAt 5 6 (failed_retries 6 (on_close false t))
    × ((on_close true t).status ≡ disconnected)
    × ((on_close true t).timers ≡ [])
lost_connection_status_example = lost_connection_status "secret" "1.0" 6 waiting refl refl

late_events_quiet_example :
    let t = come (Late.closes false ∷ Late.fires 3 ∷ Late.closes true ∷ []) (disconnect waiting) in
    (t.status ≡ disconnected) × (t.socket ≡ none) × (t.client ≡ none) × (t.token ≡ none)
late_events_quiet_example =
    late_events_quiet (Late.closes false ∷ Late.fires 3 ∷ Late.closes true ∷ []) waiting
