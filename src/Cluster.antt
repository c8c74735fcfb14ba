-- ===== src/Cluster.antt =====
-- web-cluster/src/lib/wsStore.ts: the connection of the cluster's user interface.
--
-- A socket and the client that is made for it are one number. `closing` has the sockets that were
-- told to close, and `timers` the timers that have yet to fire.
pub mod Retry
pub mod Late
mod Tests
use pockode.Prelude.{
  ℕ, ◌+◌, Bool, true, false, Option, none, some, List, [], ◌∷◌, String, any, is_truthy, ltb, nat_eq,
  get_or, if◌then◌else◌,
}
use pockode.Ws.State.{
  ConnectionStatus, connecting, connected, disconnected, reconnecting, auth_failed, error,
}

abbrev pub max_reconnect_attempts : ℕ
max_reconnect_attempts = 5

-- `WSState` and `InternalState`
pub record Cluster : Type 0 where
  pub status : ConnectionStatus
  pub version : Option String
  pub error_message : Option String
  pub socket : Option ℕ
  pub client : Option ℕ
  pub token : Option String
  pub reconnect_attempts : ℕ
  pub reconnect_timeout : Option ℕ
  pub timers : List ℕ
  pub closing : List ℕ
  -- The name of the next socket or timer.
  pub next : ℕ

abbrev pub remove_timer : ℕ → List ℕ → List ℕ
remove_timer k [] = []
remove_timer k (t ∷ timers) =
    if nat_eq t k then remove_timer k timers else t ∷ remove_timer k timers

-- `clearTimeout` of a timer that has fired does nothing.
unfoldable pub clear_reconnect_timeout : Cluster → Cluster
clear_reconnect_timeout s = elim s.reconnect_timeout [
  | none ↦ s
  | some k ↦ record s { reconnect_timeout = none; timers = remove_timer k s.timers }
]

unfoldable pub schedule_reconnect : Cluster → Cluster
schedule_reconnect s =
    if ltb s.reconnect_attempts max_reconnect_attempts
    then record s {
      reconnect_attempts = s.reconnect_attempts + 1;
      status = reconnecting;
      reconnect_timeout = some s.next;
      timers = s.next ∷ s.timers;
      next = s.next + 1;
    }
    else record s {
      status = error;
      error_message = some "Connection failed after multiple attempts";
    }

-- `internal.socket?.close()`
abbrev pub close_socket : Cluster → Cluster
close_socket s = elim s.socket [ none ↦ s | some i ↦ record s { closing = i ∷ s.closing } ]

unfoldable pub connect_internal : (token : String) → Cluster → Cluster
unfolding clear_reconnect_timeout
connect_internal token s =
    let s' = close_socket (clear_reconnect_timeout s) in
    record s' {
      status = connecting;
      error_message = none;
      token = some token;
      socket = some s'.next;
      next = s'.next + 1;
    }

-- The timer that `scheduleReconnect` sets.
unfoldable pub run_timer : ℕ → Cluster → Cluster
unfolding connect_internal
run_timer k s =
    let s' = record s { timers = remove_timer k s.timers } in
    if any (λ t. nat_eq t k) s.timers
    then elim s.token [
      | none ↦ s'
      | some token ↦ if is_truthy token then connect_internal token s' else s'
    ]
    else s

-- `onopen` of a socket, up to the request.
unfoldable pub on_open : (socket : ℕ) → Cluster → Cluster
on_open socket s = record s { client = some socket }

-- The request of `onopen` is answered.
unfoldable pub on_auth_result : (version : String) → Cluster → Cluster
on_auth_result version s = record s {
  reconnect_attempts = 0;
  status = connected;
  version = some version;
  error_message = none;
}

-- It is rejected, or times out: with the message of an `Error`, or with some other value.
unfoldable pub on_auth_rejected : (err : Option String) → Cluster → Cluster
on_auth_rejected err s = record (close_socket s) {
  status = auth_failed;
  error_message = some (get_or err "Authentication failed");
}

abbrev pub stays_closed : ConnectionStatus → Bool
stays_closed auth_failed = true
stays_closed disconnected = true
stays_closed _ = false

unfoldable pub on_close : (was_clean : Bool) → Cluster → Cluster
unfolding schedule_reconnect
on_close was_clean s =
    let s' = record s { client = none; socket = none } in
    if stays_closed s.status
    then s'
    else if was_clean
    then record s' { status = disconnected }
    else schedule_reconnect s'

unfoldable pub connect : (token : String) → Cluster → Cluster
unfolding connect_internal
connect token s = connect_internal token (record s { reconnect_attempts = 0 })

unfoldable pub disconnect : Cluster → Cluster
unfolding clear_reconnect_timeout
disconnect s =
    let s' =
      close_socket (record (clear_reconnect_timeout s) { token = none; reconnect_attempts = 0 }) in
    record s' {
      socket = none;
      client = none;
      status = disconnected;
      version = none;
      error_message = none;
    }

-- The store when the page is loaded.
abbrev pub fresh_cluster : Cluster
fresh_cluster = record {
  status = disconnected;
  version = none;
  error_message = none;
  socket = none;
  client = none;
  token = none;
  reconnect_attempts = 0;
  reconnect_timeout = none;
  timers = [];
  closing = [];
  next = 0;
}

-- Everything that happens to the store.
pub data Happening : Type 0 where
  connects : (token : String) → Happening
  disconnects : Happening
  opens : (socket : ℕ) → Happening
  closes : (was_clean : Bool) → Happening
  accepted : (version : String) → Happening
  rejected : (err : Option String) → Happening
  fires : (timer : ℕ) → Happening

unfoldable pub happen : Happening → Cluster → Cluster
unfolding connect disconnect on_open on_close on_auth_result on_auth_rejected run_timer
happen (connects token) s = connect token s
happen disconnects s = disconnect s
happen (opens socket) s = on_open socket s
happen (closes was_clean) s = on_close was_clean s
happen (accepted version) s = on_auth_result version s
happen (rejected err) s = on_auth_rejected err s
happen (fires timer) s = run_timer timer s

abbrev pub happen_all : List Happening → Cluster → Cluster
happen_all [] s = s
happen_all (h ∷ happenings) s = happen_all happenings (happen h s)
