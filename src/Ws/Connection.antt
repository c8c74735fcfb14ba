-- ===== src/Ws/Connection.antt =====
-- web/src/lib/wsStore.ts: connecting, authenticating, losing the connection and giving up.
pub mod Invariant
pub mod Retry
pub mod Disconnect
use pockode.Prelude.{
  ℕ, suc, ◌+◌, Bool, true, false, ◌&&◌, not, Option, none, some, List, [], ◌∷◌, String, is_some,
  is_truthy, if◌then◌else◌, ◌===◌, ltb, keep,
}
use pockode.Ws.Watch.{clear_watch_subscriptions}
use pockode.Ws.State.{
  ConnectionStatus, connecting, connected, disconnected, reconnecting, auth_failed, error, Timer,
  connect_later, open_socket, close_socket, send_auth, switch_end, reload_page, worktree_not_found,
  caches_invalid, Ws, emit, set_current,
}

abbrev pub max_reconnect_attempts : ℕ
max_reconnect_attempts = 5

-- `AuthResult`
pub record AuthResult : Type 0 where
  pub version : String
  pub title : String
  pub work_dir : String

-- The statuses in which `connect` does nothing.
abbrev pub refuses : ConnectionStatus → Bool
refuses connecting = true
refuses connected = true
refuses error = true
refuses _ = false

abbrev pub while_connecting : ConnectionStatus → ConnectionStatus
while_connecting reconnecting = reconnecting
while_connecting _ = connecting

-- The statuses in which a closed socket is not replaced.
abbrev pub stays_closed : ConnectionStatus → Bool
stays_closed auth_failed = true
stays_closed disconnected = true
stays_closed _ = false

-- A nullable string as a condition.
abbrev pub has_token : Option String → Bool
has_token none = false
has_token (some token) = is_truthy token

abbrev pub is_reconnect : ℕ → Timer → Bool
is_reconnect k (Timer.reconnect j) = if ltb k j then false else if ltb j k then false else true
is_reconnect k (connect_later _) = false

module _ {C : Type 0} where
  unfoldable pub connect : String → Ws C → Ws C
  connect token s =
      if refuses s.status
      then s
      else if is_truthy token
      then record s {
        current_token = some token;
        status = while_connecting s.status;
        ws = some s.next;
        next = suc s.next;
        log = open_socket s.next ∷ s.log;
      }
      else record s { status = error }

  -- `socket.onopen`, up to the request: `worktree: currentWorktree || undefined`.
  unfoldable pub on_open : ℕ → String → Ws C → Ws C
  on_open socket token s = record s {
    rpc_receiver = some socket;
    rpc_requester = some socket;
    log = send_auth socket token (if is_truthy s.worktree then some s.worktree else none) ∷ s.log;
  }

  -- The request was answered. `app_version` is `APP_VERSION`, which the build makes.
  unfoldable pub on_auth_result : (app_version : String) → AuthResult → Ws C → Ws C
  on_auth_result app_version result s =
      if result.version === app_version
      then record s {
        status = connected;
        project_title = result.title;
        work_dir = result.work_dir;
        reconnect_attempts = 0;
      }
      else emit reload_page s

  -- The request was rejected. With a worktree it is tried again without it.
  unfoldable pub on_auth_rejected : ℕ → String → Ws C → Ws C
  on_auth_rejected socket token s =
      if is_truthy s.worktree
      then (let s' = set_current "" s in
          record s' {
            timers = connect_later token ∷ s'.timers;
            log = close_socket socket "auth_retry" ∷ worktree_not_found ∷ s'.log;
          })
      else record s { status = auth_failed; log = close_socket socket "auth_failed" ∷ s.log }

  -- The end of `socket.onclose`: a retry, or the end.
  unfoldable pub retry_or_fail : Ws C → Ws C
  retry_or_fail s =
      if ltb s.reconnect_attempts max_reconnect_attempts && has_token s.current_token
      then record s {
        status = reconnecting;
        reconnect_attempts = s.reconnect_attempts + 1;
        reconnect_timeout = some s.next;
        timers = Timer.reconnect s.next ∷ s.timers;
        next = suc s.next;
      }
      else record s { status = error }

  unfoldable pub on_close : Ws C → Ws C
  on_close s =
      let s' = record s {
        ws = none;
        rpc_receiver = none;
        rpc_requester = none;
        callbacks = clear_watch_subscriptions s.callbacks;
      } in
      if stays_closed s.status then s' else retry_or_fail s'

  -- What a timer calls.
  unfoldable pub run_timer : Timer → Ws C → Ws C
  run_timer (Timer.reconnect _) s = elim s.current_token [
    | none ↦ s
    | some token ↦ if is_truthy token then connect token s else s
  ]
  run_timer (connect_later token) s = connect token s

  -- `clearTimeout(reconnectTimeout)`
  unfoldable pub clear_reconnect : Ws C → Ws C
  clear_reconnect s = elim s.reconnect_timeout [
    | none ↦ s
    | some k ↦ record s {
      timers = keep (λ t. not (is_reconnect k t)) s.timers;
      reconnect_timeout = none;
    }
  ]

  -- `ws.close(1000, "disconnect")`, if there is one.
  unfoldable pub close_current : Ws C → Ws C
  close_current s = elim s.ws [
    | none ↦ s
    | some socket ↦ record s {
      log = close_socket socket "disconnect" ∷ s.log;
      ws = none;
      rpc_receiver = none;
      rpc_requester = none;
    }
  ]

  unfoldable pub disconnect : Ws C → Ws C
  disconnect s =
      let s' = clear_reconnect s in
      close_current (record s' {
        current_token = none;
        reconnect_attempts = max_reconnect_attempts;
        status = disconnected;
      })

  unfoldable pub reconnect_web_socket : Ws C → Ws C
  reconnect_web_socket s = elim s.current_token [
    | none ↦ s
    | some token ↦
        if is_truthy token
        then (let s' = disconnect s in record s' { timers = connect_later token ∷ s'.timers })
        else s
  ]

  -- The request of `switchWorktreeRPC` was answered.
  unfoldable pub on_switched : (work_dir : String) → Ws C → Ws C
  on_switched work_dir s = record s {
    work_dir = work_dir;
    callbacks = clear_watch_subscriptions s.callbacks;
    log = switch_end ∷ caches_invalid ∷ s.log;
  }

  -- It was rejected.
  abbrev pub on_switch_failed : Ws C → Ws C
  on_switch_failed = reconnect_web_socket
