-- ===== src/Ws/State.antt =====
-- web/src/lib/wsStore.ts: the state of the store and its module-level variables, and
-- web/src/lib/worktreeStore.ts: the current worktree.
--
-- A socket is a number; the closures of a socket are handed its number and the token that it was
-- opened with. What the code asks of the outside (the browser, the server, its listeners) is added
-- to `log`. A timer that was set stands in `timers` until it is cleared.
use pockode.Prelude.{ℕ, Bool, Option, none, List, [], ◌∷◌, String, is_some, if◌then◌else◌, ◌===◌}
use pockode.Ws.Watch.{Callbacks}

pub data ConnectionStatus : Type 0 where
  connecting connected disconnected reconnecting auth_failed error : ConnectionStatus

pub data Timer : Type 0 where
  -- The timer that `reconnectTimeout` names, by its number.
  reconnect : ℕ → Timer
  -- A call of `connect(token)` after 100 ms.
  connect_later : (token : String) → Timer

pub data Effect : Type 0 where
  open_socket : ℕ → Effect
  close_socket : ℕ → (reason : String) → Effect
  send_auth : ℕ → (token : String) → (worktree : Option String) → Effect
  request_switch : (worktree : String) → Effect
  switch_start switch_end reload_page worktree_not_found caches_invalid : Effect
  worktree_deleted : (name : String) (was_current : Bool) → Effect

pub record Ws (C : Type 0) : Type 0 where
  pub status : ConnectionStatus
  pub project_title : String
  pub work_dir : String
  pub ws : Option ℕ
  pub rpc_receiver : Option ℕ
  pub rpc_requester : Option ℕ
  pub current_token : Option String
  pub reconnect_attempts : ℕ
  pub reconnect_timeout : Option ℕ
  pub timers : List Timer
  pub next : ℕ
  pub callbacks : Callbacks C
  pub worktree : String
  pub log : List Effect

abbrev pub initial : {C : Type 0} → Ws C
initial = record {
  status = disconnected;
  project_title = "";
  work_dir = "";
  ws = none;
  rpc_receiver = none;
  rpc_requester = none;
  current_token = none;
  reconnect_attempts = 0;
  reconnect_timeout = none;
  timers = [];
  next = 0;
  callbacks = λ _. [];
  worktree = "";
  log = [];
}

module _ {C : Type 0} where
  abbrev pub emit : Effect → Ws C → Ws C
  emit e s = record s { log = e ∷ s.log }

  -- The start of `switchWorktreeRPC`, which the change of the worktree calls.
  abbrev pub switch_worktree_rpc : String → Ws C → Ws C
  switch_worktree_rpc name s = if is_some s.rpc_requester then emit (request_switch name) s else s

  -- `worktreeActions.setCurrent`, with the listener that wsStore.ts adds.
  unfoldable pub set_current : String → Ws C → Ws C
  set_current name s =
      if s.worktree === name
      then s
      else switch_worktree_rpc name (record (emit switch_start s) { worktree = name })
