-- ===== src/Stores/Sessions.antt =====
-- web/src/lib/sessionStore.ts, web/src/hooks/useSessionSubscription.ts and
-- web/src/hooks/useSession.ts: the sessions, which of them are shown, and where the app goes.
pub mod Redirect
use pockode.Prelude.{
  Bool, true, false, not, ◌&&◌, Option, none, some, List, [], ◌∷◌, String, any, keep, is_some,
  is_truthy, if◌then◌else◌, ◌===◌,
}
use pockode.Stores.Collection.{
  ListChanged, create, update, delete, sync, find, prepend, apply_change,
}
use pockode.Stores.Items.{SessionListItem, session_keyed, Work}

pub record SessionState : Type 0 where
  pub sessions : List SessionListItem
  pub is_loading : Bool
  pub is_success : Bool
  pub show_task_sessions : Bool

unfoldable pub set_sessions : List SessionListItem → SessionState → SessionState
set_sessions sessions s = record s { sessions = sessions; is_loading = false; is_success = true }

unfoldable pub update_sessions :
    (List SessionListItem → List SessionListItem) → SessionState → SessionState
update_sessions updater s = record s { sessions = updater s.sessions }

-- The flag is also stored in the browser.
unfoldable pub toggle_show_task_sessions : SessionState → SessionState
toggle_show_task_sessions s = record s { show_task_sessions = not s.show_task_sessions }

unfoldable pub reset_sessions : SessionState → SessionState
reset_sessions s = record s { sessions = []; is_loading = false; is_success = false }

unfoldable pub prepend_session : SessionListItem → List SessionListItem → List SessionListItem
unfolding prepend
prepend_session session sessions = prepend session sessions

-- `handleNotification` of the hook.
unfoldable pub session_changed : ListChanged SessionListItem → SessionState → SessionState
unfolding set_sessions update_sessions prepend_session apply_change
session_changed (sync sessions) s = set_sessions sessions s
session_changed params s = update_sessions (apply_change prepend_session params) s

-- `onSuccess` of the creation of a session.
unfoldable pub session_created : SessionListItem → SessionState → SessionState
unfolding update_sessions prepend_session
session_created session s = update_sessions (prepend_session session) s

-- `collectWorkSessionIds`
abbrev pub collect_work_session_ids : List Work → List String
collect_work_session_ids [] = []
collect_work_session_ids (w ∷ works) =
    let rest = collect_work_session_ids works in
    elim w.session_id [ none ↦ rest | some id ↦ if is_truthy id then id ∷ rest else rest ]

-- `ids.has(id)`
abbrev pub has : String → List String → Bool
has id ids = any (λ x. x === id) ids

unfoldable pub filtered_sessions : List Work → SessionState → List SessionListItem
filtered_sessions works s =
    if s.show_task_sessions
    then s.sessions
    else keep (λ (x : SessionListItem). not (has x.id (collect_work_session_ids works))) s.sessions

unfoldable pub has_any_unread : List Work → SessionState → Bool
unfolding filtered_sessions
has_any_unread works s = any (λ (x : SessionListItem). x.unread) (filtered_sessions works s)

abbrev pub first_id : List SessionListItem → Option String
first_id [] = none
first_id (x ∷ sessions) = some x.id

-- `currentSessionId && currentSession`
abbrev pub shows_session : Option String → List SessionListItem → Bool
shows_session none sessions = false
shows_session (some id) sessions = is_truthy id && is_some (find id sessions)

-- `redirectSessionId`, by the session id of the route.
unfoldable pub redirect_session_id : Option String → List Work → SessionState → Option String
unfolding filtered_sessions
redirect_session_id route_id works s =
    if s.is_success
    then if shows_session route_id s.sessions then none else first_id (filtered_sessions works s)
    else none

unfoldable pub needs_new_session : SessionState → Bool
needs_new_session s = s.is_success && elim s.sessions [ [] ↦ true | _ ∷ _ ↦ false ]
