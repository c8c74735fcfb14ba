-- ===== src/Stores/Sessions/Redirect.antt =====
-- web/src/hooks/useSession.ts: the session that the app goes to when the route names none.
use pockode.Prelude.{
  ◌≡◌, Bool, true, not, Option, none, some, List, [], ◌∷◌, String, keep, is_some, is_truthy,
  ===_iff, arith, Bool-cases, inl, inr,
}
use pockode.Stores.Collection.{find}
use pockode.Stores.Items.{SessionListItem, session_keyed, Work}
use pockode.Stores.Sessions.{
  SessionState, collect_work_session_ids, has, filtered_sessions, first_id, shows_session,
  redirect_session_id,
}

find_of_keep :
    (p : SessionListItem → Bool) (id : String) (sessions : List SessionListItem)
    → is_some (find id (keep p sessions)) ≡ true
    → is_some (find id sessions) ≡ true
find_of_keep p id [] h = h
find_of_keep p id (x ∷ sessions) h = ground (arith, find_of_keep p id sessions, ===_iff x.id id)

find_of_filtered :
    (id : String) (works : List Work) (s : SessionState)
    → is_some (find id (filtered_sessions works s)) ≡ true
    → is_some (find id s.sessions) ≡ true
unfolding filtered_sessions
find_of_filtered id works s h = elim (Bool-cases s.show_task_sessions) [
  | inl e ↦ rw e at h
  | inr e ↦
      find_of_keep (λ (x : SessionListItem). not (has x.id (collect_work_session_ids works))) id
        s.sessions (rw e at h)
]

find_first :
    (id : String) (sessions : List SessionListItem)
    → first_id sessions ≡ some id
    → is_some (find id sessions) ≡ true
find_first id [] h = ground arith
find_first id (x ∷ sessions) h = ground (arith, ===_iff x.id id)

redirect-first :
    (route_id : Option String) (works : List Work) (s : SessionState) (id : String)
    → redirect_session_id route_id works s ≡ some id
    → first_id (filtered_sessions works s) ≡ some id
unfolding redirect_session_id
redirect-first route_id works s id h = ground arith

redirect_stops :
    (works : List Work) (s : SessionState) (id : String)
    → shows_session (some id) s.sessions ≡ true
    → redirect_session_id (some id) works s ≡ none
unfolding redirect_session_id
redirect_stops works s id h = rw (h, redirect_session_id) (ground arith)

-- Where the app is sent to a session, that session is one of those that the list shows, and once
-- the route names it the app is sent nowhere else. Ids are not empty.
pub redirect_settles :
    (route_id : Option String) (works : List Work) (s : SessionState) (id : String)
    → redirect_session_id route_id works s ≡ some id
    → is_truthy id ≡ true
    → (is_some (find id (filtered_sessions works s)) ≡ true)
      × (redirect_session_id (some id) works s ≡ none)
redirect_settles route_id works s id h t =
    let found = find_first id (filtered_sessions works s) (redirect-first route_id works s id h) in
    (found, redirect_stops works s id (rw t (find_of_filtered id works s found)))
