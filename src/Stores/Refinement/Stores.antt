-- ===== src/Stores/Refinement/Stores.antt =====
-- web/src/hooks/useSessionSubscription.ts, web/src/hooks/useWorkSubscription.ts and
-- web/src/hooks/useAgentRoleSubscription.ts: the stores and the maps that their lists stand for.
use pockode.Prelude.{◌≡◌, refl, ◌∙◌, ap, List, [], ◌∷◌, All, subst, sym}
use pockode.Stores.Collection.{
  ListChanged, create, update, delete, sync, find, prepend, append_or_replace, apply_change,
}
use pockode.Stores.Items.{SessionListItem, Work, AgentRole, session_keyed, work_keyed, role_keyed}
use pockode.Stores.Sessions.{SessionState, session_changed, session_created}
use pockode.Stores.Works.{WorkState, work_changed, AgentRoleState, role_changed}
use pockode.Stores.Refinement.Unique.{
  IsUnique, IsUniqueSync, prepend-IsUnique, append_or_replace-IsUnique, apply_change-IsUnique,
  prepend_again, append_or_replace_again,
}
use pockode.Stores.Refinement.{change_maps, find-apply_change, prepend-Adds, append_or_replace-Adds}

-- The notifications of a subscription, one after the other.
abbrev pub sessions_changed : List (ListChanged SessionListItem) → SessionState → SessionState
sessions_changed [] s = s
sessions_changed (c ∷ changes) s = sessions_changed changes (session_changed c s)

abbrev pub works_changed : List (ListChanged Work) → WorkState → WorkState
works_changed [] s = s
works_changed (c ∷ changes) s = works_changed changes (work_changed c s)

abbrev pub roles_changed : List (ListChanged AgentRole) → AgentRoleState → AgentRoleState
roles_changed [] s = s
roles_changed (c ∷ changes) s = roles_changed changes (role_changed c s)

pub session_changed-apply :
    (c : ListChanged SessionListItem) (s : SessionState)
    → (session_changed c s).sessions ≡ apply_change prepend c s.sessions
unfolding session_changed
session_changed-apply (create item) s = refl
session_changed-apply (update item) s = refl
session_changed-apply (delete id) s = refl
session_changed-apply (sync items) s = refl

pub work_changed-apply :
    (c : ListChanged Work) (s : WorkState)
    → (work_changed c s).works ≡ apply_change append_or_replace c s.works
unfolding work_changed
work_changed-apply (create item) s = refl
work_changed-apply (update item) s = refl
work_changed-apply (delete id) s = refl
work_changed-apply (sync items) s = refl

pub role_changed-apply :
    (c : ListChanged AgentRole) (s : AgentRoleState)
    → (role_changed c s).roles ≡ apply_change append_or_replace c s.roles
unfolding role_changed
role_changed-apply (create item) s = refl
role_changed-apply (update item) s = refl
role_changed-apply (delete id) s = refl
role_changed-apply (sync items) s = refl

sessions_refine :
    (changes : List (ListChanged SessionListItem)) (s : SessionState)
    → (λ j. find j (sessions_changed changes s).sessions)
      ≡ change_maps changes (λ j. find j s.sessions)
sessions_refine [] s = refl
sessions_refine (c ∷ changes) s =
    sessions_refine changes (session_changed c s)
    ∙ ap (change_maps changes) (
        ap (λ (l : List SessionListItem). λ j. find j l) (session_changed-apply c s)
        ∙ find-apply_change prepend c s.sessions prepend-Adds)

works_refine :
    (changes : List (ListChanged Work)) (s : WorkState)
    → (λ j. find j (works_changed changes s).works) ≡ change_maps changes (λ j. find j s.works)
works_refine [] s = refl
works_refine (c ∷ changes) s =
    works_refine changes (work_changed c s)
    ∙ ap (change_maps changes) (
        ap (λ (l : List Work). λ j. find j l) (work_changed-apply c s)
        ∙ find-apply_change append_or_replace c s.works append_or_replace-Adds)

roles_refine :
    (changes : List (ListChanged AgentRole)) (s : AgentRoleState)
    → (λ j. find j (roles_changed changes s).roles) ≡ change_maps changes (λ j. find j s.roles)
roles_refine [] s = refl
roles_refine (c ∷ changes) s =
    roles_refine changes (role_changed c s)
    ∙ ap (change_maps changes) (
        ap (λ (l : List AgentRole). λ j. find j l) (role_changed-apply c s)
        ∙ find-apply_change append_or_replace c s.roles append_or_replace-Adds)

-- The lists of sessions, works and agent roles, read as maps from ids to items, change with each
-- notification as the maps do: a creation sets the item, an update sets it where it is there, a
-- deletion removes it, and a sync replaces the map.
pub stores_refine :
    (sessions : List (ListChanged SessionListItem)) (s : SessionState)
    (works : List (ListChanged Work)) (w : WorkState) (roles : List (ListChanged AgentRole))
    (r : AgentRoleState)
    → ((λ j. find j (sessions_changed sessions s).sessions)
        ≡ change_maps sessions (λ j. find j s.sessions))
      × ((λ j. find j (works_changed works w).works) ≡ change_maps works (λ j. find j w.works))
      × ((λ j. find j (roles_changed roles r).roles) ≡ change_maps roles (λ j. find j r.roles))
stores_refine sessions s works w roles r =
    (sessions_refine sessions s, works_refine works w, roles_refine roles r)

sessions-IsUnique :
    (changes : List (ListChanged SessionListItem)) (s : SessionState)
    → All IsUniqueSync changes
    → IsUnique s.sessions
    → IsUnique (sessions_changed changes s).sessions
sessions-IsUnique [] s h u = u
sessions-IsUnique (c ∷ changes) s h u = sessions-IsUnique changes (session_changed c s) h.1 (
    subst IsUnique (sym (session_changed-apply c s))
      (apply_change-IsUnique prepend c s.sessions (λ x. prepend-IsUnique x s.sessions) h.0 u))

works-IsUnique :
    (changes : List (ListChanged Work)) (w : WorkState)
    → All IsUniqueSync changes
    → IsUnique w.works
    → IsUnique (works_changed changes w).works
works-IsUnique [] w h u = u
works-IsUnique (c ∷ changes) w h u = works-IsUnique changes (work_changed c w) h.1 (
    subst IsUnique (sym (work_changed-apply c w)) (
      apply_change-IsUnique append_or_replace c w.works (λ x. append_or_replace-IsUnique x w.works)
        h.0 u))

-- If the lists that the server sends have each id once, so have the lists of sessions and works,
-- whatever notifications came.
pub ids-IsUnique :
    (sessions : List (ListChanged SessionListItem)) (s : SessionState)
    (works : List (ListChanged Work)) (w : WorkState)
    → All IsUniqueSync sessions
    → IsUnique s.sessions
    → All IsUniqueSync works
    → IsUnique w.works
    → IsUnique (sessions_changed sessions s).sessions × IsUnique (works_changed works w).works
ids-IsUnique sessions s works w hs us hw uw =
    (sessions-IsUnique sessions s hs us, works-IsUnique works w hw uw)

-- A session that was put into the list when it was created is not changed by the notification of
-- its creation, nor is a work by a notification that comes twice.
pub created_again :
    (session : SessionListItem) (s : SessionState) (work : Work) (w : WorkState)
    → (session_changed (create session) (session_created session s) ≡ session_created session s)
      × (work_changed (create work) (work_changed (create work) w) ≡ work_changed (create work) w)
unfolding session_changed session_created work_changed
created_again session s work w = (
  ap (λ (l : List SessionListItem). record s { sessions = l }) (prepend_again session s.sessions),
  ap (λ (l : List Work). record w { works = l }) (append_or_replace_again work w.works),
)
