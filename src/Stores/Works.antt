-- ===== src/Stores/Works.antt =====
-- web/src/lib/workStore.ts, web/src/lib/agentRoleStore.ts, web/src/lib/settingsStore.ts and the
-- hooks that subscribe to these stores, with web/src/hooks/useWorkDetailSubscription.ts.
use pockode.Prelude.{
  Bool, true, false, Option, none, some, List, [], String, if◌then◌else◌, ◌===◌, get_or,
}
use pockode.Stores.Collection.{ListChanged, sync, append_or_replace, apply_change}
use pockode.Stores.Items.{Work, Comment, AgentRole, work_keyed, role_keyed}
use pockode.Chat.Session.{SessionMode, AgentType}

pub record WorkState : Type 0 where
  pub works : List Work
  pub is_loading : Bool
  pub error : Option String

unfoldable pub set_works : List Work → WorkState → WorkState
set_works works s = record { works = works; is_loading = false; error = none }

unfoldable pub update_works : (List Work → List Work) → WorkState → WorkState
update_works updater s = record s { works = updater s.works }

unfoldable pub set_work_error : String → WorkState → WorkState
set_work_error error s = record s { is_loading = false; error = some error }

unfoldable pub reset_works : WorkState → WorkState
reset_works s = record { works = []; is_loading = true; error = none }

unfoldable pub work_changed : ListChanged Work → WorkState → WorkState
unfolding set_works update_works apply_change append_or_replace
work_changed (sync works) s = set_works works s
work_changed params s = update_works (apply_change append_or_replace params) s

-- What was thrown: an `Error` with its message, or some other value.
abbrev pub Thrown : Type 0
Thrown = Option String

unfoldable pub work_error : Thrown → WorkState → WorkState
unfolding set_work_error
work_error err s = set_work_error (get_or err "Failed to load work items") s

pub record AgentRoleState : Type 0 where
  pub roles : List AgentRole
  pub is_loading : Bool
  pub error : Option String

unfoldable pub set_roles : List AgentRole → AgentRoleState → AgentRoleState
set_roles roles s = record { roles = roles; is_loading = false; error = none }

unfoldable pub update_roles : (List AgentRole → List AgentRole) → AgentRoleState → AgentRoleState
update_roles updater s = record s { roles = updater s.roles }

unfoldable pub set_role_error : String → AgentRoleState → AgentRoleState
set_role_error error s = record s { is_loading = false; error = some error }

unfoldable pub reset_roles : AgentRoleState → AgentRoleState
reset_roles s = record { roles = []; is_loading = true; error = none }

unfoldable pub role_changed : ListChanged AgentRole → AgentRoleState → AgentRoleState
unfolding set_roles update_roles apply_change append_or_replace
role_changed (sync roles) s = set_roles roles s
role_changed params s = update_roles (apply_change append_or_replace params) s

unfoldable pub role_error : Thrown → AgentRoleState → AgentRoleState
unfolding set_role_error
role_error err s = set_role_error (get_or err "Failed to load agent roles") s

-- `useSettingsStore`
pub record Settings : Type 0 where
  pub default_agent_role_id : Option String
  pub default_agent_type : Option AgentType
  pub default_mode : Option SessionMode

abbrev pub SettingsState : Type 0
SettingsState = Option Settings

unfoldable pub set_settings : Settings → SettingsState → SettingsState
set_settings settings s = some settings

unfoldable pub reset_settings : SettingsState → SettingsState
reset_settings s = none

-- The state of `useWorkDetailSubscription`; `prev_work_id` is its ref.
pub record WorkDetail : Type 0 where
  pub work : Option Work
  pub comments : List Comment
  pub loading : Bool
  pub error : Option String
  pub prev_work_id : String

unfoldable pub reset_detail : WorkDetail → WorkDetail
reset_detail s = record s { work = none; comments = []; loading = true; error = none }

-- The effect that runs when `workId` changes.
unfoldable pub show_work : (work_id : String) → WorkDetail → WorkDetail
unfolding reset_detail
show_work work_id s =
    if s.prev_work_id === work_id then s else reset_detail (record s { prev_work_id = work_id })

unfoldable pub detail_changed : Work → List Comment → WorkDetail → WorkDetail
detail_changed work comments s = record s { work = some work; comments = comments }

unfoldable pub detail_subscribed : Work → List Comment → WorkDetail → WorkDetail
detail_subscribed work comments s = record s {
  work = some work;
  comments = comments;
  loading = false;
  error = none;
}

unfoldable pub detail_error : Thrown → WorkDetail → WorkDetail
detail_error err s = record s {
  error = some (get_or err "Failed to load work detail");
  loading = false;
}
