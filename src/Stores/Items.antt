-- ===== src/Stores/Items.antt =====
-- web/src/types/message.ts, web/src/types/work.ts and web/src/types/agentRole.ts: the items of the
-- lists.
use pockode.Prelude.{ℤ, String, Bool, Option, List}
use pockode.Chat.Session.{SessionMode, AgentType, ProcessState}
use pockode.Stores.Collection.{Keyed}

pub record SessionListItem : Type 0 where
  pub id : String
  pub title : String
  pub created_at : String
  pub updated_at : String
  pub mode : SessionMode
  pub agent_type : AgentType
  pub state : ProcessState
  pub needs_input : Bool
  pub unread : Bool

pub data WorkType : Type 0 where
  story task : WorkType

pub data WorkStatus : Type 0 where
  opened in_progress waiting needs_input stopped closed : WorkStatus

pub record Work : Type 0 where
  pub id : String
  pub type : WorkType
  pub parent_id : Option String
  pub agent_role_id : Option String
  pub title : String
  pub body : Option String
  pub status : WorkStatus
  pub session_id : Option String
  pub current_step : Option ℤ
  pub created_at : String
  pub updated_at : String

pub record Comment : Type 0 where
  pub id : String
  pub work_id : String
  pub body : String
  pub created_at : String

pub record AgentRole : Type 0 where
  pub id : String
  pub name : String
  pub role_prompt : String
  pub steps : Option (List String)
  pub created_at : String
  pub updated_at : String

instance abbrev pub session_keyed : Keyed SessionListItem
session_keyed = record { id = λ (s : SessionListItem). s.id }

instance abbrev pub work_keyed : Keyed Work
work_keyed = record { id = λ (w : Work). w.id }

instance abbrev pub role_keyed : Keyed AgentRole
role_keyed = record { id = λ (r : AgentRole). r.id }
