-- ===== src/Api/Catalogs.antt =====
-- The interfaces of web/src/lib/api.ts for spaces, their members and views, and the catalogs of an
-- account, which the hooks below web/src/hooks get from the server.
use quagenticus.Base.{ℕ, String, Bool, Option, List, Dict}
use quagenticus.Api.Types.{Role, ActorType, LabelRef}
use quagenticus.Api.Documents.{Json}

pub data MilestoneStatus : Type 0 where
  open_status locked closed_status : MilestoneStatus

pub data UserStatus : Type 0 where
  pending active suspended deleted : UserStatus

pub record Space : Type 0 where
  pub id : String
  pub account_id : String
  pub key : String
  pub name : String
  pub description_md : String
  pub icon : Option String
  pub color : Option String
  pub modules : Dict Bool
  pub settings : Json
  pub is_archived : Bool
  pub created_at : String
  pub updated_at : String
  pub my_role : Role
  pub member_count : Option ℕ
  pub open_requirements : Option ℕ

pub record BoardSummary : Type 0 where
  pub id : String
  pub space_id : String
  pub name : String
  pub description : Option String

pub record Tracker : Type 0 where
  pub id : String
  pub key : String
  pub name : String
  pub description : Option String
  pub icon : Option String
  pub color : Option String
  pub default_status_id : Option String
  pub ord : ℕ
  pub is_active : Bool
  pub is_agent_enabled : Bool
  pub template_id : Option String
  pub template_body_md : Option String

pub record Priority : Type 0 where
  pub id : String
  pub key : String
  pub name : String
  pub weight : ℕ
  pub color : Option String
  pub is_default : Bool

pub record Milestone : Type 0 where
  pub id : String
  pub space_id : String
  pub name : String
  pub description : Option String
  pub due_date : Option String
  pub status : MilestoneStatus
  pub total : Option ℕ
  pub closed : Option ℕ
  pub avg_done_ratio : Option ℕ

pub record Category : Type 0 where
  pub id : String
  pub space_id : String
  pub name : String
  pub slug : String
  pub description : Option String
  pub default_user_id : Option String
  pub ord : ℕ

pub record SpaceMember : Type 0 where
  pub id : String
  pub display_name : String
  pub email : String
  pub handle : String
  pub avatar_url : Option String
  pub role : Role
  pub created_at : String

pub record SavedView : Type 0 where
  pub id : String
  pub space_id : String
  pub user_id : Option String
  pub name : String
  pub filters : Dict String
  pub is_shared : Bool
  pub created_at : String

pub record SystemUser : Type 0 where
  pub id : String
  pub account_id : String
  pub email : String
  pub handle : String
  pub display_name : String
  pub avatar_url : Option String
  pub is_account_admin : Bool
  pub locale : String
  pub timezone : String
  pub status : UserStatus
  pub last_login_at : Option String
  pub created_at : String

pub record Transition : Type 0 where
  pub id : String
  pub tracker_id : String
  pub from_status_id : Option String
  pub to_status_id : String
  pub allowed_roles : List Role
  pub allowed_actors : List ActorType
  pub requires_comment : Bool
  pub requires_assignee : Bool
  pub requires_readiness : Bool

pub record Agent : Type 0 where
  pub id : String
  pub name : String
  pub description : Option String
  pub model_name : Option String
  pub status : String
  pub is_active : Bool
  pub scopes : List String
  pub api_key_prefix : String
  pub last_seen_at : Option String
  pub created_at : String
  pub created_by_name : Option String
  pub active_claims : Option ℕ
  pub api_key : Option String

pub record Label : Type 0 where
  pub label : LabelRef
  pub open label use *
  pub space_id : Option String
  pub slug : Option String
  pub description : Option String
  pub usage_count : Option ℕ
