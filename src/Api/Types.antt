-- ===== src/Api/Types.antt =====
-- The interfaces of web/src/lib/api.ts that the modelled pages read. An optional or nullable field is
-- an `Option`; the numbers that the client only carries are natural numbers here.
use quagenticus.Base.{ℕ, String, Bool, Option, List}

pub data Role : Type 0 where
  viewer contributor maintainer admin : Role

pub data ActorType : Type 0 where
  user agent : ActorType

pub record LabelRef : Type 0 where
  pub id : String
  pub name : String
  pub color : String

pub record CardMember : Type 0 where
  pub id : String
  pub type : ActorType
  pub is_lead : Bool
  pub display_name : String
  pub avatar_url : Option String

pub record BoardCard : Type 0 where
  pub id : String
  pub ref_key : Option String
  pub title : String
  pub tracker_id : String
  pub tracker_key : String
  pub tracker_icon : Option String
  pub status_id : String
  pub is_closed : Bool
  pub priority_id : String
  pub priority_key : String
  pub priority_name : String
  pub priority_color : Option String
  pub lead_user_id : Option String
  pub board_position : ℕ
  pub start_date : Option String
  pub due_date : Option String
  pub done_ratio : ℕ
  pub readiness_score : Option ℕ
  pub updated_at : String
  pub claimed_by_agent_id : Option String
  pub claimed_by_agent_name : Option String
  pub labels : List LabelRef
  pub members : List CardMember
  pub comment_count : ℕ
  pub attachment_count : ℕ
  pub children_count : ℕ
  pub children_done : ℕ

pub record BoardColumn : Type 0 where
  pub id : String
  pub status_id : String
  pub status_key : String
  pub name : String
  pub color : Option String
  pub ord : ℕ
  pub wip_limit : Option ℕ
  pub is_collapsed : Bool
  pub is_closed : Bool
  pub is_agent_claimable : Bool
  pub requires_resolution : Bool
  pub total : ℕ
  pub cards : List BoardCard

pub record HiddenColumn : Type 0 where
  pub status_id : String
  pub name : String

pub record Board : Type 0 where
  pub id : String
  pub space_id : String
  pub name : String
  pub closed_days : ℕ
  pub columns : List BoardColumn
  pub hidden_columns : List HiddenColumn

pub record WorkflowStatus : Type 0 where
  pub id : String
  pub key : String
  pub name : String
  pub color : Option String
  pub ord : ℕ
  pub is_default : Bool
  pub is_closed : Bool
  pub is_agent_claimable : Bool
  pub requires_resolution : Bool
