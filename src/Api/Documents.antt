-- ===== src/Api/Documents.antt =====
-- The interfaces of web/src/lib/api.ts for requirements, documents and their members. `unknown` is a
-- value of `Json`; an interface that extends another opens it as its first field.
use quagenticus.Base.{ℕ, String, Bool, Option, List}
use quagenticus.Api.Types.{Role, ActorType, LabelRef, CardMember}

mutual
  pub data Json : Type 0 where
    null : Json
    bool : Bool → Json
    num : ℕ → Json
    str : String → Json
    arr : Items → Json
    obj : Fields → Json

  pub data Items : Type 0 where
    nil : Items
    cons : Json → Items → Items

  pub data Fields : Type 0 where
    end : Fields
    field : String → Json → Fields → Fields

pub data DocType : Type 0 where
  folder note wiki requirement template : DocType

pub record Me : Type 0 where
  pub id : String
  pub account_id : String
  pub email : String
  pub handle : String
  pub display_name : String
  pub avatar_url : Option String
  pub locale : String
  pub timezone : String
  pub is_account_admin : Bool
  pub preferences : Json
  pub actor_type : ActorType

pub record RequirementMember : Type 0 where
  pub subject_type : ActorType
  pub subject_id : String
  pub is_lead : Bool
  pub added_at : String
  pub display_name : String
  pub email : String
  pub handle : Option String
  pub avatar_url : Option String

pub record ReadinessCriterion : Type 0 where
  pub key : String
  pub label : String
  pub passed : Bool

pub record RequirementSummary : Type 0 where
  pub id : String
  pub space_id : String
  pub ref_key : String
  pub title : String
  pub version : ℕ
  pub tracker_id : String
  pub tracker_key : String
  pub tracker_name : String
  pub tracker_icon : Option String
  pub status_id : String
  pub status_key : String
  pub status_name : String
  pub status_color : Option String
  pub status_is_closed : Bool
  pub priority_id : String
  pub priority_key : String
  pub priority_name : String
  pub priority_color : Option String
  pub priority_weight : ℕ
  pub category_id : Option String
  pub milestone_id : Option String
  pub parent_id : Option String
  pub reporter_id : String
  pub reporter_name : Option String
  pub lead_user_id : Option String
  pub board_position : ℕ
  pub readiness_score : Option ℕ
  pub done_ratio : ℕ
  pub estimated_hours : Option ℕ
  pub spent_hours : ℕ
  pub start_date : Option String
  pub due_date : Option String
  pub resolution : Option String
  pub closed_at : Option String
  pub claimed_by_agent_id : Option String
  pub claimed_by_agent_name : Option String
  pub member_count : ℕ
  pub created_at : String
  pub updated_at : String
  pub labels : List LabelRef
  pub members : List CardMember

pub record ReadinessReport : Type 0 where
  pub score : Option ℕ
  pub ready : Option Bool
  pub criteria : Option (List ReadinessCriterion)

pub record ParentRef : Type 0 where
  pub id : String
  pub ref_key : String
  pub title : String

pub record Requirement : Type 0 where
  pub summary : RequirementSummary
  pub open summary use *
  pub body_md : String
  pub readiness_report : Option ReadinessReport
  pub creator_agent_id : Option String
  pub is_watching : Bool
  pub my_role : Role
  pub parent : Option ParentRef

pub record DocumentSummary : Type 0 where
  pub id : String
  pub space_id : String
  pub parent_id : Option String
  pub doc_type : DocType
  pub ref_key : Option String
  pub slug : String
  pub title : String
  pub version : ℕ
  pub is_archived : Bool
  pub archived_at : Option String
  pub position : ℕ
  pub depth : ℕ
  pub word_count : ℕ
  pub created_at : String
  pub updated_at : String
  pub creator_id : Option String
  pub creator_name : Option String
  pub updater_id : Option String
  pub updater_name : Option String
  pub excerpt : Option String
  pub is_favorite : Bool
  pub children_count : Option ℕ
  pub labels : List LabelRef

pub record Section : Type 0 where
  pub ord : ℕ
  pub level : ℕ
  pub heading : String
  pub slug : String

pub record Breadcrumb : Type 0 where
  pub id : String
  pub title : String

pub record Document : Type 0 where
  pub summary : DocumentSummary
  pub open summary use *
  pub body_md : String
  pub front_matter : Json
  pub is_watching : Bool
  pub my_role : Role
  pub sections : List Section
  pub breadcrumbs : List Breadcrumb
