-- ===== src/Api/Results.antt =====
-- The interfaces of web/src/lib/api.ts for what the server answers to lookups: references that are resolved,
-- a page of requirements, and the lists of work. The field `kind`, a constant of each interface, is left out.
use quagenticus.Base.{ℕ, String, Bool, Option, List, Dict}
use quagenticus.Api.Documents.{DocType, Json, RequirementSummary}

pub record LoginResponse : Type 0 where
  pub access_token : String
  pub token_type : String
  pub expires_in : ℕ

pub record RequirementPage : Type 0 where
  pub total : ℕ
  pub items : List RequirementSummary

pub record ResolvedRequirement : Type 0 where
  pub id : String
  pub ref_key : String
  pub title : String
  pub space_id : String
  pub status_name : String
  pub status_color : Option String
  pub is_closed : Bool

pub record ResolvedDocument : Type 0 where
  pub id : String
  pub title : String
  pub doc_type : DocType
  pub space_id : String
  pub ref_key : Option String

pub record ResolvedUser : Type 0 where
  pub id : String
  pub handle : String
  pub display_name : String
  pub avatar_url : Option String

pub record ResolvedRefs : Type 0 where
  pub requirements : Dict ResolvedRequirement
  pub documents : Dict ResolvedDocument
  pub users : Dict ResolvedUser

pub record WorkItem : Type 0 where
  pub summary : RequirementSummary
  pub open summary use *
  pub space_key : String
  pub space_name : String

pub record Mention : Type 0 where
  pub id : String
  pub document_id : String
  pub journal_id : Option String
  pub payload : Dict Json
  pub created_at : String
  pub read_at : Option String

pub record MyWork : Type 0 where
  pub assigned : List WorkItem
  pub overdue : List WorkItem
  pub due_soon : List WorkItem
  pub reported : List WorkItem
  pub watching : List WorkItem
  pub mentions : List Mention

pub record QueueItem : Type 0 where
  pub summary : RequirementSummary
  pub open summary use *
  pub status_is_agent_claimable : Bool
  pub is_claimed : Bool
  pub claim_expires_at : Option String
