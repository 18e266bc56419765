-- ===== src/Api/Activity.antt =====
-- The interfaces of web/src/lib/api.ts for the journal of a requirement, attachments, links, versions
-- and notifications. A `JournalDetail` has any further fields, and is a JSON value here.
use quagenticus.Base.{ℕ, String, Bool, Option, List}
use quagenticus.Api.Documents.{Json, DocType}

pub data JournalKind : Type 0 where
  comment change agent_event system : JournalKind

pub data JournalActor : Type 0 where
  user agent system : JournalActor

pub data AttachmentStatus : Type 0 where
  staged attached : AttachmentStatus

pub data Direction : Type 0 where
  outgoing incoming : Direction

pub record AttachmentRef : Type 0 where
  pub id : String
  pub filename : String
  pub content_type : String
  pub byte_size : ℕ
  pub created_at : String

pub record Journal : Type 0 where
  pub id : String
  pub requirement_id : String
  pub kind : JournalKind
  pub actor_type : JournalActor
  pub actor_id : Option String
  pub actor_name : String
  pub actor_handle : Option String
  pub actor_avatar_url : Option String
  pub notes_md : String
  pub details : List Json
  pub reply_to_id : Option String
  pub created_at : String
  pub edited_at : Option String
  pub deleted_at : Option String
  pub attachments : List AttachmentRef

pub record Attachment : Type 0 where
  pub attachment : AttachmentRef
  pub open attachment use *
  pub document_id : Option String
  pub journal_id : Option String
  pub space_id : String
  pub status : AttachmentStatus
  pub is_inline : Bool
  pub creator_id : Option String
  pub creator_name : Option String

pub record UploadedFile : Type 0 where
  pub id : String
  pub filename : String
  pub content_type : String
  pub byte_size : ℕ
  pub url : String

pub record DocumentLink : Type 0 where
  pub id : String
  pub source_id : String
  pub target_id : Option String
  pub direction : Direction
  pub link_type : String
  pub raw_link_type : String
  pub other_id : Option String
  pub target_title : String
  pub target_slug : Option String
  pub target_ref_key : Option String
  pub target_space_id : Option String
  pub target_type : String
  pub target_status_name : Option String
  pub target_status_color : Option String
  pub target_is_closed : Option Bool
  pub is_derived : Bool
  pub source_journal_id : Option String
  pub target_text : Option String
  pub note : String
  pub created_at : String

pub record DocumentVersion : Type 0 where
  pub id : String
  pub document_id : String
  pub version : ℕ
  pub title : String
  pub length : Option ℕ
  pub body_md : Option String
  pub change_summary : Option String
  pub actor_type : String
  pub actor_id : Option String
  pub actor_name : Option String
  pub created_at : String

pub record Notification : Type 0 where
  pub id : String
  pub document_id : Option String
  pub journal_id : Option String
  pub event_type : String
  pub actor_type : String
  pub actor_id : Option String
  pub actor_name : String
  pub actor_avatar_url : Option String
  pub payload : Json
  pub read_at : Option String
  pub created_at : String
  pub space_id : Option String
  pub ref_key : Option String
  pub title : Option String
  pub doc_type : Option DocType
