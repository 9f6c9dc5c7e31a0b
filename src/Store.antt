-- ===== src/Store.antt =====
-- The tables of prisma/schema.prisma that the modelled services read and write. An id stands for a
-- UUID and a date for its milliseconds. A row that is created takes the next unused id.
pub mod Tables
pub mod Keyed
pub mod Apart
pub mod Transactions
use nti_backend.Prelude.{ℕ, String, Bool, Option, List}
use nti_backend.Domain.{
  UserRole, UserStatus, UploadStatus, ProgramType, CallStatus, ApplicationStatus, DocumentType,
  ApplicationDocumentScope, NeedsInfoItemStatus, InvitationStatus,
}

-- What `user.studentProfile` holds. The average is in hundredths.
pub record StudentProfile : Type 0 where
  pub academic_declaration_accepted_at : Option ℕ
  pub academic_evidence_file_id : Option ℕ
  pub has_transferred_subjects : Bool
  pub transferred_subjects_count : Option ℕ
  pub profile_subjects_average : Option ℕ

pub record User : Type 0 where
  pub id : ℕ
  pub email : String
  pub student_profile : Option StudentProfile

pub record Team : Type 0 where
  pub id : ℕ
  pub name : String
  pub leader_id : ℕ
  pub locked_at : Option ℕ
  pub archived_at : Option ℕ

pub record TeamMember : Type 0 where
  pub team_id : ℕ
  pub user_id : ℕ

pub record Invitation : Type 0 where
  pub id : ℕ
  pub email : String
  pub token : String
  pub status : InvitationStatus
  pub team_id : ℕ
  pub expires_at : ℕ
  pub revoked_at : Option ℕ

-- `required_document_types` holds the types of the call's rows with `isRequired`.
pub record Call : Type 0 where
  pub id : ℕ
  pub type : ProgramType
  pub title : String
  pub status : CallStatus
  pub opens_at : Option ℕ
  pub closes_at : Option ℕ
  pub required_document_types : List DocumentType

pub record Application : Type 0 where
  pub id : ℕ
  pub call_id : ℕ
  pub team_id : ℕ
  pub created_by_id : ℕ
  pub mentor_user_id : Option ℕ
  pub status : ApplicationStatus
  pub submitted_at : Option ℕ
  pub decided_at : Option ℕ
  pub decision_by_id : Option ℕ
  pub decision_rationale : Option String
  pub grant_budget : Option ℕ

pub record ApplicationSection : Type 0 where
  pub application_id : ℕ
  pub key : String
  pub active_version : Option ℕ

pub record UploadedFile : Type 0 where
  pub id : ℕ
  pub owner_id : ℕ
  pub status : UploadStatus

pub record ApplicationDocument : Type 0 where
  pub id : ℕ
  pub application_id : ℕ
  pub uploaded_file_id : ℕ
  pub document_type : DocumentType
  pub document_scope : ApplicationDocumentScope
  pub member_user_id : Option ℕ
  pub version : ℕ
  pub is_active : Bool
  pub created_by_id : ℕ

-- A score keeps its criterion; the points and the comments decide nothing.
pub record ApplicationEvaluation : Type 0 where
  pub application_id : ℕ
  pub evaluator_id : ℕ
  pub criterion_codes : List String

pub record NeedsInfoItem : Type 0 where
  pub id : ℕ
  pub application_id : ℕ
  pub message : String
  pub due_at : Option ℕ
  pub created_by_id : ℕ
  pub status : NeedsInfoItemStatus
  pub resolved_by_id : Option ℕ
  pub resolved_at : Option ℕ

pub record NeedsInfoReply : Type 0 where
  pub id : ℕ
  pub needs_info_item_id : ℕ
  pub message : String
  pub created_by_id : ℕ

pub record ApplicationStatusEvent : Type 0 where
  pub application_id : ℕ
  pub from_status : ApplicationStatus
  pub to_status : ApplicationStatus
  pub changed_by_id : ℕ
  pub reason : Option String
  pub needs_info_item_id : Option ℕ

pub record EligibilityRuleConfig : Type 0 where
  pub call_id : ℕ
  pub code : String
  pub enabled : Bool
  pub threshold : Option String

pub record EligibilitySignal : Type 0 where
  pub application_id : ℕ
  pub code : String
  pub passed : Bool
  pub reason : Option String

pub record Db : Type 0 where
  pub users : List User
  pub teams : List Team
  pub team_members : List TeamMember
  pub invitations : List Invitation
  pub calls : List Call
  pub applications : List Application
  pub sections : List ApplicationSection
  pub files : List UploadedFile
  pub documents : List ApplicationDocument
  pub evaluations : List ApplicationEvaluation
  pub needs_info_items : List NeedsInfoItem
  pub needs_info_replies : List NeedsInfoReply
  pub status_events : List ApplicationStatusEvent
  pub rule_configs : List EligibilityRuleConfig
  pub signals : List EligibilitySignal
  pub next_id : ℕ
