-- ===== src/Domain.antt =====
-- The enums of prisma/schema.prisma that the modelled services read, with their equality and the
-- text under which a template literal prints them.
pub mod Roles
use nti_backend.Prelude.{ℕ, String, ◌≡◌, refl, ◌↔◌, Bool, true, arith, nat_beq, HasEqual}

pub data UserRole : Type 0 where
  student admin company_owner company_employee mentor evaluator content_editor super_admin :
      UserRole

pub data UserStatus : Type 0 where
  active pending suspended : UserStatus

pub data UploadStatus : Type 0 where
  pending uploaded failed : UploadStatus

pub data ProgramType : Type 0 where
  program_a program_b : ProgramType

pub data CallStatus : Type 0 where
  draft open_call closed archived : CallStatus

pub data ApplicationStatus : Type 0 where
  draft submitted formally_verified evaluating needs_info approved rejected onboarding
        active_project paused completed archived :
      ApplicationStatus

pub data DocumentType : Type 0 where
  executive_summary technical_architecture roadmap budget risk_analysis monetization_model cv
        motivation_letter solution_proposal other :
      DocumentType

pub data ApplicationDocumentScope : Type 0 where
  application team_member : ApplicationDocumentScope

pub data NeedsInfoItemStatus : Type 0 where
  open_item answered resolved : NeedsInfoItemStatus

pub data InvitationStatus : Type 0 where
  pending accepted expired revoked : InvitationStatus

abbrev pub user_role_rank : UserRole → ℕ
user_role_rank UserRole.student = 0
user_role_rank UserRole.admin = 1
user_role_rank UserRole.company_owner = 2
user_role_rank UserRole.company_employee = 3
user_role_rank UserRole.mentor = 4
user_role_rank UserRole.evaluator = 5
user_role_rank UserRole.content_editor = 6
user_role_rank UserRole.super_admin = 7

pub user_role_beq_iff :
    (a b : UserRole) → (nat_beq (user_role_rank a) (user_role_rank b) ≡ true) ↔ (a ≡ b)
user_role_beq_iff a b = ground arith

instance abbrev pub user_role_eq : HasEqual UserRole
user_role_eq = record {
  equal = λ a b. nat_beq (user_role_rank a) (user_role_rank b);
  equal_iff = user_role_beq_iff;
}

abbrev pub user_status_rank : UserStatus → ℕ
user_status_rank UserStatus.active = 0
user_status_rank UserStatus.pending = 1
user_status_rank UserStatus.suspended = 2

pub user_status_beq_iff :
    (a b : UserStatus) → (nat_beq (user_status_rank a) (user_status_rank b) ≡ true) ↔ (a ≡ b)
user_status_beq_iff a b = ground arith

instance abbrev pub user_status_eq : HasEqual UserStatus
user_status_eq = record {
  equal = λ a b. nat_beq (user_status_rank a) (user_status_rank b);
  equal_iff = user_status_beq_iff;
}

abbrev pub upload_status_rank : UploadStatus → ℕ
upload_status_rank UploadStatus.pending = 0
upload_status_rank UploadStatus.uploaded = 1
upload_status_rank UploadStatus.failed = 2

pub upload_status_beq_iff :
    (a b : UploadStatus) → (nat_beq (upload_status_rank a) (upload_status_rank b) ≡ true) ↔ (a ≡ b)
upload_status_beq_iff a b = ground arith

instance abbrev pub upload_status_eq : HasEqual UploadStatus
upload_status_eq = record {
  equal = λ a b. nat_beq (upload_status_rank a) (upload_status_rank b);
  equal_iff = upload_status_beq_iff;
}

abbrev pub program_type_rank : ProgramType → ℕ
program_type_rank ProgramType.program_a = 0
program_type_rank ProgramType.program_b = 1

pub program_type_beq_iff :
    (a b : ProgramType) → (nat_beq (program_type_rank a) (program_type_rank b) ≡ true) ↔ (a ≡ b)
program_type_beq_iff a b = ground arith

instance abbrev pub program_type_eq : HasEqual ProgramType
program_type_eq = record {
  equal = λ a b. nat_beq (program_type_rank a) (program_type_rank b);
  equal_iff = program_type_beq_iff;
}

abbrev pub call_status_rank : CallStatus → ℕ
call_status_rank CallStatus.draft = 0
call_status_rank CallStatus.open_call = 1
call_status_rank CallStatus.closed = 2
call_status_rank CallStatus.archived = 3

pub call_status_beq_iff :
    (a b : CallStatus) → (nat_beq (call_status_rank a) (call_status_rank b) ≡ true) ↔ (a ≡ b)
call_status_beq_iff a b = ground arith

instance abbrev pub call_status_eq : HasEqual CallStatus
call_status_eq = record {
  equal = λ a b. nat_beq (call_status_rank a) (call_status_rank b);
  equal_iff = call_status_beq_iff;
}

abbrev pub application_status_rank : ApplicationStatus → ℕ
application_status_rank ApplicationStatus.draft = 0
application_status_rank ApplicationStatus.submitted = 1
application_status_rank ApplicationStatus.formally_verified = 2
application_status_rank ApplicationStatus.evaluating = 3
application_status_rank ApplicationStatus.needs_info = 4
application_status_rank ApplicationStatus.approved = 5
application_status_rank ApplicationStatus.rejected = 6
application_status_rank ApplicationStatus.onboarding = 7
application_status_rank ApplicationStatus.active_project = 8
application_status_rank ApplicationStatus.paused = 9
application_status_rank ApplicationStatus.completed = 10
application_status_rank ApplicationStatus.archived = 11

pub application_status_beq_iff :
    (a b : ApplicationStatus)
    → (nat_beq (application_status_rank a) (application_status_rank b) ≡ true) ↔ (a ≡ b)
application_status_beq_iff a b = ground arith

instance abbrev pub application_status_eq : HasEqual ApplicationStatus
application_status_eq = record {
  equal = λ a b. nat_beq (application_status_rank a) (application_status_rank b);
  equal_iff = application_status_beq_iff;
}

abbrev pub document_type_rank : DocumentType → ℕ
document_type_rank DocumentType.executive_summary = 0
document_type_rank DocumentType.technical_architecture = 1
document_type_rank DocumentType.roadmap = 2
document_type_rank DocumentType.budget = 3
document_type_rank DocumentType.risk_analysis = 4
document_type_rank DocumentType.monetization_model = 5
document_type_rank DocumentType.cv = 6
document_type_rank DocumentType.motivation_letter = 7
document_type_rank DocumentType.solution_proposal = 8
document_type_rank DocumentType.other = 9

pub document_type_beq_iff :
    (a b : DocumentType) → (nat_beq (document_type_rank a) (document_type_rank b) ≡ true) ↔ (a ≡ b)
document_type_beq_iff a b = ground arith

instance abbrev pub document_type_eq : HasEqual DocumentType
document_type_eq = record {
  equal = λ a b. nat_beq (document_type_rank a) (document_type_rank b);
  equal_iff = document_type_beq_iff;
}

abbrev pub application_document_scope_rank : ApplicationDocumentScope → ℕ
application_document_scope_rank ApplicationDocumentScope.application = 0
application_document_scope_rank ApplicationDocumentScope.team_member = 1

pub application_document_scope_beq_iff :
    (a b : ApplicationDocumentScope)
    → (nat_beq (application_document_scope_rank a) (application_document_scope_rank b) ≡ true)
      ↔ (a ≡ b)
application_document_scope_beq_iff a b = ground arith

instance abbrev pub application_document_scope_eq : HasEqual ApplicationDocumentScope
application_document_scope_eq = record {
  equal = λ a b. nat_beq (application_document_scope_rank a) (application_document_scope_rank b);
  equal_iff = application_document_scope_beq_iff;
}

abbrev pub needs_info_item_status_rank : NeedsInfoItemStatus → ℕ
needs_info_item_status_rank NeedsInfoItemStatus.open_item = 0
needs_info_item_status_rank NeedsInfoItemStatus.answered = 1
needs_info_item_status_rank NeedsInfoItemStatus.resolved = 2

pub needs_info_item_status_beq_iff :
    (a b : NeedsInfoItemStatus)
    → (nat_beq (needs_info_item_status_rank a) (needs_info_item_status_rank b) ≡ true) ↔ (a ≡ b)
needs_info_item_status_beq_iff a b = ground arith

instance abbrev pub needs_info_item_status_eq : HasEqual NeedsInfoItemStatus
needs_info_item_status_eq = record {
  equal = λ a b. nat_beq (needs_info_item_status_rank a) (needs_info_item_status_rank b);
  equal_iff = needs_info_item_status_beq_iff;
}

abbrev pub invitation_status_rank : InvitationStatus → ℕ
invitation_status_rank InvitationStatus.pending = 0
invitation_status_rank InvitationStatus.accepted = 1
invitation_status_rank InvitationStatus.expired = 2
invitation_status_rank InvitationStatus.revoked = 3

pub invitation_status_beq_iff :
    (a b : InvitationStatus)
    → (nat_beq (invitation_status_rank a) (invitation_status_rank b) ≡ true) ↔ (a ≡ b)
invitation_status_beq_iff a b = ground arith

instance abbrev pub invitation_status_eq : HasEqual InvitationStatus
invitation_status_eq = record {
  equal = λ a b. nat_beq (invitation_status_rank a) (invitation_status_rank b);
  equal_iff = invitation_status_beq_iff;
}

-- `${status}`
pub status_text : ApplicationStatus → String
status_text ApplicationStatus.draft = "DRAFT"
status_text ApplicationStatus.submitted = "SUBMITTED"
status_text ApplicationStatus.formally_verified = "FORMALLY_VERIFIED"
status_text ApplicationStatus.evaluating = "EVALUATING"
status_text ApplicationStatus.needs_info = "NEEDS_INFO"
status_text ApplicationStatus.approved = "APPROVED"
status_text ApplicationStatus.rejected = "REJECTED"
status_text ApplicationStatus.onboarding = "ONBOARDING"
status_text ApplicationStatus.active_project = "ACTIVE_PROJECT"
status_text ApplicationStatus.paused = "PAUSED"
status_text ApplicationStatus.completed = "COMPLETED"
status_text ApplicationStatus.archived = "ARCHIVED"

pub call_status_text : CallStatus → String
call_status_text CallStatus.draft = "DRAFT"
call_status_text CallStatus.open_call = "OPEN"
call_status_text CallStatus.closed = "CLOSED"
call_status_text CallStatus.archived = "ARCHIVED"
