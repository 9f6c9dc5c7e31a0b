-- ===== src/Applications/Tests/World.antt =====
-- A call of Program A, a team of a leader and a member, and the users who act on its application.
use nti_backend.Prelude.{ℕ, String, Bool, true, Option, none, some, List, [], ◌∷◌, ltb}
use nti_backend.Domain.{
  UserRole, UserStatus, UploadStatus, ProgramType, CallStatus, ApplicationStatus, DocumentType,
  ApplicationDocumentScope, NeedsInfoItemStatus,
}
use nti_backend.Domain.Roles.{AuthenticatedUserContext}
use nti_backend.Store.{
  User, Team, Call, Application, ApplicationSection, ApplicationDocument, ApplicationEvaluation,
  NeedsInfoItem, ApplicationStatusEvent, Db,
}
use nti_backend.Applications.Repository.{WorkflowView}
use nti_backend.Applications.Mail.{Email}
use nti_backend.Applications.Signals.{Numbers}
use nti_backend.Applications.Transitions.{status_event}

abbrev context : ℕ → UserRole → AuthenticatedUserContext
context id role = record {
  id = id;
  role = role;
  status = UserStatus.active;
  organization_id = none;
}

abbrev pub leader : AuthenticatedUserContext
leader = context 1 UserRole.student

abbrev pub evaluator : AuthenticatedUserContext
evaluator = context 3 UserRole.evaluator

abbrev pub user_of : ℕ → String → User
user_of id email = record { id = id; email = email; student_profile = none }

abbrev pub team : Team
team = record { id = 5; name = "Team"; leader_id = 1; locked_at = none; archived_at = none }

abbrev pub call : Call
call = record {
  id = 4;
  type = ProgramType.program_a;
  title = "Call";
  status = CallStatus.open_call;
  opens_at = some 10;
  closes_at = some 90;
  required_document_types = DocumentType.cv ∷ [];
}

-- Application 7 with a status and its two dates.
abbrev pub row : ApplicationStatus → Option ℕ → Option ℕ → Application
row status submitted_at decided_at = record {
  id = 7;
  call_id = 4;
  team_id = 5;
  created_by_id = 1;
  mentor_user_id = none;
  status = status;
  submitted_at = submitted_at;
  decided_at = decided_at;
  decision_by_id = none;
  decision_rationale = none;
  grant_budget = none;
}

abbrev section : String → ApplicationSection
section key = record { application_id = 7; key = key; active_version = some 1 }

abbrev pub document : ℕ → ℕ → ApplicationDocument
document id member = record {
  id = id;
  application_id = 7;
  uploaded_file_id = 8;
  document_type = DocumentType.cv;
  document_scope = ApplicationDocumentScope.team_member;
  member_user_id = some member;
  version = 1;
  is_active = true;
  created_by_id = 1;
}

abbrev pub full_evaluation : ApplicationEvaluation
full_evaluation = record {
  application_id = 7;
  evaluator_id = 3;
  criterion_codes = "TECHNICAL_QUALITY" ∷ "BUSINESS_VALUE" ∷ "TEAM_CAPABILITY" ∷ [];
}

abbrev pub answered_item : NeedsInfoItem
answered_item = record {
  id = 9;
  application_id = 7;
  message = "Which stack?";
  due_at = none;
  created_by_id = 3;
  status = NeedsInfoItemStatus.answered;
  resolved_by_id = none;
  resolved_at = none;
}

abbrev pub event : ApplicationStatus → ApplicationStatus → ApplicationStatusEvent
event from to = status_event 7 from to 3 none none

abbrev pub world : List Application → List ApplicationStatusEvent → Db
world applications events = record {
  users = user_of 1 "leader@uni.sk" ∷ user_of 2 "member@uni.sk" ∷ [];
  teams = team ∷ [];
  team_members = record { team_id = 5; user_id = 1 } ∷ record { team_id = 5; user_id = 2 } ∷ [];
  invitations = [];
  calls = call ∷ [];
  applications = applications;
  sections =
      section "idea_overview"
      ∷ section "category_and_stack"
      ∷ section "team_setup"
      ∷ section "execution_plan"
      ∷ section "business_case"
      ∷ section "risks"
      ∷ [];
  files = record { id = 8; owner_id = 1; status = UploadStatus.uploaded } ∷ [];
  documents = document 11 1 ∷ document 12 2 ∷ [];
  evaluations = full_evaluation ∷ [];
  needs_info_items = answered_item ∷ [];
  needs_info_replies = [];
  status_events = events;
  rule_configs = [];
  signals = [];
  next_id = 20;
}

-- What `findByIdForWorkflow` selects of application 7.
abbrev pub view : Application → WorkflowView
view a = record {
  application = a;
  call = call;
  team = team;
  members =
      record { user_id = 1; user = some (user_of 1 "leader@uni.sk") }
      ∷ record { user_id = 2; user = some (user_of 2 "member@uni.sk") }
      ∷ [];
  documents = document 11 1 ∷ document 12 2 ∷ [];
  sections = (world [] []).sections;
}

-- Numbers of which no text is one.
abbrev pub numbers : Numbers
numbers = record {
  Num = ℕ;
  of_hundredths = λ n. n;
  parse = λ _. none;
  below = ltb;
  print = λ _. "";
}

-- No other request commits meanwhile, and the queue takes every job.
abbrev pub alone : Db → Db
alone db = db

abbrev pub takes_all : Email → Bool
takes_all _ = true
