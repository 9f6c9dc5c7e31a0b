-- ===== src/Applications/Decision.antt =====
-- Evaluations and the final decision: `createEvaluation`, `listEvaluations` and `createDecision` of
-- src/applications/applications.service.ts, with the evaluations repository. The upsert finds its
-- row by the unique index, so the P2002 that `createEvaluation` translates does not arise here.
use nti_backend.Prelude.{
  ℕ, String, Bool, not, ◌&&◌, none, some, List, [], ◌∷◌, ◌++◌, ◌==◌, if◌then◌else◌, nat_eq,
  string_eq, filter, any, is_some, Result, ok, err, bad_request, conflict, forbidden, trim,
}
use nti_backend.Domain.{ApplicationStatus, ProgramType, program_type_eq}
use nti_backend.Domain.Roles.{AuthenticatedUserContext}
use nti_backend.Store.{Db, ApplicationEvaluation}
use nti_backend.Store.Tables.{update_where}
use nti_backend.Store.Transactions.{
  Tx, ◌>>=◌, ◌>>◌, pure, gets, modify, check, require, commit, read_committed, serializable,
}
use nti_backend.Applications.Repository.{WorkflowView, update_decision_if_current}
use nti_backend.Applications.Access.{
  is_reviewer_side_user, ensure_program_a_application_lifecycle,
  ensure_application_can_be_evaluated, validate_evaluation_scores, ensure_evaluation_completeness,
}
use nti_backend.Applications.Mail.{
  Email, Response, Notification, send_program_a_application_email, enqueue,
}
use nti_backend.Applications.Transitions.{
  load_workflow_application_or_throw, record_change, status_event,
}

-- `listByApplication`
abbrev pub list_by_application : ℕ → Db → List ApplicationEvaluation
list_by_application id db = filter (λ e. e.application_id == id) db.evaluations

abbrev pub evaluation_of : ℕ → ℕ → ApplicationEvaluation → Bool
evaluation_of id evaluator_id e = e.application_id == id && e.evaluator_id == evaluator_id

-- `upsert`: an evaluator's second evaluation replaces the scores of the first.
unfoldable pub upsert_evaluation :
    ApplicationEvaluation → List ApplicationEvaluation → List ApplicationEvaluation
upsert_evaluation row rows =
    if any (evaluation_of row.application_id row.evaluator_id) rows
    then update_where (evaluation_of row.application_id row.evaluator_id)
        (λ e. record e { criterion_codes = row.criterion_codes }) rows
    else rows ++ row ∷ []

unfoldable pub load_for_evaluation : ℕ → List String → Tx WorkflowView
load_for_evaluation id scores = do
  v ← load_workflow_application_or_throw id
  check (ensure_program_a_application_lifecycle v)
  check (ensure_application_can_be_evaluated v.status)
  check (validate_evaluation_scores scores)
  λ db. ok (v, db)

unfoldable pub write_evaluation : ℕ → List String → WorkflowView → Tx ApplicationEvaluation
write_evaluation user_id scores v = do
  let row : ApplicationEvaluation = record {
    application_id = v.application.id;
    evaluator_id = user_id;
    criterion_codes = scores;
  }
  modify (λ d. record d { evaluations = upsert_evaluation row d.evaluations })
  pure row

-- The criterion codes of `dto.scores` are what the checks read.
unfoldable pub create_evaluation :
    ℕ → AuthenticatedUserContext → List String → (Db → Db) → Db → Result ApplicationEvaluation × Db
create_evaluation id user scores between db =
    if is_reviewer_side_user user
    then read_committed between (load_for_evaluation id scores) (write_evaluation user.id scores) db
    else (err (forbidden "Only reviewer-side users can create application evaluations"), db)

pub read_evaluations : ℕ → Tx (List ApplicationEvaluation)
read_evaluations id = do
  v ← load_workflow_application_or_throw id
  check (ensure_program_a_application_lifecycle v)
  gets (list_by_application v.application.id)

unfoldable pub list_evaluations :
    ℕ → AuthenticatedUserContext → Db → Result (List ApplicationEvaluation) × Db
list_evaluations id user db =
    if is_reviewer_side_user user
    then commit (read_evaluations id db) db
    else (err (forbidden "Only reviewer-side users can view application evaluations"), db)

pub data ApplicationDecision : Type 0 where
  approved rejected : ApplicationDecision

abbrev pub target_status : ApplicationDecision → ApplicationStatus
target_status ApplicationDecision.approved = ApplicationStatus.approved
target_status ApplicationDecision.rejected = ApplicationStatus.rejected

abbrev notification_of : ApplicationDecision → Notification
notification_of ApplicationDecision.approved = Notification.approved
notification_of ApplicationDecision.rejected = Notification.rejected

-- The reads and checks of the transaction.
unfoldable pub load_for_decision : ℕ → Tx WorkflowView
load_for_decision id = do
  v ← load_workflow_application_or_throw id
  check (ensure_program_a_application_lifecycle v)
  require (not (is_some v.decided_at)) (conflict "Application is already decided")
  check (ensure_application_can_be_evaluated v.status)
  evaluations ← gets (list_by_application v.application.id)
  check (ensure_evaluation_completeness evaluations)
  λ db. ok (v, db)

unfoldable pub write_decision : ApplicationStatus → ℕ → String → ℕ → WorkflowView → Tx WorkflowView
write_decision target user_id rationale now v = do
  record_change (update_decision_if_current v.application.id v.status target user_id rationale now)
      "Application decision was changed concurrently. Please retry."
      (status_event v.application.id v.status target user_id (some rationale) none)
  load_workflow_application_or_throw v.application.id

unfoldable pub decide :
    ℕ → AuthenticatedUserContext → ApplicationDecision → String → ℕ → Tx WorkflowView
decide id user decision rationale now = do
  v ← load_for_decision id
  write_decision (target_status decision) user.id rationale now v

unfoldable pub create_decision_tx :
    ℕ → AuthenticatedUserContext → ApplicationDecision → String → ℕ → Db → Result WorkflowView × Db
create_decision_tx id user decision rationale now db =
    if not (is_reviewer_side_user user)
    then (err (forbidden "Only reviewer-side users can make application decisions"), db)
    else if trim rationale == ""
    then (err (bad_request "Decision rationale is required"), db)
    else serializable (decide id user decision (trim rationale) now) db

-- The e-mail goes out without a reason, whatever the rationale is.
abbrev pub decision_mail : ApplicationDecision → WorkflowView → List Email
decision_mail decision v =
    if v.call.type == ProgramType.program_a
    then send_program_a_application_email (notification_of decision) none v
    else []

unfoldable pub create_decision :
    (Email → Bool)
    → ℕ
    → AuthenticatedUserContext
    → ApplicationDecision
    → String
    → ℕ
    → Db
    → Response WorkflowView
create_decision accepts id user decision rationale now db =
    enqueue accepts (decision_mail decision) (λ v. v)
      (create_decision_tx id user decision rationale now db)
