-- ===== src/Applications/Draft.antt =====
-- `createDraft` and `submit` of src/applications/applications.service.ts. Neither asks for an
-- isolation level: both run at READ COMMITTED.
use nti_backend.Prelude.{
  ℕ, Bool, not, none, List, [], ◌==◌, if◌then◌else◌, nat_eq, is_some, Result, ok, conflict,
}
use nti_backend.Domain.{ApplicationStatus, ProgramType, program_type_eq}
use nti_backend.Domain.Roles.{AuthenticatedUserContext}
use nti_backend.Store.{Db, Application}
use nti_backend.Store.Transactions.{Tx, ◌>>=◌, ◌>>◌, pure, gets, check, require, read_committed}
use nti_backend.Applications.Repository.{
  WorkflowView, find_active_by_team_and_call, create_draft, submit_draft, lock_team,
}
use nti_backend.Applications.Rules.{validate_application_creation_rules}
use nti_backend.Applications.Access.{
  ensure_application_managed_by_team_lead, ensure_application_is_draft,
  ensure_application_can_be_submitted, ensure_required_program_a_sections_complete,
}
use nti_backend.Applications.Documents.{build_document_completeness, on_unique_violation}
use nti_backend.Applications.Signals.{Numbers, recompute_for_application}
use nti_backend.Applications.Mail.{
  Email, Response, Notification, send_program_a_application_email, enqueue,
}
use nti_backend.Applications.Transitions.{
  load_workflow_application_or_throw, create_status_event, status_event,
}

unfoldable pub load_for_create : ℕ → ℕ → ℕ → ℕ → Tx (Unit {0})
load_for_create call_id team_id user_id now = do
  validate_application_creation_rules call_id team_id user_id now
  existing ← gets (find_active_by_team_and_call team_id call_id)
  require (not (is_some existing))
      (conflict "An active application for this team and call already exists")

-- `createDraft`
unfoldable pub create_application :
    ℕ → ℕ → AuthenticatedUserContext → ℕ → (Db → Db) → Db → Result Application × Db
create_application call_id team_id user now between db =
    let (r, db') =
      read_committed between (load_for_create call_id team_id user.id now)
        (λ _. create_draft call_id team_id user.id) db in
    (on_unique_violation "An active application for this team and call already exists" r, db')

-- What a Program A application must have before it is submitted.
unfoldable pub ensure_program_a_complete : WorkflowView → Tx (Unit {0})
ensure_program_a_complete v =
    if v.call.type == ProgramType.program_a
    then (do
      check (ensure_required_program_a_sections_complete v)
      require (build_document_completeness v).is_complete
          (conflict "Application is missing required documents"))
    else pure tt

unfoldable pub load_for_submit : ℕ → ℕ → ℕ → Tx WorkflowView
load_for_submit id user_id now = do
  v ← load_workflow_application_or_throw id
  check (ensure_application_managed_by_team_lead v user_id)
  check (ensure_application_is_draft v)
  check (ensure_application_can_be_submitted v now)
  ensure_program_a_complete v
  λ db. ok (v, db)

-- `if (application.team.lockedAt === null) await teamRepository.update(…)`
unfoldable pub lock_if_unlocked : WorkflowView → ℕ → Tx (Unit {0})
lock_if_unlocked v now = if is_some v.team.locked_at then pure tt else lock_team v.team.id now

unfoldable pub write_submit : Numbers → ℕ → ℕ → WorkflowView → Tx WorkflowView
write_submit n user_id now v = do
  submit_draft v.application.id now
  create_status_event (
      status_event v.application.id ApplicationStatus.draft ApplicationStatus.submitted user_id none
        none)
  recompute_for_application n v.application.id
  lock_if_unlocked v now
  load_workflow_application_or_throw v.application.id

-- `checked_at` and `now` are the two calls of `new Date()`.
unfoldable pub submit_tx :
    Numbers → ℕ → AuthenticatedUserContext → ℕ → ℕ → (Db → Db) → Db → Result WorkflowView × Db
submit_tx n id user checked_at now between =
    read_committed between (load_for_submit id user.id checked_at) (write_submit n user.id now)

abbrev pub submit_mail : WorkflowView → List Email
submit_mail v =
    if v.call.type == ProgramType.program_a
    then send_program_a_application_email Notification.submitted none v
    else []

unfoldable pub submit :
    Numbers
    → (Email → Bool)
    → ℕ
    → AuthenticatedUserContext
    → ℕ
    → ℕ
    → (Db → Db)
    → Db
    → Response WorkflowView
submit n accepts id user checked_at now between db =
    enqueue accepts submit_mail (λ v. v) (submit_tx n id user checked_at now between db)
