-- ===== src/Applications/Transitions.antt =====
-- The status changes of src/applications/applications.service.ts that go through
-- `transitionLifecycle` and `transitionReviewState`, and what every status change does: a
-- conditional update, a status event, and a fresh read.
use Prim.Native.String
use nti_backend.Prelude.{
  ℕ, String, Bool, true, not, ◌&&◌, Option, none, some, List, [], ◌∷◌, ◌++◌, ◌==◌, if◌then◌else◌,
  nat_eq, string_eq, includes, Result, ok, err, bad_request, not_found, conflict, forbidden, trim,
}
use nti_backend.Domain.{ApplicationStatus, application_status_eq, status_text}
use nti_backend.Domain.Roles.{AuthenticatedUserContext}
use nti_backend.Store.{Db, ApplicationStatusEvent}
use nti_backend.Store.Transactions.{
  Tx, ◌>>=◌, ◌>>◌, gets, modify, check, require, require_some, read_committed,
}
use nti_backend.Applications.Repository.{
  WorkflowView, find_by_id_for_workflow, update_status_if_current,
}
use nti_backend.Applications.Access.{is_reviewer_side_user, ensure_program_a_application_lifecycle}
use nti_backend.Applications.Mail.{
  Email, Response, Notification, send_program_a_application_email, enqueue,
}

unfoldable pub load_workflow_application_or_throw : ℕ → Tx WorkflowView
load_workflow_application_or_throw id = do
  found ← gets (find_by_id_for_workflow id)
  require_some found (not_found "Application not found")

-- `needsInfoRepository.createStatusEvent`
unfoldable pub create_status_event : ApplicationStatusEvent → Tx (Unit {0})
create_status_event event = modify (λ d. record d { status_events = d.status_events ++ event ∷ [] })

-- The row of a status change.
abbrev pub status_event :
    ℕ
    → ApplicationStatus
    → ApplicationStatus
    → ℕ
    → Option String
    → Option ℕ
    → ApplicationStatusEvent
status_event id from to user_id reason item = record {
  application_id = id;
  from_status = from;
  to_status = to;
  changed_by_id = user_id;
  reason = reason;
  needs_info_item_id = item;
}

-- `if (updated.count !== 1) throw …; await createStatusEvent(…)`
unfoldable pub record_change : Tx ℕ → String → ApplicationStatusEvent → Tx (Unit {0})
unfolding create_status_event
record_change update message event = do
  count ← update
  require (count == 1) (conflict message)
  create_status_event event

abbrev pub changed_concurrently : String
changed_concurrently = "Application status was changed concurrently. Please retry."

pub record Transition : Type 0 where
  pub from : List ApplicationStatus
  pub to : ApplicationStatus
  pub reason_required : Bool
  pub sets_decided_at : Bool
  pub notification : Option Notification

-- `reason?.trim()`
abbrev pub normalize_reason : Option String → Option String
normalize_reason none = none
normalize_reason (some r) = some (trim r)

-- `!normalizedReason`
abbrev pub is_blank : Option String → Bool
is_blank none = true
is_blank (some r) = r == ""

-- The reads of both transactions.
unfoldable pub load_for_transition : Transition → ℕ → Tx WorkflowView
load_for_transition t id = do
  v ← load_workflow_application_or_throw id
  check (ensure_program_a_application_lifecycle v)
  require (includes t.from v.status) (
      conflict (
        String.◌++◌ "Invalid application lifecycle transition from "
          (String.◌++◌ (status_text v.status) (String.◌++◌ " to " (status_text t.to)))))
  λ db. ok (v, db)

-- `transition.setDecidedAt ? { decidedAt: new Date() } : undefined`
abbrev pub decided_at_of : Transition → ℕ → Option ℕ
decided_at_of t now = if t.sets_decided_at then some now else none

-- The writes of both transactions.
unfoldable pub write_transition :
    Transition → ℕ → Option String → ℕ → WorkflowView → Tx WorkflowView
write_transition t user_id reason now v = do
  record_change (update_status_if_current v.application.id v.status t.to (decided_at_of t now))
      changed_concurrently (status_event v.application.id v.status t.to user_id reason none)
  load_workflow_application_or_throw v.application.id

-- Both services check the role and the reason before the transaction.
unfoldable pub run_transition :
    String
    → Transition
    → ℕ
    → AuthenticatedUserContext
    → Option String
    → ℕ
    → (Db → Db)
    → Db
    → Result WorkflowView × Db
run_transition role_message t id user reason now between db =
    if not (is_reviewer_side_user user)
    then (err (forbidden role_message), db)
    else if t.reason_required && is_blank (normalize_reason reason)
    then (err (bad_request "Reason is required for this transition"), db)
    else read_committed between (load_for_transition t id)
        (write_transition t user.id (normalize_reason reason) now) db

unfoldable pub transition_lifecycle :
    Transition
    → ℕ
    → AuthenticatedUserContext
    → Option String
    → (Db → Db)
    → Db
    → Response WorkflowView
transition_lifecycle t id user reason between db =
    enqueue (λ _. true) (λ _. []) (λ v. v)
      (run_transition "Only reviewer-side users can manage Program A application lifecycle" t id
        user reason 0 between db)

-- `sendProgramAApplicationEmail(updated, transition.notificationJob, normalizedReason)`
abbrev pub notify : Transition → Option String → WorkflowView → List Email
notify t reason v = elim t.notification [
  | none ↦ []
  | some n ↦ send_program_a_application_email n (normalize_reason reason) v
]

unfoldable pub transition_review_state :
    (Email → Bool)
    → Transition
    → ℕ
    → AuthenticatedUserContext
    → Option String
    → ℕ
    → (Db → Db)
    → Db
    → Response WorkflowView
transition_review_state accepts t id user reason now between db =
    enqueue accepts (notify t reason) (λ v. v)
      (run_transition "Only reviewer-side users can manage Program A review transitions" t id user
        reason now between db)
