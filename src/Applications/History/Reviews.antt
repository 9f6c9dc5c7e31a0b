-- ===== src/Applications/History/Reviews.antt =====
-- The reviewer-side status changes keep the state of the applications valid: the nine transitions,
-- under any valid commits of other transactions, and the final decision.
use nti_backend.Prelude.{
  ℕ, String, ◌≡◌, refl, true, ◌&&◌, Option, none, some, List, ◌==◌, string_eq, nat_eq, arith,
  includes, ok, trim, inl, inr, Bool-cases,
}
use nti_backend.Domain.{ApplicationStatus, application_status_eq}
use nti_backend.Domain.Roles.{AuthenticatedUserContext}
use nti_backend.Store.{Db, ApplicationStatusEvent}
use nti_backend.Store.Transactions.{>>=-eq-ok, read_committed_keeps, serializable_keeps}
use nti_backend.Applications.Repository.{
  WorkflowView, update_status_if_current, update_decision_if_current,
}
use nti_backend.Applications.Access.{
  is_reviewer_side_user, ensure_application_can_be_evaluated, evaluation_statuses,
}
use nti_backend.Applications.Transitions.{
  Transition, load_workflow_application_or_throw, record_change, load_for_transition,
  write_transition, run_transition, decided_at_of, status_event, changed_concurrently, is_blank,
  normalize_reason,
}
use nti_backend.Applications.Decision.{
  ApplicationDecision, target_status, load_for_decision, write_decision, decide, create_decision_tx,
}
use nti_backend.Applications.History.{IsValid, edge}
use nti_backend.Applications.History.Updates.{DatesAgree, status_change-IsValid, decision-IsValid}

-- A load writes nothing.
pub load_workflow-same :
    (id : ℕ) (db db' : Db) (v : WorkflowView)
    → load_workflow_application_or_throw id db ≡ ok (v, db')
    → db' ≡ db
unfolding load_workflow_application_or_throw
load_workflow-same id db db' v h = ground arith

-- Every status that a transition starts from has the edge, and the dates, of that transition.
abbrev pub IsLegal : Transition → ℕ → Type 0
IsLegal t now =
    (s : ApplicationStatus)
    → includes t.from s ≡ true
    → (edge s t.to ≡ true) × DatesAgree s t.to (decided_at_of t now)

load_for_transition-from :
    (t : Transition) (id : ℕ) (db db' : Db) (v : WorkflowView)
    → load_for_transition t id db ≡ ok (v, db')
    → includes t.from v.status ≡ true
unfolding load_for_transition
load_for_transition-from t id db db' v h = ground arith

write_transition-IsValid :
    {past : List ApplicationStatusEvent} (t : Transition) (user_id : ℕ) (reason : Option String)
    (now : ℕ) (v : WorkflowView) (db db' : Db) (w : WorkflowView)
    → edge v.status t.to ≡ true
    → DatesAgree v.status t.to (decided_at_of t now)
    → write_transition t user_id reason now v db ≡ ok (w, db')
    → IsValid past db
    → IsValid past db'
unfolding write_transition
write_transition-IsValid t user_id reason now v db db' w step agree h valid =
    let event = status_event v.application.id v.status t.to user_id reason none in
    let (u, db1, changed, loaded) =
      >>=-eq-ok
        (record_change
          (update_status_if_current v.application.id v.status t.to (decided_at_of t now))
          changed_concurrently event)
        (λ _. load_workflow_application_or_throw v.application.id) db h in
    rw (load_workflow-same v.application.id db1 db' w loaded) (
      status_change-IsValid v.application.id v.status t.to event refl refl refl step
        (decided_at_of t now) changed_concurrently db db1 u agree changed valid)

pub run_transition-IsValid :
    {past : List ApplicationStatusEvent} (message : String) (t : Transition) (id : ℕ)
    (user : AuthenticatedUserContext) (reason : Option String) (now : ℕ) (between : Db → Db)
    (db : Db)
    → IsLegal t now
    → (IsValid past db → IsValid past (between db))
    → IsValid past db
    → IsValid past (run_transition message t id user reason now between db).1
unfolding run_transition
run_transition-IsValid {past} message t id user reason now between db legal others valid =
    let kept =
      read_committed_keeps (IsValid past) between (load_for_transition t id)
        (write_transition t user.id (normalize_reason reason) now) db others
        (λ v db1 db' w e h.
          let (step, agree) = legal v.status (load_for_transition-from t id db db1 v e) in
          write_transition-IsValid t user.id (normalize_reason reason) now v (between db) db' w step
            agree h)
        valid in
    elim (Bool-cases (is_reviewer_side_user user)) [
      | inr outsider ↦ rw outsider valid
      | inl reviewer ↦ elim (Bool-cases (t.reason_required && is_blank (normalize_reason reason))) [
        | inl blank ↦ rw (reviewer, blank) valid
        | inr given ↦ rw (reviewer, given) kept
      ]
    ]

load_for_decision-evaluated :
    (id : ℕ) (db db' : Db) (v : WorkflowView)
    → load_for_decision id db ≡ ok (v, db')
    → (db' ≡ db) × (includes evaluation_statuses v.status ≡ true)
unfolding load_for_decision load_workflow_application_or_throw ensure_application_can_be_evaluated
load_for_decision-evaluated id db db' v h = ground arith

decision_edges :
    (s : ApplicationStatus) (d : ApplicationDecision) (now : ℕ)
    → includes evaluation_statuses s ≡ true
    → (edge s (target_status d) ≡ true) × DatesAgree s (target_status d) (some now)
decision_edges s d now h = ground arith

write_decision-IsValid :
    {past : List ApplicationStatusEvent} (d : ApplicationDecision) (user_id : ℕ)
    (rationale : String) (now : ℕ) (v : WorkflowView) (db db' : Db) (w : WorkflowView)
    → includes evaluation_statuses v.status ≡ true
    → write_decision (target_status d) user_id rationale now v db ≡ ok (w, db')
    → IsValid past db
    → IsValid past db'
unfolding write_decision
write_decision-IsValid d user_id rationale now v db db' w evaluated h valid =
    let target : ApplicationStatus = target_status d in
    let message : String = "Application decision was changed concurrently. Please retry." in
    let event = status_event v.application.id v.status target user_id (some rationale) none in
    let (step, agree) = decision_edges v.status d now evaluated in
    let (u, db1, changed, loaded) =
      >>=-eq-ok
        (record_change
          (update_decision_if_current v.application.id v.status target user_id rationale now)
          message event)
        (λ _. load_workflow_application_or_throw v.application.id) db h in
    rw (load_workflow-same v.application.id db1 db' w loaded) (
      decision-IsValid v.application.id v.status target event refl refl refl step user_id rationale
        now message db db1 u agree changed valid)

decide-IsValid :
    {past : List ApplicationStatusEvent} (id : ℕ) (user : AuthenticatedUserContext)
    (d : ApplicationDecision) (rationale : String) (now : ℕ) (db db' : Db) (w : WorkflowView)
    → decide id user d rationale now db ≡ ok (w, db')
    → IsValid past db
    → IsValid past db'
unfolding decide
decide-IsValid id user d rationale now db db' w h valid =
    let (v, db1, loaded, wrote) =
      >>=-eq-ok (load_for_decision id) (write_decision (target_status d) user.id rationale now) db
        h in
    let (same, evaluated) = load_for_decision-evaluated id db db1 v loaded in
    write_decision-IsValid d user.id rationale now v db1 db' w evaluated wrote (rw same valid)

pub create_decision-IsValid :
    {past : List ApplicationStatusEvent} (id : ℕ) (user : AuthenticatedUserContext)
    (d : ApplicationDecision) (rationale : String) (now : ℕ) (db : Db)
    → IsValid past db
    → IsValid past (create_decision_tx id user d rationale now db).1
unfolding create_decision_tx
create_decision-IsValid {past} id user d rationale now db valid =
    let kept =
      serializable_keeps (IsValid past) (decide id user d (trim rationale) now) db
        (λ db' w h. decide-IsValid id user d (trim rationale) now db db' w h) valid in
    elim (Bool-cases (is_reviewer_side_user user)) [
      | inr outsider ↦ rw outsider valid
      | inl reviewer ↦ elim (Bool-cases (trim rationale == "")) [
        | inl blank ↦ rw (reviewer, blank) valid
        | inr given ↦ rw (reviewer, given) kept
      ]
    ]
