-- ===== src/Applications/Outcomes/Decisions.antt =====
-- The outcome of an evaluation and of the final decision.
use nti_backend.Prelude.{
  ℕ, String, ◌≡◌, refl, sym, ap, ◌∙◌, subst, Bool, true, false, not, ◌&&◌, Option, none, some, List,
  [], ◌∷◌, ◌==◌, nat_eq, string_eq, arith, includes, any, is_some, ok, inl, inr, Bool-cases, trim,
  All, map, if◌then◌else◌,
}
use nti_backend.Domain.{ApplicationStatus, application_status_eq, ProgramType, program_type_eq}
use nti_backend.Domain.Roles.{AuthenticatedUserContext}
use nti_backend.Store.{Db, Application, ApplicationStatusEvent}
use nti_backend.Store.Tables.{
  find_by_id-key, IsKeyed, count_where, update_where, find_of_count, find_by_id-update_where,
}
use nti_backend.Store.Transactions.{>>=-eq-ok}
use nti_backend.Applications.Repository.{
  WorkflowView, find_application, find_by_id_for_workflow, update_decision_if_current, set_decision,
}
use nti_backend.Applications.Repository.Views.{view_row, view_id}
use nti_backend.Applications.Access.{
  is_reviewer_side_user, is_complete_evaluation, evaluation_statuses,
  ensure_program_a_application_lifecycle, ensure_application_can_be_evaluated,
  ensure_evaluation_completeness,
}
use nti_backend.Applications.Transitions.{
  record_change, status_event, create_status_event, load_workflow_application_or_throw,
}
use nti_backend.Applications.Transitions.{notify}
use nti_backend.Applications.Lifecycle.{reject_transition}
use nti_backend.Applications.Mail.{
  EmailJob, Notification, job_of, email_to, send_program_a_application_email,
  get_application_recipient_emails,
}
use nti_backend.Applications.Decision.{
  ApplicationDecision, target_status, load_for_decision, write_decision, decide, create_decision_tx,
  decision_mail, list_by_application,
}
use nti_backend.Applications.History.Reviews.{load_workflow-same}
use nti_backend.Applications.Outcomes.Transactions.{serializable-ok}

load_for_decision_ok :
    (id : ℕ) (db db' : Db) (v : WorkflowView)
    → load_for_decision id db ≡ ok (v, db')
    → (db' ≡ db)
      × (find_by_id_for_workflow id db ≡ some v)
      × (v.decided_at ≡ none)
      × (includes evaluation_statuses v.status ≡ true)
      × (any is_complete_evaluation (list_by_application v.application.id db) ≡ true)
unfolding load_for_decision load_workflow_application_or_throw
    ensure_program_a_application_lifecycle ensure_application_can_be_evaluated
    ensure_evaluation_completeness
load_for_decision_ok id db db' v h = ground arith

record_decision_ok :
    (id : ℕ) (from to : ApplicationStatus) (user_id : ℕ) (rationale : String) (now : ℕ)
    (message : String) (e : ApplicationStatusEvent) (db db' : Db) (u : Unit {0})
    → record_change (update_decision_if_current id from to user_id rationale now) message e db
      ≡ ok (u, db')
    → (count_where
          (λ a. a.id == id && (a.status == from && not (is_some a.decided_at)))
          db.applications
        ≡ 1)
      × (db'.applications
          ≡ update_where
              (λ a. a.id == id && (a.status == from && not (is_some a.decided_at)))
              (set_decision to user_id rationale now)
              db.applications)
unfolding record_change update_decision_if_current create_status_event
record_decision_ok id from to user_id rationale now message e db db' u h = ground arith

decided_row :
    (id : ℕ) (from to : ApplicationStatus) (user_id : ℕ) (rationale : String) (now : ℕ)
    (message : String) (e : ApplicationStatusEvent) (db db' : Db) (u : Unit {0})
    → IsKeyed (λ a. a.id) db.applications
    → record_change (update_decision_if_current id from to user_id rationale now) message e db
      ≡ ok (u, db')
    → (a : Application) × (find_application id db ≡ some a)
      × (find_application id db' ≡ some (set_decision to user_id rationale now a))
unfolding find_application
decided_row id from to user_id rationale now message e db db' u keyed h =
    let (one, rows) = record_decision_ok id from to user_id rationale now message e db db' u h in
    let (a, found, met) =
      find_of_count (λ a. a.id) id (λ a. a.status == from && not (is_some a.decided_at))
        db.applications keyed one in
    let here : a.id ≡ id = find_by_id-key (λ a. a.id) id db.applications found in
    (
      a,
      found,
      rw
          (
            rows,
            find_by_id-update_where (λ a. a.id)
                (λ a. a.id == id && (a.status == from && not (is_some a.decided_at)))
                (set_decision to user_id rationale now) (λ a. refl) id db.applications,
            found,
          )
          (ground arith),
    )

write_decision_ok :
    (target : ApplicationStatus) (user_id : ℕ) (rationale : String) (now : ℕ) (v : WorkflowView)
    (db db' : Db) (w : WorkflowView)
    → IsKeyed (λ a. a.id) db.applications
    → write_decision target user_id rationale now v db ≡ ok (w, db')
    → (a : Application) × (find_application v.application.id db ≡ some a)
      × (find_application v.application.id db' ≡ some (set_decision target user_id rationale now a))
unfolding write_decision
write_decision_ok target user_id rationale now v db db' w keyed h =
    let message : String = "Application decision was changed concurrently. Please retry." in
    let event = status_event v.application.id v.status target user_id (some rationale) none in
    let update =
      update_decision_if_current v.application.id v.status target user_id rationale now in
    let (u, db1, changed, loaded) =
      >>=-eq-ok (record_change update message event)
        (λ _. load_workflow_application_or_throw v.application.id) db h in
    let (a, was, is) =
      decided_row v.application.id v.status target user_id rationale now message event db db1 u
        keyed changed in
    (a, was, rw (load_workflow-same v.application.id db1 db' w loaded) is)

decide_ok :
    (id : ℕ) (user : AuthenticatedUserContext) (d : ApplicationDecision) (rationale : String)
    (now : ℕ) (db db' : Db) (w : WorkflowView)
    → IsKeyed (λ a. a.id) db.applications
    → decide id user d rationale now db ≡ ok (w, db')
    → (a : Application) × (find_application id db ≡ some a)
      × (a.decided_at ≡ none)
      × (includes evaluation_statuses a.status ≡ true)
      × (any is_complete_evaluation (list_by_application id db) ≡ true)
      × (find_application id db' ≡ some (set_decision (target_status d) user.id rationale now a))
unfolding decide
decide_ok id user d rationale now db db' w keyed h =
    let (v, db1, loaded, wrote) =
      >>=-eq-ok (load_for_decision id) (write_decision (target_status d) user.id rationale now) db
        h in
    let (same, found, open_, evaluated, complete) = load_for_decision_ok id db db1 v loaded in
    let here = view_id id db v found in
    let (a, was, is) = write_decision_ok (target_status d) user.id rationale now v db db' w keyed (
      subst (λ d1. write_decision (target_status d) user.id rationale now v d1 ≡ ok (w, db')) same
        wrote) in
    let row : find_application id db ≡ some a =
      subst (λ k. find_application k db ≡ some a) here was in
    let shown : v.application ≡ a = ground (arith, view_row id db v found) in
    (
      a,
      row,
      ap (λ x. x.decided_at) (sym shown) ∙ open_,
      ap (λ x. includes evaluation_statuses x.status) (sym shown) ∙ evaluated,
      subst (λ k. any is_complete_evaluation (list_by_application k db) ≡ true) here complete,
      subst
          (λ k.
            find_application k db' ≡ some (set_decision (target_status d) user.id rationale now a))
          here is,
    )

-- Where no two applications have one id: a decision that succeeds was made by a reviewer-side user
-- with a rationale, on an application that was in FORMALLY_VERIFIED or EVALUATING, had no decision
-- yet, and had an evaluation with every required criterion. Its row then has the decided status,
-- the date, the decider and the trimmed rationale, and nothing else of it has changed.
pub create_decision_ok :
    (id : ℕ) (user : AuthenticatedUserContext) (d : ApplicationDecision) (rationale : String)
    (now : ℕ) (db : Db) {w : WorkflowView} {db' : Db}
    → IsKeyed (λ a. a.id) db.applications
    → create_decision_tx id user d rationale now db ≡ (ok w, db')
    → (is_reviewer_side_user user ≡ true)
      × ((trim rationale == "") ≡ false)
      × (a : Application) × (find_application id db ≡ some a)
      × (a.decided_at ≡ none)
      × (includes evaluation_statuses a.status ≡ true)
      × (any is_complete_evaluation (list_by_application id db) ≡ true)
      × (find_application id db'
          ≡ some (set_decision (target_status d) user.id (trim rationale) now a))
unfolding create_decision_tx
create_decision_ok id user d rationale now db {w} {db'} keyed h =
    elim (Bool-cases (is_reviewer_side_user user)) [
      | inr outsider ↦ absurd (ground arith)
      | inl reviewer ↦ elim (Bool-cases (trim rationale == "")) [
        | inl blank ↦ absurd (ground arith)
        | inr given ↦
            let (a, row, open_, evaluated, complete, is) =
              decide_ok id user d (trim rationale) now db db' w keyed
                (serializable-ok (decide id user d (trim rationale) now) db (ground arith)) in
            (reviewer, given, a, row, open_, evaluated, complete, is)
      ]
    ]

mails_of-job :
    (notification : Notification) (reason : Option String) (w : WorkflowView) (job : EmailJob)
    → job_of notification reason ≡ job
    → (emails : List String)
    → All (λ m. m.job ≡ job) (map (email_to (job_of notification reason) w) emails)
mails_of-job notification reason w job e [] = tt
mails_of-job notification reason w job e (x ∷ emails) =
    (e, mails_of-job notification reason w job e emails)

-- The e-mails of a rejection by `reject` show its trimmed reason; those of a rejection by a
-- decision show "No reason provided", whatever the rationale is.
pub rejection_mails :
    (w : WorkflowView) (reason : String)
    → All
        (λ m. m.job ≡ EmailJob.application_rejected (trim reason))
        (notify reject_transition (some reason) w)
      × All
          (λ m. m.job ≡ EmailJob.application_rejected "No reason provided")
          (decision_mail ApplicationDecision.rejected w)
unfolding send_program_a_application_email
rejection_mails w reason = (
  mails_of-job Notification.rejected (some (trim reason)) w _ refl
      (get_application_recipient_emails w),
  decision_mails (w.call.type == ProgramType.program_a),
)
  where
    decision_mails :
        (b : Bool)
        → All
            (λ m. m.job ≡ EmailJob.application_rejected "No reason provided")
            (if b then send_program_a_application_email Notification.rejected none w else [])
    decision_mails true =
        mails_of-job Notification.rejected none w _ refl (get_application_recipient_emails w)
    decision_mails false = tt
