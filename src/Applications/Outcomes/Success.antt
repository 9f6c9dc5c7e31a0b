-- ===== src/Applications/Outcomes/Success.antt =====
-- When a status change goes through: the checks that are enough for it.
use nti_backend.Prelude.{
  ℕ, String, ◌≡◌, refl, ap, ◌∙◌, true, false, ◌&&◌, Option, none, some, ◌==◌, nat_eq, arith,
  includes, ok, ◌∷◌, [], ◌++◌,
}
use nti_backend.Domain.{
  ApplicationStatus, application_status_eq, application_status_beq_iff, ProgramType,
  program_type_eq,
}
use nti_backend.Domain.Roles.{AuthenticatedUserContext}
use nti_backend.Store.{Db, Application, ApplicationStatusEvent}
use nti_backend.Store.Tables.{
  IsKeyed, count_where, update_where, count_where_one, find_by_id-update_where,
}
use nti_backend.Applications.Repository.{
  WorkflowView, find_application, find_call, find_team, find_by_id_for_workflow,
  update_status_if_current, set_status,
}
use nti_backend.Applications.Repository.Views.{view_row, view_id, view_call, view_team, has_view}
use nti_backend.Applications.Access.{is_reviewer_side_user, ensure_program_a_application_lifecycle}
use nti_backend.Applications.History.Updates.{set_status-id}
use nti_backend.Applications.Transitions.{
  Transition, run_transition, load_for_transition, write_transition, record_change, status_event,
  create_status_event, load_workflow_application_or_throw, changed_concurrently, normalize_reason,
  is_blank, decided_at_of,
}

-- The database after a status change.
abbrev changed :
    ℕ → ApplicationStatus → ApplicationStatus → Option ℕ → ApplicationStatusEvent → Db → Db
changed id from to at e db = record db {
  applications =
      update_where (λ a. a.id == id && a.status == from) (set_status to at) db.applications;
  status_events = db.status_events ++ e ∷ [];
}

same_call :
    (to : ApplicationStatus) (at : Option ℕ) (a : Application)
    → ((set_status to at a).call_id ≡ a.call_id) × ((set_status to at a).team_id ≡ a.team_id)
same_call to none a = (refl, refl)
same_call to (some at) a = (refl, refl)

module _ (id : ℕ) (from to : ApplicationStatus) (at : Option ℕ) (e : ApplicationStatusEvent)
    (db : Db) (v : WorkflowView) (there : find_by_id_for_workflow id db ≡ some v)
    (status : v.status ≡ from) where
  row_counted :
      IsKeyed (λ a. a.id) db.applications
      → count_where (λ a. a.id == id && a.status == from) db.applications ≡ 1
  unfolding find_application
  row_counted keyed =
      count_where_one (λ a. a.id) id (λ a. a.status == from) db.applications keyed
        (view_row id db v there) ((application_status_beq_iff v.status from).1 status)

  record_change_succeeds :
      (message : String)
      → IsKeyed (λ a. a.id) db.applications
      → record_change (update_status_if_current id from to at) message e db
        ≡ ok (tt, changed id from to at e db)
  unfolding record_change update_status_if_current create_status_event
  record_change_succeeds message keyed = rw (row_counted keyed) refl

  changed_view :
      (w : WorkflowView) × (find_by_id_for_workflow id (changed id from to at e db) ≡ some w)
  unfolding find_application find_call find_team
  changed_view =
      let (call, team) = same_call to at v.application in
      let met = (application_status_beq_iff v.status from).1 status in
      let later : Db = changed id from to at e db in
      has_view id later (set_status to at v.application)
        (find_by_id-update_where (λ a. a.id) (λ a. a.id == id && a.status == from)
            (set_status to at) (set_status-id to at) id db.applications
          ∙ rw (view_row id db v there, view_id id db v there, met) (ground arith))
        (ap (λ k. find_call k later) call ∙ view_call id db v there)
        (ap (λ k. find_team k later) team ∙ view_team id db v there)

write_transition_succeeds :
    (t : Transition) (user_id : ℕ) (reason : Option String) (now : ℕ) (v u : WorkflowView) (db : Db)
    → IsKeyed (λ a. a.id) db.applications
    → find_by_id_for_workflow v.application.id db ≡ some u
    → u.status ≡ v.status
    → (w : WorkflowView) × (db' : Db) × (write_transition t user_id reason now v db ≡ ok (w, db'))
unfolding write_transition load_workflow_application_or_throw
write_transition_succeeds t user_id reason now v u db keyed there same =
    let id = v.application.id in
    let at = decided_at_of t now in
    let e = status_event id v.status t.to user_id reason none in
    let (w, seen) = changed_view id v.status t.to at e db u there same in
    let changes =
      record_change_succeeds id v.status t.to at e db u there same changed_concurrently keyed in
    (w, changed id v.status t.to at e db, ground arith)

load_for_transition_succeeds :
    (t : Transition) (id : ℕ) (db : Db) (v : WorkflowView)
    → find_by_id_for_workflow id db ≡ some v
    → v.call.type ≡ ProgramType.program_a
    → includes t.from v.status ≡ true
    → load_for_transition t id db ≡ ok (v, db)
unfolding load_for_transition load_workflow_application_or_throw
    ensure_program_a_application_lifecycle
load_for_transition_succeeds t id db v found program from = ground arith

-- Where no two applications have one id: a reviewer-side user who gives a reason where one is
-- required, for a Program A application in a status that the transition starts from, gets the status
-- change, if the application is there with the same status when the transaction writes.
pub run_transition_succeeds :
    (message : String) (t : Transition) (id : ℕ) (user : AuthenticatedUserContext)
    (reason : Option String) (now : ℕ) (between : Db → Db) (db : Db) (v u : WorkflowView)
    → IsKeyed (λ a. a.id) (between db).applications
    → is_reviewer_side_user user ≡ true
    → (t.reason_required && is_blank (normalize_reason reason)) ≡ false
    → find_by_id_for_workflow id db ≡ some v
    → v.call.type ≡ ProgramType.program_a
    → includes t.from v.status ≡ true
    → find_by_id_for_workflow id (between db) ≡ some u
    → u.status ≡ v.status
    → (w : WorkflowView) × (db' : Db) × (run_transition message t id user reason now between db
        ≡ (ok w, db'))
unfolding run_transition
run_transition_succeeds message t id user reason now between db v u keyed reviewer given found
      program from there same =
    let here = view_id id db v found in
    let (w, db', wrote) =
      write_transition_succeeds t user.id (normalize_reason reason) now v u (between db) keyed
        (ap (λ k. find_by_id_for_workflow k (between db)) here ∙ there) same in
    let loaded = load_for_transition_succeeds t id db v found program from in
    (w, db', rw (reviewer, given, loaded, wrote) refl)
