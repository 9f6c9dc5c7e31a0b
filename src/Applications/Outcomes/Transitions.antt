-- ===== src/Applications/Outcomes/Transitions.antt =====
-- The outcome of the nine status changes.
use nti_backend.Prelude.{
  ℕ, String, ◌≡◌, refl, sym, true, false, ◌&&◌, Option, none, some, [], ◌∷◌, ◌++◌, ◌==◌, nat_eq,
  arith, includes, ok, err, conflict, inl, inr, Bool-cases,
}
use nti_backend.Domain.{
  ApplicationStatus, application_status_eq, application_status_beq_iff, ProgramType,
  program_type_eq,
}
use nti_backend.Domain.Roles.{AuthenticatedUserContext}
use nti_backend.Store.{Db, Application, ApplicationStatusEvent}
use nti_backend.Store.Tables.{
  find_by_id-key, IsKeyed, count_where, update_where, find_of_count, find_by_id-update_where,
  count_where_found,
}
use nti_backend.Store.Transactions.{read_committed, >>=-eq-ok}
use nti_backend.Applications.Repository.{
  WorkflowView, find_application, find_by_id_for_workflow, update_status_if_current, set_status,
}
use nti_backend.Applications.Repository.Views.{view_id}
use nti_backend.Applications.Access.{is_reviewer_side_user, ensure_program_a_application_lifecycle}
use nti_backend.Applications.Transitions.{
  Transition, run_transition, load_for_transition, write_transition, record_change, status_event,
  create_status_event, load_workflow_application_or_throw, changed_concurrently, normalize_reason,
  is_blank, decided_at_of,
}
use nti_backend.Applications.History.Updates.{set_status-id}
use nti_backend.Applications.History.Reviews.{load_workflow-same}
use nti_backend.Applications.Outcomes.Transactions.{read_committed-ok}

pub load_for_transition_ok :
    (t : Transition) (id : ℕ) (db db' : Db) (v : WorkflowView)
    → load_for_transition t id db ≡ ok (v, db')
    → (find_by_id_for_workflow id db ≡ some v)
      × (v.call.type ≡ ProgramType.program_a)
      × (includes t.from v.status ≡ true)
unfolding load_for_transition load_workflow_application_or_throw
    ensure_program_a_application_lifecycle
load_for_transition_ok t id db db' v h = ground arith

-- A recorded change counted one row.
record_change_ok :
    (id : ℕ) (from to : ApplicationStatus) (at : Option ℕ) (message : String)
    (e : ApplicationStatusEvent) (db db' : Db) (u : Unit {0})
    → record_change (update_status_if_current id from to at) message e db ≡ ok (u, db')
    → (count_where (λ a. a.id == id && a.status == from) db.applications ≡ 1)
      × (db'.applications
          ≡ update_where (λ a. a.id == id && a.status == from) (set_status to at) db.applications)
      × (db'.status_events ≡ db.status_events ++ e ∷ [])
unfolding record_change update_status_if_current create_status_event
record_change_ok id from to at message e db db' u h = ground arith

-- The row after a recorded change.
pub changed_row :
    (id : ℕ) (from to : ApplicationStatus) (at : Option ℕ) (message : String)
    (e : ApplicationStatusEvent) (db db' : Db) (u : Unit {0})
    → IsKeyed (λ a. a.id) db.applications
    → record_change (update_status_if_current id from to at) message e db ≡ ok (u, db')
    → (a : Application) × (find_application id db ≡ some a)
      × (a.status ≡ from)
      × (find_application id db' ≡ some (set_status to at a))
unfolding find_application
changed_row id from to at message e db db' u keyed h =
    let (one, rows, _) = record_change_ok id from to at message e db db' u h in
    let (a, found, met) =
      find_of_count (λ a. a.id) id (λ a. a.status == from) db.applications keyed one in
    let here : a.id ≡ id = find_by_id-key (λ a. a.id) id db.applications found in
    (
      a,
      found,
      (application_status_beq_iff a.status from).0 met,
      rw
          (
            rows,
            find_by_id-update_where (λ a. a.id) (λ a. a.id == id && a.status == from)
                (set_status to at) (set_status-id to at) id db.applications,
            found,
          )
          (ground arith),
    )

module _ (t : Transition) (user_id : ℕ) (reason : Option String) (now : ℕ) (v : WorkflowView)
    (db db' : Db) (w : WorkflowView)
    (h : write_transition t user_id reason now v db ≡ ok (w, db')) where
  write_transition_ok :
      IsKeyed (λ a. a.id) db.applications
      → (a : Application) × (find_application v.application.id db ≡ some a)
        × (a.status ≡ v.status)
        × (find_application v.application.id db' ≡ some (set_status t.to (decided_at_of t now) a))
        × (db'.status_events
            ≡ db.status_events
              ++ status_event v.application.id v.status t.to user_id reason none ∷ [])
  unfolding write_transition
  write_transition_ok keyed =
      let event = status_event v.application.id v.status t.to user_id reason none in
      let update = update_status_if_current v.application.id v.status t.to (decided_at_of t now) in
      let (u, db1, changed, loaded) =
        >>=-eq-ok (record_change update changed_concurrently event)
          (λ _. load_workflow_application_or_throw v.application.id) db h in
      let (a, found, was, now_is) =
        changed_row v.application.id v.status t.to (decided_at_of t now) changed_concurrently event
          db db1 u keyed changed in
      let (_, _, events) =
        record_change_ok v.application.id v.status t.to (decided_at_of t now) changed_concurrently
          event db db1 u changed in
      let same = load_workflow-same v.application.id db1 db' w loaded in
      (a, found, was, rw same now_is, rw same events)

-- The checks that come before the transaction.
module _ (message : String) (t : Transition) (id : ℕ) (user : AuthenticatedUserContext)
    (reason : Option String) (now : ℕ) (between : Db → Db) (db : Db) where
  run_transition_checks :
      {w : WorkflowView} {db' : Db}
      → run_transition message t id user reason now between db ≡ (ok w, db')
      → (is_reviewer_side_user user ≡ true)
        × ((t.reason_required && is_blank (normalize_reason reason)) ≡ false)
        × (read_committed between
              (load_for_transition t id)
              (write_transition t user.id (normalize_reason reason) now)
              db
            ≡ (ok w, db'))
  unfolding run_transition
  run_transition_checks {w} {db'} h = elim (Bool-cases (is_reviewer_side_user user)) [
    | inr outsider ↦ absurd (ground arith)
    | inl reviewer ↦ elim (Bool-cases (t.reason_required && is_blank (normalize_reason reason))) [
      | inl blank ↦ absurd (ground arith)
      | inr given ↦ (reviewer, given, ground arith)
    ]
  ]

  -- Where no two applications have one id: a status change that succeeds was asked for by a
  -- reviewer-side user, with a reason where one is required, for a Program A application in a
  -- status that the transition starts from. The status was still the same when it wrote, whatever
  -- other requests committed meanwhile; the row got the target status, with a decision date where
  -- the transition sets one, and nothing else; and the event of the change closes the log.
  pub run_transition_ok :
      {w : WorkflowView} {db' : Db}
      → IsKeyed (λ a. a.id) (between db).applications
      → run_transition message t id user reason now between db ≡ (ok w, db')
      → (is_reviewer_side_user user ≡ true)
        × ((t.reason_required && is_blank (normalize_reason reason)) ≡ false)
        × (v : WorkflowView) × (find_by_id_for_workflow id db ≡ some v)
        × (v.call.type ≡ ProgramType.program_a)
        × (includes t.from v.status ≡ true)
        × (a : Application) × (find_application id (between db) ≡ some a)
        × (a.status ≡ v.status)
        × (find_application id db' ≡ some (set_status t.to (decided_at_of t now) a))
        × (db'.status_events
            ≡ (between db).status_events
              ++ status_event id v.status t.to user.id (normalize_reason reason) none ∷ [])
  run_transition_ok {w} {db'} keyed h =
      let (reviewer, given, ran) = run_transition_checks h in
      let (v, db1, loaded, wrote) =
        read_committed-ok between (load_for_transition t id)
          (write_transition t user.id (normalize_reason reason) now) db ran in
      let (found, program, from) = load_for_transition_ok t id db db1 v loaded in
      let (a, was, same, is, events) =
        write_transition_ok t user.id (normalize_reason reason) now v (between db) db' w wrote
          keyed in
      let here = view_id id db v found in
      (
        reviewer,
        given,
        v,
        found,
        program,
        from,
        a,
        rw (sym here) was,
        same,
        rw (sym here) is,
        rw (sym here) events,
      )

write_transition_refused :
    (t : Transition) (user_id : ℕ) (reason : Option String) (now : ℕ) (v : WorkflowView) (db : Db)
    → count_where (λ a. a.id == v.application.id && a.status == v.status) db.applications ≡ 0
    → write_transition t user_id reason now v db ≡ err (conflict changed_concurrently)
unfolding write_transition record_change update_status_if_current
write_transition_refused t user_id reason now v db none_counted = ground arith

-- Where no two applications have one id: a status change whose checks pass, but whose application
-- another request has taken to another status meanwhile, is refused with a conflict and leaves what
-- the others committed.
pub run_transition_overtaken :
    (message : String) (t : Transition) (id : ℕ) (user : AuthenticatedUserContext)
    (reason : Option String) (now : ℕ) (between : Db → Db) (db db1 : Db) (v : WorkflowView)
    {a : Application}
    → IsKeyed (λ a. a.id) (between db).applications
    → is_reviewer_side_user user ≡ true
    → (t.reason_required && is_blank (normalize_reason reason)) ≡ false
    → load_for_transition t id db ≡ ok (v, db1)
    → find_application id (between db) ≡ some a
    → (a.status == v.status) ≡ false
    → run_transition message t id user reason now between db
      ≡ (err (conflict changed_concurrently), between db)
unfolding run_transition find_application
run_transition_overtaken message t id user reason now between db db1 v {a} keyed reviewer given
      loaded found moved =
    let here : v.application.id ≡ id =
      view_id id db v (load_for_transition_ok t id db db1 v loaded).0 in
    let refused = write_transition_refused t user.id (normalize_reason reason) now v (between db) (
      rw here (
        count_where_found (λ a. a.id) id (λ a. a.status == v.status) (between db).applications keyed
          found moved)) in
    rw (reviewer, given, loaded, refused) refl
