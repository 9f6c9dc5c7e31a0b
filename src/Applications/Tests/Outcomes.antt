-- ===== src/Applications/Tests/Outcomes.antt =====
-- The theorems on the outcomes of the requests at concrete databases.
use nti_backend.Prelude.{◌≡◌, refl, none, some, [], ◌∷◌, ok, err, conflict}
use nti_backend.Domain.{ApplicationStatus, application_status_eq}
use nti_backend.Store.{Db, Application}
use nti_backend.Store.Tables.{find_by_id, count_where, update_where, IsKeyed}
use nti_backend.Applications.Repository.{
  WorkflowView, find_application, find_by_id_for_workflow, update_status_if_current, set_status,
  find_call, find_team, members_of_team,
}
use nti_backend.Applications.Transitions.{
  run_transition, load_for_transition, write_transition, record_change, create_status_event,
  load_workflow_application_or_throw, changed_concurrently,
}
use nti_backend.Applications.Access.{ensure_program_a_application_lifecycle}
use nti_backend.Applications.Lifecycle.{formal_verify_transition}
use nti_backend.Applications.Outcomes.Transitions.{run_transition_ok, run_transition_overtaken}
use nti_backend.Applications.Outcomes.Success.{run_transition_succeeds}
use nti_backend.Applications.Tests.World.{alone, evaluator, world, row, event, view}
use nti_backend.Applications.Tests.Histories.{submitted_db}

-- An evaluator verifies the submitted application.
abbrev submitted_row : Application
submitted_row = row ApplicationStatus.submitted (some 15) none

abbrev verified_row : Application
verified_row = row ApplicationStatus.formally_verified (some 15) none

abbrev verified_db : Db
verified_db = world (verified_row ∷ []) (
    event ApplicationStatus.draft ApplicationStatus.submitted
    ∷ event ApplicationStatus.submitted ApplicationStatus.formally_verified
    ∷ [])

verified :
    run_transition "" formal_verify_transition 7 evaluator none 30 alone submitted_db
    ≡ (ok (view verified_row), verified_db)
unfolding run_transition load_for_transition write_transition record_change update_status_if_current
    create_status_event load_workflow_application_or_throw ensure_program_a_application_lifecycle
    find_by_id_for_workflow find_application find_call find_team members_of_team find_by_id
    count_where update_where
verified = refl

submitted_db-IsKeyed : IsKeyed (λ a. a.id) submitted_db.applications
unfolding find_by_id
submitted_db-IsKeyed = (refl, tt)

run_transition_ok_example :
    (a : Application) × (find_application 7 verified_db
      ≡ some (set_status ApplicationStatus.formally_verified none a))
run_transition_ok_example =
    let done =
      run_transition_ok "" formal_verify_transition 7 evaluator none 30 alone submitted_db
        submitted_db-IsKeyed verified in
    (done.6, done.9)

run_transition_succeeds_example :
    (w : WorkflowView) × (db' : Db) × (run_transition "" formal_verify_transition 7 evaluator none
        30 alone submitted_db
      ≡ (ok w, db'))
unfolding find_by_id_for_workflow find_application find_call find_team members_of_team find_by_id
run_transition_succeeds_example =
    run_transition_succeeds "" formal_verify_transition 7 evaluator none 30 alone submitted_db
      (view submitted_row) (view submitted_row) submitted_db-IsKeyed refl refl refl refl refl refl
      refl

-- Two evaluators verify the same application at the same time.
abbrev overtaken : Db → Db
overtaken _ = verified_db

run_transition_overtaken_example :
    run_transition "" formal_verify_transition 7 evaluator none 30 overtaken submitted_db
    ≡ (err (conflict changed_concurrently), verified_db)
unfolding load_for_transition load_workflow_application_or_throw
    ensure_program_a_application_lifecycle find_by_id_for_workflow find_application find_call
    find_team members_of_team find_by_id
run_transition_overtaken_example =
    run_transition_overtaken "" formal_verify_transition 7 evaluator none 30 overtaken submitted_db
      submitted_db (view submitted_row) (refl, tt) refl refl refl refl refl
