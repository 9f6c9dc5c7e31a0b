-- ===== src/Applications/Tests/Reviews.antt =====
-- The theorems on evaluations and decisions at concrete databases.
use nti_backend.Prelude.{◌≡◌, refl, none, some, [], ◌∷◌, ok, All, trim}
use nti_backend.Domain.{ApplicationStatus, application_status_eq}
use nti_backend.Store.{Db, Application}
use nti_backend.Store.Tables.{find_by_id, count_where, update_where, IsKeyed}
use nti_backend.Applications.Repository.{
  find_application, find_by_id_for_workflow, find_call, find_team, members_of_team,
  update_decision_if_current, set_decision,
}
use nti_backend.Applications.Access.{
  ensure_program_a_application_lifecycle, ensure_application_can_be_evaluated,
  ensure_evaluation_completeness, validate_evaluation_scores,
}
use nti_backend.Applications.Mail.{EmailJob}
use nti_backend.Applications.Transitions.{
  record_change, create_status_event, load_workflow_application_or_throw, status_event, notify,
}
use nti_backend.Applications.Lifecycle.{reject_transition}
use nti_backend.Applications.Decision.{
  ApplicationDecision, create_decision_tx, decide, load_for_decision, write_decision, decision_mail,
  create_evaluation, load_for_evaluation, write_evaluation, upsert_evaluation, list_by_application,
}
use nti_backend.Applications.Outcomes.Decisions.{create_decision_ok, rejection_mails}
use nti_backend.Applications.Outcomes.Evaluations.{create_evaluation_ok}
use nti_backend.Applications.Tests.World.{alone, evaluator, world, row, view, full_evaluation}

abbrev evaluating_row : Application
evaluating_row = row ApplicationStatus.evaluating (some 15) none

abbrev evaluating_db : Db
evaluating_db = world (evaluating_row ∷ []) []

-- The application with a decision and its event.
abbrev decided_row : ApplicationStatus → Application
decided_row status = set_decision status 3 "Strong team" 40 evaluating_row

abbrev decided_db : ApplicationStatus → Db
decided_db status =
    world (decided_row status ∷ [])
      (status_event 7 ApplicationStatus.evaluating status 3 (some "Strong team") none ∷ [])

evaluating_db-IsKeyed : IsKeyed (λ a. a.id) evaluating_db.applications
unfolding find_by_id
evaluating_db-IsKeyed = (refl, tt)

approved :
    create_decision_tx 7 evaluator ApplicationDecision.approved "Strong team" 40 evaluating_db
    ≡ (ok (view (decided_row ApplicationStatus.approved)), decided_db ApplicationStatus.approved)
unfolding create_decision_tx decide load_for_decision write_decision record_change
    create_status_event update_decision_if_current load_workflow_application_or_throw
    ensure_program_a_application_lifecycle ensure_application_can_be_evaluated
    ensure_evaluation_completeness find_by_id_for_workflow find_application find_call find_team
    members_of_team find_by_id count_where update_where trim
approved = refl

create_decision_ok_example :
    (a : Application) × (find_application 7 (decided_db ApplicationStatus.approved)
      ≡ some (set_decision ApplicationStatus.approved 3 "Strong team" 40 a))
unfolding trim
create_decision_ok_example =
    let done =
      create_decision_ok 7 evaluator ApplicationDecision.approved "Strong team" 40 evaluating_db
        evaluating_db-IsKeyed approved in
    (done.2, done.7)

rejection_mails_example :
    All
      (λ m. m.job ≡ EmailJob.application_rejected "No team")
      (notify reject_transition (some " No team ") (view evaluating_row))
    × All
        (λ m. m.job ≡ EmailJob.application_rejected "No reason provided")
        (decision_mail ApplicationDecision.rejected (view evaluating_row))
unfolding trim
rejection_mails_example = rejection_mails (view evaluating_row) " No team "

evaluated :
    create_evaluation 7 evaluator full_evaluation.criterion_codes alone evaluating_db
    ≡ (ok full_evaluation, evaluating_db)
unfolding create_evaluation load_for_evaluation write_evaluation upsert_evaluation
    load_workflow_application_or_throw ensure_program_a_application_lifecycle
    ensure_application_can_be_evaluated validate_evaluation_scores find_by_id_for_workflow
    find_application find_call find_team members_of_team find_by_id update_where
evaluated = refl

create_evaluation_ok_example :
    ensure_evaluation_completeness (list_by_application 7 evaluating_db) ≡ ok tt
create_evaluation_ok_example =
    let done =
      create_evaluation_ok 7 evaluator full_evaluation.criterion_codes alone evaluating_db
        evaluated in
    done.5
