-- ===== src/Applications/Tests/Runs.antt =====
-- The theorems on runs at concrete ones.
use nti_backend.Prelude.{ok, ◌≡◌, refl, true, none, some, List, [], ◌++◌, includes, is_some}
use nti_backend.Domain.{ApplicationStatus, application_status_eq}
use nti_backend.Store.{Db, Application, ApplicationStatusEvent}
use nti_backend.Store.Tables.{find_by_id, update_where}
use nti_backend.Applications.Repository.{
  find_application, find_by_id_for_workflow, find_call, find_team, members_of_team,
  update_application,
}
use nti_backend.Applications.Draft.{submit}
use nti_backend.Applications.Runs.{Run, ReviewerRequest, perform}
use nti_backend.Applications.Runs.Run.{start, submitted, performed}
use nti_backend.Applications.Budget.{update_grant_budget, read_refreshed}
use nti_backend.Applications.Runs.Budgets.{update_grant_budget_ok, with_budget, with_new_budget}
use nti_backend.Applications.Runs.Validity.{Run-IsValid}
use nti_backend.Applications.Runs.Paths.{
  Run-path, Run-dates, final_stays, decided_stays, submitted_stays,
}
use nti_backend.Applications.History.{IsValid, status_of, decided_statuses, is_submitted}
use nti_backend.Applications.Tests.World.{numbers, takes_all, alone, leader, evaluator, row, view}
use nti_backend.Applications.Tests.Histories.{
  draft_db, draft_db-IsValid, submitted_db, submitted_db-IsValid, rejected_db, rejected_db-IsValid,
  archived_db, archived_db-IsValid,
}

-- An evaluator rejects.
abbrev after_reject : Db → Db
after_reject db = (perform takes_all (ReviewerRequest.reject "No team") 7 evaluator 30 alone db).db

abbrev reject_run : (db : Db) → Run numbers takes_all db (after_reject db)
reject_run db =
    performed (ReviewerRequest.reject "No team") 7 evaluator 30 alone (start db) (start db)

-- The leader submits the draft, and nobody overtakes them.
abbrev after_submit : Db
after_submit = (submit numbers takes_all 7 leader 12 15 alone draft_db).db

abbrev submit_run : Run numbers takes_all draft_db after_submit
submit_run = submitted 7 leader 12 15 alone (start draft_db) (start draft_db)

abbrev no_request : (db : Db) → Run numbers takes_all db db
no_request db = start db

Run-IsValid_example : IsValid [] after_submit
Run-IsValid_example = Run-IsValid submit_run (tt, tt, λ h. h) draft_db-IsValid

Run-path_example :
    (es : List ApplicationStatusEvent) × (after_submit.status_events ≡ draft_db.status_events ++ es)
Run-path_example =
    let path = Run-path submit_run (tt, tt, λ h. h) draft_db-IsValid in (path.0, path.1)

Run-dates_example :
    is_some (row ApplicationStatus.submitted (some 15) none).submitted_at
    ≡ is_submitted ApplicationStatus.submitted
unfolding find_application find_by_id
Run-dates_example = (Run-dates (no_request submitted_db) tt submitted_db-IsValid 7 refl).1

final_stays_example :
    status_of 7 (after_reject archived_db).applications ≡ ApplicationStatus.archived
unfolding status_of find_by_id
final_stays_example = final_stays (reject_run archived_db) (tt, tt) archived_db-IsValid 7 refl

decided_stays_example :
    includes decided_statuses (status_of 7 (after_reject rejected_db).applications) ≡ true
unfolding status_of find_by_id
decided_stays_example = decided_stays (reject_run rejected_db) (tt, tt) rejected_db-IsValid 7 refl

submitted_stays_example : is_submitted (status_of 7 (after_reject submitted_db).applications) ≡ true
unfolding status_of find_by_id
submitted_stays_example =
    submitted_stays (reject_run submitted_db) (tt, tt) submitted_db-IsValid 7 refl

-- An evaluator grants a budget.
abbrev granted_row : Application
granted_row = record (row ApplicationStatus.submitted (some 15) none) { grant_budget = some 5000 }

granted :
    update_grant_budget 7 evaluator (some 5000) alone submitted_db
    ≡ (ok (view granted_row), with_new_budget 7 (some 5000) submitted_db)
unfolding update_grant_budget read_refreshed update_application find_by_id_for_workflow
    find_application find_call find_team members_of_team find_by_id update_where
granted = refl

update_grant_budget_ok_example :
    (a : Application) × (db1 : Db) × (find_application 7 db1 ≡ some (with_budget (some 5000) a))
update_grant_budget_ok_example =
    let done = update_grant_budget_ok 7 evaluator (some 5000) alone submitted_db granted in
    (done.1, done.3, done.5)
