-- ===== src/Applications/Tests/Threads.antt =====
-- The theorems on the needs-info thread at concrete databases.
use nti_backend.Prelude.{◌≡◌, refl, none, some, [], ◌∷◌, ◌++◌, ok}
use nti_backend.Domain.{ApplicationStatus, NeedsInfoItemStatus}
use nti_backend.Store.{Db, Application, NeedsInfoItem, NeedsInfoReply}
use nti_backend.Store.Tables.{find_by_id, count_where, update_where, IsKeyed}
use nti_backend.Applications.Repository.{
  find_application, find_by_id_for_workflow, find_call, find_team, members_of_team,
  update_status_if_current,
}
use nti_backend.Applications.Access.{ensure_application_managed_by_team_lead_for_needs_info}
use nti_backend.Applications.Transitions.{
  record_change, create_status_event, load_workflow_application_or_throw, status_event,
}
use nti_backend.Applications.NeedsInfo.{
  load_for_request, write_request, request_info, create_needs_info_item_tx,
  find_item_for_application, reply, reply_to_needs_info_item, mark_item_answered,
}
use nti_backend.Applications.Outcomes.Thread.{reply_ok, create_needs_info_item_ok, new_item}
use nti_backend.Applications.Tests.World.{evaluator, leader, world, row, view, answered_item}
use nti_backend.Applications.Tests.Histories.{submitted_db}

-- An evaluator asks, and the leader answers.
abbrev question : NeedsInfoItem
question = new_item 20 7 "Which stack?" none 3

abbrev asked_row : Application
asked_row = row ApplicationStatus.needs_info (some 15) none

abbrev asked_db : Db
asked_db =
    record (world (asked_row ∷ []) (
      submitted_db.status_events
      ++ status_event 7 ApplicationStatus.submitted ApplicationStatus.needs_info 3
          (some "Which stack?") (some 20)
        ∷ [])) { needs_info_items = answered_item ∷ question ∷ []; next_id = 21 }

submitted_db-IsKeyed : IsKeyed (λ a. a.id) submitted_db.applications
unfolding find_by_id
submitted_db-IsKeyed = (refl, tt)

asked :
    create_needs_info_item_tx 7 evaluator "Which stack?" none submitted_db
    ≡ (ok (view (row ApplicationStatus.submitted (some 15) none), question), asked_db)
unfolding create_needs_info_item_tx request_info load_for_request write_request record_change
    create_status_event update_status_if_current load_workflow_application_or_throw
    find_by_id_for_workflow find_application find_call find_team members_of_team find_by_id
    count_where update_where
asked = refl

create_needs_info_item_ok_example :
    asked_db.needs_info_items ≡ submitted_db.needs_info_items ++ question ∷ []
create_needs_info_item_ok_example =
    let done =
      create_needs_info_item_ok 7 evaluator "Which stack?" none submitted_db submitted_db-IsKeyed
        asked in
    done.4

abbrev answer : NeedsInfoReply
answer = record { id = 21; needs_info_item_id = 20; message = "TypeScript"; created_by_id = 1 }

abbrev answered_db : Db
answered_db = record asked_db {
  needs_info_items = answered_item ∷ record question { status = NeedsInfoItemStatus.answered } ∷ [];
  needs_info_replies = answer ∷ [];
  next_id = 22;
}

replied : reply_to_needs_info_item 7 20 leader "TypeScript" asked_db ≡ (ok answer, answered_db)
unfolding reply_to_needs_info_item reply mark_item_answered find_item_for_application
    load_workflow_application_or_throw ensure_application_managed_by_team_lead_for_needs_info
    find_by_id_for_workflow find_application find_call find_team members_of_team find_by_id
    update_where
replied = refl

reply_ok_example : answered_db.needs_info_replies ≡ asked_db.needs_info_replies ++ answer ∷ []
reply_ok_example = let done = reply_ok 7 20 leader "TypeScript" asked_db replied in done.9
