-- ===== src/Applications/Tests/Submissions.antt =====
-- The theorems on drafts, documents and the needs-info thread at concrete databases.
use nti_backend.Prelude.{
  ℕ, ◌≡◌, ◌↔◌, ◌≤◌, refl, true, false, none, some, [], ◌∷◌, any, ok, Result, All,
}
use nti_backend.Domain.{ApplicationStatus, application_status_eq, DocumentType, CallStatus}
use nti_backend.Store.{Db, Application, ApplicationDocument}
use nti_backend.Store.Tables.{find_by_id, count_where, update_where, IsKeyed}
use nti_backend.Applications.Repository.{
  WorkflowView, find_application, find_by_id_for_workflow, find_call, find_team, members_of_team,
  update_status_if_current, find_active_by_team_and_call, find_active_application_for_team,
  create_draft, submit_draft, update_application, lock_team, draft_row, is_open_for,
}
use nti_backend.Applications.Rules.{
  ensure_call_open_for_applications, validate_application_creation_rules,
}
use nti_backend.Applications.Access.{
  ensure_program_a_document_workflow, ensure_application_managed_by_team_lead,
  ensure_application_managed_by_team_lead_for_needs_info, ensure_application_is_draft,
  ensure_application_can_be_submitted, ensure_required_program_a_sections_complete,
}
use nti_backend.Applications.Transitions.{
  record_change, create_status_event, load_workflow_application_or_throw, status_event,
}
use nti_backend.Applications.NeedsInfo.{
  find_unresolved_items, load_for_resubmit, write_resubmit, resubmit_tx, resubmit,
  resolve_answered_items, resolve,
}
use nti_backend.Applications.Documents.{
  RequiredDocumentSlot, AttachApplicationDocument, load_for_attachment, write_attachment, attach_tx,
  attach_document, resolve_attachment_slot, find_by_id_for_owners, deactivate_active_by_slot,
  latest_version, on_unique_violation, deactivate, build_document_completeness,
  build_required_document_slots, required_slots,
}
use nti_backend.Applications.Draft.{
  load_for_create, create_application, load_for_submit, write_submit, submit_tx,
  ensure_program_a_complete, lock_if_unlocked,
}
use nti_backend.Applications.Signals.{recompute_for_application}
use nti_backend.Applications.History.Drafts.{submitted_row}
use nti_backend.Applications.Outcomes.Slots.{Attached}
use nti_backend.Applications.Outcomes.Pack.{attach_document_ok}
use nti_backend.Applications.Outcomes.Completeness.{IsCovered, completeness_iff}
use nti_backend.Applications.Outcomes.Requests.{resubmit_ok}
use nti_backend.Applications.Outcomes.Submission.{
  ensure_call_open_iff, create_application_ok, submit_ok,
}
use nti_backend.Applications.Tests.World.{
  numbers, alone, leader, world, row, view, call, team, document, answered_item,
}

-- The leader answers the last question and resubmits.
abbrev asked_row : Application
asked_row = row ApplicationStatus.needs_info (some 15) none

abbrev asked_db : Db
asked_db = world (asked_row ∷ []) []

abbrev resubmitted_row : Application
resubmitted_row = row ApplicationStatus.evaluating (some 15) none

abbrev resubmitted_db : Db
resubmitted_db =
    record (world (resubmitted_row ∷ []) (
      status_event 7 ApplicationStatus.needs_info ApplicationStatus.evaluating 1 (some "Done") none
      ∷ [])) { needs_info_items = resolve 1 50 answered_item ∷ [] }

asked_db-IsKeyed : IsKeyed (λ a. a.id) asked_db.applications
unfolding find_by_id
asked_db-IsKeyed = (refl, tt)

resubmitted :
    resubmit 7 leader (some "Done") 50 asked_db ≡ (ok (view resubmitted_row), resubmitted_db)
unfolding resubmit resubmit_tx load_for_resubmit write_resubmit resolve_answered_items
    find_unresolved_items record_change create_status_event update_status_if_current
    load_workflow_application_or_throw ensure_application_managed_by_team_lead_for_needs_info
    find_by_id_for_workflow find_application find_call find_team members_of_team find_by_id
    count_where update_where
resubmitted = refl

resubmit_ok_example : find_unresolved_items 7 resubmitted_db ≡ []
resubmit_ok_example =
    let done = resubmit_ok 7 leader (some "Done") 50 asked_db asked_db-IsKeyed resubmitted in done.5

-- The leader replaces the CV of the member 1.
abbrev draft_db : Db
draft_db = world (row ApplicationStatus.draft none none ∷ []) []

abbrev cv : AttachApplicationDocument
cv = record { file_id = 8; document_type = DocumentType.cv; member_user_id = some 1 }

abbrev new_cv : ApplicationDocument
new_cv = record (document 20 1) { version = 2 }

abbrev attached_db : Db
attached_db = record draft_db {
  documents = deactivate (document 11 1) ∷ document 12 2 ∷ new_cv ∷ [];
  next_id = 21;
}

attached : attach_document 7 leader cv draft_db ≡ (ok new_cv, attached_db)
unfolding attach_document attach_tx load_for_attachment write_attachment resolve_attachment_slot
    find_by_id_for_owners deactivate_active_by_slot latest_version on_unique_violation
    load_workflow_application_or_throw ensure_program_a_document_workflow
    ensure_application_managed_by_team_lead ensure_application_is_draft find_by_id_for_workflow
    find_application find_call find_team members_of_team find_by_id update_where
attached = refl

attach_document_ok_example :
    (slot : RequiredDocumentSlot) × Attached 7 slot new_cv draft_db.documents attached_db.documents
attach_document_ok_example =
    let done = attach_document_ok 7 leader cv draft_db attached in (done.1, done.10)

completeness_iff_example :
    (build_document_completeness (view asked_row)).is_complete ≡ true
    ↔ All (IsCovered 7 (1 ∷ 2 ∷ []) asked_db.documents) (DocumentType.cv ∷ [])
unfolding find_by_id_for_workflow find_application find_call find_team members_of_team find_by_id
completeness_iff_example = completeness_iff 7 asked_db (view asked_row) refl refl

ensure_call_open_iff_example : (ensure_call_open_for_applications call 12 ≡ ok tt) ↔ (
    (call.status ≡ CallStatus.open_call)
    × ((at : ℕ) → call.opens_at ≡ some at → at ≤ 12)
    × ((at : ℕ) → call.closes_at ≡ some at → 12 ≤ at))
ensure_call_open_iff_example = ensure_call_open_iff call 12

-- The leader creates a draft.
abbrev created_db : Db
created_db = record (world (draft_row 20 4 5 1 ∷ []) []) { next_id = 21 }

created :
    create_application 4 5 leader 12 alone (world [] []) ≡ (ok (draft_row 20 4 5 1), created_db)
unfolding create_application load_for_create create_draft on_unique_violation
    find_active_by_team_and_call find_active_application_for_team
    validate_application_creation_rules ensure_call_open_for_applications find_call find_team
    find_by_id
created = refl

create_application_ok_example : any (is_open_for 5 4) (alone (world [] [])).applications ≡ false
create_application_ok_example =
    let done = create_application_ok 4 5 leader 12 alone (world [] []) created in done.8

-- The leader submits the draft.
abbrev submit_run : Result WorkflowView × Db
submit_run = submit_tx numbers 7 leader 12 15 alone draft_db

submitted : submit_run ≡ (
  ok (record (view (row ApplicationStatus.submitted (some 15) none)) {
    team = record team { locked_at = some 15 };
  }),
  submit_run.1,
)
unfolding submit_tx load_for_submit write_submit ensure_program_a_complete submit_draft
    update_application lock_if_unlocked lock_team create_status_event recompute_for_application
    ensure_call_open_for_applications load_workflow_application_or_throw
    ensure_application_managed_by_team_lead ensure_application_is_draft
    ensure_application_can_be_submitted ensure_required_program_a_sections_complete
    build_document_completeness build_required_document_slots required_slots find_by_id_for_workflow
    find_application find_call find_team members_of_team find_by_id update_where
submitted = refl

submit_ok_example :
    (a : Application) × (find_application 7 submit_run.1 ≡ some (submitted_row 15 a))
submit_ok_example =
    let done = submit_ok numbers 7 leader 12 15 alone draft_db submitted in (done.1, done.9)
