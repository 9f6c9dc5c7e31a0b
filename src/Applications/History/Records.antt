-- ===== src/Applications/History/Records.antt =====
-- Documents and evaluations are rows of other tables: they keep the applications valid.
use nti_backend.Prelude.{ℕ, suc, String, ◌≡◌, List, arith, ok, inl, inr, Bool-cases}
use nti_backend.Domain.Roles.{AuthenticatedUserContext}
use nti_backend.Store.{
  Db, ApplicationStatusEvent, ApplicationDocument, ApplicationEvaluation, UploadedFile,
}
use nti_backend.Store.Transactions.{>>=-eq-ok, read_committed_keeps, serializable_keeps}
use nti_backend.Applications.Repository.{WorkflowView}
use nti_backend.Applications.Access.{is_reviewer_side_user}
use nti_backend.Applications.Transitions.{load_workflow_application_or_throw}
use nti_backend.Applications.Documents.{
  AttachApplicationDocument, RequiredDocumentSlot, load_for_attachment, write_attachment, attach_tx,
  attach_document,
}
use nti_backend.Applications.Decision.{load_for_evaluation, write_evaluation, create_evaluation}
use nti_backend.Applications.History.{IsValid}
use nti_backend.Applications.History.Requests.{Valid-next}

load_for_attachment-same :
    (id : ℕ) (user : AuthenticatedUserContext) (dto : AttachApplicationDocument) (db db' : Db)
    (v : WorkflowView × RequiredDocumentSlot × UploadedFile)
    → load_for_attachment id user dto db ≡ ok (v, db')
    → db' ≡ db
unfolding load_for_attachment load_workflow_application_or_throw
load_for_attachment-same id user dto db db' v h = ground arith

write_attachment_frame :
    (user_id : ℕ) (v : WorkflowView × RequiredDocumentSlot × UploadedFile) (db db' : Db)
    (d : ApplicationDocument)
    → write_attachment user_id v db ≡ ok (d, db')
    → (db'.applications ≡ db.applications)
      × (db'.status_events ≡ db.status_events)
      × (db'.next_id ≡ suc db.next_id)
unfolding write_attachment
write_attachment_frame user_id v db db' d h = ground arith

attach-IsValid :
    {past : List ApplicationStatusEvent} (id : ℕ) (user : AuthenticatedUserContext)
    (dto : AttachApplicationDocument) (db db' : Db) (d : ApplicationDocument)
    → attach_tx id user dto db ≡ ok (d, db')
    → IsValid past db
    → IsValid past db'
unfolding attach_tx
attach-IsValid id user dto db db' d h valid =
    let (v, db1, loaded, wrote) =
      >>=-eq-ok (load_for_attachment id user dto) (write_attachment user.id) db h in
    let (rows, events, next) = write_attachment_frame user.id v db1 db' d wrote in
    rw (rows, events, next, load_for_attachment-same id user dto db db1 v loaded)
      (Valid-next db valid)

pub attach_document-IsValid :
    {past : List ApplicationStatusEvent} (id : ℕ) (user : AuthenticatedUserContext)
    (dto : AttachApplicationDocument) (db : Db)
    → IsValid past db
    → IsValid past (attach_document id user dto db).1
unfolding attach_document
attach_document-IsValid {past} id user dto db =
    serializable_keeps (IsValid past) (attach_tx id user dto) db
      (λ db' d h. attach-IsValid id user dto db db' d h)

write_evaluation-IsValid :
    {past : List ApplicationStatusEvent} (user_id : ℕ) (scores : List String) (v : WorkflowView)
    (db db' : Db) (e : ApplicationEvaluation)
    → write_evaluation user_id scores v db ≡ ok (e, db')
    → IsValid past db
    → IsValid past db'
unfolding write_evaluation
write_evaluation-IsValid user_id scores v db db' e h valid =
    let kept : (db'.applications ≡ db.applications)
        × (db'.status_events ≡ db.status_events)
        × (db'.next_id ≡ db.next_id) =
      ground arith in
    rw (kept.0, kept.1, kept.2) valid

pub create_evaluation-IsValid :
    {past : List ApplicationStatusEvent} (id : ℕ) (user : AuthenticatedUserContext)
    (scores : List String) (between : Db → Db) (db : Db)
    → (IsValid past db → IsValid past (between db))
    → IsValid past db
    → IsValid past (create_evaluation id user scores between db).1
unfolding create_evaluation
create_evaluation-IsValid {past} id user scores between db others valid =
    elim (Bool-cases (is_reviewer_side_user user)) [
      | inr outsider ↦ rw outsider valid
      | inl reviewer ↦ rw reviewer (
          read_committed_keeps (IsValid past) between (load_for_evaluation id scores)
            (write_evaluation user.id scores) db others
            (λ v db1 db' e _ h. write_evaluation-IsValid user.id scores v (between db) db' e h)
            valid)
    ]
