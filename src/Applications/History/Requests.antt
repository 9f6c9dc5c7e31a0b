-- ===== src/Applications/History/Requests.antt =====
-- The needs-info thread keeps the state of the applications valid.
use nti_backend.Prelude.{
  ℕ, suc, ◌<◌, String, ◌≡◌, refl, true, Option, none, some, List, [], ◌∷◌, ◌++◌, nat_eq, arith,
  includes, get_or, All, ok, inl, inr, Bool-cases,
}
use nti_backend.Domain.{
  ApplicationStatus, application_status_eq, NeedsInfoItemStatus, needs_info_item_status_eq,
}
use nti_backend.Domain.Roles.{AuthenticatedUserContext}
use nti_backend.Store.{Db, Application, ApplicationStatusEvent, NeedsInfoItem, NeedsInfoReply}
use nti_backend.Store.Transactions.{pure, >>=-eq-ok, serializable_keeps}
use nti_backend.Applications.Repository.{WorkflowView, update_status_if_current}
use nti_backend.Applications.Access.{is_reviewer_side_user}
use nti_backend.Applications.Transitions.{
  load_workflow_application_or_throw, record_change, status_event, changed_concurrently,
}
use nti_backend.Applications.NeedsInfo.{
  needs_info_statuses, load_for_request, write_request, request_info, create_needs_info_item_tx,
  reply, reply_to_needs_info_item, load_for_resubmit, write_resubmit, resubmit_tx, resubmit,
  resolve_answered_items,
}
use nti_backend.Applications.History.{IsValid, Valid, edge}
use nti_backend.Applications.History.Updates.{DatesAgree, status_change-IsValid}
use nti_backend.Applications.History.Reviews.{load_workflow-same}

-- A created row takes an id, and the ids in use stay below the next one.
All-used-suc :
    (n : ℕ) (rows : List Application) → All (λ a. a.id < n) rows → All (λ a. a.id < suc n) rows
All-used-suc n [] h = tt
All-used-suc n (a ∷ rows) h = (omega arith, All-used-suc n rows h.1)

pub Valid-next :
    {past : List ApplicationStatusEvent} (db : Db)
    → IsValid past db
    → Valid past db.applications db.status_events (suc db.next_id)
Valid-next db v = record {
  keyed = v.keyed;
  used = All-used-suc db.next_id db.applications v.used;
  dated = v.dated;
  since = v.since;
  history = v.history;
}

request_edges :
    (s : ApplicationStatus)
    → includes needs_info_statuses s ≡ true
    → (edge s ApplicationStatus.needs_info ≡ true) × DatesAgree s ApplicationStatus.needs_info none
request_edges s h = ground arith

load_for_request-allowed :
    (id : ℕ) (db db' : Db) (v : WorkflowView)
    → load_for_request id db ≡ ok (v, db')
    → (db' ≡ db) × (includes needs_info_statuses v.status ≡ true)
unfolding load_for_request load_workflow_application_or_throw
load_for_request-allowed id db db' v h = ground arith

-- The item that is created, and the database once it is there.
abbrev new_item : ℕ → String → Option ℕ → WorkflowView → Db → NeedsInfoItem
new_item user_id message due_at v db = record {
  id = db.next_id;
  application_id = v.application.id;
  message = message;
  due_at = due_at;
  created_by_id = user_id;
  status = NeedsInfoItemStatus.open_item;
  resolved_by_id = none;
  resolved_at = none;
}

abbrev with_item : ℕ → String → Option ℕ → WorkflowView → Db → Db
with_item user_id message due_at v db = record db {
  next_id = suc db.next_id;
  needs_info_items = db.needs_info_items ++ new_item user_id message due_at v db ∷ [];
}

write_request-IsValid :
    {past : List ApplicationStatusEvent} (user_id : ℕ) (message : String) (due_at : Option ℕ)
    (v : WorkflowView) (db db' : Db) (r : WorkflowView × NeedsInfoItem)
    → includes needs_info_statuses v.status ≡ true
    → write_request user_id message due_at v db ≡ ok (r, db')
    → IsValid past db
    → IsValid past db'
unfolding write_request
write_request-IsValid user_id message due_at v db db' r allowed h valid =
    let (step, agree) = request_edges v.status allowed in
    let event =
      status_event v.application.id v.status ApplicationStatus.needs_info user_id (some message)
        (some db.next_id) in
    let db0 = with_item user_id message due_at v db in
    let (u, db1, changed, done) =
      >>=-eq-ok
        (record_change
          (update_status_if_current v.application.id v.status ApplicationStatus.needs_info none)
          changed_concurrently event)
        (λ _. pure (v, new_item user_id message due_at v db)) db0 h in
    let same : db' ≡ db1 = ground arith in
    rw same (
      status_change-IsValid v.application.id v.status ApplicationStatus.needs_info event refl refl
        refl step none changed_concurrently db0 db1 u agree changed (Valid-next db valid))

request_info-IsValid :
    {past : List ApplicationStatusEvent} (id : ℕ) (user : AuthenticatedUserContext)
    (message : String) (due_at : Option ℕ) (db db' : Db) (r : WorkflowView × NeedsInfoItem)
    → request_info id user message due_at db ≡ ok (r, db')
    → IsValid past db
    → IsValid past db'
unfolding request_info
request_info-IsValid id user message due_at db db' r h valid =
    let (v, db1, loaded, wrote) =
      >>=-eq-ok (load_for_request id) (write_request user.id message due_at) db h in
    let (same, allowed) = load_for_request-allowed id db db1 v loaded in
    write_request-IsValid user.id message due_at v db1 db' r allowed wrote (rw same valid)

pub create_needs_info_item-IsValid :
    {past : List ApplicationStatusEvent} (id : ℕ) (user : AuthenticatedUserContext)
    (message : String) (due_at : Option ℕ) (db : Db)
    → IsValid past db
    → IsValid past (create_needs_info_item_tx id user message due_at db).1
unfolding create_needs_info_item_tx
create_needs_info_item-IsValid {past} id user message due_at db valid =
    elim (Bool-cases (is_reviewer_side_user user)) [
      | inr outsider ↦ rw outsider valid
      | inl reviewer ↦ rw reviewer (
          serializable_keeps (IsValid past) (request_info id user message due_at) db
            (λ db' r h. request_info-IsValid id user message due_at db db' r h) valid)
    ]

-- A reply touches neither an application nor its events.
reply-IsValid :
    {past : List ApplicationStatusEvent} (id item_id : ℕ) (user : AuthenticatedUserContext)
    (message : String) (db db' : Db) (r : NeedsInfoReply)
    → reply id item_id user message db ≡ ok (r, db')
    → IsValid past db
    → IsValid past db'
unfolding reply load_workflow_application_or_throw
reply-IsValid id item_id user message db db' r h valid =
    let kept : (db'.applications ≡ db.applications)
        × (db'.status_events ≡ db.status_events)
        × (db'.next_id ≡ suc db.next_id) =
      ground arith in
    rw (kept.0, kept.1, kept.2) (Valid-next db valid)

pub reply_to_needs_info_item-IsValid :
    {past : List ApplicationStatusEvent} (id item_id : ℕ) (user : AuthenticatedUserContext)
    (message : String) (db : Db)
    → IsValid past db
    → IsValid past (reply_to_needs_info_item id item_id user message db).1
unfolding reply_to_needs_info_item
reply_to_needs_info_item-IsValid {past} id item_id user message db =
    serializable_keeps (IsValid past) (reply id item_id user message) db
      (λ db' r h. reply-IsValid id item_id user message db db' r h)

write_resubmit-IsValid :
    {past : List ApplicationStatusEvent} (user_id : ℕ) (message : Option String) (now : ℕ)
    (v : WorkflowView) (db db' : Db) (w : WorkflowView)
    → write_resubmit user_id message now v db ≡ ok (w, db')
    → IsValid past db
    → IsValid past db'
unfolding write_resubmit resolve_answered_items
write_resubmit-IsValid user_id message now v db db' w h valid =
    let event =
      status_event v.application.id ApplicationStatus.needs_info ApplicationStatus.evaluating
        user_id (some (get_or message "Application resubmitted after needs-info replies")) none in
    let (u, db1, changed, loaded) =
      >>=-eq-ok
        (record_change
          (update_status_if_current v.application.id ApplicationStatus.needs_info
            ApplicationStatus.evaluating none)
          changed_concurrently event)
        (λ _. load_workflow_application_or_throw v.application.id) _ h in
    rw (load_workflow-same v.application.id db1 db' w loaded) (
      status_change-IsValid v.application.id ApplicationStatus.needs_info
        ApplicationStatus.evaluating event refl refl refl refl none changed_concurrently _ db1 u
        (refl, refl) changed valid)

load_for_resubmit-same :
    (id user_id : ℕ) (db db' : Db) (v : WorkflowView)
    → load_for_resubmit id user_id db ≡ ok (v, db')
    → db' ≡ db
unfolding load_for_resubmit load_workflow_application_or_throw
load_for_resubmit-same id user_id db db' v h = ground arith

resubmit_tx-IsValid :
    {past : List ApplicationStatusEvent} (id : ℕ) (user : AuthenticatedUserContext)
    (message : Option String) (now : ℕ) (db db' : Db) (w : WorkflowView)
    → resubmit_tx id user message now db ≡ ok (w, db')
    → IsValid past db
    → IsValid past db'
unfolding resubmit_tx
resubmit_tx-IsValid id user message now db db' w h valid =
    let (v, db1, loaded, wrote) =
      >>=-eq-ok (load_for_resubmit id user.id) (write_resubmit user.id message now) db h in
    write_resubmit-IsValid user.id message now v db1 db' w wrote
      (rw (load_for_resubmit-same id user.id db db1 v loaded) valid)

pub resubmit-IsValid :
    {past : List ApplicationStatusEvent} (id : ℕ) (user : AuthenticatedUserContext)
    (message : Option String) (now : ℕ) (db : Db)
    → IsValid past db
    → IsValid past (resubmit id user message now db).1
unfolding resubmit
resubmit-IsValid {past} id user message now db =
    serializable_keeps (IsValid past) (resubmit_tx id user message now) db
      (λ db' w h. resubmit_tx-IsValid id user message now db db' w h)
