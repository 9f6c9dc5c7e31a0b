-- ===== src/Applications/Outcomes/Thread.antt =====
-- The outcome of a request for information and of a reply.
use nti_backend.Prelude.{
  ℕ, String, ◌≡◌, subst, true, false, Option, none, some, List, [], ◌∷◌, ◌++◌, ◌==◌, nat_eq, arith,
  includes, if◌then◌else◌, ok, sym, ap, ◌∙◌, suc, inl, inr, Bool-cases, Option-cases,
}
use nti_backend.Domain.{
  ApplicationStatus, application_status_eq, NeedsInfoItemStatus, needs_info_item_status_eq,
}
use nti_backend.Domain.Roles.{AuthenticatedUserContext}
use nti_backend.Store.{Db, Application, NeedsInfoItem, NeedsInfoReply}
use nti_backend.Store.Tables.{IsKeyed, update_where}
use nti_backend.Store.Transactions.{pure, >>=-eq-ok}
use nti_backend.Applications.Repository.{
  WorkflowView, find_application, find_by_id_for_workflow, set_status, update_status_if_current,
}
use nti_backend.Applications.Repository.Views.{view_id}
use nti_backend.Applications.Access.{
  is_reviewer_side_user, ensure_application_managed_by_team_lead_for_needs_info,
}
use nti_backend.Applications.Transitions.{
  load_workflow_application_or_throw, record_change, status_event, changed_concurrently,
}
use nti_backend.Applications.NeedsInfo.{
  needs_info_statuses, load_for_request, write_request, request_info, create_needs_info_item_tx,
  find_item_for_application, reply, reply_to_needs_info_item, mark_item_answered,
}
use nti_backend.Applications.Outcomes.Transactions.{serializable-ok}
use nti_backend.Applications.Outcomes.Transitions.{changed_row}
use nti_backend.Applications.Outcomes.Requests.{record_change_items}

abbrev pub answered : NeedsInfoItem → NeedsInfoItem
answered i = record i { status = NeedsInfoItemStatus.answered }

-- The items after a reply to `item`.
abbrev pub after_reply : NeedsInfoItem → List NeedsInfoItem → List NeedsInfoItem
after_reply item items =
    if item.status == NeedsInfoItemStatus.open_item
    then update_where (λ i. i.id == item.id) answered items
    else items

reply_steps :
    (id item_id : ℕ) (user : AuthenticatedUserContext) (message : String) (db db' : Db)
    (r : NeedsInfoReply)
    → reply id item_id user message db ≡ ok (r, db')
    → (v : WorkflowView) × (item : NeedsInfoItem) × (find_by_id_for_workflow id db ≡ some v)
      × (v.team.leader_id ≡ user.id)
      × (v.status ≡ ApplicationStatus.needs_info)
      × (find_item_for_application v.application.id item_id db ≡ some item)
      × ((item.status == NeedsInfoItemStatus.resolved) ≡ false)
      × (r.needs_info_item_id ≡ item.id)
      × (r.message ≡ message)
      × (db'.needs_info_replies ≡ db.needs_info_replies ++ r ∷ [])
      × (db'.needs_info_items ≡ after_reply item db.needs_info_items)
unfolding reply load_workflow_application_or_throw
    ensure_application_managed_by_team_lead_for_needs_info mark_item_answered
reply_steps id item_id user message db db' r h =
    elim (Option-cases (find_by_id_for_workflow id db)) [
      | inl missing ↦ absurd (ground arith)
      | inr (v, found) ↦
          elim (Option-cases (find_item_for_application v.application.id item_id db)) [
            | inl no_item ↦ absurd (ground arith)
            | inr (item, there) ↦
                let done : (v.team.leader_id ≡ user.id)
                    × (v.status ≡ ApplicationStatus.needs_info)
                    × ((item.status == NeedsInfoItemStatus.resolved) ≡ false)
                    × (r.needs_info_item_id ≡ item.id)
                    × (r.message ≡ message)
                    × (db'.needs_info_replies ≡ db.needs_info_replies ++ r ∷ [])
                    × (db'.needs_info_items ≡ after_reply item db.needs_info_items) =
                  ground arith in
                (v, item, found, done.0, done.1, there, done.2, done.3, done.4, done.5, done.6)
          ]
    ]

-- A reply that succeeds was made by the team leader of an application in NEEDS_INFO to one of its
-- items that is not resolved. It is the one new row of the replies; the item is then answered if it
-- was open, and no other item has changed.
pub reply_ok :
    (id item_id : ℕ) (user : AuthenticatedUserContext) (message : String) (db : Db) {db' : Db}
    {r : NeedsInfoReply}
    → reply_to_needs_info_item id item_id user message db ≡ (ok r, db')
    → (v : WorkflowView) × (item : NeedsInfoItem) × (find_by_id_for_workflow id db ≡ some v)
      × (v.team.leader_id ≡ user.id)
      × (v.status ≡ ApplicationStatus.needs_info)
      × (find_item_for_application id item_id db ≡ some item)
      × ((item.status == NeedsInfoItemStatus.resolved) ≡ false)
      × (r.needs_info_item_id ≡ item.id)
      × (r.message ≡ message)
      × (db'.needs_info_replies ≡ db.needs_info_replies ++ r ∷ [])
      × (db'.needs_info_items ≡ after_reply item db.needs_info_items)
unfolding reply_to_needs_info_item
reply_ok id item_id user message db {db'} {r} h =
    let (v, item, found, leader, asked, there, unresolved, target, text, replies, items) =
      reply_steps id item_id user message db db' r
        (serializable-ok (reply id item_id user message) db h) in
    (
      v,
      item,
      found,
      leader,
      asked,
      subst (λ k. find_item_for_application k item_id db ≡ some item) (view_id id db v found) there,
      unresolved,
      target,
      text,
      replies,
      items,
    )

load_for_request_ok :
    (id : ℕ) (db db' : Db) (v : WorkflowView)
    → load_for_request id db ≡ ok (v, db')
    → (db' ≡ db)
      × (find_by_id_for_workflow id db ≡ some v)
      × (includes needs_info_statuses v.status ≡ true)
unfolding load_for_request load_workflow_application_or_throw
load_for_request_ok id db db' v h = ground arith

-- The item that a request creates.
abbrev pub new_item : ℕ → ℕ → String → Option ℕ → ℕ → NeedsInfoItem
new_item id application_id message due_at user_id = record {
  id = id;
  application_id = application_id;
  message = message;
  due_at = due_at;
  created_by_id = user_id;
  status = NeedsInfoItemStatus.open_item;
  resolved_by_id = none;
  resolved_at = none;
}

write_request_ok :
    (user_id : ℕ) (message : String) (due_at : Option ℕ) (v : WorkflowView) (db db' : Db)
    (r : WorkflowView × NeedsInfoItem)
    → IsKeyed (λ a. a.id) db.applications
    → write_request user_id message due_at v db ≡ ok (r, db')
    → (a : Application) × (r ≡ (v, new_item db.next_id v.application.id message due_at user_id))
      × (find_application v.application.id db ≡ some a)
      × (a.status ≡ v.status)
      × (find_application v.application.id db'
          ≡ some (set_status ApplicationStatus.needs_info none a))
      × (db'.needs_info_items
          ≡ db.needs_info_items ++ new_item db.next_id v.application.id message due_at user_id ∷ [])
unfolding write_request find_application
write_request_ok user_id message due_at v db db' r keyed h =
    let item = new_item db.next_id v.application.id message due_at user_id in
    let event =
      status_event v.application.id v.status ApplicationStatus.needs_info user_id (some message)
        (some db.next_id) in
    let created : Db = record db {
      next_id = suc db.next_id;
      needs_info_items = db.needs_info_items ++ item ∷ [];
    } in
    let (u, db1, changed, last) =
      >>=-eq-ok
        (record_change
          (update_status_if_current v.application.id v.status ApplicationStatus.needs_info none)
          changed_concurrently event)
        (λ _. pure (v, item)) created h in
    let (a, found, was, is) =
      changed_row v.application.id v.status ApplicationStatus.needs_info none changed_concurrently
        event created db1 u keyed changed in
    let items =
      record_change_items v.application.id v.status ApplicationStatus.needs_info none
        changed_concurrently event created db1 u changed in
    let kept : (r ≡ (v, item)) × (db' ≡ db1) = ground arith in
    (
      a,
      kept.0,
      found,
      was,
      subst
          (λ d.
            find_application v.application.id d
            ≡ some (set_status ApplicationStatus.needs_info none a))
          (sym kept.1) is,
      ap (λ d. d.needs_info_items) kept.1 ∙ items,
    )

requested :
    (id : ℕ) (user : AuthenticatedUserContext) (message : String) (due_at : Option ℕ) (db db' : Db)
    (v : WorkflowView) (item : NeedsInfoItem)
    → IsKeyed (λ a. a.id) db.applications
    → request_info id user message due_at db ≡ ok ((v, item), db')
    → (find_by_id_for_workflow id db ≡ some v)
      × (includes needs_info_statuses v.status ≡ true)
      × (item ≡ new_item db.next_id id message due_at user.id)
      × (db'.needs_info_items ≡ db.needs_info_items ++ item ∷ [])
      × (a : Application) × (find_application id db ≡ some a)
      × (a.status ≡ v.status)
      × (find_application id db' ≡ some (set_status ApplicationStatus.needs_info none a))
unfolding request_info
requested id user message due_at db db' v item keyed h =
    let (v0, db1, loaded, wrote) =
      >>=-eq-ok (load_for_request id) (write_request user.id message due_at) db h in
    let (same, found, asked) = load_for_request_ok id db db1 v0 loaded in
    let here = view_id id db v0 found in
    let (a, row, there, was, is, items) =
      write_request_ok user.id message due_at v0 db db' (v, item) keyed
        (subst (λ d. write_request user.id message due_at v0 d ≡ ok ((v, item), db')) same wrote) in
    let view_is : v ≡ v0 = ap (λ p. p.0) row in
    let item_is : item ≡ new_item db.next_id v0.application.id message due_at user.id =
      ap (λ p. p.1) row in
    (
      found ∙ ap some (sym view_is),
      ap (λ x. includes needs_info_statuses x.status) view_is ∙ asked,
      item_is ∙ ap (λ k. new_item db.next_id k message due_at user.id) here,
      items ∙ ap (λ i. db.needs_info_items ++ i ∷ []) (sym item_is),
      a,
      subst (λ k. find_application k db ≡ some a) here there,
      was ∙ ap (λ x. x.status) (sym view_is),
      subst (λ k. find_application k db' ≡ some (set_status ApplicationStatus.needs_info none a))
          here is,
    )

-- Where no two applications have one id: a request for information that succeeds was made by a
-- reviewer-side user, on an application in SUBMITTED, FORMALLY_VERIFIED or EVALUATING. It leaves
-- the application in NEEDS_INFO with the rest of its row unchanged, and one new open item with the
-- message.
pub create_needs_info_item_ok :
    (id : ℕ) (user : AuthenticatedUserContext) (message : String) (due_at : Option ℕ) (db : Db)
    {db' : Db} {v : WorkflowView} {item : NeedsInfoItem}
    → IsKeyed (λ a. a.id) db.applications
    → create_needs_info_item_tx id user message due_at db ≡ (ok (v, item), db')
    → (is_reviewer_side_user user ≡ true)
      × (find_by_id_for_workflow id db ≡ some v)
      × (includes needs_info_statuses v.status ≡ true)
      × (item ≡ new_item db.next_id id message due_at user.id)
      × (db'.needs_info_items ≡ db.needs_info_items ++ item ∷ [])
      × (a : Application) × (find_application id db ≡ some a)
      × (a.status ≡ v.status)
      × (find_application id db' ≡ some (set_status ApplicationStatus.needs_info none a))
unfolding create_needs_info_item_tx
create_needs_info_item_ok id user message due_at db {db'} {v} {item} keyed h =
    elim (Bool-cases (is_reviewer_side_user user)) [
      | inr outsider ↦ absurd (ground arith)
      | inl reviewer ↦
          let (found, asked, is_new, items, a, row, was, is) =
            requested id user message due_at db db' v item keyed
              (serializable-ok (request_info id user message due_at) db (ground arith)) in
          (reviewer, found, asked, is_new, items, a, row, was, is)
    ]
