-- ===== src/Applications/Outcomes/Requests.antt =====
-- The outcome of the needs-info thread.
use nti_backend.Prelude.{
  ℕ, String, ◌≡◌, refl, sym, ap, ◌∙◌, subst, false, Option, none, some, List, [], ◌∷◌, ◌==◌, nat_eq,
  arith, filter, any, is_empty, get_or, ok,
}
use nti_backend.Domain.{
  ApplicationStatus, application_status_eq, NeedsInfoItemStatus, needs_info_item_status_eq,
}
use nti_backend.Domain.Roles.{AuthenticatedUserContext}
use nti_backend.Store.{Db, Application, NeedsInfoItem, ApplicationStatusEvent}
use nti_backend.Store.Tables.{IsKeyed, update_where}
use nti_backend.Store.Transactions.{>>=-eq-ok}
use nti_backend.Applications.Repository.{
  WorkflowView, find_application, find_by_id_for_workflow, set_status, update_status_if_current,
}
use nti_backend.Applications.Repository.Views.{view_id}
use nti_backend.Applications.Access.{ensure_application_managed_by_team_lead_for_needs_info}
use nti_backend.Applications.Transitions.{
  load_workflow_application_or_throw, record_change, create_status_event, status_event,
  changed_concurrently,
}
use nti_backend.Applications.NeedsInfo.{
  is_unresolved_of, is_answered_of, resolve, find_unresolved_items, load_for_resubmit,
  write_resubmit, resubmit_tx, resubmit, resolve_answered_items,
}
use nti_backend.Applications.History.Reviews.{load_workflow-same}
use nti_backend.Applications.Outcomes.Transactions.{serializable-ok}
use nti_backend.Applications.Outcomes.Transitions.{changed_row}

load_for_resubmit_ok :
    (id user_id : ℕ) (db db' : Db) (v : WorkflowView)
    → load_for_resubmit id user_id db ≡ ok (v, db')
    → (db' ≡ db)
      × (find_by_id_for_workflow id db ≡ some v)
      × (v.team.leader_id ≡ user_id)
      × (is_empty (find_unresolved_items v.application.id db) ≡ false)
      × (any
            (λ i. i.status == NeedsInfoItemStatus.open_item)
            (find_unresolved_items v.application.id db)
          ≡ false)
unfolding load_for_resubmit load_workflow_application_or_throw
    ensure_application_managed_by_team_lead_for_needs_info
load_for_resubmit_ok id user_id db db' v h = ground arith

-- Where no unresolved item is open, resolving the answered ones leaves none unresolved.
all_resolved :
    (id user_id now : ℕ) (items : List NeedsInfoItem)
    → any (λ i. i.status == NeedsInfoItemStatus.open_item) (filter (is_unresolved_of id) items)
      ≡ false
    → filter (is_unresolved_of id) (update_where (is_answered_of id) (resolve user_id now) items)
      ≡ []
unfolding update_where
all_resolved id user_id now [] h = refl
all_resolved id user_id now (i ∷ items) h = ground (arith, all_resolved id user_id now items)

pub record_change_items :
    (id : ℕ) (from to : ApplicationStatus) (at : Option ℕ) (message : String)
    (e : ApplicationStatusEvent) (db db' : Db) (u : Unit {0})
    → record_change (update_status_if_current id from to at) message e db ≡ ok (u, db')
    → db'.needs_info_items ≡ db.needs_info_items
unfolding record_change update_status_if_current create_status_event
record_change_items id from to at message e db db' u h = ground arith

write_resubmit_ok :
    (user_id : ℕ) (message : Option String) (now : ℕ) (v : WorkflowView) (db db' : Db)
    (w : WorkflowView)
    → IsKeyed (λ a. a.id) db.applications
    → write_resubmit user_id message now v db ≡ ok (w, db')
    → (a : Application) × (find_application v.application.id db ≡ some a)
      × (a.status ≡ ApplicationStatus.needs_info)
      × (find_application v.application.id db'
          ≡ some (set_status ApplicationStatus.evaluating none a))
      × (db'.needs_info_items
          ≡ update_where
              (is_answered_of v.application.id)
              (resolve user_id now)
              db.needs_info_items)
unfolding write_resubmit resolve_answered_items find_application
write_resubmit_ok user_id message now v db db' w keyed h =
    let event =
      status_event v.application.id ApplicationStatus.needs_info ApplicationStatus.evaluating
        user_id (some (get_or message "Application resubmitted after needs-info replies")) none in
    let resolved : Db = record db {
      needs_info_items =
          update_where (is_answered_of v.application.id) (resolve user_id now) db.needs_info_items;
    } in
    let (u, db1, changed, loaded) =
      >>=-eq-ok
        (record_change
          (update_status_if_current v.application.id ApplicationStatus.needs_info
            ApplicationStatus.evaluating none)
          changed_concurrently event)
        (λ _. load_workflow_application_or_throw v.application.id) resolved h in
    let same = load_workflow-same v.application.id db1 db' w loaded in
    let (a, found, was, is) =
      changed_row v.application.id ApplicationStatus.needs_info ApplicationStatus.evaluating none
        changed_concurrently event resolved db1 u keyed changed in
    let items =
      record_change_items v.application.id ApplicationStatus.needs_info ApplicationStatus.evaluating
        none changed_concurrently event resolved db1 u changed in
    (
      a,
      found,
      was,
      subst
          (λ d.
            find_application v.application.id d
            ≡ some (set_status ApplicationStatus.evaluating none a))
          (sym same) is,
      ap (λ d. d.needs_info_items) same ∙ items,
    )

resubmit_tx_ok :
    (id : ℕ) (user : AuthenticatedUserContext) (message : Option String) (now : ℕ) (db db' : Db)
    (w : WorkflowView)
    → IsKeyed (λ a. a.id) db.applications
    → resubmit_tx id user message now db ≡ ok (w, db')
    → (v : WorkflowView) × (a : Application) × (find_by_id_for_workflow id db ≡ some v)
      × (v.team.leader_id ≡ user.id)
      × (is_empty (find_unresolved_items id db) ≡ false)
      × (find_unresolved_items id db' ≡ [])
      × (find_application id db ≡ some a)
      × (a.status ≡ ApplicationStatus.needs_info)
      × (find_application id db' ≡ some (set_status ApplicationStatus.evaluating none a))
unfolding resubmit_tx find_unresolved_items
resubmit_tx_ok id user message now db db' w keyed h =
    let (v, db1, loaded, wrote) =
      >>=-eq-ok (load_for_resubmit id user.id) (write_resubmit user.id message now) db h in
    let (same, found, leader, some_left, none_open) =
      load_for_resubmit_ok id user.id db db1 v loaded in
    let here = view_id id db v found in
    let (a, row, was, is, items) =
      write_resubmit_ok user.id message now v db db' w keyed
        (subst (λ d1. write_resubmit user.id message now v d1 ≡ ok (w, db')) same wrote) in
    let left : filter (is_unresolved_of v.application.id) db'.needs_info_items ≡ [] =
      ap (filter (is_unresolved_of v.application.id)) items
      ∙ all_resolved v.application.id user.id now db.needs_info_items none_open in
    (
      v,
      a,
      found,
      leader,
      subst (λ k. is_empty (filter (is_unresolved_of k) db.needs_info_items) ≡ false) here
          some_left,
      subst (λ k. filter (is_unresolved_of k) db'.needs_info_items ≡ []) here left,
      subst (λ k. find_application k db ≡ some a) here row,
      was,
      subst (λ k. find_application k db' ≡ some (set_status ApplicationStatus.evaluating none a))
          here is,
    )

-- Where no two applications have one id: a resubmission that succeeds was made by the team leader
-- of an application in NEEDS_INFO with an unresolved item. It leaves the application in EVALUATING
-- with the rest of its row unchanged, and no item of the application unresolved.
pub resubmit_ok :
    (id : ℕ) (user : AuthenticatedUserContext) (message : Option String) (now : ℕ) (db : Db)
    {db' : Db} {w : WorkflowView}
    → IsKeyed (λ a. a.id) db.applications
    → resubmit id user message now db ≡ (ok w, db')
    → (v : WorkflowView) × (a : Application) × (find_by_id_for_workflow id db ≡ some v)
      × (v.team.leader_id ≡ user.id)
      × (is_empty (find_unresolved_items id db) ≡ false)
      × (find_unresolved_items id db' ≡ [])
      × (find_application id db ≡ some a)
      × (a.status ≡ ApplicationStatus.needs_info)
      × (find_application id db' ≡ some (set_status ApplicationStatus.evaluating none a))
unfolding resubmit
resubmit_ok id user message now db {db'} {w} keyed h =
    resubmit_tx_ok id user message now db db' w keyed
      (serializable-ok (resubmit_tx id user message now) db h)
