-- ===== src/Applications/NeedsInfo.antt =====
-- The needs-info thread: `createNeedsInfoItem`, `replyToNeedsInfoItem` and `resubmit` of
-- src/applications/applications.service.ts, with
-- src/applications/needs-info/needs-info.repository.ts. All three run at SERIALIZABLE.
use Prim.Native.String
use nti_backend.Prelude.{
  ℕ, String, Bool, not, ◌&&◌, Option, none, some, List, [], ◌∷◌, ◌++◌, ◌==◌, if◌then◌else◌, nat_eq,
  find, filter, any, is_empty, is_some, includes, get_or, Result, ok, err, bad_request, not_found,
  conflict, forbidden, unavailable,
}
use nti_backend.Domain.{
  ApplicationStatus, application_status_eq, NeedsInfoItemStatus, needs_info_item_status_eq,
  ProgramType, program_type_eq, status_text,
}
use nti_backend.Domain.Roles.{AuthenticatedUserContext}
use nti_backend.Store.{Db, NeedsInfoItem, NeedsInfoReply}
use nti_backend.Store.Tables.{find_by_id, update_where}
use nti_backend.Store.Transactions.{
  Tx, ◌>>=◌, ◌>>◌, pure, gets, modify, check, require, require_some, fresh_id, serializable,
}
use nti_backend.Applications.Repository.{WorkflowView, update_status_if_current}
use nti_backend.Applications.Access.{
  is_reviewer_side_user, ensure_application_managed_by_team_lead_for_needs_info,
}
use nti_backend.Applications.Mail.{Email, Response, enqueue_needs_info_email, enqueue}
use nti_backend.Applications.Transitions.{
  load_workflow_application_or_throw, record_change, status_event, changed_concurrently,
}

-- `needsInfoItem.create`
create_item : ℕ → String → Option ℕ → ℕ → Tx NeedsInfoItem
create_item application_id message due_at created_by_id = do
  id ← fresh_id
  let item : NeedsInfoItem = record {
    id = id;
    application_id = application_id;
    message = message;
    due_at = due_at;
    created_by_id = created_by_id;
    status = NeedsInfoItemStatus.open_item;
    resolved_by_id = none;
    resolved_at = none;
  }
  modify (λ d. record d { needs_info_items = d.needs_info_items ++ item ∷ [] })
  pure item

unfoldable pub find_item_for_application : ℕ → ℕ → Db → Option NeedsInfoItem
find_item_for_application application_id item_id db =
    find (λ i. i.id == item_id && i.application_id == application_id) db.needs_info_items

-- `needsInfoReply.create`
create_reply : ℕ → String → ℕ → Tx NeedsInfoReply
create_reply item_id message created_by_id = do
  id ← fresh_id
  let reply : NeedsInfoReply = record {
    id = id;
    needs_info_item_id = item_id;
    message = message;
    created_by_id = created_by_id;
  }
  modify (λ d. record d { needs_info_replies = d.needs_info_replies ++ reply ∷ [] })
  pure reply

-- `update({ where: { id } })`
unfoldable pub mark_item_answered : ℕ → Tx (Unit {0})
mark_item_answered item_id db =
    if is_some (find_by_id (λ i. i.id) item_id db.needs_info_items)
    then modify
        (λ d. record d {
          needs_info_items =
              update_where (λ i. i.id == item_id)
                (λ i. record i { status = NeedsInfoItemStatus.answered }) d.needs_info_items;
        })
        db
    else err (unavailable "P2025")

abbrev pub unresolved_statuses : List NeedsInfoItemStatus
unresolved_statuses = NeedsInfoItemStatus.open_item ∷ NeedsInfoItemStatus.answered ∷ []

abbrev pub is_unresolved_of : ℕ → NeedsInfoItem → Bool
is_unresolved_of application_id i =
    i.application_id == application_id && includes unresolved_statuses i.status

unfoldable pub find_unresolved_items : ℕ → Db → List NeedsInfoItem
find_unresolved_items application_id db =
    filter (is_unresolved_of application_id) db.needs_info_items

abbrev pub is_answered_of : ℕ → NeedsInfoItem → Bool
is_answered_of application_id i =
    i.application_id == application_id && i.status == NeedsInfoItemStatus.answered

abbrev pub resolve : ℕ → ℕ → NeedsInfoItem → NeedsInfoItem
resolve resolved_by_id resolved_at i = record i {
  status = NeedsInfoItemStatus.resolved;
  resolved_by_id = some resolved_by_id;
  resolved_at = some resolved_at;
}

unfoldable pub resolve_answered_items : ℕ → ℕ → ℕ → Tx (Unit {0})
resolve_answered_items application_id resolved_by_id resolved_at = modify (λ d. record d {
  needs_info_items =
      update_where (is_answered_of application_id) (resolve resolved_by_id resolved_at)
        d.needs_info_items;
})

abbrev pub needs_info_statuses : List ApplicationStatus
needs_info_statuses =
    ApplicationStatus.submitted ∷ ApplicationStatus.formally_verified ∷ ApplicationStatus.evaluating
    ∷ []

unfoldable pub load_for_request : ℕ → Tx WorkflowView
load_for_request id = do
  v ← load_workflow_application_or_throw id
  require (includes needs_info_statuses v.status) (
      bad_request (
        String.◌++◌ "Needs-info request is not allowed for application status "
          (status_text v.status)))
  λ db. ok (v, db)

unfoldable pub write_request :
    ℕ → String → Option ℕ → WorkflowView → Tx (WorkflowView × NeedsInfoItem)
unfolding create_item
write_request user_id message due_at v = do
  item ← create_item v.application.id message due_at user_id
  record_change
      (update_status_if_current v.application.id v.status ApplicationStatus.needs_info none)
      changed_concurrently
      (status_event v.application.id v.status ApplicationStatus.needs_info user_id (some message)
        (some item.id))
  pure (v, item)

unfoldable pub request_info :
    ℕ → AuthenticatedUserContext → String → Option ℕ → Tx (WorkflowView × NeedsInfoItem)
request_info id user message due_at = do
  v ← load_for_request id
  write_request user.id message due_at v

unfoldable pub create_needs_info_item_tx :
    ℕ
    → AuthenticatedUserContext
    → String
    → Option ℕ
    → Db
    → Result (WorkflowView × NeedsInfoItem) × Db
create_needs_info_item_tx id user message due_at db =
    if is_reviewer_side_user user
    then serializable (request_info id user message due_at) db
    else (err (forbidden "Only reviewer-side users can request additional information"), db)

-- Unlike the transitions, this one asks for no program: an e-mail goes out for Program A only.
abbrev pub needs_info_mail : WorkflowView × NeedsInfoItem → List Email
needs_info_mail (v, item) =
    if v.call.type == ProgramType.program_a then enqueue_needs_info_email v else []

unfoldable pub create_needs_info_item :
    (Email → Bool) → ℕ → AuthenticatedUserContext → String → Option ℕ → Db → Response NeedsInfoItem
unfolding create_needs_info_item_tx
create_needs_info_item accepts id user message due_at db =
    enqueue accepts needs_info_mail (λ r. r.1) (create_needs_info_item_tx id user message due_at db)

-- `if (item.status === OPEN) await markItemAnswered(item.id)`
unfoldable pub answer_if_open : NeedsInfoItem → Tx (Unit {0})
unfolding mark_item_answered
answer_if_open item =
    if item.status == NeedsInfoItemStatus.open_item then mark_item_answered item.id else pure tt

unfoldable pub reply : ℕ → ℕ → AuthenticatedUserContext → String → Tx NeedsInfoReply
unfolding create_reply answer_if_open
reply id item_id user message = do
  v ← load_workflow_application_or_throw id
  check (ensure_application_managed_by_team_lead_for_needs_info v user.id)
  require (v.status == ApplicationStatus.needs_info)
      (bad_request "Needs-info replies are allowed only while application is in NEEDS_INFO status")
  found ← gets (find_item_for_application v.application.id item_id)
  item ← require_some found (not_found "Needs-info item not found")
  require (not (item.status == NeedsInfoItemStatus.resolved))
      (conflict "Needs-info item is already resolved")
  row ← create_reply item.id message user.id
  answer_if_open item
  pure row

unfoldable pub reply_to_needs_info_item :
    ℕ → ℕ → AuthenticatedUserContext → String → Db → Result NeedsInfoReply × Db
reply_to_needs_info_item id item_id user message db =
    serializable (reply id item_id user message) db

-- The reads and checks of `resubmit`.
unfoldable pub load_for_resubmit : ℕ → ℕ → Tx WorkflowView
load_for_resubmit id user_id = do
  v ← load_workflow_application_or_throw id
  check (ensure_application_managed_by_team_lead_for_needs_info v user_id)
  require (v.status == ApplicationStatus.needs_info)
      (bad_request "Application can be resubmitted only from NEEDS_INFO status")
  unresolved ← gets (find_unresolved_items v.application.id)
  require (not (is_empty unresolved)) (bad_request "Application has no unresolved needs-info items")
  require (not (any (λ i. i.status == NeedsInfoItemStatus.open_item) unresolved))
      (bad_request "Application cannot be resubmitted while some needs-info items are still open")
  λ db. ok (v, db)

unfoldable pub write_resubmit : ℕ → Option String → ℕ → WorkflowView → Tx WorkflowView
write_resubmit user_id message now v = do
  resolve_answered_items v.application.id user_id now
  record_change
      (update_status_if_current v.application.id ApplicationStatus.needs_info
        ApplicationStatus.evaluating none)
      changed_concurrently
      (status_event v.application.id ApplicationStatus.needs_info ApplicationStatus.evaluating
        user_id (some (get_or message "Application resubmitted after needs-info replies")) none)
  load_workflow_application_or_throw v.application.id

unfoldable pub resubmit_tx : ℕ → AuthenticatedUserContext → Option String → ℕ → Tx WorkflowView
resubmit_tx id user message now = do
  v ← load_for_resubmit id user.id
  write_resubmit user.id message now v

unfoldable pub resubmit :
    ℕ → AuthenticatedUserContext → Option String → ℕ → Db → Result WorkflowView × Db
resubmit id user message now db = serializable (resubmit_tx id user message now) db
