-- ===== src/Applications/Repository.antt =====
-- src/applications/applications.repository.ts, and what the services of src/applications use of
-- src/applications/calls/calls.repository.ts and src/team/team.repository.ts. A `select` that joins
-- other tables is a view; the foreign keys say that the joined rows are there.
pub mod Views
use nti_backend.Prelude.{
  ℕ, String, Bool, true, false, not, ◌&&◌, Option, none, some, List, [], ◌∷◌, ◌++◌, map, ◌==◌,
  if◌then◌else◌, nat_eq, find, filter, any, includes, is_some, err, unique_violation, unavailable,
}
use nti_backend.Domain.{ApplicationStatus, application_status_eq}
use nti_backend.Store.{Db, User, Team, TeamMember, Call, Application}
use nti_backend.Store.{ApplicationSection, ApplicationDocument}
use nti_backend.Store.Tables.{find_by_id, update_where, count_where}
use nti_backend.Store.Transactions.{Tx, ◌>>=◌, ◌>>◌, pure, gets, modify, fresh_id}

pub record Member : Type 0 where
  pub user_id : ℕ
  pub user : Option User

-- `ApplicationWorkflowView`; `ApplicationWithRelations` is the part without documents and sections.
pub record WorkflowView : Type 0 where
  pub application : Application
  pub open application use *
  pub call : Call
  pub team : Team
  pub members : List Member
  pub documents : List ApplicationDocument
  pub sections : List ApplicationSection

abbrev pub member_ids : WorkflowView → List ℕ
member_ids v = map (λ m. m.user_id) v.members

unfoldable pub find_application : ℕ → Db → Option Application
find_application id db = find_by_id (λ a. a.id) id db.applications

unfoldable pub find_call : ℕ → Db → Option Call
find_call id db = find_by_id (λ c. c.id) id db.calls

unfoldable pub find_team : ℕ → Db → Option Team
find_team id db = find_by_id (λ t. t.id) id db.teams

unfoldable pub members_of_team : ℕ → Db → List Member
members_of_team team_id db =
    map (λ m. record { user_id = m.user_id; user = find_by_id (λ u. u.id) m.user_id db.users })
      (filter (λ m. m.team_id == team_id) db.team_members)

-- The joins of `applicationWorkflowSelect`.
with_relations : Application → Db → Option Call → Option Team → Option WorkflowView
with_relations a db none t = none
with_relations a db (some c) none = none
with_relations a db (some c) (some t) = some (record {
  application = a;
  call = c;
  team = t;
  members = members_of_team a.team_id db;
  documents = filter (λ d. d.application_id == a.id && d.is_active) db.documents;
  sections = filter (λ s. s.application_id == a.id) db.sections;
})

with_relations? : Option Application → Db → Option WorkflowView
unfolding with_relations
with_relations? none db = none
with_relations? (some a) db = with_relations a db (find_call a.call_id db) (find_team a.team_id db)

unfoldable pub find_by_id_for_workflow : ℕ → Db → Option WorkflowView
unfolding with_relations?
find_by_id_for_workflow id db = with_relations? (find_application id db) db

-- The statuses in which `findActiveByTeamAndCall`, and the partial unique index on the table, do
-- not see an application.
abbrev pub closed_statuses : List ApplicationStatus
closed_statuses = ApplicationStatus.rejected ∷ ApplicationStatus.archived ∷ []

abbrev pub is_open_for : ℕ → ℕ → Application → Bool
is_open_for team_id call_id a =
    a.team_id == team_id && a.call_id == call_id && not (includes closed_statuses a.status)

unfoldable pub find_active_by_team_and_call : ℕ → ℕ → Db → Option Application
find_active_by_team_and_call team_id call_id db = find (is_open_for team_id call_id) db.applications

-- The statuses that `findActiveApplicationForTeam` leaves out.
abbrev pub inactive_statuses : List ApplicationStatus
inactive_statuses =
    ApplicationStatus.draft ∷ ApplicationStatus.rejected ∷ ApplicationStatus.archived
    ∷ ApplicationStatus.completed ∷ []

abbrev pub is_active_for : ℕ → Application → Bool
is_active_for team_id a = a.team_id == team_id && not (includes inactive_statuses a.status)

unfoldable pub find_active_application_for_team : ℕ → Db → Option Application
find_active_application_for_team team_id db = find (is_active_for team_id) db.applications

abbrev pub draft_row : ℕ → ℕ → ℕ → ℕ → Application
draft_row id call_id team_id created_by_id = record {
  id = id;
  call_id = call_id;
  team_id = team_id;
  created_by_id = created_by_id;
  mentor_user_id = none;
  status = ApplicationStatus.draft;
  submitted_at = none;
  decided_at = none;
  decision_by_id = none;
  decision_rationale = none;
  grant_budget = none;
}

-- `create` under the partial unique index on the team and the call.
unfoldable pub create_draft : ℕ → ℕ → ℕ → Tx Application
create_draft call_id team_id created_by_id db =
    if any (is_open_for team_id call_id) db.applications
    then err (unique_violation ("teamId" ∷ "callId" ∷ []))
    else (do
      id ← fresh_id
      let row = draft_row id call_id team_id created_by_id
      modify (λ d. record d { applications = d.applications ++ row ∷ [] })
      pure row)
        db

-- `update({ where: { id } })`, which throws where the row is not there.
unfoldable pub update_application : ℕ → (Application → Application) → Tx (Unit {0})
update_application id f db =
    if is_some (find_application id db)
    then modify (λ d. record d { applications = update_where (λ a. a.id == id) f d.applications })
        db
    else err (unavailable "P2025")

unfoldable pub submit_draft : ℕ → ℕ → Tx (Unit {0})
submit_draft id submitted_at =
    update_application id
      (λ a. record a { status = ApplicationStatus.submitted; submitted_at = some submitted_at })

-- `updateMany`: the count of the rows that the condition met.
update_applications_where : ℕ → (Application → Bool) → (Application → Application) → Tx ℕ
update_applications_where id q f = do
  count ← gets (λ d. count_where (λ a. a.id == id && q a) d.applications)
  modify (λ d. record d { applications = update_where (λ a. a.id == id && q a) f d.applications })
  pure count

-- The data of the update: `{ decidedAt }`, or nothing.
abbrev pub set_decided_at : Option ℕ → Application → Application
set_decided_at none a = a
set_decided_at (some at) a = record a { decided_at = some at }

abbrev pub set_status : ApplicationStatus → Option ℕ → Application → Application
set_status next decided_at a = record (set_decided_at decided_at a) { status = next }

unfoldable pub update_status_if_current :
    ℕ → ApplicationStatus → ApplicationStatus → Option ℕ → Tx ℕ
unfolding update_applications_where
update_status_if_current id current next decided_at =
    update_applications_where id (λ a. a.status == current) (set_status next decided_at)

abbrev pub set_decision : ApplicationStatus → ℕ → String → ℕ → Application → Application
set_decision next decision_by_id rationale decided_at a = record a {
  status = next;
  decided_at = some decided_at;
  decision_by_id = some decision_by_id;
  decision_rationale = some rationale;
}

unfoldable pub update_decision_if_current :
    ℕ → ApplicationStatus → ApplicationStatus → ℕ → String → ℕ → Tx ℕ
unfolding update_applications_where
update_decision_if_current id current next decision_by_id rationale decided_at =
    update_applications_where id (λ a. a.status == current && not (is_some a.decided_at))
      (set_decision next decision_by_id rationale decided_at)

-- `teamRepository.update({ id }, { lockedAt })`
unfoldable pub lock_team : ℕ → ℕ → Tx (Unit {0})
lock_team id locked_at db =
    if is_some (find_team id db)
    then modify
        (λ d. record d {
          teams =
              update_where (λ t. t.id == id) (λ t. record t { locked_at = some locked_at }) d.teams;
        })
        db
    else err (unavailable "P2025")
