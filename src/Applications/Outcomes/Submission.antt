-- ===== src/Applications/Outcomes/Submission.antt =====
-- The outcome of creating and of submitting an application.
use nti_backend.Prelude.{
  ℕ, ◌≤◌, ◌≡◌, ◌↔◌, refl, subst, true, false, Option, none, some, [], ◌∷◌, ◌++◌, ◌==◌, nat_eq,
  arith, any, is_some, ltb, ok, inl, inr, Bool-cases, Option-cases,
}
use nti_backend.Domain.{
  ApplicationStatus, application_status_eq, CallStatus, call_status_eq, ProgramType,
  program_type_eq,
}
use nti_backend.Domain.Roles.{AuthenticatedUserContext}
use nti_backend.Store.{Db, Application, Call, Team}
use nti_backend.Store.Tables.{find_by_id, find_by_id-key, find_by_id-update_where, update_where}
use nti_backend.Store.Transactions.{read_committed}
use nti_backend.Applications.Repository.{
  WorkflowView, find_application, find_by_id_for_workflow, find_call, find_team, is_open_for,
  draft_row, find_active_application_for_team, create_draft,
}
use nti_backend.Applications.Repository.Views.{view_id}
use nti_backend.Applications.Rules.{
  is_before, is_after, ensure_call_open_for_applications, validate_application_creation_rules,
}
use nti_backend.Applications.Access.{
  ensure_application_is_draft, ensure_application_managed_by_team_lead,
  ensure_application_can_be_submitted, ensure_required_program_a_sections_complete,
}
use nti_backend.Applications.Documents.{build_document_completeness}
use nti_backend.Applications.Transitions.{load_workflow_application_or_throw}
use nti_backend.Applications.Signals.{Numbers}
use nti_backend.Applications.Draft.{
  load_for_create, create_application, load_for_submit, write_submit, submit_tx,
  ensure_program_a_complete,
}
use nti_backend.Applications.History.Drafts.{submitted_row, submit_event, write_submit_frame}
use nti_backend.Applications.Outcomes.Transactions.{read_committed-ok}
use nti_backend.Applications.Outcomes.Pack.{translated-ok}

is_before_iff :
    (now : ℕ) (o : Option ℕ) → (is_before now o ≡ false) ↔ ((at : ℕ) → o ≡ some at → at ≤ now)
is_before_iff now none = (λ _ at e. absurd (ground arith), λ _. refl)
is_before_iff now (some x) = (λ h at e. ground arith, λ h. ltb_of_le (h x refl))
  where
    ltb_of_le : x ≤ now → ltb now x ≡ false
    ltb_of_le h = ground arith

is_after_iff :
    (now : ℕ) (o : Option ℕ) → (is_after now o ≡ false) ↔ ((at : ℕ) → o ≡ some at → now ≤ at)
is_after_iff now none = (λ _ at e. absurd (ground arith), λ _. refl)
is_after_iff now (some x) = (λ h at e. ground arith, λ h. ltb_of_le (h x refl))
  where
    ltb_of_le : now ≤ x → ltb x now ≡ false
    ltb_of_le h = ground arith

open_tests :
    (call : Call) (now : ℕ)
    → (ensure_call_open_for_applications call now ≡ ok tt) ↔ (
        (call.status ≡ CallStatus.open_call)
        × (is_before now call.opens_at ≡ false)
        × (is_after now call.closes_at ≡ false))
unfolding ensure_call_open_for_applications
open_tests call now = ground arith

-- A call takes applications exactly while its status is OPEN and the time is within the limits that
-- it sets.
pub ensure_call_open_iff :
    (call : Call) (now : ℕ)
    → (ensure_call_open_for_applications call now ≡ ok tt) ↔ (
        (call.status ≡ CallStatus.open_call)
        × ((at : ℕ) → call.opens_at ≡ some at → at ≤ now)
        × ((at : ℕ) → call.closes_at ≡ some at → now ≤ at))
ensure_call_open_iff call now = (
  λ h.
      let (opened, begun, not_over) = (open_tests call now).0 h in
      (
        opened,
        (is_before_iff now call.opens_at).0 begun,
        (is_after_iff now call.closes_at).0 not_over,
      ),
  λ (opened, begun, not_over). (open_tests call now).1 (
    opened,
    (is_before_iff now call.opens_at).1 begun,
    (is_after_iff now call.closes_at).1 not_over,
  ),
)

load_for_create_ok :
    (call_id team_id user_id now : ℕ) (db db' : Db) (u : Unit {0})
    → load_for_create call_id team_id user_id now db ≡ ok (u, db')
    → (call : Call) × (team : Team) × (find_call call_id db ≡ some call)
      × (find_team team_id db ≡ some team)
      × (ensure_call_open_for_applications call now ≡ ok tt)
      × (team.archived_at ≡ none)
      × (team.leader_id ≡ user_id)
      × (find_active_application_for_team team_id db ≡ none)
unfolding load_for_create validate_application_creation_rules
load_for_create_ok call_id team_id user_id now db db' u h = ground arith

create_draft_ok :
    (call_id team_id user_id : ℕ) (db db' : Db) (a : Application)
    → create_draft call_id team_id user_id db ≡ ok (a, db')
    → (any (is_open_for team_id call_id) db.applications ≡ false)
      × (a ≡ draft_row db.next_id call_id team_id user_id)
      × (db'.applications ≡ db.applications ++ a ∷ [])
      × (db'.status_events ≡ db.status_events)
unfolding create_draft
create_draft_ok call_id team_id user_id db db' a h = ground arith

-- The Program A checks read the view and write nothing.
complete_ok :
    (v : WorkflowView) (db db' : Db) (u : Unit {0})
    → ensure_program_a_complete v db ≡ ok (u, db')
    → (db' ≡ db)
      × (v.call.type ≡ ProgramType.program_a
          → (ensure_required_program_a_sections_complete v ≡ ok tt)
            × ((build_document_completeness v).is_complete ≡ true))
unfolding ensure_program_a_complete
complete_ok v db db' u h = elim (Bool-cases (v.call.type == ProgramType.program_a)) [
  | inr other ↦ (ground arith, λ program. absurd (ground arith))
  | inl program ↦
      let checked : (ensure_required_program_a_sections_complete v ≡ ok tt)
          × ((build_document_completeness v).is_complete ≡ true)
          × (db' ≡ db) =
        ground arith in
      (checked.2, λ _. (checked.0, checked.1))
]

load_for_submit_open :
    (id user_id now : ℕ) (db db' : Db) (v : WorkflowView)
    → load_for_submit id user_id now db ≡ ok (v, db')
    → (find_by_id_for_workflow id db ≡ some v)
      × (v.team.leader_id ≡ user_id)
      × (v.status ≡ ApplicationStatus.draft)
      × (v.team.archived_at ≡ none)
      × (ensure_call_open_for_applications v.call now ≡ ok tt)
      × (ensure_program_a_complete v db ≡ ok (tt, db'))
unfolding load_for_submit load_workflow_application_or_throw ensure_application_is_draft
    ensure_application_managed_by_team_lead ensure_application_can_be_submitted
load_for_submit_open id user_id now db db' v h = ground arith

submitted_find :
    (id now : ℕ) (db db' : Db)
    → is_some (find_application id db) ≡ true
    → db'.applications ≡ update_where (λ a. a.id == id) (submitted_row now) db.applications
    → (a : Application) × (find_application id db ≡ some a)
      × (find_application id db' ≡ some (submitted_row now a))
unfolding find_application
submitted_find id now db db' found rows =
    elim (Option-cases (find_by_id (λ a. a.id) id db.applications)) [
      | inl missing ↦ absurd (ground arith)
      | inr (a, row) ↦
          let here : a.id ≡ id = find_by_id-key (λ a. a.id) id db.applications row in
          (
            a,
            row,
            rw
                (
                  rows,
                  find_by_id-update_where (λ a. a.id) (λ a. a.id == id) (submitted_row now)
                      (λ a. refl) id db.applications,
                  row,
                )
                (ground arith),
          )
    ]

-- A submission that succeeds was made by the team leader, in DRAFT, of a team that is not archived,
-- to a call that took applications when it was checked, with every section and required document of
-- Program A. Its row is then SUBMITTED with the date, and the log has the event DRAFT to SUBMITTED,
-- whatever status other requests gave the application between the checks and the writes.
pub submit_ok :
    (n : Numbers) (id : ℕ) (user : AuthenticatedUserContext) (checked_at now : ℕ)
    (between : Db → Db) (db : Db) {w : WorkflowView} {db' : Db}
    → submit_tx n id user checked_at now between db ≡ (ok w, db')
    → (v : WorkflowView) × (a : Application) × (find_by_id_for_workflow id db ≡ some v)
      × (v.team.leader_id ≡ user.id)
      × (v.status ≡ ApplicationStatus.draft)
      × (v.team.archived_at ≡ none)
      × (ensure_call_open_for_applications v.call checked_at ≡ ok tt)
      × (v.call.type ≡ ProgramType.program_a
          → (ensure_required_program_a_sections_complete v ≡ ok tt)
            × ((build_document_completeness v).is_complete ≡ true))
      × (find_application id (between db) ≡ some a)
      × (find_application id db' ≡ some (submitted_row now a))
      × (db'.status_events ≡ (between db).status_events ++ submit_event id user.id ∷ [])
unfolding submit_tx
submit_ok n id user checked_at now between db {w} {db'} h =
    let (v, db1, loaded, wrote) =
      read_committed-ok between (load_for_submit id user.id checked_at) (write_submit n user.id now)
        db h in
    let (found, leader, draft, archived, open_, complete) =
      load_for_submit_open id user.id checked_at db db1 v loaded in
    let here = view_id id db v found in
    let (there, rows, events, _) = write_submit_frame n user.id now v (between db) db' w wrote in
    let (a, row, is) = submitted_find v.application.id now (between db) db' there rows in
    (
      v,
      a,
      found,
      leader,
      draft,
      archived,
      open_,
      (complete_ok v db db1 tt complete).1,
      subst (λ k. find_application k (between db) ≡ some a) here row,
      subst (λ k. find_application k db' ≡ some (submitted_row now a)) here is,
      subst (λ k. db'.status_events ≡ (between db).status_events ++ submit_event k user.id ∷ [])
          here events,
    )

-- A draft is created by the leader of a team that is not archived and has no active application,
-- for a call that takes applications. When it is written, no other open application of the team for
-- the call is there, whatever other requests committed meanwhile. The row is the one new row of the
-- table, in DRAFT, and no status event is written.
pub create_application_ok :
    (call_id team_id : ℕ) (user : AuthenticatedUserContext) (now : ℕ) (between : Db → Db) (db : Db)
    {a : Application} {db' : Db}
    → create_application call_id team_id user now between db ≡ (ok a, db')
    → (call : Call) × (team : Team) × (find_call call_id db ≡ some call)
      × (find_team team_id db ≡ some team)
      × (ensure_call_open_for_applications call now ≡ ok tt)
      × (team.archived_at ≡ none)
      × (team.leader_id ≡ user.id)
      × (find_active_application_for_team team_id db ≡ none)
      × (any (is_open_for team_id call_id) (between db).applications ≡ false)
      × (a ≡ draft_row (between db).next_id call_id team_id user.id)
      × (db'.applications ≡ (between db).applications ++ a ∷ [])
      × (db'.status_events ≡ (between db).status_events)
unfolding create_application
create_application_ok call_id team_id user now between db {a} {db'} h =
    let reads = load_for_create call_id team_id user.id now in
    let writes = λ (u : Unit {0}). create_draft call_id team_id user.id in
    let (u, db1, loaded, wrote) =
      read_committed-ok between reads writes db
        (translated-ok _ (read_committed between reads writes db) h) in
    let (call, team, c, t, open_, live, leader, free) =
      load_for_create_ok call_id team_id user.id now db db1 u loaded in
    let (unique_, row, rows, events) =
      create_draft_ok call_id team_id user.id (between db) db' a wrote in
    (call, team, c, t, open_, live, leader, free, unique_, row, rows, events)
