-- ===== src/Applications/History/Drafts.antt =====
-- Creating and submitting an application keep the state of the applications valid: creating under
-- any valid commits of other transactions, submitting if those leave the application a draft.
use nti_backend.Prelude.{
  ℕ, suc, ◌<◌, ◌≡◌, refl, ap, ◌∙◌, true, none, some, List, [], ◌∷◌, ◌++◌, ◌==◌, nat_eq, arith,
  is_some, All-append, ok, inl, inr, Option-cases,
}
use nti_backend.Domain.{ApplicationStatus, application_status_eq, application_status_beq_iff}
use nti_backend.Domain.Roles.{AuthenticatedUserContext}
use nti_backend.Store.{Db, Application, ApplicationStatusEvent}
use nti_backend.Store.Tables.{
  update_where, find_by_id-append, append-IsKeyed, update_where_narrow, count_where_one,
}
use nti_backend.Store.Transactions.{>>=-eq-ok, read_committed_keeps}
use nti_backend.Applications.Repository.{
  WorkflowView, draft_row, find_application, create_draft, update_application, submit_draft,
  lock_team, find_by_id_for_workflow,
}
use nti_backend.Applications.Repository.Views.{view_id, view_row}
use nti_backend.Applications.Access.{
  ensure_application_is_draft, ensure_application_managed_by_team_lead,
  ensure_application_can_be_submitted,
}
use nti_backend.Applications.Transitions.{
  load_workflow_application_or_throw, create_status_event, status_event,
}
use nti_backend.Applications.Signals.{Numbers, recompute_for_application}
use nti_backend.Applications.Signals.Frame.{recompute_frame}
use nti_backend.Applications.Draft.{
  load_for_create, create_application, load_for_submit, lock_if_unlocked, write_submit, submit_tx,
}
use nti_backend.Applications.History.{status_or_draft, IsValid, Valid, IsDated, status_of}
use nti_backend.Applications.History.Changes.{change-Valid}
use nti_backend.Applications.History.Reviews.{load_workflow-same}
use nti_backend.Applications.History.Requests.{Valid-next}

-- A new draft changes no status: where there is no application, the status counts as DRAFT.
status_of-append_draft :
    (k id call_id team_id user_id : ℕ) (rows : List Application)
    → status_of k (rows ++ draft_row id call_id team_id user_id ∷ []) ≡ status_of k rows
unfolding status_of
status_of-append_draft k id call_id team_id user_id rows =
    rw (find_by_id-append (λ a. a.id) k rows (draft_row id call_id team_id user_id)) (ground arith)

append_draft-Valid :
    {past : List ApplicationStatusEvent} (call_id team_id user_id : ℕ) (db : Db)
    → IsValid past db
    → Valid past
        (db.applications ++ draft_row db.next_id call_id team_id user_id ∷ [])
        db.status_events
        (suc db.next_id)
append_draft-Valid call_id team_id user_id db v = record {
  keyed =
      append-IsKeyed (λ a. a.id) db.applications (draft_row db.next_id call_id team_id user_id)
        v.keyed v.used;
  used =
      All-append (λ a. a.id < suc db.next_id) db.applications _ (Valid-next db v).used
        (omega arith);
  dated =
      All-append IsDated db.applications _ v.dated
        (record { decided = refl; submitted = refl }, tt);
  since = v.since;
  history = λ k.
      rw (status_of-append_draft k db.next_id call_id team_id user_id db.applications)
        (v.history k);
}

create_draft-IsValid :
    {past : List ApplicationStatusEvent} (call_id team_id user_id : ℕ) (db db' : Db)
    (a : Application)
    → create_draft call_id team_id user_id db ≡ ok (a, db')
    → IsValid past db
    → IsValid past db'
unfolding create_draft
create_draft-IsValid call_id team_id user_id db db' a h v =
    let same : db' ≡ record db {
      next_id = suc db.next_id;
      applications = db.applications ++ draft_row db.next_id call_id team_id user_id ∷ [];
    } =
      ground arith in
    rw same (append_draft-Valid call_id team_id user_id db v)

pub create_application-IsValid :
    {past : List ApplicationStatusEvent} (call_id team_id : ℕ) (user : AuthenticatedUserContext)
    (now : ℕ) (between : Db → Db) (db : Db)
    → (IsValid past db → IsValid past (between db))
    → IsValid past db
    → IsValid past (create_application call_id team_id user now between db).1
unfolding create_application
create_application-IsValid {past} call_id team_id user now between db others =
    read_committed_keeps (IsValid past) between (load_for_create call_id team_id user.id now)
      (λ _. create_draft call_id team_id user.id) db others
      (λ _ _ db' a _ h. create_draft-IsValid call_id team_id user.id (between db) db' a h)

abbrev pub submitted_row : ℕ → Application → Application
submitted_row now a = record a { status = ApplicationStatus.submitted; submitted_at = some now }

submitted_row-IsDated :
    (now : ℕ) (a : Application)
    → (a.status == ApplicationStatus.draft) ≡ true
    → IsDated a
    → IsDated (submitted_row now a)
submitted_row-IsDated now a met d =
    let was : a.status ≡ ApplicationStatus.draft =
      (application_status_beq_iff a.status ApplicationStatus.draft).0 met in
    ground arith

-- The writes of a submission on a row that is still a draft.
submit_row-Valid :
    {past : List ApplicationStatusEvent} (id user_id now : ℕ) (db : Db) {a : Application}
    → find_application id db ≡ some a
    → a.status ≡ ApplicationStatus.draft
    → IsValid past db
    → Valid past
        (update_where (λ a. a.id == id) (submitted_row now) db.applications)
        (db.status_events
          ++ status_event id ApplicationStatus.draft ApplicationStatus.submitted user_id none none
            ∷ [])
        db.next_id
unfolding find_application
submit_row-Valid id user_id now db found draft v =
    rw
      (update_where_narrow (λ a. a.id) id (λ a. a.status == ApplicationStatus.draft)
        (submitted_row now) db.applications v.keyed found (rw draft refl))
      (change-Valid id ApplicationStatus.draft ApplicationStatus.submitted
        (λ a. a.status == ApplicationStatus.draft) (submitted_row now) (λ a. refl) (λ a. refl)
        (λ a. (application_status_beq_iff a.status ApplicationStatus.draft).0)
        (submitted_row-IsDated now) db.applications db.status_events db.next_id
        (status_event id ApplicationStatus.draft ApplicationStatus.submitted user_id none none) refl
        refl refl refl
        (count_where_one (λ a. a.id) id (λ a. a.status == ApplicationStatus.draft) db.applications
          v.keyed found (rw draft refl))
        v)

-- The status update of a submission finds its row.
submit_draft_ok :
    (id now : ℕ) (db db' : Db) (u : Unit {0})
    → submit_draft id now db ≡ ok (u, db')
    → (is_some (find_application id db) ≡ true)
      × (db' ≡ record db {
        applications = update_where (λ a. a.id == id) (submitted_row now) db.applications;
      })
unfolding submit_draft update_application
submit_draft_ok id now db db' u h = ground arith

lock_if_unlocked_frame :
    (v : WorkflowView) (now : ℕ) (db db' : Db) (u : Unit {0})
    → lock_if_unlocked v now db ≡ ok (u, db')
    → db' ≡ record db { teams = db'.teams }
unfolding lock_if_unlocked lock_team
lock_if_unlocked_frame v now db db' u h = ground arith

-- What the four steps of a submission add up to.
submit_steps :
    (e : ApplicationStatusEvent) (rows : List Application) (db db1 db2 db3 db' : Db)
    → db1 ≡ record db { applications = rows }
    → db2 ≡ record db1 { status_events = db1.status_events ++ e ∷ []; signals = db2.signals }
    → db3 ≡ record db2 { teams = db3.teams }
    → db' ≡ db3
    → (db'.applications ≡ rows)
      × (db'.status_events ≡ db.status_events ++ e ∷ [])
      × (db'.next_id ≡ db.next_id)
submit_steps e rows db db1 db2 db3 db' one two three four = ground arith

abbrev pub submit_event : ℕ → ℕ → ApplicationStatusEvent
submit_event id user_id =
    status_event id ApplicationStatus.draft ApplicationStatus.submitted user_id none none

-- After the status and its event, a submission writes signals and locks the team.
pub write_submit_frame :
    (n : Numbers) (user_id now : ℕ) (v : WorkflowView) (db db' : Db) (w : WorkflowView)
    → write_submit n user_id now v db ≡ ok (w, db')
    → (is_some (find_application v.application.id db) ≡ true)
      × (db'.applications
          ≡ update_where (λ a. a.id == v.application.id) (submitted_row now) db.applications)
      × (db'.status_events ≡ db.status_events ++ submit_event v.application.id user_id ∷ [])
      × (db'.next_id ≡ db.next_id)
unfolding write_submit create_status_event
write_submit_frame n user_id now v db db' w h =
    let (u1, db1, submitted, h1) = >>=-eq-ok (submit_draft v.application.id now) _ db h in
    let (u2, db2, recomputed, h2) =
      >>=-eq-ok (recompute_for_application n v.application.id) _ _ h1 in
    let (u3, db3, locked, loaded) = >>=-eq-ok (lock_if_unlocked v now) _ db2 h2 in
    let (found, one) = submit_draft_ok v.application.id now db db1 u1 submitted in
    let (rows, events, next) =
      submit_steps (submit_event v.application.id user_id) _ db db1 db2 db3 db' one
        (recompute_frame n v.application.id _ db2 u2 recomputed)
        (lock_if_unlocked_frame v now db2 db3 u3 locked)
        (load_workflow-same v.application.id db3 db' w loaded) in
    (found, rows, events, next)

write_submit-IsValid :
    {past : List ApplicationStatusEvent} (n : Numbers) (user_id now : ℕ) (v : WorkflowView)
    (db db' : Db) (w : WorkflowView)
    → status_of v.application.id db.applications ≡ ApplicationStatus.draft
    → write_submit n user_id now v db ≡ ok (w, db')
    → IsValid past db
    → IsValid past db'
unfolding status_of find_application
write_submit-IsValid n user_id now v db db' w draft h valid =
    let (found, rows, events, next) = write_submit_frame n user_id now v db db' w h in
    elim (Option-cases (find_application v.application.id db)) [
      | inl missing ↦ absurd (ground arith)
      | inr (a, e) ↦
          rw (rows, events, next)
            (submit_row-Valid v.application.id user_id now db e (rw e at draft) valid)
    ]

-- What a submission has checked when it comes to write.
pub load_for_submit_ok :
    (id user_id now : ℕ) (db db' : Db) (v : WorkflowView)
    → load_for_submit id user_id now db ≡ ok (v, db')
    → (find_by_id_for_workflow id db ≡ some v)
      × (v.team.leader_id ≡ user_id)
      × (v.status ≡ ApplicationStatus.draft)
      × (v.team.archived_at ≡ none)
unfolding load_for_submit load_workflow_application_or_throw ensure_application_is_draft
    ensure_application_managed_by_team_lead ensure_application_can_be_submitted
load_for_submit_ok id user_id now db db' v h = ground arith

view_status :
    (id : ℕ) (db : Db) (v : WorkflowView)
    → find_by_id_for_workflow id db ≡ some v
    → status_of id db.applications ≡ v.status
unfolding status_of find_application
view_status id db v h = ap status_or_draft (view_row id db v h)

-- Submitting keeps the applications valid where no other transaction takes the application out of
-- DRAFT between the checks and the writes.
pub submit-IsValid :
    {past : List ApplicationStatusEvent} (n : Numbers) (id : ℕ) (user : AuthenticatedUserContext)
    (checked_at now : ℕ) (between : Db → Db) (db : Db)
    → (status_of id db.applications ≡ ApplicationStatus.draft
        → status_of id (between db).applications ≡ ApplicationStatus.draft)
    → (IsValid past db → IsValid past (between db))
    → IsValid past db
    → IsValid past (submit_tx n id user checked_at now between db).1
unfolding submit_tx
submit-IsValid {past} n id user checked_at now between db draft others =
    read_committed_keeps (IsValid past) between (load_for_submit id user.id checked_at)
      (write_submit n user.id now) db others
      (λ v db1 db' w e h.
        let (found, _, was, _) = load_for_submit_ok id user.id checked_at db db1 v e in
        write_submit-IsValid n user.id now v (between db) db' w
          (rw (view_id id db v found) (draft (view_status id db v found ∙ was))) h)
