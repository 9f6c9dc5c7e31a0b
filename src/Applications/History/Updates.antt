-- ===== src/Applications/History/Updates.antt =====
-- The repository's conditional updates, with the status event that follows them, keep the state of
-- the applications valid.
use nti_backend.Prelude.{
  ℕ, String, ◌≡◌, refl, Bool, true, not, ◌&&◌, Option, none, some, List, [], ◌∷◌, ◌++◌, ◌==◌,
  nat_eq, arith, includes, is_some, inl, inr, Bool-cases, ok,
}
use nti_backend.Domain.{ApplicationStatus, application_status_eq, application_status_beq_iff}
use nti_backend.Store.{Db, Application, ApplicationStatusEvent}
use nti_backend.Store.Tables.{update_where, count_where}
use nti_backend.Applications.Repository.{
  set_status, set_decision, update_status_if_current, update_decision_if_current,
}
use nti_backend.Applications.Transitions.{record_change}
use nti_backend.Applications.History.{
  IsValid, IsDated, edge, decided_statuses, is_submitted, IsValid,
}
use nti_backend.Applications.History.Changes.{change-Valid}

-- The dates that an update writes are those that its edge asks for.
abbrev pub DatesAgree : ApplicationStatus → ApplicationStatus → Option ℕ → Type 0
DatesAgree from to none =
    (is_submitted from ≡ is_submitted to)
    × (includes decided_statuses from ≡ includes decided_statuses to)
DatesAgree from to (some at) =
    (is_submitted from ≡ is_submitted to) × (includes decided_statuses to ≡ true)

set_status-IsDated :
    (from to : ApplicationStatus) (at : Option ℕ) (a : Application)
    → DatesAgree from to at
    → a.status ≡ from
    → IsDated a
    → IsDated (set_status to at a)
set_status-IsDated from to none a agree was d = ground arith
set_status-IsDated from to (some at) a agree was d = ground arith

set_decision-IsDated :
    (from to : ApplicationStatus) (user_id : ℕ) (rationale : String) (now : ℕ) (a : Application)
    → DatesAgree from to (some now)
    → a.status ≡ from
    → IsDated a
    → IsDated (set_decision to user_id rationale now a)
set_decision-IsDated from to user_id rationale now a agree was d = ground arith

pub set_status-id :
    (to : ApplicationStatus) (at : Option ℕ) (a : Application) → (set_status to at a).id ≡ a.id
set_status-id to none a = refl
set_status-id to (some at) a = refl

and_left : (a b : Bool) → (a && b) ≡ true → a ≡ true
and_left a b h = ground arith

-- What both updates share: the test `q` and the new row `f`.
module _ (id : ℕ) (from to : ApplicationStatus) (e : ApplicationStatusEvent)
    (at : e.application_id ≡ id) (leaves : e.from_status ≡ from) (reaches : e.to_status ≡ to)
    (step : edge from to ≡ true) where
  pub status_change-IsValid :
      {past : List ApplicationStatusEvent} (decided_at : Option ℕ) (message : String) (db db' : Db)
      (u : Unit {0})
      → DatesAgree from to decided_at
      → record_change (update_status_if_current id from to decided_at) message e db ≡ ok (u, db')
      → IsValid past db
      → IsValid past db'
  unfolding record_change update_status_if_current
  status_change-IsValid decided_at message db db' u agree h v =
      elim (Bool-cases (count_where (λ a. a.id == id && a.status == from) db.applications == 1)) [
        | inl one ↦
            let same : db' ≡ record db {
              applications =
                  update_where (λ a. a.id == id && a.status == from) (set_status to decided_at)
                    db.applications;
              status_events = db.status_events ++ e ∷ [];
            } =
              ground arith in
            rw same (
              change-Valid id from to (λ a. a.status == from) (set_status to decided_at)
                (set_status-id to decided_at) (λ a. refl)
                (λ a. (application_status_beq_iff a.status from).0)
                (λ a met.
                  set_status-IsDated from to decided_at a agree
                    ((application_status_beq_iff a.status from).0 met))
                db.applications db.status_events db.next_id e at leaves reaches step (ground arith)
                v)
        | inr several ↦ absurd (ground arith)
      ]

  pub decision-IsValid :
      {past : List ApplicationStatusEvent} (user_id : ℕ) (rationale : String) (now : ℕ)
      (message : String) (db db' : Db) (u : Unit {0})
      → DatesAgree from to (some now)
      → record_change (update_decision_if_current id from to user_id rationale now) message e db
        ≡ ok (u, db')
      → IsValid past db
      → IsValid past db'
  unfolding record_change update_decision_if_current
  decision-IsValid user_id rationale now message db db' u agree h v =
      elim (Bool-cases (
        count_where (λ a. a.id == id && (a.status == from && not (is_some a.decided_at)))
          db.applications
        == 1)) [
          | inl one ↦
              let same : db' ≡ record db {
                applications =
                    update_where
                      (λ a. a.id == id && (a.status == from && not (is_some a.decided_at)))
                      (set_decision to user_id rationale now) db.applications;
                status_events = db.status_events ++ e ∷ [];
              } =
                ground arith in
              rw same (
                change-Valid id from to (λ a. a.status == from && not (is_some a.decided_at))
                  (set_decision to user_id rationale now) (λ a. refl) (λ a. refl)
                  (λ a met. (application_status_beq_iff a.status from).0 (and_left _ _ met))
                  (λ a met.
                    set_decision-IsDated from to user_id rationale now a agree
                      ((application_status_beq_iff a.status from).0 (and_left _ _ met)))
                  db.applications db.status_events db.next_id e at leaves reaches step
                  (ground arith) v)
          | inr several ↦ absurd (ground arith)
        ]
