-- ===== src/Applications/Runs/Paths.antt =====
-- What a run does to one application: a path of the lifecycle graph, which the events record.
use nti_backend.Prelude.{
  ℕ, ◌≡◌, refl, sym, ap, ◌∙◌, Bool, true, some, List, [], ◌∷◌, ◌++◌, arith, includes, is_some, ◌==◌,
  Option-cases, inl, inr,
}
use nti_backend.Domain.{ApplicationStatus, application_status_eq, application_status_beq_iff}
use nti_backend.Store.{Db, Application, ApplicationStatusEvent}
use nti_backend.Store.Tables.{find_by_id-All}
use nti_backend.Applications.Repository.{find_application}
use nti_backend.Applications.Mail.{Email}
use nti_backend.Applications.Signals.{Numbers}
use nti_backend.Applications.Runs.{Run, IsTimely}
use nti_backend.Applications.Runs.Validity.{Run-IsValid}
use nti_backend.Applications.History.{
  IsValid, IsDated, replay, replay_step, status_of, edge, next_statuses, decided_statuses,
  is_submitted,
}

++-nil {ℓ} : {A : Type ℓ} (xs : List A) → xs ++ [] ≡ xs
++-nil [] = refl
++-nil (x ∷ xs) = ap (λ ys. x ∷ ys) (++-nil xs)

-- A valid state is one whose log goes on from all the events so far.
restart :
    {past : List ApplicationStatusEvent} (db : Db) → IsValid past db → IsValid db.status_events db
restart db v = record {
  keyed = v.keyed;
  used = v.used;
  dated = v.dated;
  since = ([], sym (++-nil db.status_events));
  history = v.history;
}

-- The events after the first ones start where the first ones lead.
replay-++ :
    (id : ℕ) (s : ApplicationStatus) {s' : ApplicationStatus} (es es' : List ApplicationStatusEvent)
    → replay id s es ≡ some s'
    → replay id s (es ++ es') ≡ replay id s' es'
unfolding replay
replay-++ id s {s'} [] es' h = ground arith
replay-++ id s {s'} (x ∷ es) es' h = elim (Option-cases (replay_step id x s)) [
  | inl stuck ↦ ground arith
  | inr (t, went) ↦ rw (went, replay) (replay-++ id t es es' (ground arith))
]

-- If no submission of a run is overtaken: from a valid state, the events that the run adds are, for each application, a path of the lifecycle
-- graph from the status that it had to the status that it has.
pub Run-path :
    {n : Numbers} {accepts : Email → Bool} {past : List ApplicationStatusEvent} {db db' : Db}
    (run : Run n accepts db db')
    → IsTimely run
    → IsValid past db
    → (es : List ApplicationStatusEvent) × (db'.status_events ≡ db.status_events ++ es)
      × ((id : ℕ)
          → replay id (status_of id db.applications) es ≡ some (status_of id db'.applications))
Run-path {db = db} {db' = db'} run timely v =
    let after = Run-IsValid run timely (restart db v) in
    let (es, added) = after.since in
    (
      es,
      added,
      λ id.
          sym (replay-++ id ApplicationStatus.draft db.status_events es (v.history id))
          ∙ ap (replay id ApplicationStatus.draft) (sym added)
          ∙ after.history id,
    )

-- A set of statuses that no edge leaves is one that no path leaves.
replay_closed :
    (q : ApplicationStatus → Bool)
    → ((s t : ApplicationStatus) → edge s t ≡ true → q s ≡ true → q t ≡ true)
    → (id : ℕ) (s : ApplicationStatus) {s' : ApplicationStatus} (es : List ApplicationStatusEvent)
    → replay id s es ≡ some s'
    → q s ≡ true
    → q s' ≡ true
unfolding replay
replay_closed q closed id s {s'} [] h m = ground arith
replay_closed q closed id s {s'} (x ∷ es) h m = elim (Option-cases (replay_step id x s)) [
  | inl stuck ↦ ground arith
  | inr (t, went) ↦ replay_closed q closed id t es (ground arith) (
      ground
        (arith, closed x.from_status x.to_status, (application_status_beq_iff s x.from_status).0))
]

-- What an edge keeps: a final status, a decision, a submission.
decided_closed :
    (s t : ApplicationStatus)
    → edge s t ≡ true
    → includes decided_statuses s ≡ true
    → includes decided_statuses t ≡ true
decided_closed s t step h = ground arith

-- A status that no edge leaves.
final_closed :
    (q s t : ApplicationStatus)
    → next_statuses q ≡ []
    → edge s t ≡ true
    → (s == q) ≡ true
    → (t == q) ≡ true
final_closed q s t final step h =
    let here : s ≡ q = (application_status_beq_iff s q).0 h in
    let none_left : next_statuses s ≡ [] = ap next_statuses here ∙ final in absurd (ground arith)

submitted_closed :
    (s t : ApplicationStatus) → edge s t ≡ true → is_submitted s ≡ true → is_submitted t ≡ true
submitted_closed s t step h = ground arith

module _ {n : Numbers} {accepts : Email → Bool} {past : List ApplicationStatusEvent} {db db' : Db}
    (run : Run n accepts db db') (timely : IsTimely run) (v : IsValid past db) (id : ℕ) where
  keeps_closed :
      (q : ApplicationStatus → Bool)
      → ((s t : ApplicationStatus) → edge s t ≡ true → q s ≡ true → q t ≡ true)
      → q (status_of id db.applications) ≡ true
      → q (status_of id db'.applications) ≡ true
  keeps_closed q closed h =
      let (es, _, path) = Run-path run timely v in
      replay_closed q closed id (status_of id db.applications) es (path id) h

  -- If no submission of a run from a valid state is overtaken: an application in a status that the
  -- lifecycle graph has no edge from, REJECTED or ARCHIVED, keeps it in the run.
  pub final_stays :
      next_statuses (status_of id db.applications) ≡ []
      → status_of id db'.applications ≡ status_of id db.applications
  final_stays final =
      let was = status_of id db.applications in
      (application_status_beq_iff _ was).0 (
        keeps_closed (λ s. s == was) (λ s t. final_closed was s t final)
          ((application_status_beq_iff was was).1 refl))

  -- If no submission of a run from a valid state is overtaken: an application that is in a decided
  -- status is in one after the run, and does not go back into review.
  pub decided_stays :
      includes decided_statuses (status_of id db.applications) ≡ true
      → includes decided_statuses (status_of id db'.applications) ≡ true
  decided_stays = keeps_closed (includes decided_statuses) decided_closed

  -- If no submission of a run from a valid state is overtaken: an application that is out of DRAFT
  -- does not return to DRAFT in the run.
  pub submitted_stays :
      is_submitted (status_of id db.applications) ≡ true
      → is_submitted (status_of id db'.applications) ≡ true
  submitted_stays = keeps_closed is_submitted submitted_closed

-- If no submission of a run from a valid state is overtaken: the dates of every application that a
-- lookup finds after the run agree with its status. It has a decision date exactly in a decided
-- status, and a submission date exactly out of DRAFT.
pub Run-dates :
    {n : Numbers} {accepts : Email → Bool} {past : List ApplicationStatusEvent} {db db' : Db}
    (run : Run n accepts db db')
    → IsTimely run
    → IsValid past db
    → (id : ℕ) {a : Application} → find_application id db' ≡ some a
    → (is_some a.decided_at ≡ includes decided_statuses a.status)
      × (is_some a.submitted_at ≡ is_submitted a.status)
unfolding find_application
Run-dates {db' = db'} run timely v id found =
    let d =
      find_by_id-All IsDated (λ a. a.id) id db'.applications found
        (Run-IsValid run timely v).dated in
    (d.decided, d.submitted)
