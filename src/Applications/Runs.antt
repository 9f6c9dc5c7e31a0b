-- ===== src/Applications/Runs.antt =====
-- What the services of src/applications do to the database, one request after another. Between the
-- reads and the writes of a request at READ COMMITTED, any run of other requests may commit.
pub mod Others
pub mod Budgets
pub mod Validity
pub mod Paths
use nti_backend.Prelude.{ℕ, String, Bool, Option, List, [], ◌∷◌, ◌≡◌, ◌≤◌}
use nti_backend.Domain.{ApplicationStatus}
use nti_backend.Domain.Roles.{AuthenticatedUserContext}
use nti_backend.Store.{Db, Application}
use nti_backend.Applications.Repository.{WorkflowView}
use nti_backend.Applications.Mail.{Email, Response}
use nti_backend.Applications.Lifecycle
use nti_backend.Applications.Decision.{ApplicationDecision, create_evaluation, create_decision}
use nti_backend.Applications.NeedsInfo.{create_needs_info_item, reply_to_needs_info_item, resubmit}
use nti_backend.Applications.Documents.{AttachApplicationDocument, attach_document}
use nti_backend.Applications.Draft.{create_application, submit}
use nti_backend.Applications.Signals.{Numbers}
use nti_backend.Applications.History.{status_of}

-- The nine requests of a reviewer-side user, each with the reason it takes.
pub data ReviewerRequest : Type 0 where
  start_onboarding activate complete : ReviewerRequest
  pause archive reject : String → ReviewerRequest
  formal_verify start_evaluation approve : Option String → ReviewerRequest

unfoldable pub perform :
    (Email → Bool)
    → ReviewerRequest
    → ℕ
    → AuthenticatedUserContext
    → ℕ
    → (Db → Db)
    → Db
    → Response WorkflowView
perform accepts ReviewerRequest.start_onboarding id user now between =
    Lifecycle.start_onboarding id user between
perform accepts ReviewerRequest.activate id user now between = Lifecycle.activate id user between
perform accepts ReviewerRequest.complete id user now between = Lifecycle.complete id user between
perform accepts (ReviewerRequest.pause reason) id user now between =
    Lifecycle.pause id user between reason
perform accepts (ReviewerRequest.archive reason) id user now between =
    Lifecycle.archive id user between reason
perform accepts (ReviewerRequest.reject reason) id user now between =
    Lifecycle.reject accepts id user now between reason
perform accepts (ReviewerRequest.formal_verify reason) id user now between =
    Lifecycle.formal_verify accepts id user now between reason
perform accepts (ReviewerRequest.start_evaluation reason) id user now between =
    Lifecycle.start_evaluation accepts id user now between reason
perform accepts (ReviewerRequest.approve reason) id user now between =
    Lifecycle.approve accepts id user now between reason

-- The two tables have the same applications, with the same status and the same two dates.
abbrev pub SameLifecycle : List Application → List Application → Type 0
SameLifecycle [] [] = Unit
SameLifecycle [] (_ ∷ _) = ⊥
SameLifecycle (_ ∷ _) [] = ⊥
SameLifecycle (a ∷ rows) (b ∷ bs) =
    (b.id ≡ a.id)
    × (b.status ≡ a.status)
    × (b.submitted_at ≡ a.submitted_at)
    × (b.decided_at ≡ a.decided_at)
    × SameLifecycle rows bs

-- What the rest of the program does: the assignment of a mentor and the grant budget write other
-- columns of an application, no other service writes an application or a status event, and ids are
-- taken. Removing a team, with its applications, is not a step.
pub record Elsewhere (db db' : Db) : Type 0 where
  pub lifecycle_kept : SameLifecycle db.applications db'.applications
  pub events_kept : db'.status_events ≡ db.status_events
  pub ids_grow : db.next_id ≤ db'.next_id

-- `Run db db'`: requests that take the database from `db` to `db'`.
pub data Run (n : Numbers) (accepts : Email → Bool) : Db → Db → Type 0 where
  start : (db : Db) → Run n accepts db db
  elsewhere : {db db' db2 : Db} → Run n accepts db db' → Elsewhere db' db2 → Run n accepts db db2
  performed :
      {db db' : Db} (request : ReviewerRequest) (id : ℕ) (user : AuthenticatedUserContext) (now : ℕ)
      (between : Db → Db)
      → Run n accepts db db'
      → Run n accepts db' (between db')
      → Run n accepts db (perform accepts request id user now between db').db
  created :
      {db db' : Db} (call_id team_id : ℕ) (user : AuthenticatedUserContext) (now : ℕ)
      (between : Db → Db)
      → Run n accepts db db'
      → Run n accepts db' (between db')
      → Run n accepts db (create_application call_id team_id user now between db').1
  submitted :
      {db db' : Db} (id : ℕ) (user : AuthenticatedUserContext) (checked_at now : ℕ)
      (between : Db → Db)
      → Run n accepts db db'
      → Run n accepts db' (between db')
      → Run n accepts db (submit n accepts id user checked_at now between db').db
  attached :
      {db db' : Db} (id : ℕ) (user : AuthenticatedUserContext) (dto : AttachApplicationDocument)
      → Run n accepts db db'
      → Run n accepts db (attach_document id user dto db').1
  evaluated :
      {db db' : Db} (id : ℕ) (user : AuthenticatedUserContext) (scores : List String)
      (between : Db → Db)
      → Run n accepts db db'
      → Run n accepts db' (between db')
      → Run n accepts db (create_evaluation id user scores between db').1
  decided :
      {db db' : Db} (id : ℕ) (user : AuthenticatedUserContext) (decision : ApplicationDecision)
      (rationale : String) (now : ℕ)
      → Run n accepts db db'
      → Run n accepts db (create_decision accepts id user decision rationale now db').db
  info_requested :
      {db db' : Db} (id : ℕ) (user : AuthenticatedUserContext) (message : String)
      (due_at : Option ℕ)
      → Run n accepts db db'
      → Run n accepts db (create_needs_info_item accepts id user message due_at db').db
  replied :
      {db db' : Db} (id item_id : ℕ) (user : AuthenticatedUserContext) (message : String)
      → Run n accepts db db'
      → Run n accepts db (reply_to_needs_info_item id item_id user message db').1
  resubmitted :
      {db db' : Db} (id : ℕ) (user : AuthenticatedUserContext) (message : Option String) (now : ℕ)
      → Run n accepts db db'
      → Run n accepts db (resubmit id user message now db').1

-- No submission of the run is overtaken: an application that is in DRAFT when `submit` checks it is
-- so still when `submit` writes.
module _ {n : Numbers} {accepts : Email → Bool} where
  abbrev pub IsTimely : {db db' : Db} → Run n accepts db db' → Type 0
  IsTimely (Run.start _) = Unit
  IsTimely (Run.elsewhere run _) = IsTimely run
  IsTimely (Run.performed _ _ _ _ _ run others) = IsTimely run × IsTimely others
  IsTimely (Run.created _ _ _ _ _ run others) = IsTimely run × IsTimely others
  IsTimely (Run.submitted {db' = db'} id _ _ _ between run others) =
      IsTimely run
      × IsTimely others
      × (status_of id db'.applications ≡ ApplicationStatus.draft
          → status_of id (between db').applications ≡ ApplicationStatus.draft)
  IsTimely (Run.attached _ _ _ run) = IsTimely run
  IsTimely (Run.evaluated _ _ _ _ run others) = IsTimely run × IsTimely others
  IsTimely (Run.decided _ _ _ _ _ run) = IsTimely run
  IsTimely (Run.info_requested _ _ _ _ run) = IsTimely run
  IsTimely (Run.replied _ _ _ _ run) = IsTimely run
  IsTimely (Run.resubmitted _ _ _ _ run) = IsTimely run
