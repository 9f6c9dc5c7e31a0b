-- ===== src/Applications/History.antt =====
-- The lifecycle graph, and the history of an application as its status events tell it.
pub mod Changes
pub mod Updates
pub mod Reviews
pub mod Requests
pub mod Drafts
pub mod Records
use nti_backend.Prelude.{
  ℕ, suc, ◌+◌, ◌≡◌, ◌≢◌, refl, Bool, true, false, ◌&&◌, Option, none, some, List, [], ◌∷◌, ◌++◌,
  ◌==◌, ◌<◌, if◌then◌else◌, nat_eq, nat_beq, arith, includes, is_some, All, All-append, inl, inr,
  Option-cases,
}
use nti_backend.Domain.{ApplicationStatus, application_status_eq}
use nti_backend.Store.{Db, Application, ApplicationStatusEvent}
use nti_backend.Store.Tables.{find_by_id, find_by_id-append, IsKeyed}

-- The edges, state by state: where the code lets an application go next. docs/PROGRAM_A_STATUS_MAP.md
-- lacks the one from FORMALLY_VERIFIED to APPROVED, which createDecision has.
abbrev pub next_statuses : ApplicationStatus → List ApplicationStatus
next_statuses ApplicationStatus.draft = ApplicationStatus.submitted ∷ []
next_statuses ApplicationStatus.submitted =
    ApplicationStatus.formally_verified ∷ ApplicationStatus.needs_info ∷ ApplicationStatus.rejected
    ∷ []
next_statuses ApplicationStatus.formally_verified =
    ApplicationStatus.evaluating ∷ ApplicationStatus.needs_info ∷ ApplicationStatus.approved
    ∷ ApplicationStatus.rejected ∷ []
next_statuses ApplicationStatus.evaluating =
    ApplicationStatus.needs_info ∷ ApplicationStatus.approved ∷ ApplicationStatus.rejected ∷ []
next_statuses ApplicationStatus.needs_info =
    ApplicationStatus.evaluating ∷ ApplicationStatus.rejected ∷ []
next_statuses ApplicationStatus.approved = ApplicationStatus.onboarding ∷ []
next_statuses ApplicationStatus.rejected = []
next_statuses ApplicationStatus.onboarding = ApplicationStatus.active_project ∷ []
next_statuses ApplicationStatus.active_project =
    ApplicationStatus.paused ∷ ApplicationStatus.completed ∷ []
next_statuses ApplicationStatus.paused = ApplicationStatus.active_project ∷ []
next_statuses ApplicationStatus.completed = ApplicationStatus.archived ∷ []
next_statuses ApplicationStatus.archived = []

abbrev pub edge : ApplicationStatus → ApplicationStatus → Bool
edge from to = includes (next_statuses from) to

-- One event of the application: it must leave the status that the history has reached, by an edge.
abbrev pub replay_event : ApplicationStatus → ApplicationStatusEvent → Option ApplicationStatus
replay_event s e =
    if s == e.from_status && edge e.from_status e.to_status then some e.to_status else none

abbrev pub replay_step : ℕ → ApplicationStatusEvent → ApplicationStatus → Option ApplicationStatus
replay_step id e s = if e.application_id == id then replay_event s e else some s

-- The status that an application's events lead to from `s`; `none` where they fit no path.
unfoldable pub replay :
    ℕ → ApplicationStatus → List ApplicationStatusEvent → Option ApplicationStatus
replay id s [] = some s
replay id s (e ∷ es) = elim (replay_step id e s) [ none ↦ none | some s' ↦ replay id s' es ]

-- The status of an application, DRAFT where there is none yet.
abbrev pub status_or_draft : Option Application → ApplicationStatus
status_or_draft none = ApplicationStatus.draft
status_or_draft (some a) = a.status

unfoldable pub status_of : ℕ → List Application → ApplicationStatus
status_of id rows = status_or_draft (find_by_id (λ a. a.id) id rows)

-- The statuses after a decision, and those after the submission.
abbrev pub decided_statuses : List ApplicationStatus
decided_statuses =
    ApplicationStatus.approved ∷ ApplicationStatus.rejected ∷ ApplicationStatus.onboarding
    ∷ ApplicationStatus.active_project ∷ ApplicationStatus.paused ∷ ApplicationStatus.completed
    ∷ ApplicationStatus.archived ∷ []

abbrev pub is_submitted : ApplicationStatus → Bool
is_submitted ApplicationStatus.draft = false
is_submitted _ = true

-- A row's dates say what its status says.
pub record IsDated (a : Application) : Type 0 where
  pub decided : is_some a.decided_at ≡ includes decided_statuses a.status
  pub submitted : is_some a.submitted_at ≡ is_submitted a.status

-- The state of the applications: distinct used ids, a log of events that goes on from `past`, and
-- for each application a history that is a path of the graph from DRAFT to its status.
pub record Valid (past : List ApplicationStatusEvent) (rows : List Application)
    (events : List ApplicationStatusEvent) (next : ℕ) : Type 0 where
  pub keyed : IsKeyed (λ a. a.id) rows
  pub used : All (λ a. a.id < next) rows
  pub dated : All IsDated rows
  pub since : (es : List ApplicationStatusEvent) × (events ≡ past ++ es)
  pub history : (id : ℕ) → replay id ApplicationStatus.draft events ≡ some (status_of id rows)

abbrev pub IsValid : List ApplicationStatusEvent → Db → Type 0
IsValid past db = Valid past db.applications db.status_events db.next_id

-- The history of more events goes on from where the first ones lead.
pub replay-append :
    (id : ℕ) (s : ApplicationStatus) {s' : ApplicationStatus} (es : List ApplicationStatusEvent)
    (e : ApplicationStatusEvent)
    → replay id s es ≡ some s'
    → replay id s (es ++ e ∷ []) ≡ replay_step id e s'
unfolding replay
replay-append id s {s'} [] e h = ground arith
replay-append id s {s'} (x ∷ es) e h = elim (Option-cases (replay_step id x s)) [
  | inl stuck ↦ ground arith
  | inr (t, went) ↦ rw (went, replay) (replay-append id t es e (ground arith))
]
