-- ===== src/Applications/Runs/Validity.antt =====
-- Every run keeps the state of the applications valid.
use nti_backend.Prelude.{ℕ, String, Bool, true, Option, List, [], arith, ok, err, Result}
use nti_backend.Domain.{application_status_eq}
use nti_backend.Domain.Roles.{AuthenticatedUserContext}
use nti_backend.Store.{Db, ApplicationStatusEvent}
use nti_backend.Applications.Mail.{Email, enqueue}
use nti_backend.Applications.Transitions.{
  Transition, run_transition, transition_lifecycle, transition_review_state, notify,
}
use nti_backend.Applications.Lifecycle
use nti_backend.Applications.Lifecycle.{
  onboarding_transition, formal_verify_transition, evaluation_transition, approve_transition,
  reject_transition, activate_transition, pause_transition, complete_transition, archive_transition,
}
use nti_backend.Applications.Decision.{create_decision, create_decision_tx, decision_mail}
use nti_backend.Applications.NeedsInfo.{
  create_needs_info_item, create_needs_info_item_tx, needs_info_mail,
}
use nti_backend.Applications.Draft.{submit, submit_tx, submit_mail}
use nti_backend.Applications.Signals.{Numbers}
use nti_backend.Applications.Runs.Run.{
  start, elsewhere, performed, created, submitted, attached, evaluated, decided, info_requested,
  replied, resubmitted,
}
use nti_backend.Applications.Runs.{Run, IsTimely, ReviewerRequest, perform}
use nti_backend.Applications.Runs.Others.{Elsewhere-IsValid}
use nti_backend.Applications.History.{IsValid}
use nti_backend.Applications.History.Reviews.{
  IsLegal, run_transition-IsValid, create_decision-IsValid,
}
use nti_backend.Applications.History.Requests.{
  create_needs_info_item-IsValid, reply_to_needs_info_item-IsValid, resubmit-IsValid,
}
use nti_backend.Applications.History.Drafts.{create_application-IsValid, submit-IsValid}
use nti_backend.Applications.History.Records.{attach_document-IsValid, create_evaluation-IsValid}

-- The e-mails leave the database as the transaction left it.
pub enqueue_keeps :
    {A V : Type 0} (P : Db → Type 0) (accepts : Email → Bool) (mails : V → List Email)
    (answer : V → A) (r : Result V × Db)
    → P r.1
    → P (enqueue accepts mails answer r).db
enqueue_keeps P accepts mails answer (ok v, db) h = h
enqueue_keeps P accepts mails answer (err e, db) h = h

-- The nine transitions follow the graph, and date a decision.
abbrev pub transition_of : ReviewerRequest → Transition
transition_of ReviewerRequest.start_onboarding = onboarding_transition
transition_of ReviewerRequest.activate = activate_transition
transition_of ReviewerRequest.complete = complete_transition
transition_of (ReviewerRequest.pause _) = pause_transition
transition_of (ReviewerRequest.archive _) = archive_transition
transition_of (ReviewerRequest.reject _) = reject_transition
transition_of (ReviewerRequest.formal_verify _) = formal_verify_transition
transition_of (ReviewerRequest.start_evaluation _) = evaluation_transition
transition_of (ReviewerRequest.approve _) = approve_transition

transition-IsLegal : (request : ReviewerRequest) (now : ℕ) → IsLegal (transition_of request) now
transition-IsLegal ReviewerRequest.start_onboarding now s h = ground arith
transition-IsLegal ReviewerRequest.activate now s h = ground arith
transition-IsLegal ReviewerRequest.complete now s h = ground arith
transition-IsLegal (ReviewerRequest.pause _) now s h = ground arith
transition-IsLegal (ReviewerRequest.archive _) now s h = ground arith
transition-IsLegal (ReviewerRequest.reject _) now s h = ground arith
transition-IsLegal (ReviewerRequest.formal_verify _) now s h = ground arith
transition-IsLegal (ReviewerRequest.start_evaluation _) now s h = ground arith
transition-IsLegal (ReviewerRequest.approve _) now s h = ground arith

module _ {past : List ApplicationStatusEvent} (accepts : Email → Bool) (id : ℕ)
    (user : AuthenticatedUserContext) (between : Db → Db) (db : Db)
    (others : IsValid past db → IsValid past (between db)) (valid : IsValid past db) where
  lifecycle-IsValid :
      (t : Transition) (reason : Option String)
      → IsLegal t 0
      → IsValid past (transition_lifecycle t id user reason between db).db
  unfolding transition_lifecycle
  lifecycle-IsValid t reason legal =
      enqueue_keeps (IsValid past) (λ _. true) (λ _. []) (λ v. v)
        (run_transition _ t id user reason 0 between db)
        (run_transition-IsValid _ t id user reason 0 between db legal others valid)

  review-IsValid :
      (t : Transition) (reason : Option String) (now : ℕ)
      → IsLegal t now
      → IsValid past (transition_review_state accepts t id user reason now between db).db
  unfolding transition_review_state
  review-IsValid t reason now legal =
      enqueue_keeps (IsValid past) accepts (notify t reason) (λ v. v)
        (run_transition _ t id user reason now between db)
        (run_transition-IsValid _ t id user reason now between db legal others valid)

  perform-IsValid :
      (request : ReviewerRequest) (now : ℕ)
      → IsValid past (perform accepts request id user now between db).db
  unfolding perform Lifecycle.start_onboarding Lifecycle.activate Lifecycle.complete Lifecycle.pause
      Lifecycle.archive Lifecycle.reject Lifecycle.formal_verify Lifecycle.start_evaluation
      Lifecycle.approve
  perform-IsValid ReviewerRequest.start_onboarding now =
      lifecycle-IsValid onboarding_transition _
        (transition-IsLegal ReviewerRequest.start_onboarding 0)
  perform-IsValid ReviewerRequest.activate now =
      lifecycle-IsValid activate_transition _ (transition-IsLegal ReviewerRequest.activate 0)
  perform-IsValid ReviewerRequest.complete now =
      lifecycle-IsValid complete_transition _ (transition-IsLegal ReviewerRequest.complete 0)
  perform-IsValid (ReviewerRequest.pause r) now =
      lifecycle-IsValid pause_transition _ (transition-IsLegal (ReviewerRequest.pause r) 0)
  perform-IsValid (ReviewerRequest.archive r) now =
      lifecycle-IsValid archive_transition _ (transition-IsLegal (ReviewerRequest.archive r) 0)
  perform-IsValid (ReviewerRequest.reject r) now =
      review-IsValid reject_transition _ now (transition-IsLegal (ReviewerRequest.reject r) now)
  perform-IsValid (ReviewerRequest.formal_verify r) now =
      review-IsValid formal_verify_transition r now
        (transition-IsLegal (ReviewerRequest.formal_verify r) now)
  perform-IsValid (ReviewerRequest.start_evaluation r) now =
      review-IsValid evaluation_transition r now
        (transition-IsLegal (ReviewerRequest.start_evaluation r) now)
  perform-IsValid (ReviewerRequest.approve r) now =
      review-IsValid approve_transition r now (transition-IsLegal (ReviewerRequest.approve r) now)

-- If no submission of a run is overtaken, that is, no application leaves DRAFT between the checks
-- and the writes of a `submit`: the run, with whatever runs of requests commit between the reads and
-- the writes of each request, takes a valid state of the applications to a valid one, and only adds
-- to the log of events.
pub Run-IsValid :
    {n : Numbers} {accepts : Email → Bool} {past : List ApplicationStatusEvent} {db db' : Db}
    (run : Run n accepts db db')
    → IsTimely run
    → IsValid past db
    → IsValid past db'
unfolding create_decision create_needs_info_item submit
Run-IsValid (start _) timely v = v
Run-IsValid (elsewhere run other) timely v = Elsewhere-IsValid other (Run-IsValid run timely v)
Run-IsValid {accepts = accepts} (performed {db' = db'} request id user now between run others)
      timely v =
    perform-IsValid accepts id user between db' (Run-IsValid others timely.1)
      (Run-IsValid run timely.0 v) request now
Run-IsValid (created {db' = db'} call_id team_id user now between run others) timely v =
    create_application-IsValid call_id team_id user now between db' (Run-IsValid others timely.1)
      (Run-IsValid run timely.0 v)
Run-IsValid {n} {accepts} {past} (submitted {db' = db'} id user checked_at now between run others)
      timely v =
    enqueue_keeps (IsValid past) accepts submit_mail (λ v. v)
      (submit_tx n id user checked_at now between db')
      (submit-IsValid n id user checked_at now between db' timely.2 (Run-IsValid others timely.1)
        (Run-IsValid run timely.0 v))
Run-IsValid (attached {db' = db'} id user dto run) timely v =
    attach_document-IsValid id user dto db' (Run-IsValid run timely v)
Run-IsValid (evaluated {db' = db'} id user scores between run others) timely v =
    create_evaluation-IsValid id user scores between db' (Run-IsValid others timely.1)
      (Run-IsValid run timely.0 v)
Run-IsValid {accepts = accepts} {past = past}
      (decided {db' = db'} id user decision rationale now run) timely v =
    enqueue_keeps (IsValid past) accepts (decision_mail decision) (λ v. v)
      (create_decision_tx id user decision rationale now db')
      (create_decision-IsValid id user decision rationale now db' (Run-IsValid run timely v))
Run-IsValid {accepts = accepts} {past = past}
      (info_requested {db' = db'} id user message due_at run) timely v =
    enqueue_keeps (IsValid past) accepts needs_info_mail (λ r. r.1)
      (create_needs_info_item_tx id user message due_at db')
      (create_needs_info_item-IsValid id user message due_at db' (Run-IsValid run timely v))
Run-IsValid (replied {db' = db'} id item_id user message run) timely v =
    reply_to_needs_info_item-IsValid id item_id user message db' (Run-IsValid run timely v)
Run-IsValid (resubmitted {db' = db'} id user message now run) timely v =
    resubmit-IsValid id user message now db' (Run-IsValid run timely v)
