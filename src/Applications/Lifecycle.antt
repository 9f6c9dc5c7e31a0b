-- ===== src/Applications/Lifecycle.antt =====
-- The nine status changes that reviewer-side users start: the methods `startOnboarding` to
-- `archive` of src/applications/applications.service.ts.
use nti_backend.Prelude.{ℕ, String, Bool, true, false, Option, none, some, List, [], ◌∷◌}
use nti_backend.Domain.{ApplicationStatus}
use nti_backend.Domain.Roles.{AuthenticatedUserContext}
use nti_backend.Store.{Db}
use nti_backend.Applications.Repository.{WorkflowView}
use nti_backend.Applications.Mail.{Email, Response, Notification}
use nti_backend.Applications.Transitions.{Transition, transition_lifecycle, transition_review_state}

-- A transition without a reason, a decision or an e-mail.
abbrev plain : List ApplicationStatus → ApplicationStatus → Transition
plain from to = record {
  from = from;
  to = to;
  reason_required = false;
  sets_decided_at = false;
  notification = none;
}

abbrev pub onboarding_transition : Transition
onboarding_transition = plain (ApplicationStatus.approved ∷ []) ApplicationStatus.onboarding

abbrev pub formal_verify_transition : Transition
formal_verify_transition =
    plain (ApplicationStatus.submitted ∷ []) ApplicationStatus.formally_verified

abbrev pub evaluation_transition : Transition
evaluation_transition =
    plain (ApplicationStatus.formally_verified ∷ []) ApplicationStatus.evaluating

abbrev pub approve_transition : Transition
approve_transition = record {
  from = ApplicationStatus.evaluating ∷ [];
  to = ApplicationStatus.approved;
  reason_required = false;
  sets_decided_at = true;
  notification = some Notification.approved;
}

abbrev pub reject_transition : Transition
reject_transition = record {
  from =
      ApplicationStatus.submitted ∷ ApplicationStatus.formally_verified
      ∷ ApplicationStatus.evaluating ∷ ApplicationStatus.needs_info ∷ [];
  to = ApplicationStatus.rejected;
  reason_required = true;
  sets_decided_at = true;
  notification = some Notification.rejected;
}

abbrev pub activate_transition : Transition
activate_transition =
    plain (ApplicationStatus.onboarding ∷ ApplicationStatus.paused ∷ [])
      ApplicationStatus.active_project

abbrev pub pause_transition : Transition
pause_transition = record {
  from = ApplicationStatus.active_project ∷ [];
  to = ApplicationStatus.paused;
  reason_required = true;
  sets_decided_at = false;
  notification = none;
}

abbrev pub complete_transition : Transition
complete_transition = plain (ApplicationStatus.active_project ∷ []) ApplicationStatus.completed

abbrev pub archive_transition : Transition
archive_transition = record {
  from = ApplicationStatus.completed ∷ [];
  to = ApplicationStatus.archived;
  reason_required = true;
  sets_decided_at = false;
  notification = none;
}

module _ (id : ℕ) (user : AuthenticatedUserContext) (between : Db → Db) where
  unfoldable pub start_onboarding : Db → Response WorkflowView
  start_onboarding = transition_lifecycle onboarding_transition id user none between

  unfoldable pub activate : Db → Response WorkflowView
  activate = transition_lifecycle activate_transition id user none between

  unfoldable pub pause : String → Db → Response WorkflowView
  pause reason = transition_lifecycle pause_transition id user (some reason) between

  unfoldable pub complete : Db → Response WorkflowView
  complete = transition_lifecycle complete_transition id user none between

  unfoldable pub archive : String → Db → Response WorkflowView
  archive reason = transition_lifecycle archive_transition id user (some reason) between

module _ (accepts : Email → Bool) (id : ℕ) (user : AuthenticatedUserContext) (now : ℕ)
    (between : Db → Db) where
  unfoldable pub formal_verify : Option String → Db → Response WorkflowView
  formal_verify reason =
      transition_review_state accepts formal_verify_transition id user reason now between

  unfoldable pub start_evaluation : Option String → Db → Response WorkflowView
  start_evaluation reason =
      transition_review_state accepts evaluation_transition id user reason now between

  unfoldable pub approve : Option String → Db → Response WorkflowView
  approve reason = transition_review_state accepts approve_transition id user reason now between

  unfoldable pub reject : String → Db → Response WorkflowView
  reject reason =
      transition_review_state accepts reject_transition id user (some reason) now between
