-- ===== src/Applications/Access.antt =====
-- src/applications/application-access.service.ts. A method that throws or returns nothing is a
-- check; a chain of early returns that ends in a throw is one test.
use Prim.Native.String
use nti_backend.Prelude.{
  ℕ, String, Bool, not, ◌&&◌, ◌||◌, List, [], ◌∷◌, map, ◌==◌, nat_eq, string_eq, is_some, filter,
  any, all, includes, is_empty, length, unique, Result, ok, err, bad_request, conflict, forbidden,
  ensure,
}
use nti_backend.Domain.{
  ProgramType, program_type_eq, ApplicationStatus, application_status_eq, status_text,
}
use nti_backend.Domain.Roles.{AuthenticatedUserContext, is_admin_role, is_reviewer_role}
use nti_backend.Store.{ApplicationEvaluation}
use nti_backend.Applications.Repository.{WorkflowView}
use nti_backend.Applications.Rules.{
  ensure_call_open_for_applications, is_assigned_mentor, is_member,
}

abbrev pub required_evaluation_criterion_codes : List String
required_evaluation_criterion_codes =
    "TECHNICAL_QUALITY" ∷ "BUSINESS_VALUE" ∷ "TEAM_CAPABILITY" ∷ []

abbrev pub program_a_tracking_statuses : List ApplicationStatus
program_a_tracking_statuses =
    ApplicationStatus.approved ∷ ApplicationStatus.onboarding ∷ ApplicationStatus.active_project
    ∷ ApplicationStatus.paused ∷ ApplicationStatus.completed ∷ []

-- `PROGRAM_A_SECTION_KEYS` of src/programs/program-a/program-a-application-sections.contract.ts.
abbrev pub program_a_section_keys : List String
program_a_section_keys =
    "idea_overview" ∷ "category_and_stack" ∷ "team_setup" ∷ "execution_plan" ∷ "business_case"
    ∷ "risks" ∷ []

abbrev pub is_reviewer_side_user : AuthenticatedUserContext → Bool
is_reviewer_side_user user = is_reviewer_role user.role

abbrev pub evaluation_statuses : List ApplicationStatus
evaluation_statuses = ApplicationStatus.formally_verified ∷ ApplicationStatus.evaluating ∷ []

unfoldable pub ensure_application_can_be_evaluated : ApplicationStatus → Result (Unit {0})
ensure_application_can_be_evaluated status = ensure (includes evaluation_statuses status) (
    bad_request (
      String.◌++◌ "Evaluation workflow is not allowed for application status "
        (status_text status)))

-- The codes that a message lists, joined by commas.
join : List String → String
join [] = ""
join (x ∷ []) = x
join (x ∷ y ∷ rest) = String.◌++◌ x (String.◌++◌ ", " (join (y ∷ rest)))

unfoldable pub validate_evaluation_scores : List String → Result (Unit {0})
unfolding join
validate_evaluation_scores submitted =
    let codes = unique submitted in
    let missing = filter (λ c. not (includes codes c)) required_evaluation_criterion_codes in
    let unknown = filter (λ c. not (includes required_evaluation_criterion_codes c)) submitted in
    elim (ensure (length codes == length submitted)
      (bad_request "Duplicate evaluation criterion codes")) [
        | err e ↦ err e
        | ok _ ↦
            elim (ensure (is_empty missing)
              (bad_request (String.◌++◌ "Missing required evaluation criteria: " (join missing)))) [
                | err e ↦ err e
                | ok _ ↦
                    ensure (is_empty unknown)
                      (bad_request (String.◌++◌ "Unknown evaluation criteria: " (join unknown)))
              ]
      ]

abbrev pub is_complete_evaluation : ApplicationEvaluation → Bool
is_complete_evaluation e =
    all (λ code. includes e.criterion_codes code) required_evaluation_criterion_codes

unfoldable pub ensure_evaluation_completeness : List ApplicationEvaluation → Result (Unit {0})
ensure_evaluation_completeness evaluations =
    elim (ensure (not (is_empty evaluations))
      (bad_request "At least one complete evaluation is required before final decision")) [
        | err e ↦ err e
        | ok _ ↦ ensure (any is_complete_evaluation evaluations) (
            bad_request
              "At least one evaluation must contain all required criteria before final decision")
      ]

unfoldable pub validate_needs_info_thread_access :
    WorkflowView → AuthenticatedUserContext → Result (Unit {0})
validate_needs_info_thread_access v user =
    ensure (is_reviewer_side_user user || is_member v user)
      (forbidden "You do not have access to this application")

unfoldable pub validate_eligibility_signals_access :
    WorkflowView → AuthenticatedUserContext → Result (Unit {0})
validate_eligibility_signals_access v user =
    ensure (is_reviewer_side_user user || is_member v user)
      (forbidden "You do not have permission to view eligibility signals")

unfoldable pub ensure_program_a_document_workflow : WorkflowView → Result (Unit {0})
ensure_program_a_document_workflow v =
    ensure (v.call.type == ProgramType.program_a)
      (conflict "Application document pack is supported only for Program A applications")

unfoldable pub ensure_program_a_mentorship_workflow : WorkflowView → Result (Unit {0})
ensure_program_a_mentorship_workflow v =
    ensure (v.call.type == ProgramType.program_a)
      (conflict "Program A mentorship is supported only for Program A applications")

unfoldable pub ensure_program_a_application_lifecycle : WorkflowView → Result (Unit {0})
ensure_program_a_application_lifecycle v =
    ensure (v.call.type == ProgramType.program_a)
      (conflict "Program A post-approval lifecycle is supported only for Program A applications")

unfoldable pub ensure_program_a_tracking_workflow : WorkflowView → Result (Unit {0})
unfolding ensure_program_a_application_lifecycle
ensure_program_a_tracking_workflow v = elim (ensure_program_a_application_lifecycle v) [
  | err e ↦ err e
  | ok _ ↦ ensure (includes program_a_tracking_statuses v.status) (
      bad_request (
        String.◌++◌
          "Program A tracking is allowed only for approved/post-approval applications. Current status: "
          (status_text v.status)))
]

unfoldable pub ensure_program_a_tracking_read_access :
    WorkflowView → AuthenticatedUserContext → Result (Unit {0})
ensure_program_a_tracking_read_access v user =
    ensure (is_reviewer_side_user user || is_assigned_mentor v user)
      (forbidden "Only reviewer-side users or the assigned mentor can view Program A tracking")

unfoldable pub ensure_program_a_tracking_access :
    WorkflowView → AuthenticatedUserContext → Result (Unit {0})
ensure_program_a_tracking_access v user =
    ensure (is_admin_role user.role || is_assigned_mentor v user)
      (forbidden "Only administrators or the assigned mentor can manage Program A tracking")

unfoldable pub ensure_mentor_assigned : WorkflowView → Result (Unit {0})
ensure_mentor_assigned v =
    ensure (is_some v.mentor_user_id) (bad_request "Application has no assigned mentor")

unfoldable pub ensure_mentorship_access :
    WorkflowView → AuthenticatedUserContext → Result (Unit {0})
ensure_mentorship_access v user =
    ensure (is_admin_role user.role || is_assigned_mentor v user)
      (forbidden "Only the assigned mentor or an administrator can access mentorship notes")

unfoldable pub ensure_mentorship_read_access :
    WorkflowView → AuthenticatedUserContext → Result (Unit {0})
ensure_mentorship_read_access v user =
    ensure (is_admin_role user.role || is_assigned_mentor v user || is_member v user)
      (forbidden "Only the assigned mentor or an administrator can access mentorship notes")

unfoldable pub ensure_archived_application_is_read_only_for_non_admin :
    WorkflowView → AuthenticatedUserContext → Result (Unit {0})
ensure_archived_application_is_read_only_for_non_admin v user =
    ensure (not (v.status == ApplicationStatus.archived && not (is_admin_role user.role)))
      (conflict "Archived applications are read-only for non-admin users")

unfoldable pub ensure_application_managed_by_team_lead : WorkflowView → ℕ → Result (Unit {0})
ensure_application_managed_by_team_lead v user_id =
    ensure (v.team.leader_id == user_id)
      (forbidden "Only team lead can manage application documents and submission")

unfoldable pub ensure_application_managed_by_team_lead_for_needs_info :
    WorkflowView → ℕ → Result (Unit {0})
ensure_application_managed_by_team_lead_for_needs_info v user_id =
    ensure (v.team.leader_id == user_id)
      (forbidden "Only team lead can reply to needs-info requests and resubmit the application")

unfoldable pub ensure_application_is_draft : WorkflowView → Result (Unit {0})
ensure_application_is_draft v = ensure (v.status == ApplicationStatus.draft) (
    conflict (
      String.◌++◌ "Only draft applications can be modified or submitted (status: "
        (String.◌++◌ (status_text v.status) ")")))

unfoldable pub ensure_application_can_be_submitted : WorkflowView → ℕ → Result (Unit {0})
ensure_application_can_be_submitted v now =
    elim (ensure (not (is_some v.team.archived_at))
      (conflict "Team is archived and cannot submit applications")) [
        | err e ↦ err e
        | ok _ ↦ ensure_call_open_for_applications v.call now
      ]

unfoldable pub ensure_required_program_a_sections_complete : WorkflowView → Result (Unit {0})
unfolding join
ensure_required_program_a_sections_complete v =
    let completed = map (λ s. s.key) (filter (λ s. is_some s.active_version) v.sections) in
    let missing = filter (λ key. not (includes completed key)) program_a_section_keys in
    ensure (is_empty missing)
      (conflict (String.◌++◌ "Application is missing required Program A sections: " (join missing)))

unfoldable pub validate_application_access :
    WorkflowView → AuthenticatedUserContext → Result (Unit {0})
validate_application_access v user =
    ensure (is_reviewer_side_user user || is_member v user)
      (forbidden "You do not have permission to view this application")

unfoldable pub validate_application_detail_access :
    WorkflowView → AuthenticatedUserContext → Result (Unit {0})
validate_application_detail_access v user =
    ensure (is_reviewer_side_user user || is_assigned_mentor v user || is_member v user)
      (forbidden "You do not have permission to view this application")
