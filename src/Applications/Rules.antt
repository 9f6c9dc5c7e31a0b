-- ===== src/Applications/Rules.antt =====
-- src/applications/rules: application-rules.service.ts and application-sections-rules.service.ts.
-- `new Date()` is the argument `now`. A date in a message is left out of its text.
use Prim.Native.String
use nti_backend.Prelude.{
  ℕ, Bool, false, not, ◌&&◌, ◌||◌, Option, none, some, ◌==◌, nat_eq, ltb, is_some, Result, ok, err,
  bad_request, not_found, conflict, forbidden, ensure, option_beq,
}
use nti_backend.Domain.{
  UserRole, user_role_eq, CallStatus, call_status_eq, call_status_text, ApplicationStatus,
  application_status_eq, status_text,
}
use nti_backend.Domain.Roles.{
  AuthenticatedUserContext, is_admin_role, is_reviewer_role, is_team_member,
}
use nti_backend.Store.{Call}
use nti_backend.Store.Transactions.{Tx, ◌>>=◌, ◌>>◌, gets, check, require, require_some}
use nti_backend.Applications.Repository.{
  WorkflowView, member_ids, find_call, find_team, find_active_application_for_team,
}

-- `limit && now < limit`
abbrev pub is_before : ℕ → Option ℕ → Bool
is_before now none = false
is_before now (some at) = ltb now at

-- `limit && now > limit`
abbrev pub is_after : ℕ → Option ℕ → Bool
is_after now none = false
is_after now (some at) = ltb at now

unfoldable pub ensure_call_open_for_applications : Call → ℕ → Result (Unit {0})
ensure_call_open_for_applications call now =
    elim (ensure (call.status == CallStatus.open_call) (
      conflict (
        String.◌++◌ "Call is not open for applications (status: "
          (String.◌++◌ (call_status_text call.status) ")")))) [
            | err e ↦ err e
            | ok _ ↦
                elim (ensure (not (is_before now call.opens_at))
                  (bad_request "Call has not yet opened")) [
                    | err e ↦ err e
                    | ok _ ↦
                        ensure (not (is_after now call.closes_at)) (bad_request "Call has closed")
                  ]
          ]

unfoldable pub validate_application_creation_rules : ℕ → ℕ → ℕ → ℕ → Tx (Unit {0})
validate_application_creation_rules call_id team_id user_id now = do
  found_call ← gets (find_call call_id)
  call ← require_some found_call (not_found "Call not found")
  check (ensure_call_open_for_applications call now)
  found_team ← gets (find_team team_id)
  team ← require_some found_team (not_found "Team not found")
  require (not (is_some team.archived_at))
      (conflict "Team is archived and cannot submit applications")
  active ← gets (find_active_application_for_team team_id)
  require (not (is_some active)) (
      conflict
        "Team already has an active application in another program. Complete or wait for the current participation to end before applying again.")
  require (team.leader_id == user_id)
      (forbidden "Only team lead can submit applications on behalf of the team")

unfoldable pub assert_application_is_draft : ApplicationStatus → Result (Unit {0})
assert_application_is_draft status = ensure (status == ApplicationStatus.draft) (
    bad_request (
      String.◌++◌ "Only draft applications can be modified (status: "
        (String.◌++◌ (status_text status) ")")))

-- `user.role === MENTOR && application.mentorUserId === user.id`
abbrev pub is_assigned_mentor : WorkflowView → AuthenticatedUserContext → Bool
is_assigned_mentor v user =
    user.role == UserRole.mentor && option_beq v.mentor_user_id (some user.id)

-- `isTeamMember(application.team, user.id)`
abbrev pub is_member : WorkflowView → AuthenticatedUserContext → Bool
is_member v user = is_team_member v.team.leader_id (member_ids v) user.id

unfoldable pub assert_read_access : WorkflowView → AuthenticatedUserContext → Result (Unit {0})
assert_read_access v user =
    ensure (is_reviewer_role user.role || is_assigned_mentor v user || is_member v user)
      (forbidden "You do not have permission to view this application")

unfoldable pub assert_write_access : WorkflowView → AuthenticatedUserContext → Result (Unit {0})
assert_write_access v user =
    ensure (v.team.leader_id == user.id)
      (forbidden "Only team lead can update application sections")

unfoldable pub assert_admin_access : AuthenticatedUserContext → Result (Unit {0})
assert_admin_access user = ensure (is_admin_role user.role) (forbidden "Admin access required")
