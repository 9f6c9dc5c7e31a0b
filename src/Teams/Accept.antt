-- ===== src/Teams/Accept.antt =====
-- `accept` of src/team/invitations/invitation.service.ts: a transaction at the default isolation,
-- READ COMMITTED.
use nti_backend.Prelude.{
  ℕ, String, not, ◌||◌, [], ◌∷◌, if◌then◌else◌, nat_eq, string_eq, ◌==◌, is_some, leb, Result, ok,
  err, conflict, not_found, forbidden,
}
use nti_backend.Domain.{InvitationStatus, invitation_status_eq}
use nti_backend.Store.{Db, TeamMember, Invitation}
use nti_backend.Store.Transactions.{
  Tx, ◌>>=◌, ◌>>◌, pure, throw, gets, require, require_some, read_committed,
}
use nti_backend.Applications.Repository.{find_team}
use nti_backend.Applications.Signals.{Numbers, recompute_for_team_applications}
use nti_backend.Teams.Repository.{find_member, add_member}
use nti_backend.Teams.Invitations.{find_by_token, find_invitation, mark_accepted_if_pending}
use nti_backend.Teams.Tokens.{is_unique_constraint_on_fields}
use nti_backend.Teams.Issue.{normalize_invite_email}

-- The checks before the first write. `email` is the normalized e-mail of the user.
unfoldable pub load_for_accept : String → ℕ → String → ℕ → Tx Invitation
load_for_accept token user_id email now = do
  found ← gets (find_by_token token)
  i ← require_some found (not_found "Invitation not found")
  require (not (i.status == InvitationStatus.accepted)) (conflict "Invitation already accepted")
  require (i.email == email)
      (forbidden "Invitation token does not belong to the authenticated user")
  found_team ← gets (find_team i.team_id)
  team ← require_some found_team (not_found "Team not found")
  require (not (is_some team.locked_at)) (conflict "Team is locked")
  require
      (not (i.status == InvitationStatus.revoked || is_some i.revoked_at || leb i.expires_at now))
      (conflict "Invitation expired or revoked")
  existing ← gets (find_member i.team_id user_id)
  require (not (is_some existing)) (conflict "User is already a team member")
  pure i

-- Why the conditional update met no row.
unfoldable pub explain_refusal : ℕ → Tx (Unit {0})
explain_refusal id = do
  found ← gets (find_invitation id)
  latest ← require_some found (not_found "Invitation not found")
  throw (
      conflict (
        if latest.status == InvitationStatus.accepted
        then "Invitation already accepted"
        else "Invitation expired or revoked"))

unfoldable pub ensure_marked : ℕ → ℕ → Tx (Unit {0})
unfolding explain_refusal
ensure_marked id count = if count == 0 then explain_refusal id else pure tt

-- `catch (error)` around `addMember`
unfoldable pub already_member : {A : Type 0} → Result A → Result A
already_member (ok a) = ok a
already_member (err e) =
    if is_unique_constraint_on_fields ("userId" ∷ "teamId" ∷ []) e
    then err (conflict "User is already a team member")
    else err e

unfoldable pub write_accept : Numbers → ℕ → String → ℕ → Invitation → Tx TeamMember
unfolding ensure_marked
write_accept n user_id email now i = do
  count ← mark_accepted_if_pending i.id email now
  ensure_marked i.id count
  membership ← (λ db. already_member (add_member i.team_id user_id db))
  recompute_for_team_applications n i.team_id
  pure membership

unfoldable pub accept :
    Numbers → (String → String) → String → ℕ → String → ℕ → (Db → Db) → Db → Result TeamMember × Db
accept n lower token user_id user_email now between =
    let email = normalize_invite_email lower user_email in
    read_committed between (load_for_accept token user_id email now)
      (write_accept n user_id email now)
