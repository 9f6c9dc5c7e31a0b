-- ===== src/Teams/Outcomes/Listing.antt =====
-- What the listing of the invitations shows.
use nti_backend.Prelude.{ℕ, ◌≡◌, ◌==◌, arith}
use nti_backend.Domain.{InvitationStatus, invitation_status_eq}
use nti_backend.Store.{Invitation}
use nti_backend.Teams.Issue.{matches_status, resolve_display_invitation_status}
use nti_backend.Teams.Roster.{IsConsistent}

-- If an invitation with a date of revocation is not ACCEPTED or EXPIRED: the listing selects an invitation for a
-- status exactly if this is the status that it shows.
pub matches_status-display :
    (status : InvitationStatus) (i : Invitation) (now : ℕ)
    → IsConsistent i
    → matches_status status now i ≡ (resolve_display_invitation_status i now == status)
unfolding matches_status resolve_display_invitation_status
matches_status-display InvitationStatus.pending i now c = ground arith
matches_status-display InvitationStatus.accepted i now c = ground arith
matches_status-display InvitationStatus.expired i now c = ground arith
matches_status-display InvitationStatus.revoked i now c = ground arith
