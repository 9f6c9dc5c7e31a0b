-- ===== src/Teams/Roster.antt =====
-- What holds of the tables of src/team at all times: `IsSound`, and which changes keep it.
pub mod Members
pub mod Issued
pub mod Requests
pub mod Issuing
pub mod Answering
pub mod Creating
use nti_backend.Prelude.{
  ℕ, ◌≡◌, ◌≤◌, ◌<◌, Bool, true, false, ◌||◌, Option, List, ◌==◌, string_eq, find, is_some, All,
}
use nti_backend.Domain.{InvitationStatus, invitation_status_eq}
use nti_backend.Store.{Db, Team, TeamMember, Invitation}
use nti_backend.Store.Tables.{IsKeyed}
use nti_backend.Store.Apart.{IsApart}
use nti_backend.Teams.Repository.{is_membership}

abbrev pub same_membership : TeamMember → TeamMember → Bool
same_membership a b = is_membership a.team_id a.user_id b

abbrev pub same_token : Invitation → Invitation → Bool
same_token a b = b.token == a.token

-- The leader of a team is one of its members.
abbrev pub IsLed : List TeamMember → Team → Type 0
IsLed members t = is_some (find (is_membership t.id t.leader_id) members) ≡ true

-- Team ids are distinct and used, a user is in a team once, and every team is led by a member.
pub record IsRoster (teams : List Team) (members : List TeamMember) (next : ℕ) : Type 0 where
  pub keyed : IsKeyed (λ t. t.id) teams
  pub used : All (λ t. t.id < next) teams
  pub apart : IsApart same_membership members
  pub known : All (λ m. m.team_id < next) members
  pub led : All (IsLed members) teams

-- An invitation with a date of revocation is not ACCEPTED or EXPIRED.
abbrev pub IsConsistent : Invitation → Type 0
IsConsistent i =
    is_some i.revoked_at ≡ true
    → (i.status == InvitationStatus.accepted || i.status == InvitationStatus.expired) ≡ false

-- Invitation ids are distinct and used, tokens are distinct, and the rows are consistent; the team
-- of an invitation has a used id.
pub record IsIssued (invitations : List Invitation) (next : ℕ) : Type 0 where
  pub keyed : IsKeyed (λ i. i.id) invitations
  pub used : All (λ i. i.id < next) invitations
  pub apart : IsApart same_token invitations
  pub consistent : All IsConsistent invitations
  pub known : All (λ i. i.team_id < next) invitations

-- `past` is an id that was the next one before.
pub record IsSound (past : ℕ) (db : Db) : Type 0 where
  pub roster : IsRoster db.teams db.team_members db.next_id
  pub issued : IsIssued db.invitations db.next_id
  pub grown : past ≤ db.next_id
