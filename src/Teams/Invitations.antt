-- ===== src/Teams/Invitations.antt =====
-- src/team/invitations/invitation.repository.ts: the table of the invitations, with its unique
-- index on the token.
use nti_backend.Prelude.{
  ℕ, String, Bool, not, ◌&&◌, Option, none, some, List, [], ◌∷◌, ◌++◌, map, ◌==◌, if◌then◌else◌,
  nat_eq, string_eq, find, filter, any, includes, is_some, err, unique_violation, unavailable, ltb,
}
use nti_backend.Domain.{InvitationStatus, invitation_status_eq}
use nti_backend.Store.{Db, Invitation}
use nti_backend.Store.Tables.{find_by_id, update_where, count_where}
use nti_backend.Store.Transactions.{Tx, ◌>>=◌, ◌>>◌, pure, gets, modify, fresh_id}
use nti_backend.Applications.Repository.{Member, members_of_team}

-- The data of a row to create; its status is PENDING.
pub record NewInvitation : Type 0 where
  pub email : String
  pub token : String
  pub team_id : ℕ
  pub expires_at : ℕ

abbrev pub invitation_row : ℕ → NewInvitation → Invitation
invitation_row id input = record {
  id = id;
  email = input.email;
  token = input.token;
  status = InvitationStatus.pending;
  team_id = input.team_id;
  expires_at = input.expires_at;
  revoked_at = none;
}

abbrev pub has_token : String → Invitation → Bool
has_token token i = i.token == token

unfoldable pub find_by_token : String → Db → Option Invitation
find_by_token token db = find (has_token token) db.invitations

unfoldable pub find_invitation : ℕ → Db → Option Invitation
find_invitation id db = find_by_id (λ i. i.id) id db.invitations

unfoldable pub find_by_id_and_team : ℕ → ℕ → Db → Option Invitation
find_by_id_and_team id team_id db = find (λ i. i.id == id && i.team_id == team_id) db.invitations

unfoldable pub find_by_tokens : List String → Db → List Invitation
find_by_tokens tokens db = filter (λ i. includes tokens i.token) db.invitations

-- One row of a `createMany`, and the `create` of one.
unfoldable pub create_invitation : NewInvitation → Tx (Unit {0})
create_invitation input db =
    if any (has_token input.token) db.invitations
    then err (unique_violation ("token" ∷ []))
    else (do
      id ← fresh_id
      modify (λ d. record d { invitations = d.invitations ++ invitation_row id input ∷ [] }))
        db

unfoldable pub create_many : List NewInvitation → Tx (Unit {0})
create_many [] = pure tt
create_many (row ∷ rows) = create_invitation row >> create_many rows

-- PENDING, not revoked, and not expired.
abbrev pub is_active_at : ℕ → Invitation → Bool
is_active_at now i =
    i.status == InvitationStatus.pending && not (is_some i.revoked_at) && ltb now i.expires_at

unfoldable pub find_active_invitation_emails : ℕ → List String → ℕ → Db → List String
find_active_invitation_emails team_id emails now db =
    map (λ i. i.email)
      (filter (λ i. i.team_id == team_id && includes emails i.email && is_active_at now i)
        db.invitations)

-- The e-mails of the members among `emails`.
unfoldable pub existing_emails : List String → List Member → List String
existing_emails emails [] = []
existing_emails emails (m ∷ ms) = elim m.user [
  | none ↦ existing_emails emails ms
  | some u ↦
      if includes emails u.email
      then u.email ∷ existing_emails emails ms
      else existing_emails emails ms
]

unfoldable pub find_existing_member_emails : ℕ → List String → Db → List String
unfolding existing_emails
find_existing_member_emails team_id emails db = existing_emails emails (members_of_team team_id db)

abbrev pub set_revoked : ℕ → Invitation → Invitation
set_revoked now i = record i { status = InvitationStatus.revoked; revoked_at = some now }

-- `updateMany` of one row under a condition: the count.
unfoldable pub update_invitation_where : ℕ → (Invitation → Bool) → (Invitation → Invitation) → Tx ℕ
update_invitation_where id q f = do
  count ← gets (λ d. count_where (λ i. i.id == id && q i) d.invitations)
  modify (λ d. record d { invitations = update_where (λ i. i.id == id && q i) f d.invitations })
  pure count

unfoldable pub revoke_pending_by_id : ℕ → ℕ → Tx ℕ
unfolding update_invitation_where
revoke_pending_by_id id now = update_invitation_where id (is_active_at now) (set_revoked now)

abbrev pub set_accepted : Invitation → Invitation
set_accepted i = record i { status = InvitationStatus.accepted }

unfoldable pub mark_accepted_if_pending : ℕ → String → ℕ → Tx ℕ
unfolding update_invitation_where
mark_accepted_if_pending id email now =
    update_invitation_where id (λ i. i.email == email && is_active_at now i) set_accepted

-- `revokeInvitations`, whatever the status of the rows.
unfoldable pub revoke_all : List ℕ → ℕ → Db → Db
revoke_all ids now db = record db {
  invitations = update_where (λ i. includes ids i.id) (set_revoked now) db.invitations;
}

-- `update({ where: { id }, data: { token, … } })` under the unique index on the token.
unfoldable pub update_token : ℕ → String → (Invitation → Invitation) → Tx (Unit {0})
update_token id token f db =
    if not (is_some (find_invitation id db))
    then err (unavailable "P2025")
    else if any (λ i. i.token == token && not (i.id == id)) db.invitations
    then err (unique_violation ("token" ∷ []))
    else modify (λ d. record d { invitations = update_where (λ i. i.id == id) f d.invitations }) db
