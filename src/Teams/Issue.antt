-- ===== src/Teams/Issue.antt =====
-- `createInvites`, `revoke`, `resend` and the listing of src/team/invitations/invitation.service.ts.
-- `lower` is `String.prototype.toLowerCase`.
use nti_backend.Prelude.{
  ℕ, String, Bool, not, ◌&&◌, ◌||◌, none, some, List, [], ◌∷◌, ◌++◌, map, if◌then◌else◌, nat_eq,
  string_eq, ◌==◌, find, filter, includes, is_some, unique, leb, trim, Result, ok, err, conflict,
  not_found, bad_request, out_of_fuel,
}
use nti_backend.Domain.{InvitationStatus, invitation_status_eq}
use nti_backend.Store.{Db, Invitation}
use nti_backend.Store.Transactions.{
  Tx, ◌>>=◌, ◌>>◌, pure, throw, gets, require, require_some, read_committed,
}
use nti_backend.Teams.Invitations.{
  NewInvitation, has_token, find_invitation, find_by_token, find_by_tokens, create_many,
  is_active_at, find_active_invitation_emails, find_existing_member_emails, revoke_pending_by_id,
}
use nti_backend.Teams.Tokens.{build_invitations_to_create, retry, invitation_token_max_retries}

unfoldable pub normalize_invite_email : (String → String) → String → String
normalize_invite_email lower email = lower (trim email)

unfoldable pub filter_invitable_emails : ℕ → List String → ℕ → Db → List String
filter_invitable_emails team_id emails now db =
    let blocked =
      find_active_invitation_emails team_id emails now db
      ++ find_existing_member_emails team_id emails db in
    filter (λ e. not (includes blocked e)) emails

-- `invitationsToCreate.map(({ token }) => invitationByToken.get(token)).filter(…)`
unfoldable pub by_tokens : List NewInvitation → List Invitation → List Invitation
by_tokens [] created = []
by_tokens (row ∷ rows) created = elim (find (has_token row.token) created) [
  | none ↦ by_tokens rows created
  | some i ↦ i ∷ by_tokens rows created
]

unfoldable pub insert_invitations : List NewInvitation → Tx (List Invitation)
unfolding by_tokens
insert_invitations rows = do
  create_many rows
  created ← gets (find_by_tokens (map (λ r. r.token) rows))
  pure (by_tokens rows created)

-- What `createWithClient` does once it knows the e-mails that are free.
unfoldable pub issue : (ℕ → String) → ℕ → ℕ → ℕ → List String → Tx (List Invitation)
unfolding insert_invitations
issue draws rounds team_id expires_at [] = pure []
issue draws rounds team_id expires_at (email ∷ emails) =
    elim (build_invitations_to_create draws rounds team_id expires_at (email ∷ emails)) [
      | none ↦ throw out_of_fuel
      | some rows ↦ insert_invitations rows
    ]

-- An attempt on its own: its transaction reads, others may commit, and it writes.
unfoldable pub create_attempt :
    (ℕ → String) → ℕ → ℕ → List String → ℕ → ℕ → (Db → Db) → Db → Result (List Invitation) × Db
create_attempt draws rounds team_id emails now expires_at between =
    read_committed between (gets (filter_invitable_emails team_id emails now))
      (issue draws rounds team_id expires_at)

-- `createWithClient(db)` inside the transaction of another service.
unfoldable pub create_invites_in :
    (String → String) → (ℕ → String) → ℕ → ℕ → List String → ℕ → ℕ → Tx (List Invitation)
create_invites_in lower draws rounds team_id emails now expires_at =
    gets (filter_invitable_emails team_id (unique (map (normalize_invite_email lower) emails)) now)
    >>= issue draws rounds team_id expires_at

-- `createInvites` without an outer transaction: the i-th attempt has the draws `draws i`, and the
-- other transactions commit `between i` in it.
unfoldable pub create_invites :
    (String → String)
    → (ℕ → ℕ → String)
    → ℕ
    → ℕ
    → List String
    → ℕ
    → ℕ
    → (ℕ → Db → Db)
    → Db
    → Result (List Invitation) × Db
create_invites lower draws rounds team_id emails now expires_at between =
    let normalized = unique (map (normalize_invite_email lower) emails) in
    retry "Failed to create invitations due to repeated token collisions"
      (λ i. create_attempt (draws i) rounds team_id normalized now expires_at (between i))
      invitation_token_max_retries 0

-- `revoke`: three statements on their own; others may commit between the first two.
unfoldable pub load_for_revoke : ℕ → ℕ → Tx Invitation
load_for_revoke team_id id = do
  found ← gets (find_invitation id)
  i ← require_some found (not_found "Invitation not found")
  require (i.team_id == team_id) (not_found "Invitation not found")
  pure i

unfoldable pub write_revoke : ℕ → Invitation → Tx Invitation
write_revoke now i = do
  count ← revoke_pending_by_id i.id now
  require (not (count == 0)) (conflict "Invitation is not active")
  found ← gets (find_invitation i.id)
  require_some found (not_found "Invitation not found")

unfoldable pub revoke : ℕ → ℕ → ℕ → (Db → Db) → Db → Result Invitation × Db
revoke team_id id now between =
    read_committed between (load_for_revoke team_id id) (write_revoke now)

-- `validateTokenOrThrow`
unfoldable pub validate_token_or_throw : String → ℕ → Db → Result Invitation
validate_token_or_throw token now db = elim (find_by_token token db) [
  | none ↦ err (not_found "Invitation not found")
  | some i ↦
      if not (i.status == InvitationStatus.pending) || is_some i.revoked_at || leb i.expires_at now
      then err (bad_request "Invitation is expired, revoked, or already accepted")
      else ok i
]

-- `buildStatusWhere`: the rows that the listing selects for a status.
unfoldable pub matches_status : InvitationStatus → ℕ → Invitation → Bool
matches_status InvitationStatus.pending now i = is_active_at now i
matches_status InvitationStatus.expired now i =
    i.status == InvitationStatus.expired
    || i.status == InvitationStatus.pending && not (is_some i.revoked_at) && leb i.expires_at now
matches_status InvitationStatus.accepted now i = i.status == InvitationStatus.accepted
matches_status InvitationStatus.revoked now i =
    i.status == InvitationStatus.revoked || is_some i.revoked_at

-- `resolveDisplayInvitationStatus` of a team invitation, which has no `acceptedAt`.
unfoldable pub resolve_display_invitation_status : Invitation → ℕ → InvitationStatus
resolve_display_invitation_status i now =
    if i.status == InvitationStatus.revoked || is_some i.revoked_at
    then InvitationStatus.revoked
    else if i.status == InvitationStatus.accepted
    then InvitationStatus.accepted
    else if i.status == InvitationStatus.expired || leb i.expires_at now
    then InvitationStatus.expired
    else InvitationStatus.pending
