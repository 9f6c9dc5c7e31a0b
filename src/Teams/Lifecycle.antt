-- ===== src/Teams/Lifecycle.antt =====
-- The life of a team in src/team/team.service.ts: create, ensurePersonalTeamForUser, update, remove,
-- the lookups, and createInvites with the e-mail jobs. `expires_at` is what
-- `resolveTeamInvitationExpirationDate` gives.
use nti_backend.Prelude.{
  ℕ, String, Bool, true, false, not, ◌&&◌, Option, none, some, List, [], ◌∷◌, map, if◌then◌else◌,
  nat_eq, string_eq, ◌==◌, filter, is_some, length, ltb, Result, ok, err, conflict, not_found,
  forbidden, internal,
}
use nti_backend.Store.{Db, Team, Invitation}
use nti_backend.Store.Transactions.{
  Tx, ◌>>=◌, ◌>>◌, pure, throw, gets, require, require_some, read_committed, serializable, commit,
}
use nti_backend.Applications.Repository.{Member, find_team}
use nti_backend.Teams.Repository.{
  TeamWithRelations, find_member, find_active_by_user_id, find_team_with_relations, create_team,
  add_member, update_team,
}
use nti_backend.Teams.Invitations.{revoke_all}
use nti_backend.Teams.Issue.{create_invites_in}
use nti_backend.Teams.Issue.{create_invites as create_invitations}
use nti_backend.Teams.Mail.{InvitationEmail, Response}
use nti_backend.Teams.Membership.{ensure_team_leader, ensure_team_is_unlocked}

-- What `create` and `ensurePersonalTeamForUser` share.
unfoldable pub create_with_leader : String → ℕ → Tx TeamWithRelations
create_with_leader name leader_id = do
  team ← create_team name leader_id
  add_member team.id leader_id
  loaded ← gets (find_team_with_relations team.id)
  require_some loaded (internal "Failed to load created team")

abbrev pub minimum_created_count : ℕ
minimum_created_count = 2

unfoldable pub create_tx :
    (String → String)
    → (ℕ → String)
    → ℕ
    → ℕ
    → String
    → List String
    → ℕ
    → ℕ
    → Tx (TeamWithRelations × List Invitation)
create_tx lower draws rounds user_id name emails now expires_at = do
  loaded ← create_with_leader name user_id
  invitations ← create_invites_in lower draws rounds loaded.team.id emails now expires_at
  require (not (ltb (length invitations) minimum_created_count))
      (conflict "At least 2 invitations must be created")
  pure (loaded, invitations)

abbrev pub invitation_email : Team → Invitation → InvitationEmail
invitation_email team i = record {
  invitation_id = i.id;
  email = i.email;
  team_name = team.name;
  token = i.token;
}

-- The loop of `enqueueInvitationEmailsOrRevoke`: the jobs queued, and whether none was refused.
module _ (accepts : InvitationEmail → Bool) where
  unfoldable pub enqueue_in_order : List InvitationEmail → List InvitationEmail × Bool
  enqueue_in_order [] = ([], true)
  enqueue_in_order (email ∷ emails) =
      let (queued, done) = enqueue_in_order emails in
      if accepts email then (email ∷ queued, done) else ([], false)

module _ {A : Type 0} (accepts removes : InvitationEmail → Bool) where
  -- Where a job is refused, the queued ones are removed as far as the queue lets them, and every
  -- invitation of the request is revoked.
  unfoldable pub enqueue_invitation_emails_or_revoke :
      Team → List Invitation → ℕ → A → Db → Response A
  enqueue_invitation_emails_or_revoke team invitations now answer db =
      let (queued, done) = enqueue_in_order accepts (map (invitation_email team) invitations) in
      if done then record { result = ok answer; db = db; mail = queued } else record {
        result = err (internal "Failed to enqueue invitation emails");
        db = revoke_all (map (λ i. i.id) invitations) now db;
        mail = filter (λ e. not (removes e)) queued;
      }

-- The first statement of the transaction writes: the other requests commit before it.
unfoldable pub create :
    (InvitationEmail → Bool)
    → (InvitationEmail → Bool)
    → (String → String)
    → (ℕ → String)
    → ℕ
    → ℕ
    → String
    → List String
    → ℕ
    → ℕ
    → Db
    → Response TeamWithRelations
create accepts removes lower draws rounds user_id name emails now expires_at db =
    let (r, db') = commit (create_tx lower draws rounds user_id name emails now expires_at db) db in
    elim r [
      | err e ↦ record { result = err e; db = db'; mail = [] }
      | ok (loaded, invitations) ↦
          enqueue_invitation_emails_or_revoke accepts removes loaded.team invitations now loaded db'
    ]

-- `members.length === 1 && members[0]?.userId === userId`
unfoldable pub is_sole_member : ℕ → List Member → Bool
is_sole_member user_id [] = false
is_sole_member user_id (m ∷ []) = m.user_id == user_id
is_sole_member user_id (m ∷ k ∷ ms) = false

unfoldable pub should_rename_personal_team : TeamWithRelations → ℕ → String → Bool
should_rename_personal_team t user_id name =
    not (t.team.name == name) && t.team.leader_id == user_id && is_sole_member user_id t.members

-- `update` gives the row that it leaves, with its relations.
unfoldable pub rename_team : ℕ → String → Tx TeamWithRelations
rename_team id name = do
  update_team id (λ t. record t { name = name })
  found ← gets (find_team_with_relations id)
  require_some found (not_found "Team not found")

unfoldable pub ensure_one_team : ℕ → String → List TeamWithRelations → Tx TeamWithRelations
unfolding is_sole_member
ensure_one_team user_id name [] = create_with_leader name user_id
ensure_one_team user_id name (t ∷ []) =
    if should_rename_personal_team t user_id name then rename_team t.team.id name else pure t
ensure_one_team user_id name (t ∷ s ∷ ts) =
    throw (conflict "Multiple active teams found for current user")

unfoldable pub ensure_personal_team_tx : ℕ → String → Tx TeamWithRelations
ensure_personal_team_tx user_id name =
    gets (find_active_by_user_id user_id) >>= ensure_one_team user_id name

unfoldable pub ensure_personal_team_for_user : ℕ → String → Db → Result TeamWithRelations × Db
ensure_personal_team_for_user user_id name = serializable (ensure_personal_team_tx user_id name)

unfoldable pub the_current_team : List TeamWithRelations → Result TeamWithRelations
the_current_team [] = err (not_found "Current team not found")
the_current_team (t ∷ []) = ok t
the_current_team (t ∷ s ∷ ts) = err (conflict "Multiple active teams found for current user")

unfoldable pub find_current_for_user : ℕ → Db → Result TeamWithRelations
find_current_for_user user_id db = the_current_team (find_active_by_user_id user_id db)

unfoldable pub ensure_leader_owned_unarchived_team : ℕ → ℕ → Db → Result Team
ensure_leader_owned_unarchived_team team_id user_id db = elim (find_team team_id db) [
  | none ↦ err (not_found "Team not found")
  | some t ↦
      if not (t.leader_id == user_id)
      then err (forbidden "Only team leader can act on this team")
      else if is_some t.archived_at
      then err (conflict "Archived team cannot be used")
      else ok t
]

-- `isTeamMember`
unfoldable pub is_team_member : ℕ → ℕ → Db → Bool
is_team_member team_id user_id db = is_some (find_member team_id user_id db)

-- `update` reads and checks in statements of their own; others may commit before it writes. The
-- name is the one field of the dto, and it may be absent.
unfoldable pub load_for_update : ℕ → ℕ → Tx TeamWithRelations
load_for_update team_id requester_id = do
  found ← gets (find_team_with_relations team_id)
  t ← require_some found (not_found "Team not found")
  ensure_team_leader t.team requester_id
  ensure_team_is_unlocked t.team
  pure t

unfoldable pub write_update : Option String → TeamWithRelations → Tx TeamWithRelations
write_update none t = pure t
write_update (some name) t = rename_team t.team.id name

unfoldable pub update : ℕ → ℕ → Option String → (Db → Db) → Db → Result TeamWithRelations × Db
update team_id requester_id name between =
    read_committed between (load_for_update team_id requester_id) (write_update name)

-- `createInvites` of the service, for a team that the controller has loaded. The message leaves out
-- the number.
unfoldable pub create_invites :
    (InvitationEmail → Bool)
    → (InvitationEmail → Bool)
    → (String → String)
    → (ℕ → ℕ → String)
    → ℕ
    → Team
    → List String
    → ℕ
    → ℕ
    → ℕ
    → (ℕ → Db → Db)
    → Db
    → Response (List Invitation)
create_invites accepts removes lower draws rounds team emails minimum now expires_at between db =
    if is_some team.locked_at
    then record { result = err (conflict "Team is locked"); db = db; mail = [] }
    else (let (r, db') =
          create_invitations lower draws rounds team.id emails now expires_at between db in
        elim r [
          | err e ↦ record { result = err e; db = db'; mail = [] }
          | ok invitations ↦
              if ltb (length invitations) minimum
              then record {
                result = err (conflict "At least the minimum of invitations must be created");
                db = revoke_all (map (λ i. i.id) invitations) now db';
                mail = [];
              }
              else enqueue_invitation_emails_or_revoke accepts removes team invitations now
                  invitations db'
        ])
