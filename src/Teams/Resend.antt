-- ===== src/Teams/Resend.antt =====
-- `resend` of src/team/invitations/invitation.service.ts. It runs in no transaction: between its
-- statements others may commit, which the model has between the look at the invitation and the
-- update of its token (`between i` before the i-th attempt).
use nti_backend.Prelude.{
  ℕ, String, Bool, not, ◌&&◌, none, some, [], ◌∷◌, if◌then◌else◌, nat_eq, string_eq, ◌==◌, is_some,
  leb, Result, ok, err, conflict, not_found, bad_request, out_of_fuel, unavailable,
}
use nti_backend.Domain.{InvitationStatus, invitation_status_eq}
use nti_backend.Store.{Db, Team, Invitation}
use nti_backend.Store.Transactions.{
  Tx, ◌>>=◌, ◌>>◌, pure, throw, gets, require, require_some, commit,
}
use nti_backend.Teams.Invitations.{find_by_id_and_team, find_invitation, update_token}
use nti_backend.Teams.Tokens.{generate_resend_token, retry, invitation_token_max_retries}
use nti_backend.Teams.Mail.{InvitationEmail, Response}

unfoldable pub load_for_resend : Team → ℕ → ℕ → Tx Invitation
load_for_resend team id now = do
  found ← gets (find_by_id_and_team id team.id)
  i ← require_some found (not_found "Invitation not found")
  require (not (is_some team.locked_at)) (conflict "Team is locked")
  require
      (i.status == InvitationStatus.pending
        && not (is_some i.revoked_at)
        && not (leb i.expires_at now))
      (bad_request "Only pending and non-expired invites can be resent")
  pure i

abbrev pub resent : String → ℕ → Invitation → Invitation
resent token expires_at i = record i {
  token = token;
  status = InvitationStatus.pending;
  expires_at = expires_at;
}

unfoldable pub resend_attempt : (ℕ → String) → ℕ → ℕ → String → ℕ → Tx Invitation
resend_attempt draws rounds id previous expires_at =
    elim (generate_resend_token draws rounds previous) [
      | none ↦ throw out_of_fuel
      | some (token, _) ↦ do
        update_token id token (resent token expires_at)
        found ← gets (find_invitation id)
        require_some found (unavailable "P2025")
    ]

unfoldable pub update_invitation_for_resend :
    (ℕ → ℕ → String) → ℕ → ℕ → String → ℕ → (ℕ → Db → Db) → Db → Result Invitation × Db
update_invitation_for_resend draws rounds id previous expires_at between =
    retry "Failed to resend invitation due to repeated token collisions"
      (λ i db.
        commit (resend_attempt (draws i) rounds id previous expires_at (between i db))
          (between i db))
      invitation_token_max_retries 0

abbrev pub resend_email : Team → Invitation → InvitationEmail
resend_email team i = record {
  invitation_id = i.id;
  email = i.email;
  team_name = team.name;
  token = i.token;
}

-- `update({ id }, { token: previousToken, expiresAt: previousExpiresAt })`
abbrev pub put_back : Invitation → Invitation → Invitation
put_back previous i = record i { token = previous.token; expires_at = previous.expires_at }

unfoldable pub restore : Invitation → Tx (Unit {0})
restore previous = update_token previous.id previous.token (put_back previous)

-- The job goes to the queue; where it is refused, the token and the date are put back. An exception
-- of that update takes the place of the queue's.
unfoldable pub send_or_restore :
    (InvitationEmail → Bool) → Team → Invitation → Result Invitation × Db → Response Invitation
send_or_restore accepts team previous (err e, db) = record { result = err e; db = db; mail = [] }
send_or_restore accepts team previous (ok updated, db) =
    let email = resend_email team updated in
    let (restored, db') = commit (restore previous db) db in
    if accepts email then record { result = ok updated; db = db; mail = email ∷ [] } else record {
      result = elim restored [ ok _ ↦ err (unavailable "queue") | err e ↦ err e ];
      db = db';
      mail = [];
    }

unfoldable pub resend :
    (InvitationEmail → Bool)
    → (ℕ → ℕ → String)
    → ℕ
    → Team
    → ℕ
    → ℕ
    → ℕ
    → (ℕ → Db → Db)
    → Db
    → Response Invitation
resend accepts draws rounds team id now expires_at between db =
    let (loaded, _) = commit (load_for_resend team id now db) db in
    elim loaded [
      | err e ↦ record { result = err e; db = db; mail = [] }
      | ok i ↦
          send_or_restore accepts team i
            (update_invitation_for_resend draws rounds i.id i.token expires_at between db)
    ]
