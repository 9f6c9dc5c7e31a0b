-- ===== src/Teams/Tests/Tokens.antt =====
-- Issuing invitations, their e-mails, the listing, and sending one again.
use nti_backend.Prelude.{
  ℕ, zero, suc, ◌<◌, ◌∙◌, sym, ap, String, string_eq, if◌then◌else◌, ◌≡◌, refl, none, some, List,
  [], ◌∷◌, ◌==◌, arith, ok, map,
}
use nti_backend.Domain.{InvitationStatus, invitation_status_eq}
use nti_backend.Store.{Db, Invitation}
use nti_backend.Store.Tables.{find_by_id, update_where}
use nti_backend.Applications.Repository.{members_of_team}
use nti_backend.Applications.Tests.World.{team}
use nti_backend.Teams.Invitations.{
  NewInvitation, find_invitation, create_many, create_invitation, find_by_tokens,
  find_active_invitation_emails, find_existing_member_emails, existing_emails, find_by_id_and_team,
  update_token,
}
use nti_backend.Teams.Tokens.{
  generate_unique_token, build_from, build_invitations_to_create, generate_resend_token, retry,
}
use nti_backend.Teams.Tokens.Ending.{generate_unique_token_ends}
use nti_backend.Teams.Issue.{
  matches_status, resolve_display_invitation_status, filter_invitable_emails, issue,
  insert_invitations, by_tokens, create_attempt,
}
use nti_backend.Teams.Lifecycle.{enqueue_invitation_emails_or_revoke}
use nti_backend.Teams.Resend.{
  load_for_resend, resend_attempt, update_invitation_for_resend, restore, send_or_restore, resend,
}
use nti_backend.Teams.Outcomes.Listing.{matches_status-display}
use nti_backend.Teams.Outcomes.Queue.{IsQueuedOrRevoked, enqueue_or_revoke_lem}
use nti_backend.Teams.Outcomes.Invite.{create_attempt_ok}
use nti_backend.Teams.Outcomes.Resend.{resend_failed}
use nti_backend.Teams.Tests.World.{
  invitation, invited_db, takes_all, refuses, draws, invited_db-IsSound,
}

-- Tokens of one length.
abbrev hex : ℕ → String
hex zero = "00"
hex (suc zero) = "01"
hex (suc (suc zero)) = "10"
hex _ = "11"

abbrev value : String → ℕ
value s = if s == "00" then 0 else if s == "01" then 1 else if s == "10" then 2 else 3

value-hex : (n : ℕ) → n < 4 → value (hex n) ≡ n
value-hex zero b = refl
value-hex (suc zero) b = refl
value-hex (suc (suc zero)) b = refl
value-hex (suc (suc (suc zero))) b = refl
value-hex (suc (suc (suc (suc n)))) b = absurd (omega arith)

hex_distinct : (i j : ℕ) → i < 4 → j < 4 → hex i ≡ hex j → i ≡ j
hex_distinct i j a b same = sym (value-hex i a) ∙ ap value same ∙ value-hex j b

-- Two draws are taken: the third is the token.
generate_unique_token_ends_example :
    (k : ℕ) × (generate_unique_token hex 3 ("00" ∷ "01" ∷ []) 0 ≡ some (hex k, suc k))
generate_unique_token_ends_example =
    let done =
      generate_unique_token_ends hex 3 ("00" ∷ "01" ∷ []) 0
        (λ i j _ b _ d. hex_distinct i j (omega arith) (omega arith)) (omega arith) in
    (done.0, done.1)

-- The date of the open invitation has passed.
matches_status-display_example :
    matches_status InvitationStatus.expired 95 invitation
    ≡ (resolve_display_invitation_status invitation 95 == InvitationStatus.expired)
matches_status-display_example =
    matches_status-display InvitationStatus.expired invitation 95 (λ h. ground arith)

-- The queue refuses the job.
enqueue_or_revoke_lem_example :
    IsQueuedOrRevoked {A = ℕ} refuses takes_all team
      (invitation ∷ [])
      20
      9
      invited_db
      (enqueue_invitation_emails_or_revoke refuses takes_all team (invitation ∷ []) 20 9 invited_db)
enqueue_or_revoke_lem_example =
    enqueue_or_revoke_lem refuses takes_all team (invitation ∷ []) 20 9 invited_db

abbrev alone : Db → Db
alone db = db

abbrev second_invitation : Invitation
second_invitation = record {
  id = 20;
  email = "x@uni.sk";
  token = "";
  status = InvitationStatus.pending;
  team_id = 5;
  expires_at = 99;
  revoked_at = none;
}

abbrev issued_db : Db
issued_db = record invited_db { invitations = invitation ∷ second_invitation ∷ []; next_id = 21 }

-- One e-mail has an invitation, one is the leader's, and one is new.
issued_run :
    create_attempt draws 4 5
      ("new@uni.sk" ∷ "leader@uni.sk" ∷ "x@uni.sk" ∷ [])
      20
      99
      alone
      invited_db
    ≡ (ok (second_invitation ∷ []), issued_db)
unfolding create_attempt filter_invitable_emails find_active_invitation_emails
    find_existing_member_emails existing_emails members_of_team find_by_id issue
    build_invitations_to_create build_from generate_unique_token insert_invitations create_many
    create_invitation find_by_tokens by_tokens
issued_run = refl

create_attempt_ok_example :
    (rows : List NewInvitation) × (map (λ r. r.email) rows
      ≡ filter_invitable_emails 5 ("new@uni.sk" ∷ "leader@uni.sk" ∷ "x@uni.sk" ∷ []) 20 invited_db)
create_attempt_ok_example =
    let done =
      create_attempt_ok draws 4 5 ("new@uni.sk" ∷ "leader@uni.sk" ∷ "x@uni.sk" ∷ []) 20 99 alone
        invited_db issued_run in
    (done.0, done.1)

-- The queue refuses the job of a resend.
resend_failed_example :
    (resend refuses (λ _. draws) 4 team 9 20 99 (λ _ d. d) invited_db).db ≡ invited_db
unfolding resend load_for_resend find_by_id_and_team update_invitation_for_resend retry
    resend_attempt generate_resend_token generate_unique_token update_token find_invitation
    find_by_id update_where send_or_restore restore
resend_failed_example =
    resend_failed refuses (λ _. draws) 4 team 9 20 99 invited_db invited_db-IsSound.issued.keyed
      invited_db-IsSound.issued.apart refl
