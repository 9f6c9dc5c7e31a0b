-- ===== src/Teams/Tests/Answers.antt =====
-- Accepting an invitation, and a team that is locked.
use nti_backend.Prelude.{trim, ◌≡◌, refl, some, [], ◌∷◌, ok, err, conflict, Exception}
use nti_backend.Domain.{invitation_status_eq}
use nti_backend.Store.{Db, Team, Invitation}
use nti_backend.Store.Tables.{find_by_id, update_where, count_where}
use nti_backend.Applications.Repository.{find_team}
use nti_backend.Applications.Signals.{recompute_for_team_applications, recompute_each}
use nti_backend.Applications.Tests.World.{team, numbers}
use nti_backend.Teams.Repository.{find_member, add_member}
use nti_backend.Teams.Invitations.{
  find_by_token, find_invitation, mark_accepted_if_pending, update_invitation_where, set_accepted,
}
use nti_backend.Teams.Issue.{normalize_invite_email}
use nti_backend.Teams.Accept.{load_for_accept, write_accept, accept, ensure_marked, already_member}
use nti_backend.Teams.Runs.{MembershipRequest, perform, start, performed, accepted}
use nti_backend.Teams.Roster.{IsSound}
use nti_backend.Teams.Roster.Members.{member}
use nti_backend.Teams.Runs.Soundness.{Run-IsSound}
use nti_backend.Teams.Outcomes.Accept.{accept_ok, accept_once}
use nti_backend.Teams.Outcomes.Locked.{locked_team_refuses}
use nti_backend.Teams.Tests.World.{invitation, invited_db, lower, services, invited_db-IsSound}

abbrev alone : Db → Db
alone db = db

-- User 8 accepts.
abbrev joined_db : Db
joined_db = record invited_db {
  invitations = set_accepted invitation ∷ [];
  team_members =
      record { team_id = 5; user_id = 1 }
      ∷ record { team_id = 5; user_id = 2 }
      ∷ record { team_id = 5; user_id = 8 }
      ∷ [];
}

joined_run :
    accept numbers lower "t0" 8 " new@uni.sk" 20 alone invited_db ≡ (ok (member 5 8), joined_db)
unfolding accept load_for_accept write_accept ensure_marked already_member normalize_invite_email
    find_by_token find_invitation mark_accepted_if_pending update_invitation_where find_member
    add_member find_team find_by_id update_where count_where recompute_for_team_applications
    recompute_each trim
joined_run = refl

accept_ok_example :
    (i : Invitation) × (t : Team) × (i' : Invitation) × (find_by_token "t0" invited_db ≡ some i)
accept_ok_example =
    let done =
      accept_ok numbers lower "t0" 8 " new@uni.sk" 20 alone invited_db
        invited_db-IsSound.issued.keyed joined_run in
    (done.0, done.1, done.2, done.3)

accept_once_example :
    accept numbers lower "t0" 2 "other@uni.sk" 30 alone joined_db
    ≡ (err (conflict "Invitation already accepted"), joined_db)
accept_once_example =
    accept_once numbers lower "t0" 8 " new@uni.sk" 20 invited_db invited_db-IsSound.issued.keyed
      joined_run 2 "other@uni.sk" 30 alone

-- A locked team.
abbrev locked_db : Db
locked_db = record invited_db { teams = record team { locked_at = some 15 } ∷ [] }

locked_team_refuses_example :
    (e : Exception) × (perform numbers (MembershipRequest.remove 2) 5 1 locked_db
      ≡ (err e, locked_db))
locked_team_refuses_example =
    locked_team_refuses numbers (MembershipRequest.remove 2) 5 1 15 locked_db
      (record team { locked_at = some 15 }) (unfold find_team find_by_id in refl) refl

-- User 8 accepts, and the leader hands the team on to them.
abbrev handed_on : Db → Db
handed_on db =
    (perform numbers (MembershipRequest.transfer 8) 5 1
      (accept numbers lower "t0" 8 "new@uni.sk" 20 alone db).1).1

Run-IsSound_example : IsSound 0 (handed_on invited_db)
Run-IsSound_example =
    Run-IsSound services
      (performed (MembershipRequest.transfer 8) 5 1
        (accepted "t0" 8 "new@uni.sk" 20 alone (start invited_db) (start invited_db)))
      invited_db-IsSound
