-- ===== src/Teams/Tests/Personal.antt =====
-- A user without a team gets one of their own.
use nti_backend.Prelude.{◌≡◌, refl, some, [], ◌∷◌, ok}
use nti_backend.Store.{Db}
use nti_backend.Store.Tables.{find_by_id}
use nti_backend.Applications.Repository.{find_team, members_of_team}
use nti_backend.Applications.Tests.World.{user_of}
use nti_backend.Teams.Repository.{
  TeamWithRelations, team_row, create_team, add_member, find_member, find_active_by_user_id,
  find_team_with_relations,
}
use nti_backend.Teams.Lifecycle.{
  create_with_leader, ensure_one_team, ensure_personal_team_tx, ensure_personal_team_for_user,
  find_current_for_user,
}
use nti_backend.Teams.Roster.{IsSound}
use nti_backend.Teams.Roster.Requests.{with_new_team}
use nti_backend.Teams.Outcomes.Personal.{ensure_personal_team_ok}
use nti_backend.Teams.Tests.World.{invited_db, invited_db-IsSound}

abbrev solo_db : Db
solo_db = record invited_db { users = user_of 8 "new@uni.sk" ∷ [] }

solo_db-IsSound : IsSound 0 solo_db
solo_db-IsSound = record {
  roster = invited_db-IsSound.roster;
  issued = invited_db-IsSound.issued;
  grown = invited_db-IsSound.grown;
}

abbrev solo_team : TeamWithRelations
solo_team = record {
  team = team_row solo_db.next_id "Solo" 8;
  members = record { user_id = 8; user = some (user_of 8 "new@uni.sk") } ∷ [];
}

solo_run :
    ensure_personal_team_for_user 8 "Solo" solo_db ≡ (ok solo_team, with_new_team "Solo" 8 solo_db)
unfolding ensure_personal_team_for_user ensure_personal_team_tx ensure_one_team create_with_leader
    create_team add_member find_member find_active_by_user_id find_team_with_relations find_team
    members_of_team find_by_id
solo_run = refl

ensure_personal_team_ok_example :
    (find_current_for_user 8 (with_new_team "Solo" 8 solo_db) ≡ ok solo_team)
    × (ensure_personal_team_for_user 8 "Solo" (with_new_team "Solo" 8 solo_db)
        ≡ (ok solo_team, with_new_team "Solo" 8 solo_db))
ensure_personal_team_ok_example =
    ensure_personal_team_ok 8 "Solo" solo_db (with_new_team "Solo" 8 solo_db) solo_team
      solo_db-IsSound solo_run
