-- ===== src/Teams/Membership.antt =====
-- Who belongs to a team, in src/team/team.service.ts: removeMember, leaveTeam and
-- transferLeadership, which run under SERIALIZABLE, and the checks they share.
use nti_backend.Prelude.{ℕ, not, nat_eq, ◌==◌, is_some, Result, conflict, not_found, forbidden}
use nti_backend.Store.{Db, Team}
use nti_backend.Store.Transactions.{Tx, ◌>>=◌, ◌>>◌, gets, require, require_some, serializable}
use nti_backend.Applications.Repository.{find_team}
use nti_backend.Applications.Signals.{Numbers, recompute_for_team_applications}
use nti_backend.Teams.Repository.{find_member, delete_membership, update_leader}

unfoldable pub get_team_or_throw : ℕ → Tx Team
get_team_or_throw id = do
  found ← gets (find_team id)
  require_some found (not_found "Team not found")

unfoldable pub ensure_team_leader : Team → ℕ → Tx (Unit {0})
ensure_team_leader team actor_id = require (team.leader_id == actor_id) (forbidden "Forbidden")

unfoldable pub ensure_team_is_unlocked : Team → Tx (Unit {0})
ensure_team_is_unlocked team = require (not (is_some team.locked_at)) (conflict "Team is locked")

unfoldable pub require_member : ℕ → ℕ → Tx (Unit {0})
require_member team_id user_id = do
  found ← gets (find_member team_id user_id)
  require (is_some found) (not_found "Team member not found")

-- `deleteMembership`, the test of its count, and the signals.
unfoldable pub drop_member : Numbers → ℕ → ℕ → Tx (Unit {0})
drop_member n team_id user_id = do
  count ← delete_membership team_id user_id
  require (not (count == 0)) (not_found "Team member not found")
  recompute_for_team_applications n team_id

unfoldable pub remove_member_tx : Numbers → ℕ → ℕ → ℕ → Tx (Unit {0})
remove_member_tx n team_id actor_id member_id = do
  team ← get_team_or_throw team_id
  ensure_team_leader team actor_id
  ensure_team_is_unlocked team
  require (not (member_id == team.leader_id)) (conflict "Cannot remove current team leader")
  require_member team.id member_id
  drop_member n team.id member_id

unfoldable pub remove_member : Numbers → ℕ → ℕ → ℕ → Db → Result (Unit {0}) × Db
remove_member n team_id actor_id member_id =
    serializable (remove_member_tx n team_id actor_id member_id)

unfoldable pub leave_team_tx : Numbers → ℕ → ℕ → Tx (Unit {0})
leave_team_tx n team_id actor_id = do
  team ← get_team_or_throw team_id
  ensure_team_is_unlocked team
  require_member team.id actor_id
  require (not (actor_id == team.leader_id))
      (conflict "Current team leader must transfer leadership before leaving team")
  drop_member n team.id actor_id

unfoldable pub leave_team : Numbers → ℕ → ℕ → Db → Result (Unit {0}) × Db
leave_team n team_id actor_id = serializable (leave_team_tx n team_id actor_id)

unfoldable pub transfer_leadership_tx : Numbers → ℕ → ℕ → ℕ → Tx (Unit {0})
transfer_leadership_tx n team_id actor_id new_leader_id = do
  team ← get_team_or_throw team_id
  ensure_team_leader team actor_id
  ensure_team_is_unlocked team
  require_member team.id new_leader_id
  update_leader team.id new_leader_id
  recompute_for_team_applications n team.id

unfoldable pub transfer_leadership : Numbers → ℕ → ℕ → ℕ → Db → Result (Unit {0}) × Db
transfer_leadership n team_id actor_id new_leader_id =
    serializable (transfer_leadership_tx n team_id actor_id new_leader_id)
