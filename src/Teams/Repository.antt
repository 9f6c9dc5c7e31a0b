-- ===== src/Teams/Repository.antt =====
-- src/team/team.repository.ts: the tables of the teams and of their members. `updatedAt` is left
-- out: the order of `findActiveByUserId` decides nothing where the list has one team.
use nti_backend.Prelude.{
  ℕ, String, Bool, not, ◌&&◌, Option, none, some, List, [], ◌∷◌, ◌++◌, map, ◌==◌, if◌then◌else◌,
  nat_eq, find, filter, any, is_some, err, unique_violation, unavailable,
}
use nti_backend.Store.{Db, Team, TeamMember}
use nti_backend.Store.Tables.{update_where, count_where}
use nti_backend.Store.Transactions.{Tx, ◌>>=◌, ◌>>◌, pure, gets, modify, fresh_id}
use nti_backend.Applications.Repository.{Member, find_team, members_of_team}

-- `TeamWithRelations`; the leader's data is only shown.
pub record TeamWithRelations : Type 0 where
  pub team : Team
  pub members : List Member

abbrev pub is_membership : ℕ → ℕ → TeamMember → Bool
is_membership team_id user_id m = m.user_id == user_id && m.team_id == team_id

unfoldable pub find_member : ℕ → ℕ → Db → Option TeamMember
find_member team_id user_id db = find (is_membership team_id user_id) db.team_members

-- `members: { some: { userId } }` for a team that is not archived.
abbrev pub is_active_team_of : ℕ → Db → Team → Bool
is_active_team_of user_id db t =
    not (is_some t.archived_at) && any (is_membership t.id user_id) db.team_members

abbrev pub with_members : Db → Team → TeamWithRelations
with_members db t = record { team = t; members = members_of_team t.id db }

unfoldable pub find_active_by_user_id : ℕ → Db → List TeamWithRelations
find_active_by_user_id user_id db =
    map (with_members db) (filter (is_active_team_of user_id db) db.teams)

-- `findById` with the relations.
unfoldable pub find_team_with_relations : ℕ → Db → Option TeamWithRelations
find_team_with_relations id db = elim (find_team id db) [
  | none ↦ none
  | some t ↦ some (with_members db t)
]

abbrev pub team_row : ℕ → String → ℕ → Team
team_row id name leader_id = record {
  id = id;
  name = name;
  leader_id = leader_id;
  locked_at = none;
  archived_at = none;
}

unfoldable pub create_team : String → ℕ → Tx Team
create_team name leader_id = do
  id ← fresh_id
  let row = team_row id name leader_id
  modify (λ d. record d { teams = d.teams ++ row ∷ [] })
  pure row

-- `create` of a membership under the primary key (userId, teamId).
unfoldable pub add_member : ℕ → ℕ → Tx TeamMember
add_member team_id user_id db =
    let row : TeamMember = record { team_id = team_id; user_id = user_id } in
    if is_some (find_member team_id user_id db)
    then err (unique_violation ("userId" ∷ "teamId" ∷ []))
    else (do modify (λ d. record d { team_members = d.team_members ++ row ∷ [] }); pure row) db

-- `update({ where: { id }, data })`, which throws where the row is not there.
unfoldable pub update_team : ℕ → (Team → Team) → Tx (Unit {0})
update_team id f db =
    if is_some (find_team id db)
    then modify (λ d. record d { teams = update_where (λ t. t.id == id) f d.teams }) db
    else err (unavailable "P2025")

unfoldable pub update_leader : ℕ → ℕ → Tx (Unit {0})
update_leader team_id leader_id = update_team team_id (λ t. record t { leader_id = leader_id })

-- `deleteMany`: the count of the rows that it deleted.
unfoldable pub delete_membership : ℕ → ℕ → Tx ℕ
delete_membership team_id user_id = do
  count ← gets (λ d. count_where (is_membership team_id user_id) d.team_members)
  modify (λ d. record d {
    team_members = filter (λ m. not (is_membership team_id user_id m)) d.team_members;
  })
  pure count
