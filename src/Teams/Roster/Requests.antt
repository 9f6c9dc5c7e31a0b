-- ===== src/Teams/Roster/Requests.antt =====
-- The requests on teams and their members keep the tables sound.
use nti_backend.Prelude.{
  ℕ, suc, String, ◌≡◌, ◌≢◌, refl, sym, ap, ◌∙◌, subst, inl, inr, true, Option, none, some, List, [],
  ◌∷◌, ◌++◌, ◌==◌, nat_eq, string_eq, arith, Option-cases, Bool-cases, find, is_some, ok, not_found,
}
use nti_backend.Store.{Db, Team}
use nti_backend.Store.Tables.{update_where}
use nti_backend.Store.Transactions.{
  >>=-eq-ok, ◌>>=◌, gets, require_some, serializable_keeps, read_committed_keeps,
}
use nti_backend.Applications.Repository.{find_team}
use nti_backend.Applications.Signals.{Numbers}
use nti_backend.Teams.Repository.{
  TeamWithRelations, team_row, is_membership, find_member, create_team, add_member, update_team,
  find_team_with_relations, find_active_by_user_id,
}
use nti_backend.Teams.Membership.{
  remove_member_tx, remove_member, leave_team_tx, leave_team, transfer_leadership_tx,
  transfer_leadership,
}
use nti_backend.Teams.Lifecycle.{
  create_with_leader, rename_team, ensure_one_team, ensure_personal_team_tx,
  ensure_personal_team_for_user, load_for_update, write_update, update, should_rename_personal_team,
}
use nti_backend.Teams.Roster.{IsSound}
use nti_backend.Teams.Roster.Members.{
  member, found_team-IsRoster, drop_member-IsRoster, update_team-IsRoster,
}
use nti_backend.Teams.Roster.Issued.{later-IsIssued}
use nti_backend.Teams.Outcomes.Membership.{
  without_member, remove_member_tx_ok, leave_team_tx_ok, transfer_leadership_tx_ok,
}

module _ {past : ℕ} (n : Numbers) where
  without_member-IsSound :
      (team_id user_id : ℕ) (db db' : Db) {t : Team}
      → find_team team_id db ≡ some t
      → t.leader_id ≢ user_id
      → db' ≡ without_member team_id user_id db db'
      → IsSound past db
      → IsSound past db'
  unfolding find_team
  without_member-IsSound team_id user_id db db' found other same s =
      subst (IsSound past) (sym same) (record {
        roster = drop_member-IsRoster team_id user_id found other s.roster;
        issued = s.issued;
        grown = s.grown;
      })

  pub remove_member-IsSound :
      (team_id actor_id member_id : ℕ) (db : Db)
      → IsSound past db
      → IsSound past (remove_member n team_id actor_id member_id db).1
  unfolding remove_member
  remove_member-IsSound team_id actor_id member_id db =
      serializable_keeps (IsSound past) (remove_member_tx n team_id actor_id member_id) db
        λ db' u h s.
          let (t, found, _, _, other, _, same) =
            remove_member_tx_ok n team_id actor_id member_id db db' u h in
          without_member-IsSound team_id member_id db db' found other same s

  pub leave_team-IsSound :
      (team_id actor_id : ℕ) (db : Db)
      → IsSound past db
      → IsSound past (leave_team n team_id actor_id db).1
  unfolding leave_team
  leave_team-IsSound team_id actor_id db =
      serializable_keeps (IsSound past) (leave_team_tx n team_id actor_id) db λ db' u h s.
        let (t, found, _, other, _, same) = leave_team_tx_ok n team_id actor_id db db' u h in
        without_member-IsSound team_id actor_id db db' found other same s

  pub transfer_leadership-IsSound :
      (team_id actor_id new_leader_id : ℕ) (db : Db)
      → IsSound past db
      → IsSound past (transfer_leadership n team_id actor_id new_leader_id db).1
  unfolding transfer_leadership find_member
  transfer_leadership-IsSound team_id actor_id new_leader_id db =
      serializable_keeps (IsSound past) (transfer_leadership_tx n team_id actor_id new_leader_id) db
        λ db' u h s.
          let (t, found, _, _, there, same) =
            transfer_leadership_tx_ok n team_id actor_id new_leader_id db db' u h in
          subst (IsSound past) (sym same) (record {
            roster =
                update_team-IsRoster team_id (λ r. record r { leader_id = new_leader_id })
                  (λ r. refl)
                  (λ r here led.
                    subst
                      (λ k. is_some (find (is_membership k new_leader_id) db.team_members) ≡ true)
                      (sym here) there)
                  s.roster;
            issued = s.issued;
            grown = s.grown;
          })

-- A team with its leader as the one member.
abbrev pub with_new_team : String → ℕ → Db → Db
with_new_team name leader_id db = record db {
  next_id = suc db.next_id;
  teams = db.teams ++ team_row db.next_id name leader_id ∷ [];
  team_members = db.team_members ++ member db.next_id leader_id ∷ [];
}

pub create_with_leader_ok :
    (name : String) (leader_id : ℕ) (db db' : Db) (t : TeamWithRelations)
    → create_with_leader name leader_id db ≡ ok (t, db')
    → (find (is_membership db.next_id leader_id) db.team_members ≡ none)
      × (db' ≡ with_new_team name leader_id db)
      × (find_team_with_relations db.next_id db' ≡ some t)
unfolding create_with_leader create_team add_member find_member
create_with_leader_ok name leader_id db db' t h =
    elim (Option-cases (find (is_membership db.next_id leader_id) db.team_members)) [
      | inl fresh ↦ (fresh, ground arith, ground arith)
      | inr (m, taken) ↦ absurd (ground arith)
    ]

update_team_ok :
    (id : ℕ) (f : Team → Team) (db db' : Db) (u : Unit {0})
    → update_team id f db ≡ ok (u, db')
    → db' ≡ record db { teams = update_where (λ r. r.id == id) f db.teams }
unfolding update_team
update_team_ok id f db db' u h = ground arith

load_team_ok :
    (id : ℕ) (db db' : Db) (t : TeamWithRelations)
    → (gets (find_team_with_relations id)
          >>= (λ found. require_some found (not_found "Team not found")))
        db
      ≡ ok (t, db')
    → (db' ≡ db) × (find_team_with_relations id db ≡ some t)
load_team_ok id db db' t h = ground arith

pub rename_team_ok :
    (id : ℕ) (name : String) (db db' : Db) (t : TeamWithRelations)
    → rename_team id name db ≡ ok (t, db')
    → (db' ≡ record db {
      teams = update_where (λ r. r.id == id) (λ r. record r { name = name }) db.teams;
    })
      × (find_team_with_relations id db' ≡ some t)
unfolding rename_team
rename_team_ok id name db db' t h =
    let (u, db1, updated, loaded) =
      >>=-eq-ok (update_team id (λ r. record r { name = name }))
        (λ _.
          gets (find_team_with_relations id)
          >>= (λ found. require_some found (not_found "Team not found")))
        db h in
    let (same, found) = load_team_ok id db1 db' t loaded in
    (
      same ∙ update_team_ok id (λ r. record r { name = name }) db db1 u updated,
      ap (find_team_with_relations id) same ∙ found,
    )

module _ {past : ℕ} where
  pub create_with_leader-IsSound :
      (name : String) (leader_id : ℕ) (db db' : Db) (t : TeamWithRelations)
      → create_with_leader name leader_id db ≡ ok (t, db')
      → IsSound past db
      → IsSound past db'
  create_with_leader-IsSound name leader_id db db' t h s =
      let (fresh, same, _) = create_with_leader_ok name leader_id db db' t h in
      let below = s.grown in
      subst (IsSound past) (sym same) (record {
        roster = found_team-IsRoster (team_row db.next_id name leader_id) refl fresh s.roster;
        issued = later-IsIssued (omega arith) s.issued;
        grown = omega arith;
      })

  rename_team-IsSound :
      (id : ℕ) (name : String) (db db' : Db) (t : TeamWithRelations)
      → rename_team id name db ≡ ok (t, db')
      → IsSound past db
      → IsSound past db'
  rename_team-IsSound id name db db' t h s =
      let (same, _) = rename_team_ok id name db db' t h in
      subst (IsSound past) (sym same) (record {
        roster =
            update_team-IsRoster id (λ r. record r { name = name }) (λ r. refl) (λ r _ led. led)
              s.roster;
        issued = s.issued;
        grown = s.grown;
      })

  ensure_one_team-IsSound :
      (user_id : ℕ) (name : String) (teams : List TeamWithRelations) (db db' : Db)
      (t : TeamWithRelations)
      → ensure_one_team user_id name teams db ≡ ok (t, db')
      → IsSound past db
      → IsSound past db'
  unfolding ensure_one_team
  ensure_one_team-IsSound user_id name [] db db' t h =
      create_with_leader-IsSound name user_id db db' t h
  ensure_one_team-IsSound user_id name (s ∷ []) db db' t h =
      elim (Bool-cases (should_rename_personal_team s user_id name)) [
        | inl renamed ↦ rename_team-IsSound s.team.id name db db' t (ground arith)
        | inr kept ↦ let same : db' ≡ db = ground arith in subst (IsSound past) (sym same)
      ]
  ensure_one_team-IsSound user_id name (s ∷ r ∷ teams) db db' t h = absurd (ground arith)

  pub ensure_personal_team-IsSound :
      (user_id : ℕ) (name : String) (db : Db)
      → IsSound past db
      → IsSound past (ensure_personal_team_for_user user_id name db).1
  unfolding ensure_personal_team_for_user ensure_personal_team_tx
  ensure_personal_team-IsSound user_id name db =
      serializable_keeps (IsSound past) (ensure_personal_team_tx user_id name) db λ db' t h.
        ensure_one_team-IsSound user_id name (find_active_by_user_id user_id db) db db' t h

  write_update-IsSound :
      (name : Option String) (v : TeamWithRelations) (db db' : Db) (t : TeamWithRelations)
      → write_update name v db ≡ ok (t, db')
      → IsSound past db
      → IsSound past db'
  unfolding write_update
  write_update-IsSound none v db db' t h =
      let same : db' ≡ db = ground arith in subst (IsSound past) (sym same)
  write_update-IsSound (some name) v db db' t h = rename_team-IsSound v.team.id name db db' t h

  pub update-IsSound :
      (team_id requester_id : ℕ) (name : Option String) (between : Db → Db) (db : Db)
      → (IsSound past db → IsSound past (between db))
      → IsSound past db
      → IsSound past (update team_id requester_id name between db).1
  unfolding update
  update-IsSound team_id requester_id name between db others =
      read_committed_keeps (IsSound past) between (load_for_update team_id requester_id)
        (write_update name) db others
        λ v db1 db' t loaded wrote. write_update-IsSound name v (between db) db' t wrote
