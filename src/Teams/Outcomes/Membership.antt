-- ===== src/Teams/Outcomes/Membership.antt =====
-- The outcomes of removing a member, of leaving a team and of handing on its lead.
use nti_backend.Prelude.{
  ℕ, ◌≡◌, ◌≢◌, subst, inl, inr, Bool, true, not, none, some, ◌==◌, nat_eq, arith, Option-cases,
  filter, is_some, ok,
}
use nti_backend.Store.{Db, Team, TeamMember}
use nti_backend.Store.Tables.{find_by_id-key, update_where}
use nti_backend.Applications.Repository.{find_team}
use nti_backend.Applications.Signals.{Numbers, recompute_for_team_applications}
use nti_backend.Applications.Signals.Frame.{recompute_team_frame}
use nti_backend.Teams.Repository.{
  is_membership, find_member, delete_membership, update_team, update_leader,
}
use nti_backend.Teams.Membership.{
  get_team_or_throw, ensure_team_leader, ensure_team_is_unlocked, require_member, drop_member,
  remove_member_tx, leave_team_tx, transfer_leadership_tx,
}

abbrev pub stays : ℕ → ℕ → TeamMember → Bool
stays team_id user_id m = not (is_membership team_id user_id m)

-- The database without a membership, up to the signals.
abbrev pub without_member : ℕ → ℕ → Db → Db → Db
without_member team_id user_id db db' = record db {
  team_members = filter (stays team_id user_id) db.team_members;
  signals = db'.signals;
}

drop_member_ok :
    (n : Numbers) (team_id user_id : ℕ) (db db' : Db) (u : Unit {0})
    → drop_member n team_id user_id db ≡ ok (u, db')
    → db' ≡ without_member team_id user_id db db'
unfolding drop_member delete_membership
drop_member_ok n team_id user_id db db' u h =
    let deleted : Db = record db {
      team_members = filter (stays team_id user_id) db.team_members;
    } in
    let last : recompute_for_team_applications n team_id deleted ≡ ok (u, db') = ground arith in
    recompute_team_frame n team_id deleted db' u last

pub remove_member_tx_ok :
    (n : Numbers) (team_id actor_id member_id : ℕ) (db db' : Db) (u : Unit {0})
    → remove_member_tx n team_id actor_id member_id db ≡ ok (u, db')
    → (t : Team) × (find_team team_id db ≡ some t)
      × (t.leader_id ≡ actor_id)
      × (t.locked_at ≡ none)
      × (t.leader_id ≢ member_id)
      × (is_some (find_member team_id member_id db) ≡ true)
      × (db' ≡ without_member team_id member_id db db')
unfolding remove_member_tx get_team_or_throw ensure_team_leader ensure_team_is_unlocked
    require_member find_team
remove_member_tx_ok n team_id actor_id member_id db db' u h =
    elim (Option-cases (find_team team_id db)) [
      | inl missing ↦ absurd (ground arith)
      | inr (t, found) ↦
          let here : t.id ≡ team_id = find_by_id-key (λ s. s.id) team_id db.teams found in
          let last : drop_member n t.id member_id db ≡ ok (u, db') = ground arith in
          let there : is_some (find_member t.id member_id db) ≡ true = ground arith in
          (
            t,
            found,
            ground arith,
            ground arith,
            λ same. absurd (ground arith),
            subst (λ k. is_some (find_member k member_id db) ≡ true) here there,
            subst (λ k. db' ≡ without_member k member_id db db') here
                (drop_member_ok n t.id member_id db db' u last),
          )
    ]

pub leave_team_tx_ok :
    (n : Numbers) (team_id actor_id : ℕ) (db db' : Db) (u : Unit {0})
    → leave_team_tx n team_id actor_id db ≡ ok (u, db')
    → (t : Team) × (find_team team_id db ≡ some t)
      × (t.locked_at ≡ none)
      × (t.leader_id ≢ actor_id)
      × (is_some (find_member team_id actor_id db) ≡ true)
      × (db' ≡ without_member team_id actor_id db db')
unfolding leave_team_tx get_team_or_throw ensure_team_is_unlocked require_member find_team
leave_team_tx_ok n team_id actor_id db db' u h = elim (Option-cases (find_team team_id db)) [
  | inl missing ↦ absurd (ground arith)
  | inr (t, found) ↦
      let here : t.id ≡ team_id = find_by_id-key (λ s. s.id) team_id db.teams found in
      let last : drop_member n t.id actor_id db ≡ ok (u, db') = ground arith in
      let there : is_some (find_member t.id actor_id db) ≡ true = ground arith in
      (
        t,
        found,
        ground arith,
        λ same. absurd (ground arith),
        subst (λ k. is_some (find_member k actor_id db) ≡ true) here there,
        subst (λ k. db' ≡ without_member k actor_id db db') here
            (drop_member_ok n t.id actor_id db db' u last),
      )
]

-- The database with another leader of a team, up to the signals.
abbrev pub led_by : ℕ → ℕ → Db → Db → Db
led_by team_id leader_id db db' = record db {
  teams = update_where (λ t. t.id == team_id) (λ t. record t { leader_id = leader_id }) db.teams;
  signals = db'.signals;
}

pub transfer_leadership_tx_ok :
    (n : Numbers) (team_id actor_id new_leader_id : ℕ) (db db' : Db) (u : Unit {0})
    → transfer_leadership_tx n team_id actor_id new_leader_id db ≡ ok (u, db')
    → (t : Team) × (find_team team_id db ≡ some t)
      × (t.leader_id ≡ actor_id)
      × (t.locked_at ≡ none)
      × (is_some (find_member team_id new_leader_id db) ≡ true)
      × (db' ≡ led_by team_id new_leader_id db db')
unfolding transfer_leadership_tx get_team_or_throw ensure_team_leader ensure_team_is_unlocked
    require_member find_team update_leader update_team
transfer_leadership_tx_ok n team_id actor_id new_leader_id db db' u h =
    elim (Option-cases (find_team team_id db)) [
      | inl missing ↦ absurd (ground arith)
      | inr (t, found) ↦
          let here : t.id ≡ team_id = find_by_id-key (λ s. s.id) team_id db.teams found in
          let led : Db = record db {
            teams =
                update_where (λ s. s.id == t.id) (λ s. record s { leader_id = new_leader_id })
                  db.teams;
          } in
          let last : recompute_for_team_applications n t.id led ≡ ok (u, db') = ground arith in
          let there : is_some (find_member t.id new_leader_id db) ≡ true = ground arith in
          (
            t,
            found,
            ground arith,
            ground arith,
            subst (λ k. is_some (find_member k new_leader_id db) ≡ true) here there,
            subst (λ k. db' ≡ led_by k new_leader_id db db') here
                (recompute_team_frame n t.id led db' u last),
          )
    ]
