-- ===== src/Teams/Outcomes/Locked.antt =====
-- A locked team does not change.
use nti_backend.Prelude.{
  ℕ, ◌≡◌, refl, inl, inr, Option, none, some, arith, Result-cases, ok, err, Exception,
}
use nti_backend.Store.{Db, Team}
use nti_backend.Store.Transactions.{Tx, serializable}
use nti_backend.Applications.Repository.{find_team}
use nti_backend.Applications.Signals.{Numbers}
use nti_backend.Teams.Membership.{
  remove_member_tx, remove_member, leave_team_tx, leave_team, transfer_leadership_tx,
  transfer_leadership,
}
use nti_backend.Teams.Runs.{MembershipRequest, perform}
use nti_backend.Teams.Outcomes.Membership.{
  remove_member_tx_ok, leave_team_tx_ok, transfer_leadership_tx_ok,
}

-- A transaction that cannot succeed throws, and changes nothing.
throws :
    {A : Type 0} (body : Tx A) (db : Db)
    → ((a : A) (db' : Db) → body db ≡ ok (a, db') → ⊥)
    → (e : Exception) × (serializable body db ≡ (err e, db))
throws body db never = elim (Result-cases (body db)) [
  | inl ((a, db'), done) ↦ absurd (never a db' done)
  | inr (e, failed) ↦ (e, rw failed refl)
]

still_locked :
    {o : Option Team} {t s : Team} {at : ℕ}
    → o ≡ some t
    → t.locked_at ≡ some at
    → o ≡ some s
    → s.locked_at ≡ none
    → ⊥
still_locked found locked again unlocked = ground arith

-- Where a team is locked, removing a member, leaving and handing on the lead are refused, whoever
-- asks, and nothing changes.
pub locked_team_refuses :
    (n : Numbers) (request : MembershipRequest) (team_id user_id at : ℕ) (db : Db) (t : Team)
    → find_team team_id db ≡ some t
    → t.locked_at ≡ some at
    → (e : Exception) × (perform n request team_id user_id db ≡ (err e, db))
unfolding perform remove_member leave_team transfer_leadership
locked_team_refuses n (MembershipRequest.remove member_id) team_id user_id at db t found locked =
    throws (remove_member_tx n team_id user_id member_id) db λ u db' h.
      let (s, again, _, unlocked, _, _, _) =
        remove_member_tx_ok n team_id user_id member_id db db' u h in
      still_locked found locked again unlocked
locked_team_refuses n (MembershipRequest.transfer leader_id) team_id user_id at db t found locked =
    throws (transfer_leadership_tx n team_id user_id leader_id) db λ u db' h.
      let (s, again, _, unlocked, _, _) =
        transfer_leadership_tx_ok n team_id user_id leader_id db db' u h in
      still_locked found locked again unlocked
locked_team_refuses n MembershipRequest.leave team_id user_id at db t found locked =
    throws (leave_team_tx n team_id user_id) db λ u db' h.
      let (s, again, unlocked, _, _, _) = leave_team_tx_ok n team_id user_id db db' u h in
      still_locked found locked again unlocked
