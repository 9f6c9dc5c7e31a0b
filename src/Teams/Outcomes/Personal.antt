-- ===== src/Teams/Outcomes/Personal.antt =====
-- What `ensurePersonalTeamForUser` of src/team/team.service.ts leaves to `findCurrentForUser`.
use nti_backend.Prelude.{
  ℕ, String, ◌≡◌, refl, sym, ap, ◌∙◌, inl, inr, false, List, [], ◌∷◌, nat_eq, string_eq, arith,
  Bool-cases, ok,
}
use nti_backend.Store.{Db}
use nti_backend.Teams.Repository.{TeamWithRelations, find_active_by_user_id}
use nti_backend.Teams.Lifecycle.{
  ensure_one_team, ensure_personal_team_tx, ensure_personal_team_for_user,
  should_rename_personal_team, the_current_team, find_current_for_user,
}
use nti_backend.Teams.Outcomes.Active.{created_current, renamed_current}
use nti_backend.Teams.Roster.{IsSound}

named_stays :
    (t : TeamWithRelations) (user_id : ℕ) (name : String)
    → t.team.name ≡ name
    → should_rename_personal_team t user_id name ≡ false
unfolding should_rename_personal_team
named_stays t user_id name h = ground (arith, string_eq.equal_iff t.team.name name)

-- Whichever way the team comes about, it is the one active team, and needs no new name.
ensured_current :
    {past : ℕ} (user_id : ℕ) (name : String) (db db' : Db) (t : TeamWithRelations)
    (teams : List TeamWithRelations)
    → IsSound past db
    → find_active_by_user_id user_id db ≡ teams
    → ensure_one_team user_id name teams db ≡ ok (t, db')
    → (find_active_by_user_id user_id db' ≡ t ∷ [])
      × (should_rename_personal_team t user_id name ≡ false)
unfolding ensure_one_team
ensured_current user_id name db db' t [] s active h =
    let (current, named) = created_current name user_id db db' t s active h in
    (current, named_stays t user_id name named)
ensured_current user_id name db db' t (r ∷ []) s active h =
    elim (Bool-cases (should_rename_personal_team r user_id name)) [
      | inl other ↦
          let (current, named) = renamed_current name user_id db db' r t s active (ground arith) in
          (current, named_stays t user_id name named)
      | inr kept ↦
          let here : db' ≡ db = ground arith in
          let row : r ≡ t = ground arith in
          (
            ap (find_active_by_user_id user_id) here ∙ active ∙ ap (λ v. v ∷ []) row,
            ap (λ v. should_rename_personal_team v user_id name) (sym row) ∙ kept,
          )
    ]
ensured_current user_id name db db' t (r ∷ q ∷ teams) s active h = absurd (ground arith)

-- In sound tables: where `ensure_personal_team_for_user` answers with a team, `find_current_for_user`
-- then answers with the same team, and another call with the same name answers with it too and
-- changes nothing.
pub ensure_personal_team_ok :
    {past : ℕ} (user_id : ℕ) (name : String) (db db' : Db) (t : TeamWithRelations)
    → IsSound past db
    → ensure_personal_team_for_user user_id name db ≡ (ok t, db')
    → (find_current_for_user user_id db' ≡ ok t)
      × (ensure_personal_team_for_user user_id name db' ≡ (ok t, db'))
unfolding ensure_personal_team_for_user ensure_personal_team_tx find_current_for_user
    the_current_team ensure_one_team
ensure_personal_team_ok user_id name db db' t s h =
    let teams = find_active_by_user_id user_id db in
    let done : ensure_one_team user_id name teams db ≡ ok (t, db') = ground arith in
    let (current, named) = ensured_current user_id name db db' t teams s refl done in
    (rw current refl, rw (current, named) refl)
