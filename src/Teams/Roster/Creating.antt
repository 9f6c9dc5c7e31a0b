-- ===== src/Teams/Roster/Creating.antt =====
-- Creating a team, and inviting to one with the e-mails, keep the tables sound.
use nti_backend.Prelude.{
  ℕ, String, ◌≡◌, sym, subst, ◌<◌, inl, inr, Bool, not, some, List, nat_eq, arith, Option-cases,
  Bool-cases, Result-cases, ok, conflict, length, ltb, map, is_some,
}
use nti_backend.Store.{Db, Team, Invitation}
use nti_backend.Store.Tables.{find_by_id, find_by_id-All}
use nti_backend.Store.Transactions.{
  >>=-eq-ok, ◌>>=◌, ◌>>◌, pure, require, serializable_keeps, commit,
}
use nti_backend.Applications.Repository.{find_team}
use nti_backend.Teams.Repository.{TeamWithRelations, find_team_with_relations}
use nti_backend.Teams.Issue.{create_invites_in}
use nti_backend.Teams.Mail.{InvitationEmail}
use nti_backend.Teams.Lifecycle.{
  create_with_leader, create_tx, create, create_invites, enqueue_in_order, invitation_email,
  enqueue_invitation_emails_or_revoke, minimum_created_count,
}
use nti_backend.Teams.Issue.{create_invites as create_invitations}
use nti_backend.Teams.Roster.{IsSound}
use nti_backend.Teams.Roster.Requests.{create_with_leader-IsSound, create_with_leader_ok}
use nti_backend.Teams.Roster.Issuing.{issue-IsSound, create_invites-IsSound, revoke_all-IsSound}

module _ {past : ℕ} where
  enqueue-IsSound :
      {A : Type 0} (accepts removes : InvitationEmail → Bool) (team : Team) (is : List Invitation)
      (now : ℕ) (answer : A) (db : Db)
      → IsSound past db
      → IsSound past (enqueue_invitation_emails_or_revoke accepts removes team is now answer db).db
  unfolding enqueue_invitation_emails_or_revoke
  enqueue-IsSound accepts removes team is now answer db s =
      elim (Bool-cases (enqueue_in_order accepts (map (invitation_email team) is)).1) [
        | inl done ↦ rw (enqueue_invitation_emails_or_revoke, done) s
        | inr refused ↦
            rw (enqueue_invitation_emails_or_revoke, refused)
              (revoke_all-IsSound (map (λ i. i.id) is) now db s)
      ]

  pub create_invites_request-IsSound :
      (accepts removes : InvitationEmail → Bool) (lower : String → String) (draws : ℕ → ℕ → String)
      (rounds : ℕ) (team : Team) (emails : List String) (minimum now expires_at : ℕ)
      (between : ℕ → Db → Db) (db : Db)
      → team.id < past
      → ((i : ℕ) (d : Db) → IsSound past d → IsSound past (between i d))
      → IsSound past db
      → IsSound past
          (create_invites accepts removes lower draws rounds team emails minimum now expires_at
            between db).db
  unfolding create_invites
  create_invites_request-IsSound accepts removes lower draws rounds team emails minimum now
        expires_at between db below others s =
      let sent =
        create_invites-IsSound lower draws rounds team.id emails now expires_at between db below
          others s in
      elim (Bool-cases (is_some team.locked_at)) [
        | inl locked ↦ rw (create_invites, locked) s
        | inr unlocked ↦
            elim (Result-cases
              (create_invitations lower draws rounds team.id emails now expires_at between db).0) [
                | inr (e, failed) ↦ rw (create_invites, unlocked, failed) sent
                | inl (is, done) ↦ elim (Bool-cases (ltb (length is) minimum)) [
                  | inl few ↦
                      rw (create_invites, unlocked, done, few)
                        (revoke_all-IsSound (map (λ i. i.id) is) now _ sent)
                  | inr enough ↦
                      rw (create_invites, unlocked, done, enough)
                        (enqueue-IsSound accepts removes team is now is _ sent)
                ]
              ]
      ]

team_below :
    {past : ℕ} (id : ℕ) (db : Db) (t : TeamWithRelations)
    → find_team_with_relations id db ≡ some t
    → IsSound past db
    → t.team.id < db.next_id
unfolding find_team_with_relations find_team
team_below id db t h s = elim (Option-cases (find_by_id (λ r. r.id) id db.teams)) [
  | inl missing ↦ absurd (ground arith)
  | inr (r, found) ↦
      let same : r ≡ t.team = ground arith in
      subst (λ k. k.id < db.next_id) same
        (find_by_id-All (λ k. k.id < db.next_id) (λ k. k.id) id db.teams found s.roster.used)
]

-- A new team takes the next id; from then on it is a used one.
create_tx-IsSound :
    {past : ℕ} (lower : String → String) (draws : ℕ → String) (rounds user_id : ℕ) (name : String)
    (emails : List String) (now expires_at : ℕ) (db db' : Db)
    (v : TeamWithRelations × List Invitation)
    → create_tx lower draws rounds user_id name emails now expires_at db ≡ ok (v, db')
    → IsSound past db
    → IsSound past db'
unfolding create_tx create_invites_in
create_tx-IsSound {past} lower draws rounds user_id name emails now expires_at db db' v h s =
    let (t, db1, founded, rest) =
      >>=-eq-ok (create_with_leader name user_id)
        (λ loaded.
          create_invites_in lower draws rounds loaded.team.id emails now expires_at >>= (λ is.
            require (not (ltb (length is) minimum_created_count))
              (conflict "At least 2 invitations must be created")
            >> pure (loaded, is)))
        db h in
    let (is, db2, issued, last) =
      >>=-eq-ok (create_invites_in lower draws rounds t.team.id emails now expires_at)
        (λ is.
          require (not (ltb (length is) minimum_created_count))
            (conflict "At least 2 invitations must be created")
          >> pure (t, is))
        db1 rest in
    let same : db' ≡ db2 = ground arith in
    let (_, _, there) = create_with_leader_ok name user_id db db1 t founded in
    let sound = create_with_leader-IsSound name user_id db db1 t founded s in
    let bound = sound.grown in
    let after =
      issue-IsSound {past = db1.next_id} draws rounds t.team.id expires_at _ db1 db2 is issued
        (team_below db.next_id db1 t there sound)
        (record { roster = sound.roster; issued = sound.issued; grown = omega arith }) in
    let grown = after.grown in
    subst (IsSound past) (sym same)
      (record { roster = after.roster; issued = after.issued; grown = omega arith })

pub create-IsSound :
    {past : ℕ} (accepts removes : InvitationEmail → Bool) (lower : String → String)
    (draws : ℕ → String) (rounds user_id : ℕ) (name : String) (emails : List String)
    (now expires_at : ℕ) (db : Db)
    → IsSound past db
    → IsSound past
        (create accepts removes lower draws rounds user_id name emails now expires_at db).db
unfolding create
create-IsSound {past} accepts removes lower draws rounds user_id name emails now expires_at db s =
    let tx = create_tx lower draws rounds user_id name emails now expires_at in
    let sent =
      serializable_keeps (IsSound past) tx db
        (λ db' v h.
          create_tx-IsSound lower draws rounds user_id name emails now expires_at db db' v h)
        s in
    elim (Result-cases (commit (tx db) db).0) [
      | inr (e, failed) ↦ rw (create, failed) sent
      | inl ((t, is), done) ↦
          rw (create, done) (enqueue-IsSound accepts removes t.team is now t _ sent)
    ]
