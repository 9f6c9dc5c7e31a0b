-- ===== src/Teams/Roster/Issuing.antt =====
-- Issuing invitations keeps the tables sound, and so does creating a team with them.
use nti_backend.Prelude.{
  ℕ, zero, suc, String, ◌≡◌, refl, sym, subst, ◌<◌, inl, inr, not, ◌&&◌, some, List, [], ◌∷◌, ◌++◌,
  ◌==◌, nat_eq, string_eq, arith, Option-cases, Bool-cases, any, All, Result, ok, Result-cases,
  includes, map,
}
use nti_backend.Store.{Db, Invitation}
use nti_backend.Store.Transactions.{>>=-eq-ok, ◌>>=◌, gets, pure, read_committed_keeps}
use nti_backend.Teams.Invitations.{
  NewInvitation, invitation_row, has_token, create_invitation, create_many, find_by_tokens,
  revoke_all, set_revoked,
}
use nti_backend.Teams.Tokens.{
  generate_unique_token, build_from, build_invitations_to_create, retry,
  is_token_unique_constraint_error, invitation_token_max_retries, new_invitation,
}
use nti_backend.Teams.Issue.{
  filter_invitable_emails, insert_invitations, issue, create_attempt, create_invites, by_tokens,
}
use nti_backend.Teams.Roster.{IsSound}
use nti_backend.Teams.Roster.Members.{later-IsRoster}
use nti_backend.Teams.Roster.Issued.{create-IsIssued, update-IsIssued}

-- The data that the service builds is for its team.
build_from-team :
    (draws : ℕ → String) (rounds team_id expires_at : ℕ) (generated : List String) (n : ℕ)
    (emails : List String) (rows : List NewInvitation)
    → build_from draws rounds team_id expires_at generated n emails ≡ some rows
    → All (λ r. r.team_id ≡ team_id) rows
unfolding build_from
build_from-team draws rounds team_id expires_at generated n [] rows h =
    let same : rows ≡ [] = ground arith in subst (All (λ r. r.team_id ≡ team_id)) (sym same) tt
build_from-team draws rounds team_id expires_at generated n (email ∷ emails) rows h =
    elim (Option-cases (generate_unique_token draws rounds generated n)) [
      | inl stuck ↦ absurd (ground arith)
      | inr ((token, m), drawn) ↦
          elim (Option-cases
            (build_from draws rounds team_id expires_at (token ∷ generated) m emails)) [
              | inl stuck ↦ absurd (ground arith)
              | inr (rest, built) ↦
                  let same : rows
                      ≡ new_invitation draws rounds team_id expires_at email token ∷ rest =
                    ground arith in
                  subst (All (λ r. r.team_id ≡ team_id)) (sym same) (
                    refl,
                    build_from-team draws rounds team_id expires_at (token ∷ generated) m emails
                        rest built,
                  )
            ]
    ]

-- What every attempt keeps, the loop keeps.
pub retry_keeps :
    {A : Type 0} (P : Db → Type 0) (message : String) (attempt : ℕ → Db → Result A × Db)
    → ((i : ℕ) (db : Db) → P db → P (attempt i db).1)
    → (left i : ℕ) (db : Db) → P db
    → P (retry message attempt left i db).1
unfolding retry
retry_keeps P message attempt keeps zero i db h = h
retry_keeps {A} P message attempt keeps (suc left) i db h = elim (Result-cases (attempt i db).0) [
  | inl (a, done) ↦ rw (retry, done) (keeps i db h)
  | inr (e, failed) ↦ elim (Bool-cases (is_token_unique_constraint_error e && not (left == 0))) [
    | inl again ↦
        rw (retry, failed, again)
          (retry_keeps P message attempt keeps left (suc i) (attempt i db).1 (keeps i db h))
    | inr final ↦ rw (retry, failed, final) (keeps i db h)
  ]
]

module _ {past : ℕ} where
  create_invitation-IsSound :
      (row : NewInvitation) (db db' : Db) (u : Unit {0})
      → create_invitation row db ≡ ok (u, db')
      → row.team_id < past
      → IsSound past db
      → IsSound past db'
  unfolding create_invitation
  create_invitation-IsSound row db db' u h below s =
      let grown = s.grown in
      elim (Bool-cases (any (has_token row.token) db.invitations)) [
        | inl taken ↦ absurd (ground arith)
        | inr free ↦
            let same : db' ≡ record db {
              next_id = suc db.next_id;
              invitations = db.invitations ++ invitation_row db.next_id row ∷ [];
            } =
              ground arith in
            subst (IsSound past) (sym same) (record {
              roster = later-IsRoster (omega arith) s.roster;
              issued = create-IsIssued row free (omega arith) s.issued;
              grown = omega arith;
            })
      ]

  create_many-IsSound :
      (rows : List NewInvitation) (db db' : Db) (u : Unit {0})
      → create_many rows db ≡ ok (u, db')
      → All (λ r. r.team_id < past) rows
      → IsSound past db
      → IsSound past db'
  unfolding create_many
  create_many-IsSound [] db db' u h below s =
      let same : db' ≡ db = ground arith in subst (IsSound past) (sym same) s
  create_many-IsSound (row ∷ rows) db db' u h below s =
      let (w, db1, first, rest) = >>=-eq-ok (create_invitation row) (λ _. create_many rows) db h in
      create_many-IsSound rows db1 db' u rest below.1
        (create_invitation-IsSound row db db1 w first below.0 s)

  insert_invitations-IsSound :
      (rows : List NewInvitation) (db db' : Db) (is : List Invitation)
      → insert_invitations rows db ≡ ok (is, db')
      → All (λ r. r.team_id < past) rows
      → IsSound past db
      → IsSound past db'
  unfolding insert_invitations
  insert_invitations-IsSound rows db db' is h below s =
      let (w, db1, first, rest) =
        >>=-eq-ok (create_many rows)
          (λ _.
            gets (find_by_tokens (map (λ r. r.token) rows))
            >>= (λ created. pure (by_tokens rows created)))
          db h in
      let same : db' ≡ db1 = ground arith in
      subst (IsSound past) (sym same) (create_many-IsSound rows db db1 w first below s)

  pub issue-IsSound :
      (draws : ℕ → String) (rounds team_id expires_at : ℕ) (emails : List String) (db db' : Db)
      (is : List Invitation)
      → issue draws rounds team_id expires_at emails db ≡ ok (is, db')
      → team_id < past
      → IsSound past db
      → IsSound past db'
  unfolding issue build_invitations_to_create
  issue-IsSound draws rounds team_id expires_at [] db db' is h below s =
      let same : db' ≡ db = ground arith in subst (IsSound past) (sym same) s
  issue-IsSound draws rounds team_id expires_at (email ∷ emails) db db' is h below s =
      elim (Option-cases (build_from draws rounds team_id expires_at [] 0 (email ∷ emails))) [
        | inl stuck ↦ absurd (ground arith)
        | inr (rows, built) ↦
            insert_invitations-IsSound rows db db' is (ground arith)
              (all_below rows
                (build_from-team draws rounds team_id expires_at [] 0 (email ∷ emails) rows built))
              s
      ]
    where
      all_below :
          (rows : List NewInvitation)
          → All (λ r. r.team_id ≡ team_id) rows
          → All (λ r. r.team_id < past) rows
      all_below [] h = tt
      all_below (r ∷ rows) h = (subst (λ k. k < past) (sym h.0) below, all_below rows h.1)

  pub create_attempt-IsSound :
      (draws : ℕ → String) (rounds team_id : ℕ) (emails : List String) (now expires_at : ℕ)
      (between : Db → Db) (db : Db)
      → team_id < past
      → (IsSound past db → IsSound past (between db))
      → IsSound past db
      → IsSound past (create_attempt draws rounds team_id emails now expires_at between db).1
  unfolding create_attempt
  create_attempt-IsSound draws rounds team_id emails now expires_at between db below others =
      read_committed_keeps (IsSound past) between
        (gets (filter_invitable_emails team_id emails now)) (issue draws rounds team_id expires_at)
        db others
        λ v db1 db' is loaded wrote s.
          issue-IsSound draws rounds team_id expires_at v (between db) db' is wrote below s

  pub revoke_all-IsSound :
      (ids : List ℕ) (now : ℕ) (db : Db) → IsSound past db → IsSound past (revoke_all ids now db)
  unfolding revoke_all
  revoke_all-IsSound ids now db s = record {
    roster = s.roster;
    issued =
        update-IsIssued (λ i. includes ids i.id) (set_revoked now) (λ i. refl) (λ i. refl)
          (λ i. refl) (λ i _ _ e. ground arith) s.issued;
    grown = s.grown;
  }

  pub create_invites-IsSound :
      (lower : String → String) (draws : ℕ → ℕ → String) (rounds team_id : ℕ) (emails : List String)
      (now expires_at : ℕ) (between : ℕ → Db → Db) (db : Db)
      → team_id < past
      → ((i : ℕ) (d : Db) → IsSound past d → IsSound past (between i d))
      → IsSound past db
      → IsSound past (create_invites lower draws rounds team_id emails now expires_at between db).1
  unfolding create_invites
  create_invites-IsSound lower draws rounds team_id emails now expires_at between db below others =
      retry_keeps (IsSound past) _ _
        (λ i d.
          create_attempt-IsSound (draws i) rounds team_id _ now expires_at (between i) d below
            (others i d))
        invitation_token_max_retries 0 db
