-- ===== src/Teams/Outcomes/Invite.antt =====
-- The outcome of one attempt to create invitations.
use nti_backend.Prelude.{
  ℕ, String, ◌≡◌, refl, sym, ap, ◌∙◌, subst, inl, inr, Bool, true, false, not, ◌&&◌, some, List, [],
  ◌∷◌, ◌++◌, ◌==◌, nat_eq, string_eq, arith, Option-cases, Bool-cases, find, filter, any, All, ok,
  includes, map,
}
use nti_backend.Store.{Db, Invitation}
use nti_backend.Store.Transactions.{gets}
use nti_backend.Applications.Outcomes.Transactions.{read_committed-ok}
use nti_backend.Teams.Invitations.{
  NewInvitation, has_token, is_active_at, find_active_invitation_emails,
  find_existing_member_emails,
}
use nti_backend.Teams.Tokens.{
  generate_unique_token, build_from, build_invitations_to_create, new_invitation,
}
use nti_backend.Teams.Issue.{filter_invitable_emails, issue, create_attempt}
use nti_backend.Teams.Outcomes.Issue.{rows_from, append_nil, insert_ok}

-- What `build_from` makes: one row for each e-mail, in order, for the team and the date.
module _ (draws : ℕ → String) (rounds team_id expires_at : ℕ) where
  abbrev pub IsFor : NewInvitation → Type 0
  IsFor r = (r.team_id ≡ team_id) × (r.expires_at ≡ expires_at)

  build_from_ok :
      (generated : List String) (n : ℕ) (emails : List String) (rows : List NewInvitation)
      → build_from draws rounds team_id expires_at generated n emails ≡ some rows
      → (map (λ r. r.email) rows ≡ emails) × All IsFor rows
  unfolding build_from
  build_from_ok generated n [] rows h =
      let same : [] ≡ rows = ground arith in
      subst (λ rs. (map (λ r. r.email) rs ≡ []) × All IsFor rs) same (refl, tt)
  build_from_ok generated n (email ∷ emails) rows h =
      elim (Option-cases (generate_unique_token draws rounds generated n)) [
        | inl stuck ↦ absurd (ground arith)
        | inr ((token, m), drawn) ↦
            elim (Option-cases
              (build_from draws rounds team_id expires_at (token ∷ generated) m emails)) [
                | inl stuck ↦ absurd (ground arith)
                | inr (rest, built) ↦
                    let same : new_invitation draws rounds team_id expires_at email token ∷ rest
                        ≡ rows =
                      ground arith in
                    let (es, for) = build_from_ok (token ∷ generated) m emails rest built in
                    subst (λ rs. (map (λ r. r.email) rs ≡ email ∷ emails) × All IsFor rs) same
                      (ap (λ rs. email ∷ rs) es, ((refl, refl), for))
              ]
      ]

  issue_ok :
      (emails : List String) (db db' : Db) (is : List Invitation)
      → issue draws rounds team_id expires_at emails db ≡ ok (is, db')
      → (rows : List NewInvitation) × (map (λ r. r.email) rows ≡ emails)
        × All IsFor rows
        × (is ≡ rows_from db.next_id rows)
        × (db'.invitations ≡ db.invitations ++ is)
        × All (λ i. find (has_token i.token) db'.invitations ≡ some i) is
  unfolding issue build_invitations_to_create
  issue_ok [] db db' is h =
      let same : db' ≡ db = ground arith in
      let none_made : [] ≡ is = ground arith in
      (
        [],
        refl,
        tt,
        sym none_made,
        ap (λ d. d.invitations) same
            ∙ sym (append_nil db.invitations)
            ∙ ap (λ js. db.invitations ++ js) none_made,
        subst (All (λ i. find (has_token i.token) db'.invitations ≡ some i)) none_made tt,
      )
  issue_ok (email ∷ emails) db db' is h =
      elim (Option-cases (build_from draws rounds team_id expires_at [] 0 (email ∷ emails))) [
        | inl stuck ↦ absurd (ground arith)
        | inr (rows, built) ↦
            let (es, for) = build_from_ok [] 0 (email ∷ emails) rows built in
            let (answer, written, found) = insert_ok rows db db' is (ground arith) in
            (
              rows,
              es,
              for,
              answer,
              ap (λ d. d.invitations) written ∙ ap (λ js. db.invitations ++ js) (sym answer),
              subst (All (λ i. find (has_token i.token) db'.invitations ≡ some i)) (sym answer)
                  found,
            )
      ]

-- The team has an active invitation to an e-mail.
abbrev pub is_invited : ℕ → ℕ → List Invitation → String → Bool
is_invited team_id now is email =
    any (λ i. i.team_id == team_id && (i.email == email && is_active_at now i)) is

includes-append :
    (xs ys : List String) (e : String) → includes xs e ≡ true → includes (xs ++ ys) e ≡ true
includes-append [] ys e h = absurd (ground arith)
includes-append (x ∷ xs) ys e h = ground (arith, includes-append xs ys e)

includes-append_right :
    (xs ys : List String) (e : String) → includes ys e ≡ true → includes (xs ++ ys) e ≡ true
includes-append_right [] ys e h = h
includes-append_right (x ∷ xs) ys e h = ground (arith, includes-append_right xs ys e)

refuted : (b : Bool) {c : Bool} → (b ≡ true → c ≡ true) → c ≡ false → b ≡ false
refuted true f h = absurd (ground (arith, f refl))
refuted false f h = refl

invited_blocked :
    (team_id now : ℕ) (emails : List String) (is : List Invitation) (e : String)
    → includes emails e ≡ true
    → is_invited team_id now is e ≡ true
    → includes
        (map
          (λ i. i.email)
          (filter (λ i. i.team_id == team_id && includes emails i.email && is_active_at now i) is))
        e
      ≡ true
invited_blocked team_id now emails [] e h k = absurd (ground arith)
invited_blocked team_id now emails (i ∷ is) e h k =
    ground (arith, string_eq.equal_iff i.email e, invited_blocked team_id now emails is e h)

includes_more :
    (e : String) (es xs : List String)
    → All (λ x. includes es x ≡ true) xs
    → All (λ x. includes (e ∷ es) x ≡ true) xs
includes_more e es [] h = tt
includes_more e es (x ∷ xs) h = (ground (arith, h.0), includes_more e es xs h.1)

includes_self : (es : List String) → All (λ x. includes es x ≡ true) es
includes_self [] = tt
includes_self (e ∷ es) =
    (ground (arith, string_eq.equal_iff e e), includes_more e es es (includes_self es))

-- No e-mail that is left is that of an active invitation or of a member.
free_emails :
    (team_id now : ℕ) (emails : List String) (db : Db) (es : List String)
    → All (λ e. includes emails e ≡ true) es
    → All
        (λ e.
          (is_invited team_id now db.invitations e ≡ false)
          × (includes (find_existing_member_emails team_id emails db) e ≡ false))
        (filter
          (λ e. not (
            includes
              (find_active_invitation_emails team_id emails now db
                ++ find_existing_member_emails team_id emails db)
              e))
          es)
unfolding find_active_invitation_emails
free_emails team_id now emails db [] h = tt
free_emails team_id now emails db (e ∷ es) h =
    let rest = free_emails team_id now emails db es h.1 in
    let blocked =
      find_active_invitation_emails team_id emails now db
      ++ find_existing_member_emails team_id emails db in
    elim (Bool-cases (includes blocked e)) [
      | inl taken ↦ rw taken rest
      | inr free ↦ rw free (
        (
          refuted (is_invited team_id now db.invitations e)
              (λ k.
                includes-append _ _ e (invited_blocked team_id now emails db.invitations e h.0 k))
              free,
          refuted (includes (find_existing_member_emails team_id emails db) e)
              (includes-append_right (find_active_invitation_emails team_id emails now db) _ e)
              free,
        ),
        rest,
      )
    ]

-- If an attempt to create invitations succeeds, whatever others commit between its reads and its
-- writes: it gives one invitation for each e-mail that was free when it read, in order, and these
-- are new rows behind those that were there. Each has the next unused id, is PENDING, for the team
-- and the date, and is what its token finds. None of these e-mails had an active invitation to the
-- team, or was a member's, when the attempt read.
pub create_attempt_ok :
    (draws : ℕ → String) (rounds team_id : ℕ) (emails : List String) (now expires_at : ℕ)
    (between : Db → Db) (db : Db) {is : List Invitation} {db' : Db}
    → create_attempt draws rounds team_id emails now expires_at between db ≡ (ok is, db')
    → (rows : List NewInvitation) × (map (λ r. r.email) rows
        ≡ filter_invitable_emails team_id emails now db)
      × All (IsFor draws rounds team_id expires_at) rows
      × (is ≡ rows_from (between db).next_id rows)
      × (db'.invitations ≡ (between db).invitations ++ is)
      × All (λ i. find (has_token i.token) db'.invitations ≡ some i) is
      × All
          (λ e.
            (is_invited team_id now db.invitations e ≡ false)
            × (includes (find_existing_member_emails team_id emails db) e ≡ false))
          (map (λ r. r.email) rows)
unfolding create_attempt filter_invitable_emails
create_attempt_ok draws rounds team_id emails now expires_at between db {is} {db'} h =
    let (free, db1, read, wrote) =
      read_committed-ok between (gets (filter_invitable_emails team_id emails now))
        (issue draws rounds team_id expires_at) db h in
    let same : filter_invitable_emails team_id emails now db ≡ free = ground arith in
    let (rows, es, for, answer, written, found) =
      issue_ok draws rounds team_id expires_at free (between db) db' is wrote in
    (
      rows,
      es ∙ sym same,
      for,
      answer,
      written,
      found,
      subst
          (All (λ e.
            (is_invited team_id now db.invitations e ≡ false)
            × (includes (find_existing_member_emails team_id emails db) e ≡ false)))
          (same ∙ sym es) (free_emails team_id now emails db emails (includes_self emails)),
    )
