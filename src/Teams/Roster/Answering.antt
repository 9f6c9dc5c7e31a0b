-- ===== src/Teams/Roster/Answering.antt =====
-- Accepting, revoking and resending an invitation keep the tables sound.
use nti_backend.Prelude.{
  ℕ, String, ◌≡◌, refl, sym, subst, ◌<◌, inl, inr, Bool, true, false, not, ◌&&◌, some, List, [],
  ◌∷◌, ◌==◌, nat_eq, string_eq, arith, Option-cases, Bool-cases, Result-cases, find, any, All,
  Result, ok, err, unavailable,
}
use nti_backend.Domain.{invitation_status_eq}
use nti_backend.Store.{Db, Team, Invitation}
use nti_backend.Store.Tables.{update_where}
use nti_backend.Store.Transactions.{
  Tx, >>=-eq-ok, ◌>>=◌, gets, require_some, serializable_keeps, read_committed_keeps, commit,
}
use nti_backend.Applications.Signals.{Numbers}
use nti_backend.Teams.Repository.{find_member}
use nti_backend.Teams.Invitations.{
  find_by_token, find_invitation, update_token, is_active_at, set_accepted, set_revoked,
  revoke_pending_by_id, update_invitation_where, has_token,
}
use nti_backend.Teams.Tokens.{generate_resend_token, invitation_token_max_retries}
use nti_backend.Teams.Issue.{normalize_invite_email, load_for_revoke, write_revoke, revoke}
use nti_backend.Teams.Mail.{InvitationEmail}
use nti_backend.Teams.Accept.{load_for_accept, write_accept, accept}
use nti_backend.Teams.Resend.{
  load_for_resend, resent, resend_attempt, update_invitation_for_resend, put_back, restore,
  send_or_restore, resend, resend_email,
}
use nti_backend.Teams.Roster.{IsSound, IsConsistent}
use nti_backend.Teams.Roster.Members.{add_member-IsRoster}
use nti_backend.Teams.Roster.Issued.{update-IsIssued, retoken-IsIssued}
use nti_backend.Teams.Roster.Issuing.{retry_keeps}
use nti_backend.Teams.Outcomes.Accept.{write_accept_ok, load_for_accept_ok, can_accept}

find-All :
    {A : Type 0} (P : A → Type 0) (p : A → Bool) (xs : List A) {a : A}
    → find p xs ≡ some a
    → All P xs
    → P a
find-All P p [] e h = absurd (ground arith)
find-All P p (x ∷ xs) {a} e h = elim (Bool-cases (p x)) [
  | inl met ↦ let row : x ≡ a = ground arith in subst P row h.0
  | inr unmet ↦ find-All P p xs (ground arith) h.1
]

-- The acceptance of an active invitation is consistent.
accepted-IsConsistent :
    (id : ℕ) (email : String) (now : ℕ) (i : Invitation)
    → can_accept id email now i ≡ true
    → IsConsistent i
    → IsConsistent (set_accepted i)
accepted-IsConsistent id email now i active c h = absurd (ground arith)

module _ {past : ℕ} where
  pub accept-IsSound :
      (n : Numbers) (lower : String → String) (token : String) (user_id : ℕ) (user_email : String)
      (now : ℕ) (between : Db → Db) (db : Db)
      → IsSound db.next_id (between db)
      → IsSound past db
      → IsSound past (accept n lower token user_id user_email now between db).1
  unfolding accept find_by_token find_member
  accept-IsSound n lower token user_id user_email now between db others s =
      let email = normalize_invite_email lower user_email in
      let first = s.grown in
      let more = others.grown in
      read_committed_keeps (IsSound past) between (load_for_accept token user_id email now)
        (write_accept n user_id email now) db
        (λ _. record { roster = others.roster; issued = others.issued; grown = omega arith })
        (λ i db1 db' m loaded wrote _.
          let (t, same, found, _, _, _, _) =
            load_for_accept_ok token user_id email now db db1 i loaded in
          let (_, _, fresh, written) =
            write_accept_ok n user_id email now i (between db) db' m wrote in
          let below =
            find-All (λ i. i.team_id < db.next_id) (has_token token) db.invitations found
              s.issued.known in
          subst (IsSound past) (sym written) (record {
            roster = add_member-IsRoster i.team_id user_id fresh (omega arith) others.roster;
            issued =
                update-IsIssued (can_accept i.id email now) set_accepted (λ j. refl) (λ j. refl)
                  (λ j. refl) (accepted-IsConsistent i.id email now) others.issued;
            grown = omega arith;
          }))
        s

  write_revoke-IsSound :
      (now : ℕ) (i : Invitation) (db db' : Db) (j : Invitation)
      → write_revoke now i db ≡ ok (j, db')
      → IsSound past db
      → IsSound past db'
  unfolding write_revoke revoke_pending_by_id update_invitation_where
  write_revoke-IsSound now i db db' j h s =
      let same : db' ≡ record db {
        invitations =
            update_where (λ k. k.id == i.id && is_active_at now k) (set_revoked now) db.invitations;
      } =
        ground arith in
      subst (IsSound past) (sym same) (record {
        roster = s.roster;
        issued =
            update-IsIssued _ (set_revoked now) (λ i. refl) (λ i. refl) (λ i. refl)
              (λ i _ _ e. ground arith) s.issued;
        grown = s.grown;
      })

  pub revoke-IsSound :
      (team_id id now : ℕ) (between : Db → Db) (db : Db)
      → (IsSound past db → IsSound past (between db))
      → IsSound past db
      → IsSound past (revoke team_id id now between db).1
  unfolding revoke
  revoke-IsSound team_id id now between db others =
      read_committed_keeps (IsSound past) between (load_for_revoke team_id id) (write_revoke now) db
        others λ i db1 db' j loaded wrote. write_revoke-IsSound now i (between db) db' j wrote

  -- A new token for an invitation.
  update_token-IsSound :
      (id : ℕ) (token : String) (f : Invitation → Invitation)
      → ((i : Invitation) → (f i).id ≡ i.id)
      → ((i : Invitation) → (f i).token ≡ token)
      → ((i : Invitation) → (f i).team_id ≡ i.team_id)
      → ((i : Invitation) → IsConsistent i → IsConsistent (f i))
      → (db db' : Db) (u : Unit {0}) → update_token id token f db ≡ ok (u, db')
      → IsSound past db
      → IsSound past db'
  unfolding update_token
  update_token-IsSound id token f ids tokens teams consistent db db' u h s =
      let free : any (λ i. i.token == token && not (i.id == id)) db.invitations ≡ false =
        ground arith in
      let same : db' ≡ record db { invitations = update_where (λ i. i.id == id) f db.invitations } =
        ground arith in
      subst (IsSound past) (sym same) (record {
        roster = s.roster;
        issued = retoken-IsIssued id token f ids tokens teams consistent free s.issued;
        grown = s.grown;
      })

  resend_attempt-IsSound :
      (draws : ℕ → String) (rounds id : ℕ) (previous : String) (expires_at : ℕ) (db db' : Db)
      (i : Invitation)
      → resend_attempt draws rounds id previous expires_at db ≡ ok (i, db')
      → IsSound past db
      → IsSound past db'
  unfolding resend_attempt
  resend_attempt-IsSound draws rounds id previous expires_at db db' i h s =
      elim (Option-cases (generate_resend_token draws rounds previous)) [
        | inl stuck ↦ absurd (ground arith)
        | inr ((token, m), drawn) ↦
            let (u, db1, updated, loaded) =
              >>=-eq-ok (update_token id token (resent token expires_at))
                (λ _.
                  gets (find_invitation id) >>= (λ found. require_some found (unavailable "P2025")))
                db {b = i} {db' = db'} (ground arith) in
            let same : db' ≡ db1 = ground arith in
            subst (IsSound past) (sym same) (
              update_token-IsSound id token (resent token expires_at) (λ j. refl) (λ j. refl)
                (λ j. refl) (λ j _ e. ground arith) db db1 u updated s)
      ]

  commit_keeps :
      {A : Type 0} (body : Tx A) (db : Db)
      → ((db' : Db) (a : A) → body db ≡ ok (a, db') → IsSound past db → IsSound past db')
      → IsSound past db
      → IsSound past (commit (body db) db).1
  commit_keeps body db writes = serializable_keeps (IsSound past) body db writes

  update_for_resend-IsSound :
      (draws : ℕ → ℕ → String) (rounds id : ℕ) (previous : String) (expires_at : ℕ)
      (between : ℕ → Db → Db) (db : Db)
      → ((i : ℕ) (d : Db) → IsSound past d → IsSound past (between i d))
      → IsSound past db
      → IsSound past (update_invitation_for_resend draws rounds id previous expires_at between db).1
  unfolding update_invitation_for_resend
  update_for_resend-IsSound draws rounds id previous expires_at between db others =
      retry_keeps (IsSound past) _ _
        (λ i d s.
          commit_keeps (resend_attempt (draws i) rounds id previous expires_at) (between i d)
            (λ d' j h.
              resend_attempt-IsSound (draws i) rounds id previous expires_at (between i d) d' j h)
            (others i d s))
        invitation_token_max_retries 0 db

  restore-IsSound :
      (i : Invitation) (db : Db) → IsSound past db → IsSound past (commit (restore i db) db).1
  unfolding restore
  restore-IsSound i db = commit_keeps (restore i) db λ db' u h.
      update_token-IsSound i.id i.token (put_back i) (λ j. refl) (λ j. refl) (λ j. refl) (λ j c. c)
        db db' u h

  send_or_restore-IsSound :
      (accepts : InvitationEmail → Bool) (team : Team) (i : Invitation) (r : Result Invitation)
      (db : Db)
      → IsSound past db
      → IsSound past (send_or_restore accepts team i (r, db)).db
  unfolding send_or_restore
  send_or_restore-IsSound accepts team i (err e) db s = s
  send_or_restore-IsSound accepts team i (ok j) db s =
      elim (Bool-cases (accepts (resend_email team j))) [
        | inl queued ↦ rw (send_or_restore, queued) s
        | inr refused ↦ rw (send_or_restore, refused) (restore-IsSound i db s)
      ]

  pub resend-IsSound :
      (accepts : InvitationEmail → Bool) (draws : ℕ → ℕ → String) (rounds : ℕ) (team : Team)
      (id now expires_at : ℕ) (between : ℕ → Db → Db) (db : Db)
      → ((i : ℕ) (d : Db) → IsSound past d → IsSound past (between i d))
      → IsSound past db
      → IsSound past (resend accepts draws rounds team id now expires_at between db).db
  unfolding resend
  resend-IsSound accepts draws rounds team id now expires_at between db others s =
      elim (Result-cases (commit (load_for_resend team id now db) db).0) [
        | inr (e, failed) ↦ rw (resend, failed) s
        | inl (i, loaded) ↦
            rw (resend, loaded)
              (send_or_restore-IsSound accepts team i _ _ (
                update_for_resend-IsSound draws rounds i.id i.token expires_at between db others s))
      ]
