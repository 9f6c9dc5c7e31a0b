-- ===== src/Teams/Outcomes/Resend.antt =====
-- The outcome of sending an invitation again.
use nti_backend.Prelude.{
  ℕ, zero, suc, String, ◌≡◌, refl, sym, ap, ◌∙◌, subst, ◌⊎◌, inl, inr, Bool, true, false, not, ◌&&◌,
  none, some, List, [], ◌∷◌, ◌==◌, nat_eq, string_eq, arith, Option-cases, Bool-cases, Result-cases,
  find, any, Result, ok, err, Exception, unavailable, conflict,
}
use nti_backend.Domain.{InvitationStatus, invitation_status_eq}
use nti_backend.Store.{Db, Team, Invitation}
use nti_backend.Store.Tables.{
  IsKeyed, find_by_id, find-keyed, find_by_id-update_where, update_where, map_option, patch,
}
use nti_backend.Store.Apart.{IsApart}
use nti_backend.Store.Transactions.{Tx, >>=-eq-ok, ◌>>=◌, gets, require_some, commit}
use nti_backend.Teams.Invitations.{find_by_id_and_team, find_invitation, update_token}
use nti_backend.Teams.Tokens.{
  generate_resend_token, retry, is_token_unique_constraint_error, invitation_token_max_retries,
}
use nti_backend.Teams.Mail.{InvitationEmail}
use nti_backend.Teams.Resend.{
  load_for_resend, resent, resend_attempt, update_invitation_for_resend, put_back, restore,
  send_or_restore, resend, resend_email,
}
use nti_backend.Teams.Roster.{same_token}

-- Without other requests, the attempts end with one that succeeds, or change nothing.
retry_alone :
    {A : Type 0} (message : String) (body : ℕ → Tx A) (left i : ℕ) (db : Db)
    → ((j : ℕ) × (a : A) × (db' : Db) × (body j db ≡ ok (a, db'))
        × (retry message (λ k d. commit (body k d) d) left i db ≡ (ok a, db')))
      ⊎ ((e : Exception) × (retry message (λ k d. commit (body k d) d) left i db ≡ (err e, db)))
unfolding retry
retry_alone message body zero i db = inr (conflict message, refl)
retry_alone message body (suc left) i db = elim (Result-cases (body i db)) [
  | inl ((a, db'), done) ↦
      inl (i, a, db', done, rw (retry, done) (ap (λ r. (ok a, (commit r db).1)) done))
  | inr (e, failed) ↦ elim (Bool-cases (is_token_unique_constraint_error e && not (left == 0))) [
    | inr final ↦ inr (e, rw (retry, failed, final) (ap (λ r. (err e, (commit r db).1)) failed))
    | inl again ↦
        let kept : (commit (body i db) db).1 ≡ db = ap (λ r. (commit r db).1) failed in
        let next = ap (retry message (λ k d. commit (body k d) d) left (suc i)) kept in
        elim (retry_alone message body left (suc i) db) [
          | inl (j, a, db', done, r) ↦ inl (j, a, db', done, rw (retry, failed, again) (next ∙ r))
          | inr (x, r) ↦ inr (x, rw (retry, failed, again) (next ∙ r))
        ]
  ]
]

none_share :
    (id : ℕ) (x : Invitation) (rows : List Invitation)
    → find (same_token x) rows ≡ none
    → any (λ j. j.token == x.token && not (j.id == id)) rows ≡ false
none_share id x [] h = refl
none_share id x (y ∷ rows) h = ground (arith, none_share id x rows)

unmet_by :
    (id : ℕ) (p : Invitation → Bool) (rows : List Invitation) {i : Invitation}
    → find p rows ≡ none
    → find_by_id (λ j. j.id) id rows ≡ some i
    → p i ≡ false
unfolding find_by_id
unmet_by id p [] h e = absurd (ground arith)
unmet_by id p (x ∷ rows) {i} h e = elim (Bool-cases (x.id == id)) [
  | inl same ↦ let row : x ≡ i = ground arith in ground arith
  | inr other ↦ ground (arith, unmet_by id p rows {i = i})
]

-- No other row has the token of a row.
token_of_others :
    (id : ℕ) (rows : List Invitation) {i : Invitation}
    → IsKeyed (λ j. j.id) rows
    → IsApart same_token rows
    → find_by_id (λ j. j.id) id rows ≡ some i
    → any (λ j. j.token == i.token && not (j.id == id)) rows ≡ false
unfolding find_by_id
token_of_others id [] keyed apart found = refl
token_of_others id (x ∷ rows) {i} keyed apart found = elim (Bool-cases (x.id == id)) [
  | inl same ↦
      let row : i ≡ x = ground arith in
      let rest = none_share id x rows apart.0 in
      subst (λ k. any (λ j. j.token == k.token && not (j.id == id)) (x ∷ rows) ≡ false) (sym row)
        (ground arith)
  | inr other ↦
      let later : find_by_id (λ j. j.id) id rows ≡ some i = ground arith in
      let rest = token_of_others id rows keyed.1 apart.1 later in
      let unlike : (x.token == i.token) ≡ false = ground (
        arith,
        unmet_by id (same_token x) rows apart.0 later,
        string_eq.equal_iff x.token i.token,
        string_eq.equal_iff i.token x.token,
      ) in
      ground arith
]

any-update_where :
    (id : ℕ) (token : String) (f : Invitation → Invitation)
    → ((i : Invitation) → (f i).id ≡ i.id)
    → (rows : List Invitation)
    → any (λ j. j.token == token && not (j.id == id)) (update_where (λ i. i.id == id) f rows)
      ≡ any (λ j. j.token == token && not (j.id == id)) rows
unfolding update_where
any-update_where id token f ids [] = refl
any-update_where id token f ids (x ∷ rows) =
    ground (arith, ids x, any-update_where id token f ids rows)

update_absent :
    (id : ℕ) (f : Invitation → Invitation) (rows : List Invitation)
    → find_by_id (λ j. j.id) id rows ≡ none
    → update_where (λ j. j.id == id) f rows ≡ rows
unfolding update_where find_by_id
update_absent id f [] h = refl
update_absent id f (x ∷ rows) h = ground (arith, update_absent id f rows)

-- An update of the row of an id is undone by one that gives the row back.
update_undone :
    (id : ℕ) (f g : Invitation → Invitation)
    → ((i : Invitation) → (f i).id ≡ i.id)
    → (rows : List Invitation) {i : Invitation} → IsKeyed (λ j. j.id) rows
    → find_by_id (λ j. j.id) id rows ≡ some i
    → g (f i) ≡ i
    → update_where (λ j. j.id == id) g (update_where (λ j. j.id == id) f rows) ≡ rows
unfolding update_where find_by_id
update_undone id f g ids [] keyed found back = refl
update_undone id f g ids (x ∷ rows) {i} keyed found back = elim (Bool-cases (x.id == id)) [
  | inl same ↦
      let row : i ≡ x = ground arith in
      let here : x.id ≡ id = (nat_eq.equal_iff x.id id).0 same in
      let absent = subst (λ k. find_by_id (λ j. j.id) k rows ≡ none) here keyed.0 in
      let first = update_absent id f rows absent in
      let second = update_absent id g rows absent in ground (arith, ids x)
  | inr other ↦
      ground (arith, ids x, update_undone id f g ids rows {i = i} keyed.1 (ground arith) back)
]

load_for_resend_ok :
    (team : Team) (id now : ℕ) (db db1 : Db) (i : Invitation)
    → load_for_resend team id now db ≡ ok (i, db1)
    → (find_by_id_and_team id team.id db ≡ some i) × (i.status ≡ InvitationStatus.pending)
unfolding load_for_resend
load_for_resend_ok team id now db db1 i h =
    let pending : (i.status == InvitationStatus.pending) ≡ true = ground arith in
    (ground arith, (invitation_status_eq.equal_iff i.status InvitationStatus.pending).0 pending)

update_token_ok :
    (id : ℕ) (token : String) (f : Invitation → Invitation) (db db' : Db) (u : Unit {0})
    → update_token id token f db ≡ ok (u, db')
    → db' ≡ record db { invitations = update_where (λ i. i.id == id) f db.invitations }
unfolding update_token
update_token_ok id token f db db' u h = ground arith

abbrev pub with_resent : ℕ → String → ℕ → Db → Db
with_resent id token expires_at db = record db {
  invitations = update_where (λ i. i.id == id) (resent token expires_at) db.invitations;
}

resend_attempt_ok :
    (draws : ℕ → String) (rounds id : ℕ) (previous : String) (expires_at : ℕ) (db db' : Db)
    (i : Invitation)
    → resend_attempt draws rounds id previous expires_at db ≡ ok (i, db')
    → (token : String) × (db' ≡ with_resent id token expires_at db)
unfolding resend_attempt
resend_attempt_ok draws rounds id previous expires_at db db' i h =
    elim (Option-cases (generate_resend_token draws rounds previous)) [
      | inl stuck ↦ absurd (ground arith)
      | inr ((token, m), drawn) ↦
          let (u, db1, updated, loaded) =
            >>=-eq-ok (update_token id token (resent token expires_at))
              (λ _.
                gets (find_invitation id) >>= (λ found. require_some found (unavailable "P2025")))
              db {b = i} {db' = db'} (ground arith) in
          let same : db' ≡ db1 = ground arith in
          (token, same ∙ update_token_ok id token (resent token expires_at) db db1 u updated)
    ]

-- Putting the token back succeeds, and gives the database from before.
restore_lem :
    (i : Invitation) (token : String) (expires_at : ℕ) (db : Db)
    → IsKeyed (λ j. j.id) db.invitations
    → IsApart same_token db.invitations
    → find_by_id (λ j. j.id) i.id db.invitations ≡ some i
    → i.status ≡ InvitationStatus.pending
    → restore i (with_resent i.id token expires_at db) ≡ ok (tt, db)
unfolding restore update_token find_invitation
restore_lem i token expires_at db keyed apart found pending =
    let there =
      find_by_id-update_where (λ j. j.id) (λ j. j.id == i.id) (resent token expires_at) (λ j. refl)
        i.id db.invitations
      ∙ ap (map_option (patch (λ j. j.id == i.id) (resent token expires_at))) found in
    let free =
      any-update_where i.id i.token (resent token expires_at) (λ j. refl) db.invitations
      ∙ token_of_others i.id db.invitations keyed apart found in
    let back : put_back i (resent token expires_at i) ≡ i =
      ap (λ s. record i { status = s }) (sym pending) in
    let undone =
      update_undone i.id (resent token expires_at) (put_back i) (λ j. refl) db.invitations keyed
        found back in
    rw (there, free) (ap (λ rows. ok (tt, record db { invitations = rows })) undone)

send_or_restore_failed :
    (accepts : InvitationEmail → Bool) (team : Team) (i j : Invitation) (db db2 : Db)
    {e : Exception}
    → restore i db2 ≡ ok (tt, db)
    → (send_or_restore accepts team i (ok j, db2)).result ≡ err e
    → (send_or_restore accepts team i (ok j, db2)).db ≡ db
unfolding send_or_restore
send_or_restore_failed accepts team i j db db2 {e} back h =
    elim (Bool-cases (accepts (resend_email team j))) [
      | inl queued ↦ absurd (ground arith)
      | inr refused ↦ rw (send_or_restore, refused) (ap (λ r. (commit r db2).1) back)
    ]

-- Where invitation ids and tokens are distinct and no other request commits meanwhile: a resend
-- that fails, for any reason and after any number of attempts, leaves the database as it was; if
-- the queue refused the job, the old token and date are back.
pub resend_failed :
    (accepts : InvitationEmail → Bool) (draws : ℕ → ℕ → String) (rounds : ℕ) (team : Team)
    (id now expires_at : ℕ) (db : Db) {e : Exception}
    → IsKeyed (λ j. j.id) db.invitations
    → IsApart same_token db.invitations
    → (resend accepts draws rounds team id now expires_at (λ _ d. d) db).result ≡ err e
    → (resend accepts draws rounds team id now expires_at (λ _ d. d) db).db ≡ db
unfolding resend update_invitation_for_resend send_or_restore find_by_id_and_team
resend_failed accepts draws rounds team id now expires_at db {e} keyed apart h =
    elim (Result-cases (load_for_resend team id now db)) [
      | inr (x, failed) ↦ rw (resend, failed) refl
      | inl ((i, db1), loaded) ↦
          let (found, pending) = load_for_resend_ok team id now db db1 i loaded in
          let row = find-keyed (λ j. j.id) _ db.invitations keyed found in
          let body : ℕ → Tx Invitation =
            λ k. resend_attempt (draws k) rounds i.id i.token expires_at in
          let h' : (send_or_restore accepts team i (sent i)).result ≡ err e =
            rw (loaded, resend) at h in
          rw (resend, loaded)
            (elim (retry_alone "Failed to resend invitation due to repeated token collisions" body
              invitation_token_max_retries 0 db) [
                | inr (x, r) ↦ ap (λ p. (send_or_restore accepts team i p).db) r
                | inl (k, j, db2, done, r) ↦
                    let (token, written) =
                      resend_attempt_ok (draws k) rounds i.id i.token expires_at db db2 j done in
                    ap (λ p. (send_or_restore accepts team i p).db) r
                    ∙ send_or_restore_failed accepts team i j db db2
                        (ap (restore i) written
                          ∙ restore_lem i token expires_at db keyed apart row pending)
                        (sym (ap (λ p. (send_or_restore accepts team i p).result) r) ∙ h')
              ])
    ]
  where
    sent : Invitation → Result Invitation × Db
    sent i = update_invitation_for_resend draws rounds i.id i.token expires_at (λ _ d. d) db
