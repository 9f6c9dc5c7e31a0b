-- ===== src/Teams/Outcomes/Accept.antt =====
-- The outcome of accepting an invitation.
use nti_backend.Prelude.{
  ℕ, String, ◌≡◌, refl, sym, ap, ◌∙◌, inl, inr, Bool, true, false, ◌&&◌, Option, none, some, List,
  [], ◌∷◌, ◌++◌, ◌==◌, nat_eq, string_eq, arith, Bool-cases, Option-cases, find, ok, err, conflict,
}
use nti_backend.Domain.{InvitationStatus, invitation_status_eq}
use nti_backend.Store.{Db, Team, TeamMember, Invitation}
use nti_backend.Store.Tables.{
  IsKeyed, find_by_id, find_by_id-key, update_where, count_where, count_where_found,
  count_where_absent, map_option, patch, find_by_id-update_where, find-keyed, find-update_where,
}
use nti_backend.Store.Transactions.{◌>>=◌, ◌>>◌, pure, >>=-eq-ok}
use nti_backend.Applications.Repository.{find_team}
use nti_backend.Applications.Signals.{Numbers, recompute_for_team_applications}
use nti_backend.Applications.Signals.Frame.{recompute_team_frame}
use nti_backend.Applications.Outcomes.Transactions.{read_committed-ok}
use nti_backend.Teams.Repository.{find_member, add_member}
use nti_backend.Teams.Invitations.{
  find_by_token, find_invitation, mark_accepted_if_pending, update_invitation_where, is_active_at,
  set_accepted, has_token,
}
use nti_backend.Teams.Issue.{normalize_invite_email}
use nti_backend.Teams.Accept.{
  load_for_accept, write_accept, accept, ensure_marked, explain_refusal, already_member,
}

abbrev pub membership : ℕ → ℕ → TeamMember
membership team_id user_id = record { team_id = team_id; user_id = user_id }

-- The rows that `markAcceptedIfPending` takes.
abbrev pub can_accept : ℕ → String → ℕ → Invitation → Bool
can_accept id email now i = i.id == id && (i.email == email && is_active_at now i)

-- The database after an acceptance, up to the signals.
abbrev pub joined : ℕ → String → ℕ → Invitation → Db → Db → Db
joined user_id email now i db db' = record db {
  invitations = update_where (can_accept i.id email now) set_accepted db.invitations;
  team_members = db.team_members ++ membership i.team_id user_id ∷ [];
  signals = db'.signals;
}

pub load_for_accept_ok :
    (token : String) (user_id : ℕ) (email : String) (now : ℕ) (db db1 : Db) (i : Invitation)
    → load_for_accept token user_id email now db ≡ ok (i, db1)
    → (t : Team) × (db1 ≡ db)
      × (find_by_token token db ≡ some i)
      × ((i.status == InvitationStatus.accepted) ≡ false)
      × ((i.email == email) ≡ true)
      × (find_team i.team_id db ≡ some t)
      × (t.locked_at ≡ none)
unfolding load_for_accept
load_for_accept_ok token user_id email now db db1 i h =
    elim (Option-cases (find_team i.team_id db)) [
      | inl missing ↦ absurd (ground arith)
      | inr (t, found) ↦
          (t, ground arith, ground arith, ground arith, ground arith, found, ground arith)
    ]

mark_accepted_lem :
    (id : ℕ) (email : String) (now : ℕ) (db db1 : Db) (count : ℕ)
    → mark_accepted_if_pending id email now db ≡ ok (count, db1)
    → (count ≡ count_where (can_accept id email now) db.invitations)
      × (db1 ≡ record db {
        invitations = update_where (can_accept id email now) set_accepted db.invitations;
      })
unfolding mark_accepted_if_pending update_invitation_where
mark_accepted_lem id email now db db1 count h = ground arith

ensure_marked_ok :
    (id count : ℕ) (db db1 : Db) (u : Unit {0})
    → ensure_marked id count db ≡ ok (u, db1)
    → (db1 ≡ db) × ((count == 0) ≡ false)
unfolding ensure_marked explain_refusal
ensure_marked_ok id count db db1 u h = ground arith

add_member_ok :
    (team_id user_id : ℕ) (db db1 : Db) (m : TeamMember)
    → already_member (add_member team_id user_id db) ≡ ok (m, db1)
    → (m ≡ membership team_id user_id)
      × (find_member team_id user_id db ≡ none)
      × (db1 ≡ record db { team_members = db.team_members ++ membership team_id user_id ∷ [] })
unfolding already_member add_member
add_member_ok team_id user_id db db1 m h = ground arith

pub write_accept_ok :
    (n : Numbers) (user_id : ℕ) (email : String) (now : ℕ) (i : Invitation) (db db' : Db)
    (m : TeamMember)
    → write_accept n user_id email now i db ≡ ok (m, db')
    → ((count_where (can_accept i.id email now) db.invitations == 0) ≡ false)
      × (m ≡ membership i.team_id user_id)
      × (find_member i.team_id user_id db ≡ none)
      × (db' ≡ joined user_id email now i db db')
unfolding write_accept find_member
write_accept_ok n user_id email now i db db' m h =
    let (count, db1, marked, rest) =
      >>=-eq-ok (mark_accepted_if_pending i.id email now)
        (λ c.
          ensure_marked i.id c
          >> ((λ d. already_member (add_member i.team_id user_id d))
              >>= (λ r. recompute_for_team_applications n i.team_id >> pure r)))
        db h in
    let (counted, first) = mark_accepted_lem i.id email now db db1 count marked in
    let (u, db2, met, rest2) =
      >>=-eq-ok (ensure_marked i.id count)
        (λ _.
          (λ d. already_member (add_member i.team_id user_id d))
          >>= (λ r. recompute_for_team_applications n i.team_id >> pure r))
        db1 rest in
    let (same, some_row) = ensure_marked_ok i.id count db1 db2 u met in
    let (r, db3, added, rest3) =
      >>=-eq-ok (λ d. already_member (add_member i.team_id user_id d))
        (λ r. recompute_for_team_applications n i.team_id >> pure r) db2 rest2 in
    let (row, fresh, third) = add_member_ok i.team_id user_id db2 db3 r added in
    let (w, db4, recomputed, last) =
      >>=-eq-ok (recompute_for_team_applications n i.team_id) (λ _. pure r) db3 rest3 in
    let frame = recompute_team_frame n i.team_id db3 db4 w recomputed in
    let end : (r ≡ m) × (db4 ≡ db') = ground arith in ground arith

-- An update by id that counts some row has found it, and it met the further test.
pub counted_row :
    (id : ℕ) (q : Invitation → Bool) (rows : List Invitation)
    → IsKeyed (λ i. i.id) rows
    → (count_where (λ i. i.id == id && q i) rows == 0) ≡ false
    → (i : Invitation) × (find_by_id (λ i. i.id) id rows ≡ some i) × (q i ≡ true)
counted_row id q rows keyed counted = elim (Option-cases (find_by_id (λ i. i.id) id rows)) [
  | inl missing ↦ absurd (ground (arith, count_where_absent (λ i. i.id) id q rows missing))
  | inr (i, found) ↦ elim (Bool-cases (q i)) [
    | inl met ↦ (i, found, met)
    | inr unmet ↦ absurd (ground (arith, count_where_found (λ i. i.id) id q rows keyed found unmet))
  ]
]

-- Where no two invitations have one id when it writes: an acceptance that succeeds was made with
-- the token of an invitation to the user's normalized e-mail, for a team that was not locked when
-- it was checked; the invitation was pending, not revoked and not expired when it was written, and
-- the user was no member then. It makes the user a member of the team and the invitation accepted,
-- and changes nothing else but the eligibility signals, whatever others commit meanwhile.
pub accept_ok :
    (n : Numbers) (lower : String → String) (token : String) (user_id : ℕ) (user_email : String)
    (now : ℕ) (between : Db → Db) (db : Db) {m : TeamMember} {db' : Db}
    → IsKeyed (λ i. i.id) (between db).invitations
    → accept n lower token user_id user_email now between db ≡ (ok m, db')
    → (i : Invitation) × (t : Team) × (i' : Invitation) × (find_by_token token db ≡ some i)
      × (i.email ≡ normalize_invite_email lower user_email)
      × (find_team i.team_id db ≡ some t)
      × (t.locked_at ≡ none)
      × (find_invitation i.id (between db) ≡ some i')
      × (i'.email ≡ normalize_invite_email lower user_email)
      × (is_active_at now i' ≡ true)
      × (find_member i.team_id user_id (between db) ≡ none)
      × (m ≡ membership i.team_id user_id)
      × (db' ≡ joined user_id (normalize_invite_email lower user_email) now i (between db) db')
      × (find_invitation i.id db' ≡ some (set_accepted i'))
unfolding accept find_invitation
accept_ok n lower token user_id user_email now between db {m} {db'} keyed h =
    let email = normalize_invite_email lower user_email in
    let (i, db1, loaded, wrote) =
      read_committed-ok between (load_for_accept token user_id email now)
        (write_accept n user_id email now) db h in
    let (t, same, found, fresh, mine, team, unlocked) =
      load_for_accept_ok token user_id email now db db1 i loaded in
    let (counted, row, absent, written) =
      write_accept_ok n user_id email now i (between db) db' m wrote in
    let q : Invitation → Bool = λ j. j.email == email && is_active_at now j in
    let (i', there, met) = counted_row i.id q (between db).invitations keyed counted in
    let kept =
      find_by_id-update_where (λ j. j.id) (can_accept i.id email now) set_accepted (λ j. refl) i.id
        (between db).invitations in
    let id = find_by_id-key (λ j. j.id) i.id (between db).invitations there in
    let taken : some (patch (can_accept i.id email now) set_accepted i') ≡ some (set_accepted i') =
      ground arith in
    (
      i,
      t,
      i',
      found,
      (string_eq.equal_iff i.email email).0 mine,
      team,
      unlocked,
      there,
      (string_eq.equal_iff i'.email email).0 (ground arith),
      ground arith,
      absent,
      row,
      written,
      ap (λ d. find_by_id (λ j. j.id) i.id d.invitations) written
          ∙ kept
          ∙ ap (map_option (patch (can_accept i.id email now) set_accepted)) there
          ∙ taken,
    )

same_row : {A : Type 0} {o : Option A} {a b : A} → o ≡ some a → o ≡ some b → a ≡ b
same_row e h = ground arith

accepted_row :
    (i : Invitation) (email : String) (now : ℕ)
    → i.email ≡ email
    → is_active_at now i ≡ true
    → patch (can_accept i.id email now) set_accepted i ≡ set_accepted i
accepted_row i email now mine active = ground (arith, string_eq.equal_iff i.email email)

load_for_accept_accepted :
    (token : String) (user_id : ℕ) (email : String) (now : ℕ) (db : Db) (i : Invitation)
    → find_by_token token db ≡ some (set_accepted i)
    → load_for_accept token user_id email now db ≡ err (conflict "Invitation already accepted")
unfolding load_for_accept
load_for_accept_accepted token user_id email now db i h = ground arith

accept_refused :
    (n : Numbers) (lower : String → String) (token : String) (user_id : ℕ) (user_email : String)
    (now : ℕ) (between : Db → Db) (db : Db) (i : Invitation)
    → find_by_token token db ≡ some (set_accepted i)
    → accept n lower token user_id user_email now between db
      ≡ (err (conflict "Invitation already accepted"), db)
unfolding accept
accept_refused n lower token user_id user_email now between db i h =
    rw (load_for_accept_accepted token user_id (normalize_invite_email lower user_email) now db i h)
      refl

-- Where no two invitations have one id and nothing else commits during an acceptance that
-- succeeds: whoever accepts with the same token after it gets a conflict and changes nothing,
-- whatever commits during this later request.
pub accept_once :
    (n : Numbers) (lower : String → String) (token : String) (user_id : ℕ) (user_email : String)
    (now : ℕ) (db : Db) {m : TeamMember} {db' : Db}
    → IsKeyed (λ i. i.id) db.invitations
    → accept n lower token user_id user_email now (λ d. d) db ≡ (ok m, db')
    → (user_id' : ℕ) (user_email' : String) (now' : ℕ) (between : Db → Db)
    → accept n lower token user_id' user_email' now' between db'
      ≡ (err (conflict "Invitation already accepted"), db')
unfolding find_by_token find_invitation
accept_once n lower token user_id user_email now db {m} {db'} keyed h user_id' user_email' now'
      between =
    let email = normalize_invite_email lower user_email in
    let (i, t, i', found, _, _, _, there, mine, active, _, _, written, _) =
      accept_ok n lower token user_id user_email now (λ d. d) db keyed h in
    let row =
      same_row there (find-keyed (λ j. j.id) (has_token token) db.invitations keyed found) in
    let kept =
      find-update_where (λ j. j.id) (has_token token) (can_accept i.id email now) set_accepted
        (λ j. refl) db.invitations in
    accept_refused n lower token user_id' user_email' now' between db' i (
      ap (λ d. find (has_token token) d.invitations) written
      ∙ kept
      ∙ ap (map_option (patch (can_accept i.id email now) set_accepted)) found
      ∙ ap some (
          accepted_row i email now (sym (ap (λ j. j.email) row) ∙ mine)
            (sym (ap (is_active_at now) row) ∙ active)))
