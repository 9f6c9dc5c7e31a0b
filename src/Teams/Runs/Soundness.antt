-- ===== src/Teams/Runs/Soundness.antt =====
-- Every run of requests keeps the tables of src/team sound.
use nti_backend.Prelude.{ℕ, ◌≡◌, ◌<◌, none, some, List, [], ◌∷◌, refl, sym, subst, arith, All}
use nti_backend.Store.{Db, Team, TeamMember}
use nti_backend.Store.Tables.{IsKeyed, find_by_id, find_by_id-All}
use nti_backend.Applications.Repository.{find_team}
use nti_backend.Applications.Signals.{Numbers}
use nti_backend.Teams.Roster.{IsRoster, IsLed, IsSound}
use nti_backend.Teams.Roster.Members.{later-IsRoster}
use nti_backend.Teams.Roster.Issued.{later-IsIssued}
use nti_backend.Teams.Roster.Requests.{
  remove_member-IsSound, leave_team-IsSound, transfer_leadership-IsSound,
  ensure_personal_team-IsSound, update-IsSound,
}
use nti_backend.Teams.Roster.Answering.{accept-IsSound, revoke-IsSound, resend-IsSound}
use nti_backend.Teams.Roster.Creating.{create-IsSound, create_invites_request-IsSound}
use nti_backend.Teams.Runs.{
  MembershipRequest, perform, SameTeams, Elsewhere, Services, Run, start, elsewhere, performed,
  ensured, updated, accepted, revoked, resent, created, invited,
}

find_none-SameTeams :
    (id : ℕ) (ts ss : List Team)
    → SameTeams ts ss
    → find_by_id (λ t. t.id) id ts ≡ none
    → find_by_id (λ t. t.id) id ss ≡ none
unfolding find_by_id
find_none-SameTeams id [] [] same h = refl
find_none-SameTeams id [] (s ∷ ss) same h = absurd same
find_none-SameTeams id (t ∷ ts) [] same h = absurd same
find_none-SameTeams id (t ∷ ts) (s ∷ ss) same h =
    ground (arith, same.0, find_none-SameTeams id ts ss same.2)

IsKeyed-SameTeams :
    (ts ss : List Team) → SameTeams ts ss → IsKeyed (λ t. t.id) ts → IsKeyed (λ t. t.id) ss
IsKeyed-SameTeams [] [] same h = tt
IsKeyed-SameTeams [] (s ∷ ss) same h = absurd same
IsKeyed-SameTeams (t ∷ ts) [] same h = absurd same
IsKeyed-SameTeams (t ∷ ts) (s ∷ ss) same h = (
  subst (λ k. find_by_id (λ t. t.id) k ss ≡ none) (sym same.0)
      (find_none-SameTeams t.id ts ss same.2 h.0),
  IsKeyed-SameTeams ts ss same.2 h.1,
)

used-SameTeams :
    (next : ℕ) (ts ss : List Team)
    → SameTeams ts ss
    → All (λ t. t.id < next) ts
    → All (λ t. t.id < next) ss
used-SameTeams next [] [] same h = tt
used-SameTeams next [] (s ∷ ss) same h = absurd same
used-SameTeams next (t ∷ ts) [] same h = absurd same
used-SameTeams next (t ∷ ts) (s ∷ ss) same h =
    (subst (λ k. k < next) (sym same.0) h.0, used-SameTeams next ts ss same.2 h.1)

IsLed-SameTeams :
    (members : List TeamMember) (ts ss : List Team)
    → SameTeams ts ss
    → All (IsLed members) ts
    → All (IsLed members) ss
IsLed-SameTeams members [] [] same h = tt
IsLed-SameTeams members [] (s ∷ ss) same h = absurd same
IsLed-SameTeams members (t ∷ ts) [] same h = absurd same
IsLed-SameTeams members (t ∷ ts) (s ∷ ss) same h =
    (rw (same.0, same.1) h.0, IsLed-SameTeams members ts ss same.2 h.1)

Elsewhere-IsSound : {past : ℕ} {db db' : Db} → Elsewhere db db' → IsSound past db → IsSound past db'
Elsewhere-IsSound {past} {db} {db'} e s =
    let r : IsRoster db'.teams db.team_members db.next_id = record {
      keyed = IsKeyed-SameTeams db.teams db'.teams e.teams_kept s.roster.keyed;
      used = used-SameTeams db.next_id db.teams db'.teams e.teams_kept s.roster.used;
      apart = s.roster.apart;
      known = s.roster.known;
      led = IsLed-SameTeams db.team_members db.teams db'.teams e.teams_kept s.roster.led;
    } in
    let grown = s.grown in
    let grow = e.ids_grow in
    record {
      roster =
          subst (λ ms. IsRoster db'.teams ms db'.next_id) (sym e.members_kept)
            (later-IsRoster grow r);
      issued = rw e.invitations_kept (later-IsIssued grow s.issued);
      grown = omega arith;
    }

performed-IsSound :
    (n : Numbers) (request : MembershipRequest) (team_id user_id : ℕ) {past : ℕ} {db : Db}
    → IsSound past db
    → IsSound past (perform n request team_id user_id db).1
unfolding perform
performed-IsSound n (MembershipRequest.remove member_id) team_id user_id {past} {db} =
    remove_member-IsSound n team_id user_id member_id db
performed-IsSound n (MembershipRequest.transfer leader_id) team_id user_id {past} {db} =
    transfer_leadership-IsSound n team_id user_id leader_id db
performed-IsSound n MembershipRequest.leave team_id user_id {past} {db} =
    leave_team-IsSound n team_id user_id db

found_team_used :
    {past : ℕ} (id : ℕ) (db : Db) {t : Team}
    → find_team id db ≡ some t
    → IsSound past db
    → t.id < db.next_id
unfolding find_team
found_team_used id db found s =
    find_by_id-All (λ t. t.id < db.next_id) (λ t. t.id) id db.teams found s.roster.used

-- A run of requests, with whatever other requests commit between the reads and the writes of each,
-- keeps the tables sound: team ids, invitation ids and tokens are distinct, nobody is in a team
-- twice, the leader of every team is one of its members, and no ACCEPTED or EXPIRED invitation has a
-- date of revocation.
pub Run-IsSound :
    (s : Services) {db db' : Db} → Run s db db' → {past : ℕ} → IsSound past db → IsSound past db'
Run-IsSound s (start db) h = h
Run-IsSound s (elsewhere run e) h = Elsewhere-IsSound e (Run-IsSound s run h)
Run-IsSound s (performed request team_id user_id run) h =
    performed-IsSound s.numbers request team_id user_id (Run-IsSound s run h)
Run-IsSound s (ensured user_id name run) h =
    ensure_personal_team-IsSound user_id name _ (Run-IsSound s run h)
Run-IsSound s (updated team_id user_id name between run others) h =
    update-IsSound team_id user_id name between _ (Run-IsSound s others) (Run-IsSound s run h)
Run-IsSound s (accepted {db' = db1} token user_id user_email now between run others) h =
    let before = Run-IsSound s run h in
    accept-IsSound s.numbers s.lower token user_id user_email now between _
      (Run-IsSound s others
        (record { roster = before.roster; issued = before.issued; grown = omega arith }))
      before
Run-IsSound s (revoked team_id id now between run others) h =
    revoke-IsSound team_id id now between _ (Run-IsSound s others) (Run-IsSound s run h)
Run-IsSound s (resent draws team id now expires_at between run others) h =
    resend-IsSound s.accepts draws s.rounds team id now expires_at between _
      (λ i d. Run-IsSound s (others i d)) (Run-IsSound s run h)
Run-IsSound s (created draws user_id name emails now expires_at run) h =
    create-IsSound s.accepts s.removes s.lower draws s.rounds user_id name emails now expires_at _
      (Run-IsSound s run h)
Run-IsSound s
      (invited {db' = db1} draws id team emails minimum now expires_at between run found others) h =
    let before = Run-IsSound s run h in
    let bound = before.grown in
    let after =
      create_invites_request-IsSound {past = db1.next_id} s.accepts s.removes s.lower draws s.rounds
        team emails minimum now expires_at between db1 (found_team_used id db1 found before)
        (λ i d. Run-IsSound s (others i d))
        (record { roster = before.roster; issued = before.issued; grown = omega arith }) in
    let grown = after.grown in
    record { roster = after.roster; issued = after.issued; grown = omega arith }
