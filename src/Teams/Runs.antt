-- ===== src/Teams/Runs.antt =====
-- What the services of src/team do to the database, one request after another. Between the reads
-- and the writes of a request that is not SERIALIZABLE, any run of other requests may commit.
pub mod Soundness
use nti_backend.Prelude.{ℕ, String, Bool, Option, some, List, [], ◌∷◌, ◌≡◌, ◌≤◌, ◌<◌, Result}
use nti_backend.Store.{Db, Team}
use nti_backend.Applications.Repository.{find_team}
use nti_backend.Applications.Signals.{Numbers}
use nti_backend.Teams.Mail.{InvitationEmail}
use nti_backend.Teams.Membership.{remove_member, leave_team, transfer_leadership}
use nti_backend.Teams.Accept.{accept}
use nti_backend.Teams.Issue.{revoke}
use nti_backend.Teams.Resend.{resend}
use nti_backend.Teams.Lifecycle.{create, ensure_personal_team_for_user, update, create_invites}

-- The three requests about who is in a team.
pub data MembershipRequest : Type 0 where
  remove transfer : ℕ → MembershipRequest
  leave : MembershipRequest

unfoldable pub perform : Numbers → MembershipRequest → ℕ → ℕ → Db → Result (Unit {0}) × Db
perform n (MembershipRequest.remove member_id) team_id user_id =
    remove_member n team_id user_id member_id
perform n (MembershipRequest.transfer new_leader_id) team_id user_id =
    transfer_leadership n team_id user_id new_leader_id
perform n MembershipRequest.leave team_id user_id = leave_team n team_id user_id

-- The two tables have the same teams, with the same leaders.
abbrev pub SameTeams : List Team → List Team → Type 0
SameTeams [] [] = Unit
SameTeams [] (_ ∷ _) = ⊥
SameTeams (_ ∷ _) [] = ⊥
SameTeams (t ∷ ts) (s ∷ ss) = (s.id ≡ t.id) × (s.leader_id ≡ t.leader_id) × SameTeams ts ss

-- What the rest of the program does to these tables: a submission locks a team, and ids are taken.
-- Removing a team, with all that belongs to it, is not a step.
pub record Elsewhere (db db' : Db) : Type 0 where
  pub teams_kept : SameTeams db.teams db'.teams
  pub members_kept : db'.team_members ≡ db.team_members
  pub invitations_kept : db'.invitations ≡ db.invitations
  pub ids_grow : db.next_id ≤ db'.next_id

-- What the queue, the token generator and the case mapping do.
pub record Services : Type 1 where
  pub numbers : Numbers
  pub accepts : InvitationEmail → Bool
  pub removes : InvitationEmail → Bool
  pub lower : String → String
  pub rounds : ℕ

-- `Run db db'`: requests that take the database from `db` to `db'`.
pub data Run (s : Services) : Db → Db → Type 0 where
  start : (db : Db) → Run s db db
  elsewhere : {db db' db2 : Db} → Run s db db' → Elsewhere db' db2 → Run s db db2
  performed :
      {db db' : Db} (request : MembershipRequest) (team_id user_id : ℕ)
      → Run s db db'
      → Run s db (perform s.numbers request team_id user_id db').1
  ensured :
      {db db' : Db} (user_id : ℕ) (name : String)
      → Run s db db'
      → Run s db (ensure_personal_team_for_user user_id name db').1
  updated :
      {db db' : Db} (team_id user_id : ℕ) (name : Option String) (between : Db → Db)
      → Run s db db'
      → Run s db' (between db')
      → Run s db (update team_id user_id name between db').1
  accepted :
      {db db' : Db} (token : String) (user_id : ℕ) (user_email : String) (now : ℕ)
      (between : Db → Db)
      → Run s db db'
      → Run s db' (between db')
      → Run s db (accept s.numbers s.lower token user_id user_email now between db').1
  revoked :
      {db db' : Db} (team_id id now : ℕ) (between : Db → Db)
      → Run s db db'
      → Run s db' (between db')
      → Run s db (revoke team_id id now between db').1
  resent :
      {db db' : Db} (draws : ℕ → ℕ → String) (team : Team) (id now expires_at : ℕ)
      (between : ℕ → Db → Db)
      → Run s db db'
      → ((i : ℕ) (d : Db) → Run s d (between i d))
      → Run s db (resend s.accepts draws s.rounds team id now expires_at between db').db
  created :
      {db db' : Db} (draws : ℕ → String) (user_id : ℕ) (name : String) (emails : List String)
      (now expires_at : ℕ)
      → Run s db db'
      → Run s db
          (create s.accepts s.removes s.lower draws s.rounds user_id name emails now expires_at
            db').db
  invited :
      {db db' : Db} (draws : ℕ → ℕ → String) (id : ℕ) (team : Team) (emails : List String)
      (minimum now expires_at : ℕ) (between : ℕ → Db → Db)
      → Run s db db'
      → find_team id db' ≡ some team
      → ((i : ℕ) (d : Db) → Run s d (between i d))
      → Run s db
          (create_invites s.accepts s.removes s.lower draws s.rounds team emails minimum now
            expires_at between db').db
