-- ===== src/Teams/Roster/Members.antt =====
-- The changes of the teams and their members that keep the roster.
use nti_backend.Prelude.{
  ℕ, suc, ◌≡◌, ◌≢◌, sym, subst, ◌≤◌, ◌<◌, not, none, some, List, [], ◌∷◌, ◌++◌, ◌==◌, nat_eq, arith,
  find, filter, All, All-append,
}
use nti_backend.Store.{Team, TeamMember}
use nti_backend.Store.Tables.{
  update_where, update_where-IsKeyed, find_by_id, find_by_id-All, append-IsKeyed, All-update_where,
}
use nti_backend.Store.Keyed.{All-keyed}
use nti_backend.Store.Apart.{
  IsApart-append, IsApart-filter, find-append, find-filter, All-filter, All-map,
}
use nti_backend.Teams.Repository.{is_membership}
use nti_backend.Teams.Roster.{IsRoster, IsLed, same_membership}

abbrev pub member : ℕ → ℕ → TeamMember
member team_id user_id = record { team_id = team_id; user_id = user_id }

same_membership_swap : (a b : TeamMember) → same_membership a b ≡ same_membership b a
same_membership_swap a b = ground arith

-- More members, or a later id, leave a team led.
append-IsLed :
    (members : List TeamMember) (m : TeamMember) (t : Team)
    → IsLed members t
    → IsLed (members ++ m ∷ []) t
append-IsLed members m t h =
    rw (find-append (is_membership t.id t.leader_id) members m) (ground arith)

pub add_member-IsRoster :
    {teams : List Team} {members : List TeamMember} {next : ℕ} (team_id user_id : ℕ)
    → find (is_membership team_id user_id) members ≡ none
    → team_id < next
    → IsRoster teams members next
    → IsRoster teams (members ++ member team_id user_id ∷ []) next
add_member-IsRoster {teams} {members} {next} team_id user_id fresh below r = record {
  keyed = r.keyed;
  used = r.used;
  apart = IsApart-append same_membership same_membership_swap members _ r.apart fresh;
  known = All-append (λ m. m.team_id < next) members _ r.known (below, tt);
  led = All-map (append-IsLed members (member team_id user_id)) teams r.led;
}

pub later-IsRoster :
    {teams : List Team} {members : List TeamMember} {next next' : ℕ}
    → next ≤ next'
    → IsRoster teams members next
    → IsRoster teams members next'
later-IsRoster {teams} {members} {next} {next'} h r = record {
  keyed = r.keyed;
  used =
      All-map {P = λ t. t.id < next} {Q = λ t. t.id < next'} (λ t below. omega arith) teams r.used;
  apart = r.apart;
  known =
      All-map {P = λ m. m.team_id < next} {Q = λ m. m.team_id < next'} (λ m below. omega arith)
        members r.known;
  led = r.led;
}

-- A team with the next id, led by its first member.
pub found_team-IsRoster :
    {teams : List Team} {members : List TeamMember} {next : ℕ} (t : Team)
    → t.id ≡ next
    → find (is_membership t.id t.leader_id) members ≡ none
    → IsRoster teams members next
    → IsRoster (teams ++ t ∷ []) (members ++ member t.id t.leader_id ∷ []) (suc next)
found_team-IsRoster {teams} {members} {next} t new fresh r =
    let later = later-IsRoster {next' = suc next} (omega arith) r in
    let more = add_member-IsRoster t.id t.leader_id fresh (omega arith) later in
    let first : IsLed (members ++ member t.id t.leader_id ∷ []) t =
      rw (find-append (is_membership t.id t.leader_id) members (member t.id t.leader_id))
        (ground arith) in
    record {
      keyed =
          append-IsKeyed (λ s. s.id) teams t r.keyed
            (subst (λ k. All (λ s. s.id < k) teams) (sym new) r.used);
      used = All-append (λ s. s.id < suc next) teams _ later.used (omega arith, tt);
      apart = more.apart;
      known = more.known;
      led = All-append (IsLed _) teams _ more.led (first, tt);
    }

-- The leader of a team that is found by its id is one of its members.
pub leader_found :
    {teams : List Team} {members : List TeamMember} {next : ℕ} (id : ℕ) {t : Team}
    → find_by_id (λ s. s.id) id teams ≡ some t
    → IsRoster teams members next
    → IsLed members t
leader_found {teams} {members} id found r =
    find_by_id-All (IsLed members) (λ s. s.id) id teams found r.led

kept-IsLed :
    (members : List TeamMember) (team_id user_id : ℕ) (t : Team)
    → ((t.id ≡ team_id) → t.leader_id ≢ user_id)
    → IsLed members t
    → IsLed (filter (λ m. not (is_membership team_id user_id m)) members) t
kept-IsLed members team_id user_id t other h =
    rw
      (find-filter (is_membership t.id t.leader_id) (λ m. not (is_membership team_id user_id m))
        (λ m met. ground (arith, other)) members)
      h

-- Every member but the leader may leave a team.
pub drop_member-IsRoster :
    {teams : List Team} {members : List TeamMember} {next : ℕ} (team_id user_id : ℕ) {t : Team}
    → find_by_id (λ s. s.id) team_id teams ≡ some t
    → t.leader_id ≢ user_id
    → IsRoster teams members next
    → IsRoster teams (filter (λ m. not (is_membership team_id user_id m)) members) next
drop_member-IsRoster {teams} {members} {next} team_id user_id {t} found other r = record {
  keyed = r.keyed;
  used = r.used;
  apart = IsApart-filter same_membership _ members r.apart;
  known = All-filter (λ m. m.team_id < next) _ members r.known;
  led =
      both teams
        (All-keyed (λ s. s.leader_id ≢ user_id) (λ s. s.id) team_id teams r.keyed found other)
        r.led;
}
  where
    both :
        (rows : List Team)
        → All (λ s. s.id ≡ team_id → s.leader_id ≢ user_id) rows
        → All (IsLed members) rows
        → All (IsLed (filter (λ m. not (is_membership team_id user_id m)) members)) rows
    both [] others led = tt
    both (s ∷ rows) others led =
        (kept-IsLed members team_id user_id s others.0 led.0, both rows others.1 led.1)

-- An update of a team's row that keeps its id and leaves it led.
pub update_team-IsRoster :
    {teams : List Team} {members : List TeamMember} {next : ℕ} (id : ℕ) (f : Team → Team)
    → ((t : Team) → (f t).id ≡ t.id)
    → ((t : Team) → t.id ≡ id → IsLed members t → IsLed members (f t))
    → IsRoster teams members next
    → IsRoster (update_where (λ t. t.id == id) f teams) members next
update_team-IsRoster {teams} {members} {next} id f keeps leads r = record {
  keyed = update_where-IsKeyed (λ t. t.id) (λ t. t.id == id) f keeps teams r.keyed;
  used =
      All-update_where (λ t. t.id < next) (λ t. t.id == id) f
        (λ t _ below. subst (λ k. k < next) (sym (keeps t)) below) teams r.used;
  apart = r.apart;
  known = r.known;
  led =
      All-update_where (IsLed members) (λ t. t.id == id) f
        (λ t same led. leads t ((nat_eq.equal_iff t.id id).0 same) led) teams r.led;
}
