-- ===== src/Teams/Outcomes/Active.antt =====
-- The active team of a user, after `create_with_leader` or `rename_team` of src/team/team.service.ts.
use nti_backend.Prelude.{
  ℕ, String, ◌≡◌, refl, sym, ap, ◌∙◌, ◌<◌, Bool, true, none, some, List, [], ◌∷◌, ◌++◌, map, ◌==◌,
  nat_eq, string_eq, arith, find, filter, ok, All,
}
use nti_backend.Store.{Db, Team}
use nti_backend.Store.Tables.{
  update_where, find_by_id, find_by_id-append, find_by_id_unused, find_by_id-update_where,
  find-keyed, IsKeyed,
}
use nti_backend.Store.Apart.{any-find, find-append}
use nti_backend.Applications.Repository.{find_team}
use nti_backend.Teams.Repository.{
  TeamWithRelations, team_row, is_membership, is_active_team_of, with_members,
  find_active_by_user_id, find_team_with_relations,
}
use nti_backend.Teams.Lifecycle.{create_with_leader, rename_team}
use nti_backend.Teams.Roster.{IsSound}
use nti_backend.Teams.Roster.Members.{member}
use nti_backend.Teams.Roster.Requests.{with_new_team, create_with_leader_ok, rename_team_ok}

module _ {A : Type 0} where
  filter_one_more :
      (p q : A → Bool) (xs : List A) (y : A)
      → All (λ x. q x ≡ p x) xs
      → filter p xs ≡ []
      → q y ≡ true
      → filter q (xs ++ y ∷ []) ≡ y ∷ []
  filter_one_more p q [] y agree none_met met = ground arith
  filter_one_more p q (x ∷ xs) y agree none_met met =
      let same = agree.0 in ground (arith, filter_one_more p q xs y agree.1)

  filter-update_where :
      (p q : A → Bool) (f : A → A)
      → ((a : A) → p (f a) ≡ p a)
      → (xs : List A) → filter p (update_where q f xs) ≡ update_where q f (filter p xs)
  unfolding update_where
  filter-update_where p q f keeps [] = refl
  filter-update_where p q f keeps (x ∷ xs) =
      ground (arith, keeps x, filter-update_where p q f keeps xs)

  find_of_filter :
      (p : A → Bool) (xs : List A) {a : A} {rest : List A}
      → filter p xs ≡ a ∷ rest
      → find p xs ≡ some a
  find_of_filter p [] {a} {rest} h = absurd (ground arith)
  find_of_filter p (x ∷ xs) {a} {rest} h = ground (arith, find_of_filter p xs {a = a} {rest = rest})

-- A user is in a new team, and in the same old ones as before.
module _ (name : String) (user_id : ℕ) (db : Db) where
  active_before :
      (teams : List Team)
      → All (λ t. t.id < db.next_id) teams
      → All
          (λ t.
            is_active_team_of user_id (with_new_team name user_id db) t
            ≡ is_active_team_of user_id db t)
          teams
  active_before [] below = tt
  active_before (t ∷ teams) below =
      let older = below.0 in
      (
        rw
            (
              any-find (is_membership t.id user_id) (with_new_team name user_id db).team_members,
              any-find (is_membership t.id user_id) db.team_members,
              find-append (is_membership t.id user_id) db.team_members (member db.next_id user_id),
            )
            (ground arith),
        active_before teams below.1,
      )

-- What is shown of a row that is found.
shown :
    (id : ℕ) (db : Db) {r : Team} {t : TeamWithRelations}
    → find_by_id (λ s. s.id) id db.teams ≡ some r
    → find_team_with_relations id db ≡ some t
    → with_members db r ≡ t
unfolding find_team_with_relations find_team
shown id db found there = ground arith

map_none : {A B : Type 0} (f : A → B) (xs : List A) → map f xs ≡ [] → xs ≡ []
map_none f [] h = refl
map_none f (x ∷ xs) h = absurd (ground arith)

map_one :
    {A B : Type 0} (f : A → B) (xs : List A) {b : B}
    → map f xs ≡ b ∷ []
    → (a : A) × (xs ≡ a ∷ []) × (f a ≡ b)
map_one f [] h = absurd (ground arith)
map_one f (x ∷ []) h = (x, refl, ground arith)
map_one f (x ∷ y ∷ xs) h = absurd (ground arith)

new_team_current :
    (name : String) (user_id : ℕ) (db : Db)
    → All (λ t. t.id < db.next_id) db.teams
    → find (is_membership db.next_id user_id) db.team_members ≡ none
    → find_active_by_user_id user_id db ≡ []
    → (find_active_by_user_id user_id (with_new_team name user_id db)
        ≡ with_members (with_new_team name user_id db) (team_row db.next_id name user_id) ∷ [])
      × (find_by_id (λ t. t.id) db.next_id (with_new_team name user_id db).teams
          ≡ some (team_row db.next_id name user_id))
unfolding find_active_by_user_id
new_team_current name user_id db used fresh inactive =
    let later : Db = with_new_team name user_id db in
    let row : Team = team_row db.next_id name user_id in
    let joined : is_active_team_of user_id later row ≡ true =
      rw
        (
          any-find (is_membership db.next_id user_id) later.team_members,
          find-append (is_membership db.next_id user_id) db.team_members
              (member db.next_id user_id),
          fresh,
        )
        (ground arith) in
    (
      ap (map (with_members later)) (
          filter_one_more (is_active_team_of user_id db) (is_active_team_of user_id later) db.teams
            row (active_before name user_id db db.teams used)
            (map_none (with_members db) (filter (is_active_team_of user_id db) db.teams) inactive)
            joined),
      rw
          (
            find_by_id-append (λ t. t.id) db.next_id db.teams row,
            find_by_id_unused (λ t. t.id) db.next_id db.teams used,
          )
          (ground arith),
    )

pub created_current :
    {past : ℕ} (name : String) (user_id : ℕ) (db db' : Db) (t : TeamWithRelations)
    → IsSound past db
    → find_active_by_user_id user_id db ≡ []
    → create_with_leader name user_id db ≡ ok (t, db')
    → (find_active_by_user_id user_id db' ≡ t ∷ []) × (t.team.name ≡ name)
created_current name user_id db db' t s inactive h =
    let later : Db = with_new_team name user_id db in
    let (fresh, same, there) = create_with_leader_ok name user_id db db' t h in
    let (current, found) = new_team_current name user_id db s.roster.used fresh inactive in
    let row : with_members later (team_row db.next_id name user_id) ≡ t =
      shown db.next_id later found (ap (find_team_with_relations db.next_id) (sym same) ∙ there) in
    (
      ap (find_active_by_user_id user_id) same ∙ current ∙ ap (λ r. r ∷ []) row,
      sym (ap (λ r. r.team.name) row),
    )

abbrev renamed : ℕ → String → Db → Db
renamed id name db = record db {
  teams = update_where (λ r. r.id == id) (λ r. record r { name = name }) db.teams;
}

update_one :
    {A : Type 0} (p : A → Bool) (f : A → A) (a : A)
    → p a ≡ true
    → update_where p f (a ∷ []) ≡ f a ∷ []
unfolding update_where
update_one p f a h = ground arith

renamed_team_current :
    (name : String) (user_id : ℕ) (db : Db) (r : Team)
    → IsKeyed (λ t. t.id) db.teams
    → filter (is_active_team_of user_id db) db.teams ≡ r ∷ []
    → (find_active_by_user_id user_id (renamed r.id name db)
        ≡ with_members (renamed r.id name db) (record r { name = name }) ∷ [])
      × (find_by_id (λ t. t.id) r.id (renamed r.id name db).teams ≡ some (record r { name = name }))
unfolding find_active_by_user_id
renamed_team_current name user_id db r keyed only =
    let rename : Team → Team = λ t. record t { name = name } in
    let active = is_active_team_of user_id db in
    let chosen : (r.id == r.id) ≡ true = ground arith in
    let found =
      find-keyed (λ t. t.id) active db.teams keyed (find_of_filter active db.teams only) in
    (
      ap (map (with_members (renamed r.id name db))) (
          filter-update_where active (λ t. t.id == r.id) rename (λ t. refl) db.teams
          ∙ ap (update_where (λ t. t.id == r.id) rename) only
          ∙ update_one (λ t. t.id == r.id) rename r chosen),
      find_by_id-update_where (λ t. t.id) (λ t. t.id == r.id) rename (λ t. refl) r.id db.teams
          ∙ rw (found, chosen) refl,
    )

pub renamed_current :
    {past : ℕ} (name : String) (user_id : ℕ) (db db' : Db) (s t : TeamWithRelations)
    → IsSound past db
    → find_active_by_user_id user_id db ≡ s ∷ []
    → rename_team s.team.id name db ≡ ok (t, db')
    → (find_active_by_user_id user_id db' ≡ t ∷ []) × (t.team.name ≡ name)
unfolding find_active_by_user_id
renamed_current name user_id db db' s t sound active h =
    let (r, only, row) =
      map_one (with_members db) (filter (is_active_team_of user_id db) db.teams) active in
    let id : s.team.id ≡ r.id = sym (ap (λ v. v.team.id) row) in
    let (same, there) =
      rename_team_ok r.id name db db' t (ap (λ k. rename_team k name db) (sym id) ∙ h) in
    let later : Db = renamed r.id name db in
    let (current, found) = renamed_team_current name user_id db r sound.roster.keyed only in
    let view : with_members later (record r { name = name }) ≡ t =
      shown r.id later found (ap (find_team_with_relations r.id) (sym same) ∙ there) in
    (
      ap (find_active_by_user_id user_id) same ∙ current ∙ ap (λ v. v ∷ []) view,
      sym (ap (λ v. v.team.name) view),
    )
