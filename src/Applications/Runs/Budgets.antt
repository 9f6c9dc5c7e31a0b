-- ===== src/Applications/Runs/Budgets.antt =====
-- What setting the grant budget does, and that it is a step of the runs.
use nti_backend.Prelude.{
  ℕ, ◌≡◌, ◌≢◌, refl, ◌∙◌, Bool, true, false, Option, some, List, [], ◌∷◌, ◌==◌, nat_eq, arith, ok,
  inl, inr, Bool-cases, Option-cases,
}
use nti_backend.Domain.Roles.{AuthenticatedUserContext}
use nti_backend.Store.{Db, Application}
use nti_backend.Store.Tables.{
  update_where, map_option, patch, find_by_id-update_where, find_by_id-key,
}
use nti_backend.Applications.Repository.{
  WorkflowView, update_application, find_application, find_by_id_for_workflow,
}
use nti_backend.Applications.Access.{is_reviewer_side_user}
use nti_backend.Applications.Budget.{update_grant_budget, read_refreshed}
use nti_backend.Applications.Runs.{SameLifecycle, Elsewhere}

abbrev pub with_budget : Option ℕ → Application → Application
with_budget b a = record a { grant_budget = b }

budget_same :
    (p : Application → Bool) (b : Option ℕ) (rows : List Application)
    → SameLifecycle rows (update_where p (with_budget b) rows)
unfolding update_where
budget_same p b [] = tt
budget_same p b (a ∷ rows) = elim (Bool-cases (p a)) [
  | inl met ↦ rw met (refl, refl, refl, refl, budget_same p b rows)
  | inr unmet ↦ rw unmet (refl, refl, refl, refl, budget_same p b rows)
]

-- The database after the update.
abbrev pub with_new_budget : ℕ → Option ℕ → Db → Db
with_new_budget id b db = record db {
  applications = update_where (λ a. a.id == id) (with_budget b) db.applications;
}

budget-Elsewhere : (id : ℕ) (b : Option ℕ) (db : Db) → Elsewhere db (with_new_budget id b db)
budget-Elsewhere id b db = record {
  lifecycle_kept = budget_same (λ a. a.id == id) b db.applications;
  events_kept = refl;
  ids_grow = omega arith;
}

-- What an update by id leaves of the row of the id, and of the other rows.
budget_rows :
    (id : ℕ) (b : Option ℕ) (k : ℕ) (db : Db)
    → find_application k (with_new_budget id b db)
      ≡ map_option (patch (λ a. a.id == id) (with_budget b)) (find_application k db)
unfolding find_application
budget_rows id b k db =
    find_by_id-update_where (λ a. a.id) (λ a. a.id == id) (with_budget b) (λ a. refl) k
      db.applications

budget_row :
    (id : ℕ) (b : Option ℕ) (db : Db) {a : Application}
    → find_application id db ≡ some a
    → find_application id (with_new_budget id b db) ≡ some (with_budget b a)
unfolding find_application
budget_row id b db {a} found =
    let here : a.id ≡ id = find_by_id-key (λ r. r.id) id db.applications found in
    budget_rows id b id db ∙ rw (found, here) (ground arith)

other_row :
    (id : ℕ) (b : Option ℕ) (db : Db) (k : ℕ)
    → k ≢ id
    → find_application k (with_new_budget id b db) ≡ find_application k db
unfolding find_application
other_row id b db k other = elim (Option-cases (find_application k db)) [
  | inl missing ↦ budget_rows id b k db ∙ rw (missing) refl
  | inr (a, found) ↦
      let here : a.id ≡ k = find_by_id-key (λ r. r.id) k db.applications found in
      let misses : (a.id == id) ≡ false = ground arith in
      budget_rows id b k db ∙ rw (found, misses) refl
]

-- Setting a grant budget succeeds for a reviewer-side user and an application that is there only.
-- The row of the application then has the budget, nothing else of it has changed, and the rows of
-- the other applications are as they were; so it is a step that the runs of requests allow for. The
-- answer is the application as the other requests have left it since.
pub update_grant_budget_ok :
    (id : ℕ) (user : AuthenticatedUserContext) (b : Option ℕ) (between : Db → Db) (db : Db)
    {w : WorkflowView} {db' : Db}
    → update_grant_budget id user b between db ≡ (ok w, db')
    → (is_reviewer_side_user user ≡ true)
      × (a : Application) × (find_application id db ≡ some a)
      × (db1 : Db) × (db' ≡ between db1)
      × (find_application id db1 ≡ some (with_budget b a))
      × ((k : ℕ) → k ≢ id → find_application k db1 ≡ find_application k db)
      × Elsewhere db db1
      × (find_by_id_for_workflow id db' ≡ some w)
unfolding update_grant_budget update_application read_refreshed
update_grant_budget_ok id user b between db {w} {db'} h =
    elim (Bool-cases (is_reviewer_side_user user)) [
      | inr outsider ↦ absurd (ground arith)
      | inl reviewer ↦ elim (Option-cases (find_application id db)) [
        | inl missing ↦ absurd (ground arith)
        | inr (a, found) ↦
            elim (Option-cases (find_by_id_for_workflow id (between (with_new_budget id b db)))) [
              | inl gone ↦ absurd (ground arith)
              | inr (u, seen) ↦
                  let done : (w ≡ u) × (db' ≡ between (with_new_budget id b db)) = ground arith in
                  (
                    reviewer,
                    a,
                    found,
                    with_new_budget id b db,
                    done.1,
                    budget_row id b db found,
                    other_row id b db,
                    budget-Elsewhere id b db,
                    rw (done.0, done.1) seen,
                  )
            ]
      ]
    ]
