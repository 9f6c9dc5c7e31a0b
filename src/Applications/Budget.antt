-- ===== src/Applications/Budget.antt =====
-- `updateGrantBudget` of src/applications/applications.service.ts. Its `update` and the read after
-- it are two queries without a transaction.
use nti_backend.Prelude.{ℕ, Option, if◌then◌else◌, Result, ok, err, not_found, forbidden}
use nti_backend.Domain.Roles.{AuthenticatedUserContext}
use nti_backend.Store.{Db}
use nti_backend.Store.Transactions.{Tx, ◌>>=◌, gets, require_some, commit}
use nti_backend.Applications.Repository.{WorkflowView, find_by_id_for_workflow, update_application}
use nti_backend.Applications.Access.{is_reviewer_side_user}

unfoldable pub read_refreshed : ℕ → Tx WorkflowView
read_refreshed id = do
  refreshed ← gets (find_by_id_for_workflow id)
  require_some refreshed (not_found "Application not found")

-- The read after the update: what the update wrote stays, whatever the read gives.
abbrev pub read_after :
    (Db → Db) → Tx WorkflowView → Result (Unit {0} × Db) → Db → Result WorkflowView × Db
read_after between body (ok (_, db1)) db = commit (body (between db1)) (between db1)
read_after between body (err e) db = (err e, db)

-- `between` is what commits between the two queries.
unfoldable pub update_grant_budget :
    ℕ → AuthenticatedUserContext → Option ℕ → (Db → Db) → Db → Result WorkflowView × Db
unfolding read_refreshed
update_grant_budget id user grant_budget between db =
    if is_reviewer_side_user user
    then read_after between (read_refreshed id)
        (update_application id (λ a. record a { grant_budget = grant_budget }) db) db
    else (err (forbidden "Only reviewer-side users can create application evaluations"), db)
