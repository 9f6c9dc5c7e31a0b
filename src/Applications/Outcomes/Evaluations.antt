-- ===== src/Applications/Outcomes/Evaluations.antt =====
-- The outcome of an evaluation, and what it gives to the decision.
use nti_backend.Prelude.{
  ℕ, String, ◌≡◌, refl, ap, ◌∙◌, subst, Bool, true, not, some, List, [], ◌∷◌, ◌++◌, ◌==◌, nat_eq,
  string_eq, arith, includes, filter, any, all, is_empty, unique, length, ok, inl, inr, Bool-cases,
  All, unique_from,
}
use nti_backend.Domain.{application_status_eq}
use nti_backend.Domain.Roles.{AuthenticatedUserContext}
use nti_backend.Store.{Db, ApplicationEvaluation}
use nti_backend.Store.Tables.{update_where}
use nti_backend.Store.Transactions.{read_committed}
use nti_backend.Applications.Repository.{WorkflowView, find_by_id_for_workflow}
use nti_backend.Applications.Repository.Views.{view_id}
use nti_backend.Applications.Access.{
  is_reviewer_side_user, required_evaluation_criterion_codes, validate_evaluation_scores,
  is_complete_evaluation, ensure_evaluation_completeness, ensure_program_a_application_lifecycle,
  evaluation_statuses, ensure_application_can_be_evaluated,
}
use nti_backend.Applications.Transitions.{load_workflow_application_or_throw}
use nti_backend.Applications.Decision.{
  evaluation_of, upsert_evaluation, load_for_evaluation, write_evaluation, create_evaluation,
  list_by_application,
}
use nti_backend.Applications.Outcomes.Transactions.{read_committed-ok}

-- A removed duplicate is there once more.
unique_from-includes :
    (seen xs : List String) (c : String)
    → includes (unique_from seen xs) c ≡ true
    → includes xs c ≡ true
unique_from-includes seen [] c h = ground arith
unique_from-includes seen (x ∷ xs) c h = elim (Bool-cases (includes seen x)) [
  | inl dup ↦ ground (arith, unique_from-includes seen xs c)
  | inr new ↦ ground (arith, unique_from-includes (x ∷ seen) xs c)
]

none_missing :
    (codes xs : List String)
    → is_empty (filter (λ c. not (includes codes c)) xs) ≡ true
    → All (λ c. includes codes c ≡ true) xs
none_missing codes [] h = tt
none_missing codes (x ∷ xs) h = ground (arith, none_missing codes xs)

-- Accepted scores have every required criterion.
validated_complete :
    (scores : List String)
    → validate_evaluation_scores scores ≡ ok tt
    → all (λ code. includes scores code) required_evaluation_criterion_codes ≡ true
unfolding validate_evaluation_scores
validated_complete scores h = elim (Bool-cases (length (unique scores) == length scores)) [
  | inr dup ↦ absurd (ground arith)
  | inl distinct ↦
      elim (Bool-cases (
        is_empty
          (filter (λ c. not (includes (unique scores) c)) required_evaluation_criterion_codes))) [
            | inr missing ↦ absurd (ground arith)
            | inl present ↦
                let there =
                  none_missing (unique scores) required_evaluation_criterion_codes present in
                rw
                  (
                    unique_from-includes [] scores "TECHNICAL_QUALITY" (there.0),
                    unique_from-includes [] scores "BUSINESS_VALUE" (there.1.0),
                    unique_from-includes [] scores "TEAM_CAPABILITY" (there.1.1.0),
                  )
                  refl
          ]
]

abbrev completes : ApplicationEvaluation → ApplicationEvaluation → ApplicationEvaluation
completes row e = record e { criterion_codes = row.criterion_codes }

-- A test that the new scores pass holds of an evaluation of the application after the upsert.
module _ (q : ApplicationEvaluation → Bool) (row : ApplicationEvaluation)
    (full : (e : ApplicationEvaluation) → q (completes row e) ≡ true)
    (full_row : q row ≡ true) where
  updated-any :
      (rows : List ApplicationEvaluation)
      → any (evaluation_of row.application_id row.evaluator_id) rows ≡ true
      → any q (
          filter
            (λ e. e.application_id == row.application_id)
            (update_where (evaluation_of row.application_id row.evaluator_id) (completes row) rows))
        ≡ true
  unfolding update_where
  updated-any [] there = ground arith
  updated-any (e ∷ rows) there =
      elim (Bool-cases (evaluation_of row.application_id row.evaluator_id e)) [
        | inl met ↦ rw met (ground (arith, full e))
        | inr unmet ↦ rw unmet (ground (arith, updated-any rows))
      ]

  appended-any :
      (rows : List ApplicationEvaluation)
      → any q (filter (λ e. e.application_id == row.application_id) (rows ++ row ∷ [])) ≡ true
  appended-any [] = ground (arith, full_row)
  appended-any (e ∷ rows) = ground (arith, appended-any rows)

  upserted-any :
      (rows : List ApplicationEvaluation)
      → any q (filter (λ e. e.application_id == row.application_id) (upsert_evaluation row rows))
        ≡ true
  unfolding upsert_evaluation
  upserted-any rows =
      elim (Bool-cases (any (evaluation_of row.application_id row.evaluator_id) rows)) [
        | inl there ↦ rw there (updated-any rows there)
        | inr absent ↦ rw absent (appended-any rows)
      ]

load_for_evaluation_ok :
    (id : ℕ) (scores : List String) (db db' : Db) (v : WorkflowView)
    → load_for_evaluation id scores db ≡ ok (v, db')
    → (find_by_id_for_workflow id db ≡ some v)
      × (includes evaluation_statuses v.status ≡ true)
      × (validate_evaluation_scores scores ≡ ok tt)
unfolding load_for_evaluation load_workflow_application_or_throw
    ensure_program_a_application_lifecycle ensure_application_can_be_evaluated
load_for_evaluation_ok id scores db db' v h = ground arith

write_evaluation_ok :
    (user_id : ℕ) (scores : List String) (v : WorkflowView) (db db' : Db)
    (e : ApplicationEvaluation)
    → write_evaluation user_id scores v db ≡ ok (e, db')
    → (e ≡ record {
      application_id = v.application.id;
      evaluator_id = user_id;
      criterion_codes = scores;
    })
      × (db'.evaluations ≡ upsert_evaluation e db.evaluations)
unfolding write_evaluation
write_evaluation_ok user_id scores v db db' e h = ground arith

enough-evaluations :
    (es : List ApplicationEvaluation)
    → any is_complete_evaluation es ≡ true
    → ensure_evaluation_completeness es ≡ ok tt
unfolding ensure_evaluation_completeness
enough-evaluations [] h = absurd (ground arith)
enough-evaluations (e ∷ es) h = rw h refl

written_complete :
    (user_id : ℕ) (scores : List String) (v : WorkflowView) (db db' : Db)
    (e : ApplicationEvaluation)
    → validate_evaluation_scores scores ≡ ok tt
    → write_evaluation user_id scores v db ≡ ok (e, db')
    → ensure_evaluation_completeness (list_by_application v.application.id db') ≡ ok tt
written_complete user_id scores v db db' e accepted wrote =
    let row : ApplicationEvaluation = record {
      application_id = v.application.id;
      evaluator_id = user_id;
      criterion_codes = scores;
    } in
    let full = validated_complete scores accepted in
    let (is_row, rows) = write_evaluation_ok user_id scores v db db' e wrote in
    let upserted : db'.evaluations ≡ upsert_evaluation row db.evaluations =
      rows ∙ ap (λ r. upsert_evaluation r db.evaluations) is_row in
    enough-evaluations (list_by_application v.application.id db') (
      ap (λ es. any is_complete_evaluation (filter (λ x. x.application_id == v.application.id) es))
        upserted
      ∙ upserted-any is_complete_evaluation row (λ _. full) full db.evaluations)

-- An evaluation is accepted from a reviewer-side user, of an application in FORMALLY_VERIFIED or
-- EVALUATING. Once accepted, it is the evaluator's, with the scores given, and the application's
-- evaluations pass the completeness check of the final decision.
pub create_evaluation_ok :
    (id : ℕ) (user : AuthenticatedUserContext) (scores : List String) (between : Db → Db) (db : Db)
    {e : ApplicationEvaluation} {db' : Db}
    → create_evaluation id user scores between db ≡ (ok e, db')
    → (is_reviewer_side_user user ≡ true)
      × (v : WorkflowView) × (find_by_id_for_workflow id db ≡ some v)
      × (includes evaluation_statuses v.status ≡ true)
      × (e ≡ record { application_id = id; evaluator_id = user.id; criterion_codes = scores })
      × (ensure_evaluation_completeness (list_by_application id db') ≡ ok tt)
unfolding create_evaluation
create_evaluation_ok id user scores between db {e} {db'} h =
    elim (Bool-cases (is_reviewer_side_user user)) [
      | inr outsider ↦ absurd (ground arith)
      | inl reviewer ↦
          let ran : read_committed between (load_for_evaluation id scores)
                (write_evaluation user.id scores) db
              ≡ (ok e, db') =
            ground arith in
          let (v, db1, loaded, wrote) =
            read_committed-ok between (load_for_evaluation id scores)
              (write_evaluation user.id scores) db ran in
          let (found, evaluated, accepted) = load_for_evaluation_ok id scores db db1 v loaded in
          let here = view_id id db v found in
          (
            reviewer,
            v,
            found,
            evaluated,
            (write_evaluation_ok user.id scores v (between db) db' e wrote).0
                ∙ ap
                    (λ k. record {
                      application_id = k;
                      evaluator_id = user.id;
                      criterion_codes = scores;
                    })
                    here,
            subst (λ k. ensure_evaluation_completeness (list_by_application k db') ≡ ok tt) here
                (written_complete user.id scores v (between db) db' e accepted wrote),
          )
    ]
