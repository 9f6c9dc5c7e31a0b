-- ===== src/Applications/Repository/Views.antt =====
-- A view of an application shows the row that its id finds.
use nti_backend.Prelude.{
  ℕ, Option, none, ◌≡◌, refl, some, arith, inl, inr, Option-cases, filter, ◌==◌, ◌&&◌, nat_eq,
  subst,
}
use nti_backend.Store.{Db, Application, Call, Team}
use nti_backend.Store.Tables.{find_by_id-key}
use nti_backend.Applications.Repository.{
  WorkflowView, find_application, find_call, find_team, find_by_id_for_workflow, with_relations?,
  with_relations,
}

pub view_row :
    (id : ℕ) (db : Db) (v : WorkflowView)
    → find_by_id_for_workflow id db ≡ some v
    → find_application id db ≡ some v.application
unfolding find_by_id_for_workflow with_relations?
view_row id db v h = ground arith

pub view_id :
    (id : ℕ) (db : Db) (v : WorkflowView)
    → find_by_id_for_workflow id db ≡ some v
    → v.application.id ≡ id
unfolding find_application
view_id id db v h = find_by_id-key (λ a. a.id) id db.applications (view_row id db v h)

-- The call and the team of a view are there.
pub view_call :
    (id : ℕ) (db : Db) (v : WorkflowView)
    → find_by_id_for_workflow id db ≡ some v
    → find_call v.application.call_id db ≡ some v.call
unfolding find_by_id_for_workflow with_relations?
view_call id db v h = ground arith

pub view_team :
    (id : ℕ) (db : Db) (v : WorkflowView)
    → find_by_id_for_workflow id db ≡ some v
    → find_team v.application.team_id db ≡ some v.team
unfolding find_by_id_for_workflow with_relations?
view_team id db v h = ground arith

-- An application whose call and team are there has a view.
pub has_view :
    (id : ℕ) (db : Db) (a : Application) {c : Call} {t : Team}
    → find_application id db ≡ some a
    → find_call a.call_id db ≡ some c
    → find_team a.team_id db ≡ some t
    → (w : WorkflowView) × (find_by_id_for_workflow id db ≡ some w)
unfolding find_by_id_for_workflow with_relations?
has_view id db a here call team = elim (Option-cases (find_by_id_for_workflow id db)) [
  | inl missing ↦ absurd (ground arith)
  | inr seen ↦ seen
]

some_injective : {a b : WorkflowView} → some a ≡ some b → a ≡ b
some_injective h = ground arith

shown_by :
    (a : Application) (db : Db) (c : Option Call) (t : Option Team) (v : WorkflowView)
    → with_relations a db c t ≡ some v
    → v.documents ≡ filter (λ d. d.application_id == v.application.id && d.is_active) db.documents
unfolding with_relations
shown_by a db none t v h = absurd (ground arith)
shown_by a db (some c) none v h = absurd (ground arith)
shown_by a db (some c) (some t) v h =
    subst
      (λ u.
        u.documents
        ≡ filter (λ d. d.application_id == u.application.id && d.is_active) db.documents)
      (some_injective h) refl

shown_documents :
    (found : Option Application) (db : Db) (v : WorkflowView)
    → with_relations? found db ≡ some v
    → v.documents ≡ filter (λ d. d.application_id == v.application.id && d.is_active) db.documents
unfolding with_relations?
shown_documents none db v h = absurd (ground arith)
shown_documents (some a) db v h =
    shown_by a db (find_call a.call_id db) (find_team a.team_id db) v h

pub view_documents :
    (id : ℕ) (db : Db) (v : WorkflowView)
    → find_by_id_for_workflow id db ≡ some v
    → v.documents ≡ filter (λ d. d.application_id == id && d.is_active) db.documents
unfolding find_by_id_for_workflow with_relations?
view_documents id db v h =
    let here : v.application.id ≡ id = view_id id db v h in
    let shown : v.documents
        ≡ filter (λ d. d.application_id == v.application.id && d.is_active) db.documents =
      shown_documents (find_application id db) db v h in
    subst (λ k. v.documents ≡ filter (λ d. d.application_id == k && d.is_active) db.documents) here
      shown
