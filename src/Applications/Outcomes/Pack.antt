-- ===== src/Applications/Outcomes/Pack.antt =====
-- The outcome of attaching a document.
use nti_backend.Prelude.{
  ℕ, ◌+◌, String, ◌≡◌, refl, sym, subst, ◌∙◌, unique, nat_beq, Result-cases, true, Option, none,
  some, find, includes, ◌&&◌, ◌==◌, ◌⊎◌, List, [], ◌∷◌, ◌++◌, nat_eq, arith, Result, ok, err,
  conflict, bad_request, not_found, forbidden, internal, unique_violation, unavailable, out_of_fuel,
  inl, inr, Bool-cases,
}
use nti_backend.Domain.{
  DocumentType, ApplicationStatus, application_status_eq, program_type_eq, document_type_eq,
  application_document_scope_eq,
}
use nti_backend.Domain.Roles.{AuthenticatedUserContext}
use nti_backend.Domain.{UploadStatus, upload_status_eq}
use nti_backend.Applications.Access.{
  ensure_application_is_draft, ensure_application_managed_by_team_lead,
}
use nti_backend.Applications.Transitions.{load_workflow_application_or_throw}
use nti_backend.Store.{Db, ApplicationDocument, UploadedFile}
use nti_backend.Store.Transactions.{serializable, >>=-eq-ok}
use nti_backend.Applications.Repository.{WorkflowView, find_by_id_for_workflow}
use nti_backend.Applications.Repository.Views.{view_id}
use nti_backend.Applications.Outcomes.Slots.{Attached, append-Attached, nat_beq_refl, same_key_refl}
use nti_backend.Applications.Outcomes.Transactions.{serializable-ok}
use nti_backend.Applications.Documents.{
  RequiredDocumentSlot, AttachApplicationDocument, deactivate_active_by_slot, latest_version,
  load_for_attachment, write_attachment, attach_tx, attach_document, on_unique_violation,
  find_by_id_for_owners, resolve_attachment_slot,
}

write_attachment_ok :
    (user_id : ℕ) (v : WorkflowView) (slot : RequiredDocumentSlot) (file : UploadedFile)
    (db db' : Db) (d : ApplicationDocument)
    → write_attachment user_id (v, slot, file) db ≡ ok (d, db')
    → (d.uploaded_file_id ≡ file.id)
      × (d.created_by_id ≡ user_id)
      × Attached v.application.id slot d db.documents db'.documents
unfolding write_attachment
write_attachment_ok user_id v slot file db db' d h =
    let documents = deactivate_active_by_slot v.application.id slot db.documents in
    let row : ApplicationDocument = record {
      id = db.next_id;
      application_id = v.application.id;
      uploaded_file_id = file.id;
      document_type = slot.document_type;
      document_scope = slot.document_scope;
      member_user_id = slot.member_user_id;
      version = latest_version v.application.id slot documents + 1;
      is_active = true;
      created_by_id = user_id;
    } in
    let wrote : (d ≡ row) × (db'.documents ≡ documents ++ row ∷ []) = ground arith in
    (
      rw (wrote.0) refl,
      rw (wrote.0) refl,
      subst (λ x. Attached v.application.id slot x db.documents db'.documents) (sym wrote.0)
          (subst (Attached v.application.id slot row db.documents) (sym wrote.1) (
            append-Attached v.application.id slot row db.documents
              (rw (nat_beq_refl v.application.id) (same_key_refl slot)) refl refl)),
    )

-- A file is a row of the table.
abbrev pub IsStored : UploadedFile → List UploadedFile → Type 0
IsStored file [] = ⊥
IsStored file (f ∷ files) = (f ≡ file) ⊎ IsStored file files

-- A file that is found is in the table, and has the id and one of the owners.
find_file :
    (id : ℕ) (owner_ids : List ℕ) (files : List UploadedFile) {file : UploadedFile}
    → find (λ f. f.id == id && includes owner_ids f.owner_id) files ≡ some file
    → IsStored file files × (file.id ≡ id) × (includes owner_ids file.owner_id ≡ true)
find_file id owner_ids [] h = absurd (ground arith)
find_file id owner_ids (f ∷ files) {file} h =
    elim (Bool-cases (f.id == id && includes owner_ids f.owner_id)) [
      | inl met ↦ let row : f ≡ file = ground arith in (inl row, ground arith, ground arith)
      | inr unmet ↦
          let (stored, of_id, owned) = find_file id owner_ids files {file = file} (ground arith) in
          (inr stored, of_id, owned)
    ]

-- The file of an attachment: in the table, uploaded, and owned by the leader or by the member that
-- it is for.
pub record IsAttachable (files : List UploadedFile) (leader_id file_id : ℕ) (member : Option ℕ)
    (file : UploadedFile) : Type 0 where
  pub stored : IsStored file files
  pub of_id : file.id ≡ file_id
  pub uploaded : file.status ≡ UploadStatus.uploaded
  pub owned : (file.owner_id ≡ leader_id) ⊎ (some file.owner_id ≡ member)

owners_of : (l m k : ℕ) → includes (unique (l ∷ m ∷ [])) k ≡ true → (k ≡ l) ⊎ (some k ≡ some m)
owners_of l m k there = elim (Bool-cases (nat_beq l k)) [
  | inl leads ↦ inl (ground arith)
  | inr other ↦ inr (ground arith)
]

resolved_slot :
    (v : WorkflowView) (type : DocumentType) (member : Option ℕ) (slot : RequiredDocumentSlot)
    (owners : List ℕ)
    → resolve_attachment_slot v type member ≡ ok (slot, owners)
    → (slot.document_type ≡ type)
      × (slot.member_user_id ≡ member)
      × ((k : ℕ) → includes owners k ≡ true → (k ≡ v.team.leader_id) ⊎ (some k ≡ member))
unfolding resolve_attachment_slot
resolved_slot v type none slot owners h =
    (ground arith, ground arith, λ k there. inl (ground arith))
resolved_slot v type (some m) slot owners h =
    let two : owners ≡ unique (v.team.leader_id ∷ m ∷ []) = ground arith in
    (
      ground arith,
      ground arith,
      λ k there. owners_of v.team.leader_id m k (subst (λ os. includes os k ≡ true) two there),
    )

load_for_attachment_ok :
    (id : ℕ) (user : AuthenticatedUserContext) (dto : AttachApplicationDocument) (db db' : Db)
    (v : WorkflowView) (slot : RequiredDocumentSlot) (file : UploadedFile)
    → load_for_attachment id user dto db ≡ ok ((v, slot, file), db')
    → (db' ≡ db)
      × (find_by_id_for_workflow id db ≡ some v)
      × (v.team.leader_id ≡ user.id)
      × (v.status ≡ ApplicationStatus.draft)
      × (slot.document_type ≡ dto.document_type)
      × (slot.member_user_id ≡ dto.member_user_id)
      × IsAttachable db.files user.id dto.file_id dto.member_user_id file
unfolding load_for_attachment load_workflow_application_or_throw ensure_application_is_draft
    ensure_application_managed_by_team_lead find_by_id_for_owners
load_for_attachment_ok id user dto db db' v slot file h =
    elim (Result-cases (resolve_attachment_slot v dto.document_type dto.member_user_id)) [
      | inr (e, refused) ↦ absurd (ground arith)
      | inl ((s, owners), resolved) ↦
          let same : s ≡ slot = ground arith in
          let leader : v.team.leader_id ≡ user.id = ground arith in
          let found : find (λ f. f.id == dto.file_id && includes owners f.owner_id) db.files
              ≡ some file =
            ground arith in
          let (type, member, owns) =
            resolved_slot v dto.document_type dto.member_user_id s owners resolved in
          let (stored, of_id, owned) = find_file dto.file_id owners db.files {file = file} found in
          (
            ground arith,
            ground arith,
            leader,
            ground arith,
            subst (λ r. r.document_type ≡ dto.document_type) same type,
            subst (λ r. r.member_user_id ≡ dto.member_user_id) same member,
            record {
              stored = stored;
              of_id = of_id;
              uploaded = ground arith;
              owned =
                  subst (λ k. (file.owner_id ≡ k) ⊎ (some file.owner_id ≡ dto.member_user_id))
                    leader (owns file.owner_id owned);
            },
          )
    ]

-- A translated error is an error still.
pub translated-ok :
    {A : Type 0} (message : String) (r : Result A × Db) {a : A} {db' : Db}
    → ◌≡◌ {A = Result A × Db} (on_unique_violation message r.0, r.1) (ok a, db')
    → r ≡ (ok a, db')
unfolding on_unique_violation
translated-ok message (ok b, db1) h = ground arith
translated-ok message (err (bad_request m), db1) h = absurd (ground arith)
translated-ok message (err (not_found m), db1) h = absurd (ground arith)
translated-ok message (err (conflict m), db1) h = absurd (ground arith)
translated-ok message (err (forbidden m), db1) h = absurd (ground arith)
translated-ok message (err (internal m), db1) h = absurd (ground arith)
translated-ok message (err (unique_violation m), db1) h = absurd (ground arith)
translated-ok message (err out_of_fuel, db1) h = absurd (ground arith)
translated-ok message (err (unavailable m), db1) h = absurd (ground arith)

attach_tx_ok :
    (id : ℕ) (user : AuthenticatedUserContext) (dto : AttachApplicationDocument) (db db' : Db)
    (d : ApplicationDocument)
    → attach_tx id user dto db ≡ ok (d, db')
    → (v : WorkflowView) × (slot : RequiredDocumentSlot) × (find_by_id_for_workflow id db ≡ some v)
      × (v.team.leader_id ≡ user.id)
      × (v.status ≡ ApplicationStatus.draft)
      × (slot.document_type ≡ dto.document_type)
      × (slot.member_user_id ≡ dto.member_user_id)
      × (d.uploaded_file_id ≡ dto.file_id)
      × (d.created_by_id ≡ user.id)
      × ((file : UploadedFile) × IsAttachable db.files user.id dto.file_id dto.member_user_id file)
      × Attached id slot d db.documents db'.documents
unfolding attach_tx
attach_tx_ok id user dto db db' d h =
    let ((v, slot, file), db1, loaded, wrote) =
      >>=-eq-ok (load_for_attachment id user dto) (write_attachment user.id) db h in
    let (same, found, leader, draft, type, member, file_ok) =
      load_for_attachment_ok id user dto db db1 v slot file loaded in
    let (of_file, by, attached) =
      write_attachment_ok user.id v slot file db db' d
        (subst (λ d1. write_attachment user.id (v, slot, file) d1 ≡ ok (d, db')) same wrote) in
    (
      v,
      slot,
      found,
      leader,
      draft,
      type,
      member,
      of_file ∙ file_ok.of_id,
      by,
      (file, file_ok),
      subst (λ k. Attached k slot d db.documents db'.documents) (view_id id db v found) attached,
    )

-- Attaching a document succeeds for the team leader of an application in DRAFT only, with an
-- uploaded file of the leader or of the member that the request names. The new document has the
-- file, the type and the member that the request names; it is then the one active document of its
-- slot in the table; its version is above every version that the slot has had; and the documents of
-- all other slots are unchanged.
pub attach_document_ok :
    (id : ℕ) (user : AuthenticatedUserContext) (dto : AttachApplicationDocument) (db : Db)
    {db' : Db} {d : ApplicationDocument}
    → attach_document id user dto db ≡ (ok d, db')
    → (v : WorkflowView) × (slot : RequiredDocumentSlot) × (find_by_id_for_workflow id db ≡ some v)
      × (v.team.leader_id ≡ user.id)
      × (v.status ≡ ApplicationStatus.draft)
      × (slot.document_type ≡ dto.document_type)
      × (slot.member_user_id ≡ dto.member_user_id)
      × (d.uploaded_file_id ≡ dto.file_id)
      × (d.created_by_id ≡ user.id)
      × ((file : UploadedFile) × IsAttachable db.files user.id dto.file_id dto.member_user_id file)
      × Attached id slot d db.documents db'.documents
unfolding attach_document
attach_document_ok id user dto db {db'} {d} h = attach_tx_ok id user dto db db' d (
    serializable-ok (attach_tx id user dto) db
      (translated-ok _ (serializable (attach_tx id user dto) db) h))
