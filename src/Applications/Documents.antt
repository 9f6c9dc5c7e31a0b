-- ===== src/Applications/Documents.antt =====
-- The document pack: `attachDocument`, `resolveAttachmentSlot`, `buildDocumentCompleteness` and
-- `buildRequiredDocumentSlots` of src/applications/applications.service.ts, with
-- src/applications/documents/application-documents.repository.ts and `findByIdForOwners` of
-- src/files/files.repository.ts. A slot key is the triple that the source prints; an id is never
-- the text `application`, so equal keys are equal triples.
use nti_backend.Prelude.{
  ℕ, ◌+◌, String, Bool, true, false, not, ◌&&◌, Option, none, some, List, [], ◌∷◌, ◌++◌, map, ◌==◌,
  if◌then◌else◌, nat_eq, leb, option_beq, find, filter, any, is_empty, includes, unique, Result, ok,
  err, bad_request, conflict, unique_violation,
}
use nti_backend.Domain.{
  DocumentType, document_type_eq, ApplicationDocumentScope, application_document_scope_eq,
  ProgramType, program_type_eq, UploadStatus, upload_status_eq,
}
use nti_backend.Domain.Roles.{AuthenticatedUserContext, is_team_member}
use nti_backend.Store.{Db, ApplicationDocument, UploadedFile}
use nti_backend.Store.Tables.{update_where}
use nti_backend.Store.Transactions.{
  Tx, ◌>>=◌, ◌>>◌, gets, modify, check, require, require_some, fresh_id, serializable,
}
use nti_backend.Applications.Repository.{WorkflowView, member_ids}
use nti_backend.Applications.Access.{
  ensure_program_a_document_workflow, ensure_application_managed_by_team_lead,
  ensure_application_is_draft,
}
use nti_backend.Applications.Transitions.{load_workflow_application_or_throw}

pub record RequiredDocumentSlot : Type 0 where
  pub document_type : DocumentType
  pub document_scope : ApplicationDocumentScope
  pub member_user_id : Option ℕ

-- `buildDocumentSlotKey(…) === buildDocumentSlotKey(…)`
abbrev pub same_key : RequiredDocumentSlot → RequiredDocumentSlot → Bool
same_key s t =
    s.document_type == t.document_type
    && s.document_scope == t.document_scope
    && option_beq s.member_user_id t.member_user_id

abbrev pub slot_of : ApplicationDocument → RequiredDocumentSlot
slot_of d = record {
  document_type = d.document_type;
  document_scope = d.document_scope;
  member_user_id = d.member_user_id;
}

-- The round of the loop for one required type: a CV for each member, or one document.
abbrev pub slots_for : List ℕ → DocumentType → List RequiredDocumentSlot
slots_for members type =
    if type == DocumentType.cv
    then map
        (λ m. record {
          document_type = DocumentType.cv;
          document_scope = ApplicationDocumentScope.team_member;
          member_user_id = some m;
        })
        members
    else record {
      document_type = type;
      document_scope = ApplicationDocumentScope.application;
      member_user_id = none;
    }
      ∷ []

unfoldable pub required_slots : List ℕ → List DocumentType → List RequiredDocumentSlot
required_slots members [] = []
required_slots members (type ∷ types) = slots_for members type ++ required_slots members types

unfoldable pub build_required_document_slots : WorkflowView → List RequiredDocumentSlot
build_required_document_slots v = required_slots (member_ids v) v.call.required_document_types

pub record DocumentCompleteness : Type 0 where
  pub application_id : ℕ
  pub is_complete : Bool
  pub satisfied_documents : List RequiredDocumentSlot
  pub missing_documents : List RequiredDocumentSlot

-- `activeDocumentKeys.has(…)`
abbrev pub has_document : List ApplicationDocument → RequiredDocumentSlot → Bool
has_document documents s = any (λ d. same_key (slot_of d) s) documents

unfoldable pub build_document_completeness : WorkflowView → DocumentCompleteness
build_document_completeness v =
    if v.call.type == ProgramType.program_a
    then (let slots = build_required_document_slots v in
        let missing = filter (λ s. not (has_document v.documents s)) slots in
        record {
          application_id = v.application.id;
          is_complete = is_empty missing;
          satisfied_documents = filter (has_document v.documents) slots;
          missing_documents = missing;
        })
    else record {
      application_id = v.application.id;
      is_complete = true;
      satisfied_documents = [];
      missing_documents = [];
    }

pub record AttachApplicationDocument : Type 0 where
  pub file_id : ℕ
  pub document_type : DocumentType
  pub member_user_id : Option ℕ

-- The slot, and the owners whose files may fill it.
unfoldable pub resolve_attachment_slot :
    WorkflowView → DocumentType → Option ℕ → Result (RequiredDocumentSlot × List ℕ)
resolve_attachment_slot v type none =
    if type == DocumentType.cv
    then err (bad_request "memberUserId is required for CV attachments")
    else ok (
      record {
        document_type = type;
        document_scope = ApplicationDocumentScope.application;
        member_user_id = none;
      },
      v.team.leader_id ∷ [],
    )
resolve_attachment_slot v type (some m) =
    if type == DocumentType.cv
    then if is_team_member v.team.leader_id (member_ids v) m
      then ok (
        record {
          document_type = type;
          document_scope = ApplicationDocumentScope.team_member;
          member_user_id = some m;
        },
        unique (v.team.leader_id ∷ m ∷ []),
      )
      else err (bad_request "CV can only be attached for a current team member")
    else err (bad_request "memberUserId is only allowed for CV attachments")

unfoldable pub find_by_id_for_owners : ℕ → List ℕ → Db → Option UploadedFile
find_by_id_for_owners id owner_ids db =
    find (λ f. f.id == id && includes owner_ids f.owner_id) db.files

-- The `where` of one slot of an application.
abbrev pub in_slot : ℕ → RequiredDocumentSlot → ApplicationDocument → Bool
in_slot application_id s d = d.application_id == application_id && same_key (slot_of d) s

abbrev pub deactivate : ApplicationDocument → ApplicationDocument
deactivate d = record d { is_active = false }

unfoldable pub deactivate_active_by_slot :
    ℕ → RequiredDocumentSlot → List ApplicationDocument → List ApplicationDocument
deactivate_active_by_slot application_id s =
    update_where (λ d. in_slot application_id s d && d.is_active) deactivate

-- The version of `findLatestVersionNumberBySlot`, 0 where there is none.
unfoldable pub latest_version : ℕ → RequiredDocumentSlot → List ApplicationDocument → ℕ
latest_version application_id s [] = 0
latest_version application_id s (d ∷ ds) =
    let rest = latest_version application_id s ds in
    if in_slot application_id s d then (if leb rest d.version then d.version else rest) else rest

-- `create` under the unique indexes on the active document of a slot.
create_versioned : ApplicationDocument → Tx ApplicationDocument
create_versioned row db =
    if any (λ d. in_slot row.application_id (slot_of row) d && d.is_active) db.documents
    then err (unique_violation ("applicationId" ∷ "documentType" ∷ []))
    else ok (row, record db { documents = db.documents ++ row ∷ [] })

-- The reads and checks of the transaction.
unfoldable pub load_for_attachment :
    ℕ
    → AuthenticatedUserContext
    → AttachApplicationDocument
    → Tx (WorkflowView × RequiredDocumentSlot × UploadedFile)
load_for_attachment id user dto = do
  v ← load_workflow_application_or_throw id
  check (ensure_program_a_document_workflow v)
  check (ensure_application_managed_by_team_lead v user.id)
  check (ensure_application_is_draft v)
  slot ← check (resolve_attachment_slot v dto.document_type dto.member_user_id)
  found ← gets (find_by_id_for_owners dto.file_id slot.1)
  file ←
      require_some found
        (bad_request "File does not exist or cannot be attached to this application")
  require (file.status == UploadStatus.uploaded)
      (bad_request "File must be uploaded before being attached to application documents")
  λ db. ok ((v, slot.0, file), db)

unfoldable pub write_attachment :
    ℕ → WorkflowView × RequiredDocumentSlot × UploadedFile → Tx ApplicationDocument
unfolding create_versioned
write_attachment user_id (v, slot, file) = do
  modify (λ d. record d { documents = deactivate_active_by_slot v.application.id slot d.documents })
  latest ← gets (λ d. latest_version v.application.id slot d.documents)
  row_id ← fresh_id
  create_versioned (record {
    id = row_id;
    application_id = v.application.id;
    uploaded_file_id = file.id;
    document_type = slot.document_type;
    document_scope = slot.document_scope;
    member_user_id = slot.member_user_id;
    version = latest + 1;
    is_active = true;
    created_by_id = user_id;
  })

unfoldable pub attach_tx :
    ℕ → AuthenticatedUserContext → AttachApplicationDocument → Tx ApplicationDocument
attach_tx id user dto = do loaded ← load_for_attachment id user dto; write_attachment user.id loaded

-- `catch (error) { if (isPrismaUniqueConstraintError(error)) throw new ConflictException(…) }`
unfoldable pub on_unique_violation {ℓ} : {A : Type ℓ} → String → Result A → Result A
on_unique_violation message (err (unique_violation target)) = err (conflict message)
on_unique_violation message r = r

unfoldable pub attach_document :
    ℕ → AuthenticatedUserContext → AttachApplicationDocument → Db → Result ApplicationDocument × Db
attach_document id user dto db =
    let (r, db') = serializable (attach_tx id user dto) db in
    (
      on_unique_violation "Another document was attached to this slot concurrently. Please retry."
          r,
      db',
    )
