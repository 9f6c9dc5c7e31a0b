-- ===== src/Applications/Outcomes/Completeness.antt =====
-- What a complete document pack is, said of the tables.
use nti_backend.Prelude.{
  ℕ, ◌≡◌, ◌≢◌, ◌↔◌, ◌⊎◌, refl, sym, subst, inl, inr, Bool, true, not, ◌&&◌, Option, none, some,
  List, [], ◌∷◌, ◌++◌, map, ◌==◌, nat_eq, option_beq, arith, filter, is_empty, All, Bool-cases,
  All-append,
}
use nti_backend.Domain.{
  DocumentType, document_type_eq, document_type_beq_iff, ApplicationDocumentScope,
  application_document_scope_eq, application_document_scope_beq_iff, ProgramType, program_type_eq,
}
use nti_backend.Store.{Db, ApplicationDocument}
use nti_backend.Applications.Repository.{WorkflowView, find_by_id_for_workflow, member_ids}
use nti_backend.Applications.Repository.Views.{view_documents}
use nti_backend.Applications.Documents.{
  RequiredDocumentSlot, slot_of, same_key, slots_for, required_slots, has_document,
  build_document_completeness, build_required_document_slots,
}

-- A row of the table is an active document of an application, of a type and for a member.
pub record IsActiveDocument (id : ℕ) (type : DocumentType) (scope : ApplicationDocumentScope)
    (member : Option ℕ) (d : ApplicationDocument) : Type 0 where
  pub of_application : d.application_id ≡ id
  pub active : d.is_active ≡ true
  pub of_type : d.document_type ≡ type
  pub of_scope : d.document_scope ≡ scope
  pub of_member : d.member_user_id ≡ member

-- The table has such a row.
abbrev pub HasActiveDocument :
    ℕ → DocumentType → ApplicationDocumentScope → Option ℕ → List ApplicationDocument → Type 0
HasActiveDocument id type scope member [] = ⊥
HasActiveDocument id type scope member (d ∷ ds) =
    IsActiveDocument id type scope member d ⊎ HasActiveDocument id type scope member ds

-- What a required type asks for: a CV of each member, or one document of the application.
pub record IsCovered (id : ℕ) (members : List ℕ) (documents : List ApplicationDocument)
    (type : DocumentType) : Type 0 where
  pub each_member :
      type ≡ DocumentType.cv
      → All
          (λ m.
            HasActiveDocument id DocumentType.cv ApplicationDocumentScope.team_member
              (some m)
              documents)
          members
  pub one_document :
      type ≢ DocumentType.cv
      → HasActiveDocument id type ApplicationDocumentScope.application none documents

option_beq_iff : (a b : Option ℕ) → (option_beq a b ≡ true) ↔ (a ≡ b)
option_beq_iff none none = (λ _. refl, λ _. refl)
option_beq_iff none (some n) = (λ h. absurd (ground arith), λ h. absurd (ground arith))
option_beq_iff (some m) none = (λ h. absurd (ground arith), λ h. absurd (ground arith))
option_beq_iff (some m) (some n) = (λ h. ground arith, λ h. ground arith)

module _ (id : ℕ) (s : RequiredDocumentSlot) where
  -- The documents of a view are the active ones of its application.
  abbrev shown_active : ApplicationDocument → Bool
  shown_active d = d.application_id == id && d.is_active

  is_filling :
      (d : ApplicationDocument)
      → (shown_active d ≡ true) × (same_key (slot_of d) s ≡ true)
        ↔ IsActiveDocument id s.document_type s.document_scope s.member_user_id d
  is_filling d =
      let type = document_type_beq_iff d.document_type s.document_type in
      let scope = application_document_scope_beq_iff d.document_scope s.document_scope in
      let member = option_beq_iff d.member_user_id s.member_user_id in
      (
        λ h. record {
          of_application = ground arith;
          active = ground arith;
          of_type = ground arith;
          of_scope = ground arith;
          of_member = ground arith;
        },
        λ h.
            let t = type.1 h.of_type in
            let c = scope.1 h.of_scope in
            let m = member.1 h.of_member in (ground arith, ground arith),
      )

  has_document_iff :
      (ds : List ApplicationDocument)
      → has_document (filter shown_active ds) s ≡ true
        ↔ HasActiveDocument id s.document_type s.document_scope s.member_user_id ds
  has_document_iff [] = (λ h. absurd (ground arith), λ h. absurd h)
  has_document_iff (d ∷ ds) =
      let here = is_filling d in
      let rest = has_document_iff ds in
      elim (Bool-cases (shown_active d)) [
        | inr hidden ↦ rw hidden (
          λ h. inr (rest.0 h),
          λ h. elim h [
            | inl fills ↦ let f = (here.1 fills).0 in absurd (ground arith)
            | inr later ↦ rest.1 later
          ],
        )
        | inl shown ↦ elim (Bool-cases (same_key (slot_of d) s)) [
          | inl same ↦ rw (shown, same) (λ _. inl (here.0 (shown, same)), λ _. refl)
          | inr other ↦
              rw (shown, other)
                (
                  λ h. inr (rest.0 h),
                  λ h. elim h [
                    | inl fills ↦ let f = (here.1 fills).1 in absurd (ground arith)
                    | inr later ↦ rest.1 later
                  ],
                )
        ]
      ]

-- What a filter that leaves nothing says.
filter-empty :
    (p : RequiredDocumentSlot → Bool) (xs : List RequiredDocumentSlot)
    → is_empty (filter (λ s. not (p s)) xs) ≡ true ↔ All (λ s. p s ≡ true) xs
filter-empty p [] = (λ _. tt, λ _. refl)
filter-empty p (x ∷ xs) = elim (Bool-cases (p x)) [
  | inl met ↦ rw met (λ h. (refl, (filter-empty p xs).0 h), λ h. (filter-empty p xs).1 h.1)
  | inr unmet ↦ rw unmet (λ h. absurd (ground arith), λ h. absurd (ground arith))
]

All-split : {A : Type 0} (P : A → Type 0) (xs ys : List A) → All P (xs ++ ys) → All P xs × All P ys
All-split P [] ys h = (tt, h)
All-split P (x ∷ xs) ys h = let (front, back) = All-split P xs ys h.1 in ((h.0, front), back)

All-iff :
    {A : Type 0} {P Q : A → Type 0} → ((a : A) → P a ↔ Q a) → (xs : List A) → All P xs ↔ All Q xs
All-iff f [] = (λ h. h, λ h. h)
All-iff f (x ∷ xs) =
    let rest = All-iff f xs in (λ h. ((f x).0 h.0, rest.0 h.1), λ h. ((f x).1 h.0, rest.1 h.1))

All-map_iff :
    {A B : Type 0} (P : B → Type 0) (f : A → B) (xs : List A)
    → All P (map f xs) ↔ All (λ a. P (f a)) xs
All-map_iff P f [] = (λ h. h, λ h. h)
All-map_iff P f (x ∷ xs) =
    let rest = All-map_iff P f xs in (λ h. (h.0, rest.0 h.1), λ h. (h.0, rest.1 h.1))

module _ (id : ℕ) (members : List ℕ) (documents : List ApplicationDocument) where
  abbrev IsFilled : RequiredDocumentSlot → Type 0
  IsFilled s = HasActiveDocument id s.document_type s.document_scope s.member_user_id documents

  abbrev cv_slot : ℕ → RequiredDocumentSlot
  cv_slot m = record {
    document_type = DocumentType.cv;
    document_scope = ApplicationDocumentScope.team_member;
    member_user_id = some m;
  }

  slots_covered :
      (type : DocumentType)
      → All IsFilled (slots_for members type) ↔ IsCovered id members documents type
  slots_covered type = elim (Bool-cases (type == DocumentType.cv)) [
    | inl cv ↦
        let same = (document_type_beq_iff type DocumentType.cv).0 cv in
        rw cv (
          λ h. record {
            each_member = λ _. (All-map_iff IsFilled cv_slot members).0 h;
            one_document = λ other. absurd (other same);
          },
          λ c. (All-map_iff IsFilled cv_slot members).1 (c.each_member same),
        )
    | inr other ↦ rw other (
      λ h. record { each_member = λ same. absurd (ground arith); one_document = λ _. h.0 },
      λ c. (c.one_document (λ same. absurd (ground arith)), tt),
    )
  ]

  required_covered :
      (types : List DocumentType)
      → All IsFilled (required_slots members types) ↔ All (IsCovered id members documents) types
  unfolding required_slots
  required_covered [] = (λ h. h, λ h. h)
  required_covered (type ∷ types) =
      let here = slots_covered type in
      let rest = required_covered types in
      (
        λ h.
            let (front, back) =
              All-split IsFilled (slots_for members type) (required_slots members types) h in
            (here.0 front, rest.0 back),
        λ h.
            All-append IsFilled (slots_for members type) (required_slots members types) (here.1 h.0)
              (rest.1 h.1),
      )

complete_iff :
    (v : WorkflowView)
    → v.call.type ≡ ProgramType.program_a
    → (build_document_completeness v).is_complete ≡ true
      ↔ All
          (λ s. has_document v.documents s ≡ true)
          (required_slots (member_ids v) v.call.required_document_types)
unfolding build_document_completeness build_required_document_slots
complete_iff v program = rw program (
    filter-empty (has_document v.documents)
      (required_slots (member_ids v) v.call.required_document_types))

-- The document pack of a Program A application is complete exactly when the table has, for every
-- document type that the call requires, an active document of the application: for CV one of each
-- team member, and for another type one of the application as a whole.
pub completeness_iff :
    (id : ℕ) (db : Db) (v : WorkflowView)
    → find_by_id_for_workflow id db ≡ some v
    → v.call.type ≡ ProgramType.program_a
    → (build_document_completeness v).is_complete ≡ true
      ↔ All (IsCovered id (member_ids v) db.documents) v.call.required_document_types
completeness_iff id db v found program =
    let shown = view_documents id db v found in
    let types = v.call.required_document_types in
    let slots = required_slots (member_ids v) types in
    let complete = complete_iff v program in
    let covered = required_covered id (member_ids v) db.documents types in
    let filled = All-iff (λ s. has_document_iff id s db.documents) slots in
    (
      λ h.
          covered.0 (
            filled.0
              (subst (λ ds. All (λ s. has_document ds s ≡ true) slots) shown (complete.0 h))),
      λ h. complete.1 (
          subst (λ ds. All (λ s. has_document ds s ≡ true) slots) (sym shown)
            (filled.1 (covered.1 h))),
    )
