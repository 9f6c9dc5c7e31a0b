-- ===== src/Applications/Outcomes/Slots.antt =====
-- What attaching a document does to the rows of its slot and of the others.
use nti_backend.Prelude.{
  ℕ, ◌+◌, ◌<◌, ◌≡◌, refl, ap, ◌∙◌, Bool, true, not, ◌&&◌, Option, none, some, List, [], ◌∷◌, ◌++◌,
  nat_eq, nat_beq, nat_beq_iff, leb, arith, filter, inl, inr, Bool-cases, option_beq, if◌then◌else◌,
  All,
}
use nti_backend.Domain.{
  application_status_eq, program_type_eq, document_type_eq, document_type_rank,
  application_document_scope_rank, application_document_scope_eq,
}
use nti_backend.Domain.{upload_status_eq}
use nti_backend.Store.{ApplicationDocument}
use nti_backend.Store.Tables.{update_where}
use nti_backend.Applications.Documents.{
  RequiredDocumentSlot, same_key, in_slot, deactivate_active_by_slot, latest_version,
}

-- The active documents of a slot.
abbrev pub is_active_in : ℕ → RequiredDocumentSlot → ApplicationDocument → Bool
is_active_in application_id s d = in_slot application_id s d && d.is_active

module _ (id : ℕ) (s : RequiredDocumentSlot) where
  none_active :
      (ds : List ApplicationDocument)
      → filter (is_active_in id s) (deactivate_active_by_slot id s ds) ≡ []
  unfolding deactivate_active_by_slot update_where
  none_active [] = refl
  none_active (d ∷ ds) = elim (Bool-cases (is_active_in id s d)) [
    | inl met ↦ rw met (ground (arith, none_active ds))
    | inr unmet ↦ rw (unmet, unmet) (none_active ds)
  ]

  active_append :
      (ds : List ApplicationDocument) (d : ApplicationDocument)
      → filter (is_active_in id s) ds ≡ []
      → is_active_in id s d ≡ true
      → filter (is_active_in id s) (ds ++ d ∷ []) ≡ d ∷ []
  active_append [] d others met = rw met refl
  active_append (e ∷ ds) d others met = elim (Bool-cases (is_active_in id s e)) [
    | inl there ↦ absurd (ground arith)
    | inr not_there ↦ rw not_there (active_append ds d (rw not_there at others) met)
  ]

  -- A deactivated row is in its slot still, with its version.
  deactivated_latest :
      (ds : List ApplicationDocument)
      → latest_version id s (deactivate_active_by_slot id s ds) ≡ latest_version id s ds
  unfolding deactivate_active_by_slot latest_version update_where
  deactivated_latest [] = refl
  deactivated_latest (d ∷ ds) = elim (Bool-cases (is_active_in id s d)) [
    | inl met ↦ rw (met, deactivated_latest ds) refl
    | inr unmet ↦ rw (unmet, deactivated_latest ds) refl
  ]

  versions_below :
      (n : ℕ) (ds : List ApplicationDocument)
      → latest_version id s ds < n
      → All (λ d. in_slot id s d ≡ true → d.version < n) ds
  unfolding latest_version
  versions_below n [] le = tt
  versions_below n (d ∷ ds) le = elim (Bool-cases (in_slot id s d)) [
    | inl met ↦
        let bound : (d.version < n) × (latest_version id s ds < n) = largest (rw met at le) in
        (λ _. bound.0, versions_below n ds bound.1)
    | inr unmet ↦ (λ met. absurd (ground arith), versions_below n ds (rw unmet at le))
  ]
    where
      largest :
          (if leb (latest_version id s ds) d.version then d.version else latest_version id s ds) < n
          → (d.version < n) × (latest_version id s ds < n)
      largest h = ground arith

  -- The documents of the other slots stay as they are.
  others_kept :
      (ds : List ApplicationDocument)
      → filter (λ d. not (in_slot id s d)) (deactivate_active_by_slot id s ds)
        ≡ filter (λ d. not (in_slot id s d)) ds
  unfolding deactivate_active_by_slot update_where
  others_kept [] = refl
  others_kept (d ∷ ds) = elim (Bool-cases (in_slot id s d)) [
    | inr out ↦ rw (out, out) (ap (λ es. d ∷ es) (others_kept ds))
    | inl there ↦ elim (Bool-cases (d.is_active)) [
      | inl on ↦ rw (there, on, there) (others_kept ds)
      | inr off ↦ rw (there, off, there) (others_kept ds)
    ]
  ]

  others_append :
      (ds : List ApplicationDocument) (d : ApplicationDocument)
      → in_slot id s d ≡ true
      → filter (λ d. not (in_slot id s d)) (ds ++ d ∷ []) ≡ filter (λ d. not (in_slot id s d)) ds
  others_append [] d met = rw met refl
  others_append (e ∷ ds) d met = elim (Bool-cases (in_slot id s e)) [
    | inl there ↦ rw there (others_append ds d met)
    | inr not_there ↦ rw not_there (ap (λ es. e ∷ es) (others_append ds d met))
  ]

-- What `attachDocument` leaves of the documents: the active documents of the slot are `d` alone, with
-- a version above all that the slot has had, and the documents of the other slots are as they were.
pub record Attached (id : ℕ) (slot : RequiredDocumentSlot) (d : ApplicationDocument)
    (before after : List ApplicationDocument) : Type 0 where
  pub only : filter (is_active_in id slot) after ≡ d ∷ []
  pub newest : All (λ e. in_slot id slot e ≡ true → e.version < d.version) before
  pub others :
      filter (λ e. not (in_slot id slot e)) after ≡ filter (λ e. not (in_slot id slot e)) before

pub nat_beq_refl : (n : ℕ) → nat_beq n n ≡ true
nat_beq_refl n = (nat_beq_iff n n).1 refl

option_beq_refl : (o : Option ℕ) → option_beq o o ≡ true
option_beq_refl none = refl
option_beq_refl (some n) = nat_beq_refl n

pub same_key_refl : (s : RequiredDocumentSlot) → same_key s s ≡ true
same_key_refl s =
    rw
      (
        nat_beq_refl (document_type_rank s.document_type),
        nat_beq_refl (application_document_scope_rank s.document_scope),
      )
      (option_beq_refl s.member_user_id)

pub append-Attached :
    (id : ℕ) (slot : RequiredDocumentSlot) (d : ApplicationDocument)
    (before : List ApplicationDocument)
    → in_slot id slot d ≡ true
    → d.is_active ≡ true
    → d.version ≡ latest_version id slot (deactivate_active_by_slot id slot before) + 1
    → Attached id slot d before (deactivate_active_by_slot id slot before ++ d ∷ [])
append-Attached id slot d before there on version = record {
  only =
      active_append id slot (deactivate_active_by_slot id slot before) d
        (none_active id slot before) (rw (there, on) refl);
  newest =
      versions_below id slot d.version before
        (omega (arith, version, deactivated_latest id slot before));
  others =
      others_append id slot (deactivate_active_by_slot id slot before) d there
      ∙ others_kept id slot before;
}
