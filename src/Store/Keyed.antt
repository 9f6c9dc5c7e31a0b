-- ===== src/Store/Keyed.antt =====
-- What an update of the row of an id leaves, in a table with distinct ids.
use nti_backend.Prelude.{
  ℕ, ◌≡◌, none, some, List, [], ◌∷◌, arith, nat_beq, All, Bool-cases, inl, inr, subst, nat_beq_iff,
}
use nti_backend.Store.Tables.{IsKeyed, find_by_id, update_where}

module _ {A : Type 0} (P : A → Type 0) where
  -- In a table with distinct ids, what holds of the row of an id holds of every row with this id.
  none_left :
      (key : A → ℕ) (id : ℕ) (xs : List A)
      → find_by_id key id xs ≡ none
      → All (λ x. key x ≡ id → P x) xs
  unfolding find_by_id
  none_left key id [] e = tt
  none_left key id (x ∷ xs) e = (λ same. absurd (ground arith), none_left key id xs (ground arith))

  pub All-keyed :
      (key : A → ℕ) (id : ℕ) {a : A} (xs : List A)
      → IsKeyed key xs
      → find_by_id key id xs ≡ some a
      → P a
      → All (λ x. key x ≡ id → P x) xs
  unfolding find_by_id
  All-keyed key id {a} [] keyed found h = tt
  All-keyed key id {a} (x ∷ xs) keyed found h = elim (Bool-cases (nat_beq (key x) id)) [
    | inl same ↦
        let row : a ≡ x = ground arith in
        let here : key x ≡ id = ground arith in
        (
          λ _. subst P row h,
          none_left key id xs (subst (λ k. find_by_id key k xs ≡ none) here keyed.0),
        )
    | inr other ↦
        let rest : find_by_id key id xs ≡ some a = ground arith in
        (λ e. absurd (ground arith), All-keyed key id xs keyed.1 rest h)
  ]

  update_rows :
      (key : A → ℕ) (id : ℕ) (f : A → A) (xs : List A)
      → All (λ x. key x ≡ id → P (f x)) xs
      → All P xs
      → All P (update_where (λ x. nat_beq (key x) id) f xs)
  unfolding update_where
  update_rows key id f [] new old = tt
  update_rows key id f (x ∷ xs) new old = elim (Bool-cases (nat_beq (key x) id)) [
    | inl same ↦
        rw same (new.0 ((nat_beq_iff (key x) id).0 same), update_rows key id f xs new.1 old.1)
    | inr other ↦ rw other (old.0, update_rows key id f xs new.1 old.1)
  ]

module _ {A : Type 0} (P : A → Type 0) (key : A → ℕ) (id : ℕ) (f : A → A) where
  -- An update by an id that leaves the row that it finds with a property, leaves all rows with it.
  pub All-update_keyed :
      {a : A} (xs : List A)
      → IsKeyed key xs
      → find_by_id key id xs ≡ some a
      → P (f a)
      → All P xs
      → All P (update_where (λ x. nat_beq (key x) id) f xs)
  All-update_keyed xs keyed found h old =
      update_rows P key id f xs (All-keyed (λ x. P (f x)) key id xs keyed found h) old
