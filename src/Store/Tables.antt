-- ===== src/Store/Tables.antt =====
-- `findUnique`, `update` and `updateMany` on a table, and what they leave in place.
use nti_backend.Prelude.{
  subst, inl, inr, Option-cases, ℕ, suc, ◌<◌, ◌≡◌, refl, Bool, true, false, ◌&&◌, Option, none,
  some, List, [], ◌∷◌, ◌++◌, arith, if◌then◌else◌, nat_beq, All, Bool-cases, find,
}

module _ {ℓ} {A : Type ℓ} where
  -- `updateMany({ where: p, data: f })`
  unfoldable pub update_where : (A → Bool) → (A → A) → List A → List A
  update_where p f [] = []
  update_where p f (x ∷ xs) = (if p x then f x else x) ∷ update_where p f xs

  -- The `count` of an `updateMany`.
  unfoldable pub count_where : (A → Bool) → List A → ℕ
  count_where p [] = 0
  count_where p (x ∷ xs) = if p x then suc (count_where p xs) else count_where p xs

  abbrev pub map_option : (A → A) → Option A → Option A
  map_option f none = none
  map_option f (some a) = some (f a)

  abbrev pub patch : (A → Bool) → (A → A) → A → A
  patch p f a = if p a then f a else a

-- A table with its primary key.
module _ {A : Type 0} (key : A → ℕ) where
  -- `findUnique({ where: { id } })`
  unfoldable pub find_by_id : ℕ → List A → Option A
  find_by_id k [] = none
  find_by_id k (x ∷ xs) = if nat_beq (key x) k then some x else find_by_id k xs

  -- No two rows have one id.
  abbrev pub IsKeyed : List A → Type 0
  IsKeyed [] = Unit
  IsKeyed (x ∷ xs) = (find_by_id (key x) xs ≡ none) × IsKeyed xs

  pub find_by_id-key : (k : ℕ) (xs : List A) {a : A} → find_by_id k xs ≡ some a → key a ≡ k
  unfolding find_by_id
  find_by_id-key k [] e = cc
  find_by_id-key k (x ∷ xs) {a} e = elim (Bool-cases (nat_beq (key x) k)) [
    | inl same ↦ let row : x ≡ a = ground arith in ground arith
    | inr other ↦ find_by_id-key k xs (ground arith)
  ]

  -- An update that keeps the ids shows through a lookup.
  pub find_by_id-update_where :
      (p : A → Bool) (f : A → A)
      → ((a : A) → key (f a) ≡ key a)
      → (k : ℕ) (xs : List A)
      → find_by_id k (update_where p f xs) ≡ map_option (patch p f) (find_by_id k xs)
  unfolding find_by_id update_where
  find_by_id-update_where p f keeps k [] = refl
  find_by_id-update_where p f keeps k (x ∷ xs) =
      ground (arith, keeps x, find_by_id-update_where p f keeps k xs)

  pub find_by_id-append :
      (k : ℕ) (xs : List A) (y : A)
      → find_by_id k (xs ++ y ∷ []) ≡ (elim (find_by_id k xs) [
        | some x ↦ some x
        | none ↦ (if nat_beq (key y) k then some y else none)
      ])
  unfolding find_by_id
  find_by_id-append k [] y = ground arith
  find_by_id-append k (x ∷ xs) y = ground (arith, find_by_id-append k xs y)

  pub update_where-IsKeyed :
      (p : A → Bool) (f : A → A)
      → ((a : A) → key (f a) ≡ key a)
      → (xs : List A) → IsKeyed xs
      → IsKeyed (update_where p f xs)
  unfolding update_where
  update_where-IsKeyed p f keeps [] h = tt
  update_where-IsKeyed p f keeps (x ∷ xs) h = ground (
    arith,
    keeps x,
    find_by_id-update_where p f keeps (key x) xs,
    update_where-IsKeyed p f keeps xs,
  )

  -- With the ids distinct, an update by id and a further test that the row meets counts one row.
  pub count_where_absent :
      (k : ℕ) (q : A → Bool) (xs : List A)
      → find_by_id k xs ≡ none
      → count_where (λ a. nat_beq (key a) k && q a) xs ≡ 0
  unfolding find_by_id count_where
  count_where_absent k q [] h = refl
  count_where_absent k q (x ∷ xs) h = ground (arith, count_where_absent k q xs)

  pub count_where_one :
      (k : ℕ) (q : A → Bool) (xs : List A) {a : A}
      → IsKeyed xs
      → find_by_id k xs ≡ some a
      → q a ≡ true
      → count_where (λ x. nat_beq (key x) k && q x) xs ≡ 1
  unfolding find_by_id count_where
  count_where_one k q [] {a} h e t = ground arith
  count_where_one k q (x ∷ xs) {a} h e t =
      ground (arith, count_where_one k q xs {a = a}, count_where_absent k q xs)

  -- A row that is counted is found by its id, and meets the test.
  pub count_where_found :
      (k : ℕ) (q : A → Bool) (xs : List A) {a : A}
      → IsKeyed xs
      → find_by_id k xs ≡ some a
      → q a ≡ false
      → count_where (λ x. nat_beq (key x) k && q x) xs ≡ 0
  unfolding find_by_id count_where
  count_where_found k q [] {a} h e t = ground arith
  count_where_found k q (x ∷ xs) {a} h e t =
      ground (arith, count_where_found k q xs {a = a}, count_where_absent k q xs)

  -- An update by id that counts one row has found it, and it met the further test.
  pub find_of_count :
      (k : ℕ) (q : A → Bool) (xs : List A)
      → IsKeyed xs
      → count_where (λ x. nat_beq (key x) k && q x) xs ≡ 1
      → (a : A) × (find_by_id k xs ≡ some a) × (q a ≡ true)
  find_of_count k q xs h e = elim (Option-cases (find_by_id k xs)) [
    | inl missing ↦ absurd (omega (arith, count_where_absent k q xs missing))
    | inr (a, found) ↦ elim (Bool-cases (q a)) [
      | inl met ↦ (a, found, met)
      | inr unmet ↦ absurd (omega (arith, count_where_found k q xs h found unmet))
    ]
  ]

  update_where_absent :
      (k : ℕ) (q : A → Bool) (f : A → A) (xs : List A)
      → find_by_id k xs ≡ none
      → update_where (λ x. nat_beq (key x) k && q x) f xs ≡ xs
  unfolding find_by_id update_where
  update_where_absent k q f [] h = refl
  update_where_absent k q f (x ∷ xs) h = ground (arith, update_where_absent k q f xs)

  update_where_absent_id :
      (k : ℕ) (f : A → A) (xs : List A)
      → find_by_id k xs ≡ none
      → update_where (λ x. nat_beq (key x) k) f xs ≡ xs
  unfolding find_by_id update_where
  update_where_absent_id k f [] h = refl
  update_where_absent_id k f (x ∷ xs) h = ground (arith, update_where_absent_id k f xs)

  -- Where the row of an id meets a test, an update by the id is one by the id and the test.
  pub update_where_narrow :
      (k : ℕ) (q : A → Bool) (f : A → A) (xs : List A) {a : A}
      → IsKeyed xs
      → find_by_id k xs ≡ some a
      → q a ≡ true
      → update_where (λ x. nat_beq (key x) k) f xs
        ≡ update_where (λ x. nat_beq (key x) k && q x) f xs
  unfolding find_by_id update_where
  update_where_narrow k q f [] h e t = refl
  update_where_narrow k q f (x ∷ xs) {a} h e t = ground (
    arith,
    update_where_narrow k q f xs {a = a},
    update_where_absent k q f xs,
    update_where_absent_id k f xs,
  )

  -- The next unused id is not found, and a row with it may be appended.
  pub find_by_id_unused : (n : ℕ) (xs : List A) → All (λ a. key a < n) xs → find_by_id n xs ≡ none
  unfolding find_by_id
  find_by_id_unused n [] h = refl
  find_by_id_unused n (x ∷ xs) h = ground (arith, find_by_id_unused n xs)

  pub append-IsKeyed :
      (xs : List A) (y : A) → IsKeyed xs → All (λ a. key a < key y) xs → IsKeyed (xs ++ y ∷ [])
  append-IsKeyed [] y h k = (find_none_nil, tt)
    where
      find_none_nil : find_by_id (key y) [] ≡ none
      find_none_nil = unfold find_by_id in refl
  append-IsKeyed (x ∷ xs) y h k = (absent, append-IsKeyed xs y h.1 k.1)
    where
      absent : find_by_id (key x) (xs ++ y ∷ []) ≡ none
      absent = rw (find_by_id-append (key x) xs y) (ground arith)

  -- A row that some test finds is the row of its id.
  find_by_id_before :
      (k : ℕ) (p : A → Bool) (xs : List A) {a : A}
      → find_by_id k xs ≡ none
      → find p xs ≡ some a
      → nat_beq (key a) k ≡ false
  unfolding find_by_id
  find_by_id_before k p [] e h = absurd (ground arith)
  find_by_id_before k p (x ∷ xs) {a} e h = elim (Bool-cases (p x)) [
    | inl met ↦ let row : x ≡ a = ground arith in ground arith
    | inr unmet ↦ ground (arith, find_by_id_before k p xs {a = a})
  ]

  pub find-keyed :
      (p : A → Bool) (xs : List A) {a : A}
      → IsKeyed xs
      → find p xs ≡ some a
      → find_by_id (key a) xs ≡ some a
  unfolding find_by_id
  find-keyed p [] keyed h = absurd (ground arith)
  find-keyed p (x ∷ xs) {a} keyed h = elim (Bool-cases (p x)) [
    | inl met ↦ let row : x ≡ a = ground arith in ground arith
    | inr unmet ↦
        let later : find p xs ≡ some a = ground arith in
        ground (arith, find_by_id_before (key x) p xs keyed.0 later, find-keyed p xs keyed.1 later)
  ]

  -- A lookup by a test that the update keeps.
  pub find-update_where :
      (p q : A → Bool) (f : A → A)
      → ((a : A) → p (f a) ≡ p a)
      → (xs : List A) → find p (update_where q f xs) ≡ map_option (patch q f) (find p xs)
  unfolding update_where
  find-update_where p q f keeps [] = refl
  find-update_where p q f keeps (x ∷ xs) = ground (arith, keeps x, find-update_where p q f keeps xs)

module _ {A : Type 0} (P : A → Type 0) where
  pub All-update_where :
      (p : A → Bool) (f : A → A)
      → ((a : A) → p a ≡ true → P a → P (f a))
      → (xs : List A) → All P xs
      → All P (update_where p f xs)
  unfolding update_where
  All-update_where p f keeps [] h = tt
  All-update_where p f keeps (x ∷ xs) h = elim (Bool-cases (p x)) [
    | inl met ↦ (rw met (keeps x met h.0), All-update_where p f keeps xs h.1)
    | inr unmet ↦ (rw unmet h.0, All-update_where p f keeps xs h.1)
  ]

  pub find_by_id-All :
      (key : A → ℕ) (k : ℕ) (xs : List A) {a : A} → find_by_id key k xs ≡ some a → All P xs → P a
  unfolding find_by_id
  find_by_id-All key k [] e h = cc
  find_by_id-All key k (x ∷ xs) {a} e h = elim (Bool-cases (nat_beq (key x) k)) [
    | inl same ↦ let row : x ≡ a = ground arith in subst P row h.0
    | inr other ↦ find_by_id-All key k xs (ground arith) h.1
  ]
