-- ===== src/Store/Apart.antt =====
-- Unique indexes: no two rows of a table agree on the columns of the index, and what keeps this.
use nti_backend.Prelude.{
  ◌≡◌, refl, ◌∙◌, Bool, true, false, none, some, List, [], ◌∷◌, ◌++◌, arith, if◌then◌else◌, find,
  filter, any, is_some, All, Bool-cases, inl, inr,
}
use nti_backend.Store.Tables.{update_where}

module _ {A : Type 0} where
  pub find-append :
      (p : A → Bool) (xs : List A) (y : A)
      → find p (xs ++ y ∷ [])
        ≡ (elim (find p xs) [ some x ↦ some x | none ↦ (if p y then some y else none) ])
  find-append p [] y = ground arith
  find-append p (x ∷ xs) y = ground (arith, find-append p xs y)

  -- Rows that a test does not find may go.
  pub find-filter :
      (p q : A → Bool)
      → ((a : A) → p a ≡ true → q a ≡ true)
      → (xs : List A) → find p (filter q xs) ≡ find p xs
  find-filter p q kept [] = refl
  find-filter p q kept (x ∷ xs) = ground (arith, kept x, find-filter p q kept xs)

  find-filter_absent :
      (p q : A → Bool) (xs : List A) → find p xs ≡ none → find p (filter q xs) ≡ none
  find-filter_absent p q [] h = refl
  find-filter_absent p q (x ∷ xs) h = ground (arith, find-filter_absent p q xs)

  pub any-find : (p : A → Bool) (xs : List A) → any p xs ≡ is_some (find p xs)
  any-find p [] = refl
  any-find p (x ∷ xs) = ground (arith, any-find p xs)

  pub All-filter : (P : A → Type 0) (q : A → Bool) (xs : List A) → All P xs → All P (filter q xs)
  All-filter P q [] h = tt
  All-filter P q (x ∷ xs) h = elim (Bool-cases (q x)) [
    | inl met ↦ rw met (h.0, All-filter P q xs h.1)
    | inr unmet ↦ rw unmet (All-filter P q xs h.1)
  ]

  pub All-map : {P Q : A → Type 0} → ((a : A) → P a → Q a) → (xs : List A) → All P xs → All Q xs
  All-map f [] h = tt
  All-map f (x ∷ xs) h = (f x h.0, All-map f xs h.1)

-- `same a b`: the rows `a` and `b` agree on the columns.
module _ {A : Type 0} (same : A → A → Bool) where
  abbrev pub IsApart : List A → Type 0
  IsApart [] = Unit
  IsApart (x ∷ xs) = (find (same x) xs ≡ none) × IsApart xs

  find_same_none :
      ((a b : A) → same a b ≡ same b a)
      → (x y : A) (xs : List A) → find (same y) (x ∷ xs) ≡ none
      → (same x y ≡ false) × (find (same y) xs ≡ none)
  find_same_none swap x y xs h = ground (arith, swap x y)

  pub IsApart-append :
      ((a b : A) → same a b ≡ same b a)
      → (xs : List A) (y : A) → IsApart xs
      → find (same y) xs ≡ none
      → IsApart (xs ++ y ∷ [])
  IsApart-append swap [] y h e = (refl, tt)
  IsApart-append swap (x ∷ xs) y h e =
      let (other, rest) = find_same_none swap x y xs e in
      (rw (find-append (same x) xs y) (ground arith), IsApart-append swap xs y h.1 rest)

  pub IsApart-filter : (q : A → Bool) (xs : List A) → IsApart xs → IsApart (filter q xs)
  IsApart-filter q [] h = tt
  IsApart-filter q (x ∷ xs) h = elim (Bool-cases (q x)) [
    | inl met ↦ rw met (find-filter_absent (same x) q xs h.0, IsApart-filter q xs h.1)
    | inr unmet ↦ rw unmet (IsApart-filter q xs h.1)
  ]

  -- An update that keeps what the rows agree on, on the left and on the right.
  find_updated_absent :
      (x : A) (p : A → Bool) (f : A → A)
      → ((b : A) → same x (f b) ≡ same x b)
      → (xs : List A) → find (same x) xs ≡ none
      → find (same x) (update_where p f xs) ≡ none
  unfolding update_where
  find_updated_absent x p f keeps [] h = refl
  find_updated_absent x p f keeps (y ∷ xs) h =
      ground (arith, keeps y, find_updated_absent x p f keeps xs)

  find_same_left :
      (x y : A)
      → ((b : A) → same x b ≡ same y b)
      → (xs : List A) → find (same x) xs ≡ find (same y) xs
  find_same_left x y agree [] = refl
  find_same_left x y agree (z ∷ xs) = ground (arith, agree z, find_same_left x y agree xs)

  pub IsApart-update_where :
      (p : A → Bool) (f : A → A)
      → ((a b : A) → same (f a) b ≡ same a b)
      → ((a b : A) → same a (f b) ≡ same a b)
      → (xs : List A) → IsApart xs
      → IsApart (update_where p f xs)
  unfolding update_where
  IsApart-update_where p f left right [] h = tt
  IsApart-update_where p f left right (x ∷ xs) h =
      let there = find_updated_absent x p f (right x) xs h.0 in
      let rest = IsApart-update_where p f left right xs h.1 in
      elim (Bool-cases (p x)) [
        | inl met ↦ rw met (find_same_left (f x) x (left x) (update_where p f xs) ∙ there, rest)
        | inr unmet ↦ rw unmet (there, rest)
      ]
