-- ===== src/Teams/Tokens/Ending.antt =====
-- The loop of `generateUniqueToken` ends: where the draws that it may make are distinct, it makes at
-- most one more draw than there are reserved tokens. So does `buildInvitationsToCreate`.
use nti_backend.Prelude.{
  ℕ, zero, suc, ◌+◌, ◌≤◌, ◌<◌, String, Bool, true, false, not, ◌≡◌, refl, sym, ◌≢◌, inl, inr, arith,
  some, List, [], ◌∷◌, ◌==◌, string_eq, filter, includes, length, Bool-cases, nat_beq, subst, ◌∙◌,
}
use nti_backend.Teams.Tokens.{generate_unique_token}
use nti_backend.Teams.Invitations.{NewInvitation}

-- The other elements.
abbrev without : String → List String → List String
without t xs = filter (λ s. not (s == t)) xs

includes-without :
    (t s : String) (xs : List String) → s ≢ t → includes (without t xs) s ≡ includes xs s
includes-without t s [] d = refl
includes-without t s (x ∷ xs) d =
    ground (arith, string_eq.equal_iff x t, string_eq.equal_iff x s, includes-without t s xs d)

length-without : (t : String) (xs : List String) → length (without t xs) ≤ length xs
length-without t [] = omega arith
length-without t (x ∷ xs) = ground (arith, length-without t xs)

length-without_reserved :
    (t : String) (xs : List String) → includes xs t ≡ true → length (without t xs) < length xs
length-without_reserved t [] h = absurd (ground arith)
length-without_reserved t (x ∷ xs) h =
    ground (arith, length-without t xs, length-without_reserved t xs)

-- No row has the token.
abbrev pub IsUnused : List String → NewInvitation → Type 0
IsUnused tokens row = includes tokens row.token ≡ false

abbrev pub has_new_token : NewInvitation → NewInvitation → Bool
has_new_token a b = b.token == a.token

fewer :
    (t : String) (ts : List String) (r : NewInvitation)
    → includes (t ∷ ts) r.token ≡ false
    → includes ts r.token ≡ false
fewer t ts r h = ground arith

-- The draws from the `first`-th on are distinct, as far as `count` of them.
abbrev pub AreDistinct : (ℕ → String) → ℕ → ℕ → Type 0
AreDistinct draws first count =
    (i j : ℕ)
    → first ≤ i
    → i < first + count
    → first ≤ j
    → j < first + count
    → draws i ≡ draws j
    → i ≡ j

module _ (draws : ℕ → String) where
  generate-without :
      (t : String) (rounds : ℕ) (reserved : List String) (n : ℕ)
      → ((k : ℕ) → n ≤ k → k < n + rounds → draws k ≢ t)
      → generate_unique_token draws rounds (without t reserved) n
        ≡ generate_unique_token draws rounds reserved n
  unfolding generate_unique_token
  generate-without t zero reserved n other = refl
  generate-without t (suc rounds) reserved n other = ground (
    arith,
    includes-without t (draws n) reserved (other n (omega arith) (omega arith)),
    generate-without t rounds reserved (suc n) (λ k h b. other k (omega arith) (omega arith)),
  )

  -- Where the draws of the rounds that there is fuel for are distinct, and there is fuel for one
  -- more than there are reserved tokens: the loop ends, with the first draw from the n-th on that is
  -- not reserved, and this is among the first `length reserved + 1` of them.
  pub generate_unique_token_ends :
      (rounds : ℕ) (reserved : List String) (n : ℕ)
      → AreDistinct draws n rounds
      → length reserved < rounds
      → (k : ℕ) × (generate_unique_token draws rounds reserved n ≡ some (draws k, suc k))
        × (n ≤ k)
        × (k ≤ n + length reserved)
        × (includes reserved (draws k) ≡ false)
        × ((j : ℕ) → n ≤ j → j < k → includes reserved (draws j) ≡ true)
  unfolding generate_unique_token
  generate_unique_token_ends zero reserved n distinct enough = absurd (omega arith)
  generate_unique_token_ends (suc rounds) reserved n distinct enough =
      elim (Bool-cases (includes reserved (draws n))) [
        | inr free ↦
            (n, ground arith, omega arith, omega arith, free, λ j from below. absurd (omega arith))
        | inl taken ↦
            let other : (k : ℕ) → suc n ≤ k → k < suc n + rounds → draws k ≢ draws n =
              λ k from below same.
                let e = distinct k n (omega arith) (omega arith) (omega arith) (omega arith) same in
                omega arith in
            let fewer = length-without_reserved (draws n) reserved taken in
            let (k, ends, from, bound, free, first) =
              generate_unique_token_ends rounds (without (draws n) reserved) (suc n)
                (λ i j a b c d.
                  distinct i j (omega arith) (omega arith) (omega arith) (omega arith))
                (omega arith) in
            let inside : k < suc n + rounds = omega arith in
            (
              k,
              ground (arith, generate-without (draws n) rounds reserved (suc n) other),
              omega arith,
              omega arith,
              ground (arith, includes-without (draws n) (draws k) reserved (other k from inside)),
              λ j above below. elim (Bool-cases (nat_beq j n)) [
                | inl same ↦
                    let e : n ≡ j = ground arith in
                    subst (λ i. includes reserved (draws i) ≡ true) e taken
                | inr later ↦
                    let above' : suc n ≤ j = ground arith in
                    sym
                      (includes-without (draws n) (draws j) reserved (other j above' (omega arith)))
                    ∙ first j above' below
              ],
            )
      ]

  -- The draws for `emails`, one search each.
  abbrev pub draws_for : List String → ℕ → ℕ
  draws_for [] rounds = 0
  draws_for (_ ∷ emails) rounds = rounds + draws_for emails rounds
