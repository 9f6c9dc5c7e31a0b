-- ===== src/Teams/Roster/Issued.antt =====
-- The changes of the invitations that keep them sound.
use nti_backend.Prelude.{
  ℕ, suc, String, ◌≡◌, refl, sym, ap, subst, ◌≤◌, ◌<◌, Bool, true, false, not, ◌&&◌, none, List, [],
  ◌∷◌, ◌++◌, ◌==◌, nat_eq, string_eq, arith, find, any, All-append, Bool-cases, inl, inr,
}
use nti_backend.Store.{Invitation}
use nti_backend.Store.Tables.{
  IsKeyed, find_by_id, update_where, update_where-IsKeyed, append-IsKeyed, All-update_where,
}
use nti_backend.Store.Apart.{IsApart, IsApart-append, IsApart-update_where, All-map}
use nti_backend.Teams.Invitations.{NewInvitation, invitation_row, has_token}
use nti_backend.Teams.Roster.{IsIssued, IsConsistent, same_token}

same_token_swap : (a b : Invitation) → same_token a b ≡ same_token b a
same_token_swap a b =
    ground (arith, string_eq.equal_iff a.token b.token, string_eq.equal_iff b.token a.token)

pub later-IsIssued :
    {rows : List Invitation} {next next' : ℕ}
    → next ≤ next'
    → IsIssued rows next
    → IsIssued rows next'
later-IsIssued {rows} {next} {next'} h s = record {
  keyed = s.keyed;
  used =
      All-map {P = λ i. i.id < next} {Q = λ i. i.id < next'} (λ i below. omega arith) rows s.used;
  apart = s.apart;
  consistent = s.consistent;
  known =
      All-map {P = λ i. i.team_id < next} {Q = λ i. i.team_id < next'} (λ i below. omega arith) rows
        s.known;
}

pub create-IsIssued :
    {rows : List Invitation} {next : ℕ} (input : NewInvitation)
    → any (has_token input.token) rows ≡ false
    → input.team_id < next
    → IsIssued rows next
    → IsIssued (rows ++ invitation_row next input ∷ []) (suc next)
create-IsIssued {rows} {next} input free below s =
    let later = later-IsIssued {next' = suc next} (omega arith) s in
    let row = invitation_row next input in
    record {
      keyed = append-IsKeyed (λ i. i.id) rows row s.keyed s.used;
      used = All-append (λ i. i.id < suc next) rows _ later.used (omega arith, tt);
      apart = IsApart-append same_token same_token_swap rows row s.apart (not_found rows free);
      consistent = All-append IsConsistent rows _ s.consistent (λ e. absurd (ground arith), tt);
      known = All-append (λ i. i.team_id < suc next) rows _ later.known (omega arith, tt);
    }
  where
    not_found :
        (is : List Invitation)
        → any (has_token input.token) is ≡ false
        → find (same_token (invitation_row next input)) is ≡ none
    not_found [] e = refl
    not_found (i ∷ is) e = ground (arith, not_found is)

-- An update that keeps the id, the token and the team of a row, and leaves it consistent.
pub update-IsIssued :
    {rows : List Invitation} {next : ℕ} (p : Invitation → Bool) (f : Invitation → Invitation)
    → ((i : Invitation) → (f i).id ≡ i.id)
    → ((i : Invitation) → (f i).token ≡ i.token)
    → ((i : Invitation) → (f i).team_id ≡ i.team_id)
    → ((i : Invitation) → p i ≡ true → IsConsistent i → IsConsistent (f i))
    → IsIssued rows next
    → IsIssued (update_where p f rows) next
update-IsIssued {rows} {next} p f ids tokens teams consistent s = record {
  keyed = update_where-IsKeyed (λ i. i.id) p f ids rows s.keyed;
  used =
      All-update_where (λ i. i.id < next) p f
        (λ i _ below. subst (λ k. k < next) (sym (ids i)) below) rows s.used;
  apart =
      IsApart-update_where same_token p f (λ a b. ap (λ t. b.token == t) (tokens a))
        (λ a b. ap (λ t. t == a.token) (tokens b)) rows s.apart;
  consistent = All-update_where IsConsistent p f consistent rows s.consistent;
  known =
      All-update_where (λ i. i.team_id < next) p f
        (λ i _ below. subst (λ k. k < next) (sym (teams i)) below) rows s.known;
}

-- A new token for the row of an id, where no other row has it.
module _ (id : ℕ) (token : String) (f : Invitation → Invitation)
    (ids : (i : Invitation) → (f i).id ≡ i.id)
    (tokens : (i : Invitation) → (f i).token ≡ token) where
  others_kept :
      (x : Invitation) (rows : List Invitation)
      → (token == x.token) ≡ false
      → find (same_token x) rows ≡ none
      → find (same_token x) (update_where (λ i. i.id == id) f rows) ≡ none
  unfolding update_where
  others_kept x [] other h = refl
  others_kept x (i ∷ rows) other h = ground (arith, tokens i, others_kept x rows)

  token_unused :
      (x : Invitation) (rows : List Invitation)
      → find_by_id (λ i. i.id) id rows ≡ none
      → any (λ i. i.token == token && not (i.id == id)) rows ≡ false
      → find (same_token (f x)) (update_where (λ i. i.id == id) f rows) ≡ none
  unfolding update_where find_by_id
  token_unused x [] absent free = refl
  token_unused x (i ∷ rows) absent free = ground (arith, tokens x, token_unused x rows)

  retoken-IsApart :
      (rows : List Invitation)
      → IsKeyed (λ i. i.id) rows
      → any (λ i. i.token == token && not (i.id == id)) rows ≡ false
      → IsApart same_token rows
      → IsApart same_token (update_where (λ i. i.id == id) f rows)
  unfolding update_where
  retoken-IsApart [] keyed free h = tt
  retoken-IsApart (x ∷ rows) keyed free h =
      let rest = retoken-IsApart rows keyed.1 (ground arith) h.1 in
      elim (Bool-cases (x.id == id)) [
        | inl same ↦
            let here : x.id ≡ id = (nat_eq.equal_iff x.id id).0 same in
            rw same (
              token_unused x rows (subst (λ k. find_by_id (λ i. i.id) k rows ≡ none) here keyed.0)
                  (ground arith),
              rest,
            )
        | inr other ↦
            let unlike : (token == x.token) ≡ false =
              ground
                (arith, string_eq.equal_iff token x.token, string_eq.equal_iff x.token token) in
            rw other (others_kept x rows unlike h.0, rest)
      ]

  pub retoken-IsIssued :
      {rows : List Invitation} {next : ℕ}
      → ((i : Invitation) → (f i).team_id ≡ i.team_id)
      → ((i : Invitation) → IsConsistent i → IsConsistent (f i))
      → any (λ i. i.token == token && not (i.id == id)) rows ≡ false
      → IsIssued rows next
      → IsIssued (update_where (λ i. i.id == id) f rows) next
  retoken-IsIssued {rows} {next} teams consistent free s = record {
    keyed = update_where-IsKeyed (λ i. i.id) (λ i. i.id == id) f ids rows s.keyed;
    used =
        All-update_where (λ i. i.id < next) (λ i. i.id == id) f
          (λ i _ below. subst (λ k. k < next) (sym (ids i)) below) rows s.used;
    apart = retoken-IsApart rows s.keyed free s.apart;
    consistent =
        All-update_where IsConsistent (λ i. i.id == id) f (λ i _ c. consistent i c) rows
          s.consistent;
    known =
        All-update_where (λ i. i.team_id < next) (λ i. i.id == id) f
          (λ i _ below. subst (λ k. k < next) (sym (teams i)) below) rows s.known;
  }
