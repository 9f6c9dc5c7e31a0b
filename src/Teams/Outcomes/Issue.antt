-- ===== src/Teams/Outcomes/Issue.antt =====
-- The outcome of issuing invitations.
use nti_backend.Prelude.{
  ℕ, suc, ◌+◌, String, ◌≡◌, refl, sym, ap, ◌∙◌, subst, inl, inr, Bool, true, false, none, some,
  List, [], ◌∷◌, ◌++◌, nat_eq, string_eq, arith, Bool-cases, find, filter, any, All, ok, length,
  includes, map,
}
use nti_backend.Store.{Db, Invitation}
use nti_backend.Store.Apart.{find-filter}
use nti_backend.Store.Transactions.{>>=-eq-ok, ◌>>=◌, gets, pure}
use nti_backend.Teams.Invitations.{
  NewInvitation, invitation_row, has_token, create_invitation, create_many, find_by_tokens,
}
use nti_backend.Teams.Issue.{insert_invitations, by_tokens}

-- The rows of the data, with ids from `next` on.
abbrev pub rows_from : ℕ → List NewInvitation → List Invitation
rows_from next [] = []
rows_from next (row ∷ rows) = invitation_row next row ∷ rows_from (suc next) rows

-- The database with those rows added.
abbrev pub with_invitations : List NewInvitation → Db → Db
with_invitations rows db = record db {
  next_id = db.next_id + length rows;
  invitations = db.invitations ++ rows_from db.next_id rows;
}

append_assoc : {A : Type 0} (xs ys zs : List A) → (xs ++ ys) ++ zs ≡ xs ++ (ys ++ zs)
append_assoc [] ys zs = refl
append_assoc (x ∷ xs) ys zs = ap (λ r. x ∷ r) (append_assoc xs ys zs)

pub append_nil : {A : Type 0} (xs : List A) → xs ++ [] ≡ xs
append_nil [] = refl
append_nil (x ∷ xs) = ap (λ r. x ∷ r) (append_nil xs)

create_one_ok :
    (row : NewInvitation) (db db' : Db) (u : Unit {0})
    → create_invitation row db ≡ ok (u, db')
    → (any (has_token row.token) db.invitations ≡ false)
      × (db' ≡ record db {
        next_id = suc db.next_id;
        invitations = db.invitations ++ invitation_row db.next_id row ∷ [];
      })
unfolding create_invitation
create_one_ok row db db' u h = elim (Bool-cases (any (has_token row.token) db.invitations)) [
  | inl taken ↦ absurd (ground arith)
  | inr free ↦ (free, ground arith)
]

-- What is found by a test before, is found after rows were added.
find-append_list :
    (p : Invitation → Bool) (xs ys : List Invitation) {i : Invitation}
    → find p xs ≡ some i
    → find p (xs ++ ys) ≡ some i
find-append_list p [] ys {i} h = absurd (ground arith)
find-append_list p (x ∷ xs) ys {i} h = ground (arith, find-append_list p xs ys {i = i})

any_of_find : (p : Invitation → Bool) (xs : List Invitation) → any p xs ≡ false → find p xs ≡ none
any_of_find p [] h = refl
any_of_find p (x ∷ xs) h = ground (arith, any_of_find p xs)

find_added :
    (i : Invitation) (is js : List Invitation)
    → any (has_token i.token) is ≡ false
    → find (has_token i.token) (is ++ i ∷ js) ≡ some i
find_added i [] js free = ground (arith, string_eq.equal_iff i.token i.token)
find_added i (j ∷ is) js free = ground (arith, find_added i is js)

-- Equality of two such databases.
with_rows :
    (db : Db) {k l : ℕ} {is js : List Invitation}
    → k ≡ l
    → is ≡ js
    → ◌≡◌ {A = Db}
        (record db { next_id = k; invitations = is })
        (record db { next_id = l; invitations = js })
with_rows db {k} {l} {is} {js} e f =
    ap (λ n. record db { next_id = n; invitations = is }) e
    ∙ ap (λ rows. record db { next_id = l; invitations = rows }) f

pub create_many_ok :
    (rows : List NewInvitation) (db db' : Db) (u : Unit {0})
    → create_many rows db ≡ ok (u, db')
    → (db' ≡ with_invitations rows db)
      × All (λ i. find (has_token i.token) db'.invitations ≡ some i) (rows_from db.next_id rows)
unfolding create_many
create_many_ok [] db db' u h =
    let same : db' ≡ db = ground arith in
    let e : db.next_id ≡ db.next_id + 0 = omega arith in
    (same ∙ with_rows db e (sym (append_nil db.invitations)), tt)
create_many_ok (row ∷ rows) db db' u h =
    let (w, db1, first, rest) = >>=-eq-ok (create_invitation row) (λ _. create_many rows) db h in
    let (free, added) = create_one_ok row db db1 w first in
    let (same, found) = create_many_ok rows db1 db' u rest in
    let new = invitation_row db.next_id row in
    let e : suc db.next_id + length rows ≡ db.next_id + suc (length rows) = omega arith in
    let all_rows : db' ≡ with_invitations (row ∷ rows) db =
      same
      ∙ ap (with_invitations rows) added
      ∙ with_rows db e (append_assoc db.invitations (new ∷ []) (rows_from (suc db.next_id) rows)) in
    let rest_found : All (λ i. find (has_token i.token) db'.invitations ≡ some i)
        (rows_from (suc db.next_id) rows) =
      subst (λ k. All (λ i. find (has_token i.token) db'.invitations ≡ some i) (rows_from k rows))
        (ap (λ d. d.next_id) added) found in
    (
      all_rows,
      (rw (ap (λ d. d.invitations) all_rows) (find_added new db.invitations _ free), rest_found),
    )

includes-All :
    (t : String) (ts : List String) (rows : List NewInvitation)
    → All (λ r. includes ts r.token ≡ true) rows
    → All (λ r. includes (t ∷ ts) r.token ≡ true) rows
includes-All t ts [] h = tt
includes-All t ts (r ∷ rows) h = (ground (arith, h.0), includes-All t ts rows h.1)

own_tokens :
    (rows : List NewInvitation) → All (λ r. includes (map (λ r. r.token) rows) r.token ≡ true) rows
own_tokens [] = tt
own_tokens (r ∷ rows) = (
  ground (arith, string_eq.equal_iff r.token r.token),
  includes-All r.token (map (λ r. r.token) rows) rows (own_tokens rows),
)

has_token-includes :
    (ts : List String) (t : String) (i : Invitation)
    → includes ts t ≡ true
    → has_token t i ≡ true
    → includes ts i.token ≡ true
has_token-includes ts t i h e =
    subst (λ k. includes ts k ≡ true) (sym ((string_eq.equal_iff i.token t).0 e)) h

-- The rows that were created are read back by their tokens, in the order of the request.
by_tokens-rows_from :
    (ts : List String) (is : List Invitation) (next : ℕ) (rows : List NewInvitation)
    → All (λ r. includes ts r.token ≡ true) rows
    → All (λ i. find (has_token i.token) is ≡ some i) (rows_from next rows)
    → by_tokens rows (filter (λ i. includes ts i.token) is) ≡ rows_from next rows
unfolding by_tokens
by_tokens-rows_from ts is next [] h f = refl
by_tokens-rows_from ts is next (r ∷ rows) h f =
    let here : find (has_token r.token) (filter (λ i. includes ts i.token) is)
        ≡ some (invitation_row next r) =
      find-filter (has_token r.token) (λ i. includes ts i.token)
        (λ i e. has_token-includes ts r.token i h.0 e) is
      ∙ f.0 in
    rw (by_tokens, here)
      (ap (λ rest. invitation_row next r ∷ rest)
        (by_tokens-rows_from ts is (suc next) rows h.1 f.1))

pub insert_ok :
    (rows : List NewInvitation) (db db' : Db) (is : List Invitation)
    → insert_invitations rows db ≡ ok (is, db')
    → (is ≡ rows_from db.next_id rows)
      × (db' ≡ with_invitations rows db)
      × All (λ i. find (has_token i.token) db'.invitations ≡ some i) (rows_from db.next_id rows)
unfolding insert_invitations find_by_tokens
insert_ok rows db db' is h =
    let (w, db1, first, rest) =
      >>=-eq-ok (create_many rows)
        (λ _.
          gets (find_by_tokens (map (λ r. r.token) rows))
          >>= (λ created. pure (by_tokens rows created)))
        db h in
    let (same, found) = create_many_ok rows db db1 w first in
    let tokens = map (λ r. r.token) rows in
    let last : db1 ≡ db' = ground arith in
    let answer : is ≡ by_tokens rows (filter (λ i. includes tokens i.token) db1.invitations) =
      ground arith in
    (
      answer ∙ by_tokens-rows_from tokens db1.invitations db.next_id rows (own_tokens rows) found,
      sym last ∙ same,
      subst
          (λ d.
            All (λ i. find (has_token i.token) d.invitations ≡ some i) (rows_from db.next_id rows))
          last found,
    )
