-- ===== src/Store/Transactions.antt =====
-- Prisma's `$transaction` (src/infrastructure/database/base.repository.ts): an exception inside
-- undoes what the callback wrote. Under the default isolation, READ COMMITTED, other transactions
-- may commit between the reads and the first write; under SERIALIZABLE none does.
use nti_backend.Prelude.{
  ℕ, suc, ◌≡◌, refl, Result, ok, err, Exception, Option, or_throw, ensure, Bool,
}
use nti_backend.Store.{Db}

-- The body of a transaction.
abbrev pub Tx : Type 0 → Type 0
Tx A = Db → Result (A × Db)

infixl 5 ◌>>=◌ ◌>>◌
abbrev pub ◌>>=◌ : {A B : Type 0} → Tx A → (A → Tx B) → Tx B
◌>>=◌ m f db = elim (m db) [ ok (a, db') ↦ f a db' | err e ↦ err e ]

abbrev pub ◌>>◌ : {A B : Type 0} → Tx A → Tx B → Tx B
m >> k = m >>= λ _. k

module _ {A : Type 0} where
  abbrev pub pure : A → Tx A
  pure a db = ok (a, db)

  abbrev pub throw : Exception → Tx A
  throw e db = err e

  abbrev pub gets : (Db → A) → Tx A
  gets f db = ok (f db, db)

  -- A check that neither reads nor writes a table.
  abbrev pub check : Result A → Tx A
  check (ok a) db = ok (a, db)
  check (err e) db = err e

-- `if (!test) throw e`
abbrev pub require : Bool → Exception → Tx (Unit {0})
require b e = check (ensure b e)

-- `if (value === null) throw e`
abbrev pub require_some : {A : Type 0} → Option A → Exception → Tx A
require_some o e = check (or_throw o e)

abbrev pub modify : (Db → Db) → Tx (Unit {0})
modify f db = ok (tt, f db)

-- The id of a row that is created.
abbrev pub fresh_id : Tx ℕ
fresh_id db = ok (db.next_id, record db { next_id = suc db.next_id })

-- What a successful step of a transaction was made of.
pub >>=-eq-ok :
    {A B : Type 0} (m : Tx A) (f : A → Tx B) (db : Db) {b : B} {db' : Db}
    → (m >>= f) db ≡ ok (b, db')
    → (a : A) × (db1 : Db) × (m db ≡ ok (a, db1)) × (f a db1 ≡ ok (b, db'))
>>=-eq-ok {A} {B} m f db {b} {db'} h = go (m db) refl
  where
    go :
        (r : Result (A × Db))
        → m db ≡ r
        → (a : A) × (db1 : Db) × (m db ≡ ok (a, db1)) × (f a db1 ≡ ok (b, db'))
    go (ok (a, db1)) e = (a, db1, e, rw (e, ◌>>=◌) at h)
    go (err x) e = cc (rw (e, ◌>>=◌) at h)

module _ {A : Type 0} where
  -- What a transaction leaves behind: its writes, or what it found if it threw.
  abbrev pub commit : Result (A × Db) → Db → Result A × Db
  commit (ok (a, db')) db = (ok a, db')
  commit (err e) db = (err e, db)

module _ {V A : Type 0} where
  abbrev pub after_reads : (Db → Db) → (V → Tx A) → Result (V × Db) → Db → Result A × Db
  after_reads between body (ok (v, _)) db = commit (body v (between db)) (between db)
  after_reads between body (err e) db = (err e, db)

  -- `between` is what the other transactions commit after the reads of `reads` and before the first
  -- write of `body`.
  abbrev pub read_committed : (Db → Db) → Tx V → (V → Tx A) → Db → Result A × Db
  read_committed between reads body db = after_reads between body (reads db) db

module _ {A : Type 0} where
  abbrev pub serializable : Tx A → Db → Result A × Db
  serializable body db = commit (body db) db

-- A transaction keeps what its writes and the other transactions keep.
module _ {V A : Type 0} (P : Db → Type 0) (between : Db → Db) (reads : Tx V) (body : V → Tx A)
    (db : Db) (others : P db → P (between db))
    (writes : (v : V) (db1 db' : Db) (a : A)
      → reads db ≡ ok (v, db1)
      → body v (between db) ≡ ok (a, db')
      → P (between db)
      → P db') where
  pub read_committed_keeps : P db → P (read_committed between reads body db).1
  read_committed_keeps h = go (reads db) refl
    where
      wrote :
          (v : V) (db1 : Db)
          → reads db ≡ ok (v, db1)
          → (r : Result (A × Db)) → body v (between db) ≡ r
          → P (commit r (between db)).1
      wrote v db1 e (ok (a, db')) w = writes v db1 db' a e w (others h)
      wrote v db1 e (err x) w = others h

      go : (r : Result (V × Db)) → reads db ≡ r → P (after_reads between body r db).1
      go (ok (v, db1)) e = wrote v db1 e (body v (between db)) refl
      go (err x) e = h

module _ {A : Type 0} (P : Db → Type 0) (body : Tx A) (db : Db) where
  pub serializable_keeps :
      ((db' : Db) (a : A) → body db ≡ ok (a, db') → P db → P db')
      → P db
      → P (serializable body db).1
  serializable_keeps writes h = go (body db) refl
    where
      go : (r : Result (A × Db)) → body db ≡ r → P (commit r db).1
      go (ok (a, db')) e = writes db' a e h
      go (err x) e = h
