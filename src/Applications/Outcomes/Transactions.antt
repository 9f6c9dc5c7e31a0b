-- ===== src/Applications/Outcomes/Transactions.antt =====
-- What the result of a transaction tells about the database that it leaves.
use nti_backend.Prelude.{◌≡◌, refl, arith, Result, ok, err}
use nti_backend.Store.{Db}
use nti_backend.Store.Transactions.{Tx, read_committed, serializable}

module _ {A : Type 0} (body : Tx A) (db : Db) where
  pub serializable-ok :
      {a : A} {db' : Db} → serializable body db ≡ (ok a, db') → body db ≡ ok (a, db')
  serializable-ok {a} {db'} h = go (body db) refl
    where
      go : (r : Result (A × Db)) → body db ≡ r → body db ≡ ok (a, db')
      go (ok (b, db1)) e = ground arith
      go (err x) e = absurd (ground arith)

module _ {V A : Type 0} (between : Db → Db) (reads : Tx V) (body : V → Tx A) (db : Db) where
  pub read_committed-ok :
      {a : A} {db' : Db}
      → read_committed between reads body db ≡ (ok a, db')
      → (v : V) × (db1 : Db) × (reads db ≡ ok (v, db1)) × (body v (between db) ≡ ok (a, db'))
  read_committed-ok {a} {db'} h = go (reads db) refl
    where
      go :
          (r : Result (V × Db))
          → reads db ≡ r
          → (v : V) × (db1 : Db) × (reads db ≡ ok (v, db1)) × (body v (between db) ≡ ok (a, db'))
      go (ok (v, db1)) e = (v, db1, e, serializable-ok (body v) (between db) (ground arith))
      go (err x) e = absurd (ground arith)
