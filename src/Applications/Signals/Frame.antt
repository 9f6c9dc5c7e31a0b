-- ===== src/Applications/Signals/Frame.antt =====
-- Recomputing the signals writes the table of the signals, and no other.
use nti_backend.Prelude.{ℕ, ◌≡◌, List, [], ◌∷◌, arith, ok}
use nti_backend.Store.{Db}
use nti_backend.Store.Transactions.{>>=-eq-ok}
use nti_backend.Applications.Signals.{
  Numbers, recompute_for_application, recompute_each, recompute_for_team_applications,
}

module _ (n : Numbers) where
  pub recompute_frame :
      (id : ℕ) (db db' : Db) (u : Unit {0})
      → recompute_for_application n id db ≡ ok (u, db')
      → db' ≡ record db { signals = db'.signals }
  unfolding recompute_for_application
  recompute_frame id db db' u h = ground arith

  recompute_each_frame :
      (ids : List ℕ) (db db' : Db) (u : Unit {0})
      → recompute_each n ids db ≡ ok (u, db')
      → db' ≡ record db { signals = db'.signals }
  unfolding recompute_each
  recompute_each_frame [] db db' u h = ground arith
  recompute_each_frame (id ∷ ids) db db' u h =
      let (w, db1, first, rest) =
        >>=-eq-ok (recompute_for_application n id) (λ _. recompute_each n ids) db h in
      ground (arith, recompute_frame id db db1 w first, recompute_each_frame ids db1 db' u rest)

  -- Recomputing the signals of a team's applications, where it succeeds, writes the table of
  -- signals and no other.
  pub recompute_team_frame :
      (team_id : ℕ) (db db' : Db) (u : Unit {0})
      → recompute_for_team_applications n team_id db ≡ ok (u, db')
      → db' ≡ record db { signals = db'.signals }
  unfolding recompute_for_team_applications
  recompute_team_frame team_id db db' u h = recompute_each_frame _ db db' u h
