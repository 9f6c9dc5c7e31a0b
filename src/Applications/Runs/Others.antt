-- ===== src/Applications/Runs/Others.antt =====
-- The rest of the program keeps the state of the applications valid.
use nti_backend.Prelude.{
  ℕ, ◌≡◌, ◌≤◌, ◌<◌, refl, sym, ap, ◌∙◌, none, some, List, [], ◌∷◌, All, arith,
}
use nti_backend.Domain.{ApplicationStatus, application_status_eq}
use nti_backend.Store.{Db, Application, ApplicationStatusEvent}
use nti_backend.Store.Tables.{find_by_id, IsKeyed}
use nti_backend.Applications.Runs.{SameLifecycle, Elsewhere}
use nti_backend.Applications.History.{IsValid, IsDated, status_of, replay}

same-status :
    (k : ℕ) (rows bs : List Application) → SameLifecycle rows bs → status_of k bs ≡ status_of k rows
unfolding status_of find_by_id
same-status k [] [] s = refl
same-status k [] (b ∷ bs) s = absurd s
same-status k (a ∷ rows) [] s = absurd s
same-status k (a ∷ rows) (b ∷ bs) s = ground (arith, same-status k rows bs)

same-absent :
    (k : ℕ) (rows bs : List Application)
    → SameLifecycle rows bs
    → find_by_id (λ a. a.id) k rows ≡ none
    → find_by_id (λ a. a.id) k bs ≡ none
unfolding find_by_id
same-absent k [] [] s h = refl
same-absent k [] (b ∷ bs) s h = absurd s
same-absent k (a ∷ rows) [] s h = absurd s
same-absent k (a ∷ rows) (b ∷ bs) s h = ground (arith, same-absent k rows bs)

same-IsKeyed :
    (rows bs : List Application)
    → SameLifecycle rows bs
    → IsKeyed (λ a. a.id) rows
    → IsKeyed (λ a. a.id) bs
same-IsKeyed [] [] s h = tt
same-IsKeyed [] (b ∷ bs) s h = absurd s
same-IsKeyed (a ∷ rows) [] s h = absurd s
same-IsKeyed (a ∷ rows) (b ∷ bs) s h =
    (rw (s.0) (same-absent a.id rows bs (s.4) (h.0)), same-IsKeyed rows bs (s.4) (h.1))

same-used :
    (n m : ℕ) (rows bs : List Application)
    → n ≤ m
    → SameLifecycle rows bs
    → All (λ a. a.id < n) rows
    → All (λ a. a.id < m) bs
same-used n m [] [] le s h = tt
same-used n m [] (b ∷ bs) le s h = absurd s
same-used n m (a ∷ rows) [] le s h = absurd s
same-used n m (a ∷ rows) (b ∷ bs) le s h =
    (omega (arith, s.0, h.0), same-used n m rows bs le (s.4) (h.1))

same-IsDated :
    (rows bs : List Application) → SameLifecycle rows bs → All IsDated rows → All IsDated bs
same-IsDated [] [] s h = tt
same-IsDated [] (b ∷ bs) s h = absurd s
same-IsDated (a ∷ rows) [] s h = absurd s
same-IsDated (a ∷ rows) (b ∷ bs) s h = (
  record { decided = rw (s.1, s.3) h.0.decided; submitted = rw (s.1, s.2) h.0.submitted },
  same-IsDated rows bs (s.4) (h.1),
)

pub Elsewhere-IsValid :
    {past : List ApplicationStatusEvent} {db db' : Db}
    → Elsewhere db db'
    → IsValid past db
    → IsValid past db'
Elsewhere-IsValid {past} {db} {db'} other v =
    let same = other.lifecycle_kept in
    record {
      keyed = same-IsKeyed db.applications db'.applications same v.keyed;
      used =
          same-used db.next_id db'.next_id db.applications db'.applications other.ids_grow same
            v.used;
      dated = same-IsDated db.applications db'.applications same v.dated;
      since = rw (other.events_kept) v.since;
      history = λ id.
          ap (replay id ApplicationStatus.draft) (other.events_kept)
          ∙ v.history id
          ∙ ap some (sym (same-status id db.applications db'.applications same));
    }
