-- ===== src/Applications/History/Changes.antt =====
-- A conditional update with its status event keeps the state of the applications valid.
use nti_backend.Prelude.{
  ℕ, ◌≡◌, refl, Bool, true, ◌&&◌, some, List, [], ◌∷◌, ◌++◌, nat_beq, arith, inl, inr, Option-cases,
  ◌<◌, nat_eq, ◌≢◌,
}
use mathlib.Core.List.{append_assoc}
use native.Mathlib.Decide.{ℕ_discrete}
use nti_backend.Domain.{ApplicationStatus, application_status_eq}
use nti_backend.Store.{Application, ApplicationStatusEvent}
use nti_backend.Store.Tables.{
  find_by_id, find_by_id-key, update_where, count_where, find_by_id-update_where,
  update_where-IsKeyed, find_of_count, All-update_where,
}
use nti_backend.Applications.History.{Valid, IsDated, edge, replay, replay-append, status_of}

-- The update of the row `id` under a test `q`, as every status change makes it.
module _ (id : ℕ) (from to : ApplicationStatus) (q : Application → Bool)
    (f : Application → Application) (keeps : (a : Application) → (f a).id ≡ a.id)
    (moves : (a : Application) → (f a).status ≡ to)
    (tests : (a : Application) → q a ≡ true → a.status ≡ from)
    (dates : (a : Application) → q a ≡ true → IsDated a → IsDated (f a)) where
  abbrev at_id : Application → Bool
  at_id a = nat_beq a.id id && q a

  status_of-update_self :
      (rows : List Application) {a : Application}
      → find_by_id (λ a. a.id) id rows ≡ some a
      → a.id ≡ id
      → q a ≡ true
      → status_of id (update_where at_id f rows) ≡ to
  unfolding status_of
  status_of-update_self rows {a} found here met =
      rw (find_by_id-update_where (λ a. a.id) at_id f keeps id rows, found)
        (ground (arith, moves a))

  status_of-update_other :
      (k : ℕ) (rows : List Application)
      → k ≢ id
      → status_of k (update_where at_id f rows) ≡ status_of k rows
  unfolding status_of
  status_of-update_other k rows ne = elim (Option-cases (find_by_id (λ a. a.id) k rows)) [
    | inl missing ↦ rw (find_by_id-update_where (λ a. a.id) at_id f keeps k rows, missing) refl
    | inr (a, found) ↦
        rw (find_by_id-update_where (λ a. a.id) at_id f keeps k rows, found)
          (ground (arith, find_by_id-key (λ a. a.id) k rows found))
  ]

  -- The changed application's history goes one step on.
  replay_self :
      {past : List ApplicationStatusEvent} (rows : List Application)
      (events : List ApplicationStatusEvent) {next : ℕ} (e : ApplicationStatusEvent)
      → e.application_id ≡ id
      → e.from_status ≡ from
      → e.to_status ≡ to
      → edge from to ≡ true
      → count_where at_id rows ≡ 1
      → Valid past rows events next
      → replay id ApplicationStatus.draft (events ++ e ∷ [])
        ≡ some (status_of id (update_where at_id f rows))
  replay_self rows events e at leaves reaches step one v =
      let (a, found, met) = find_of_count (λ a. a.id) id q rows v.keyed one in
      let here : a.id ≡ id = find_by_id-key (λ a. a.id) id rows found in
      let was : status_of id rows ≡ from = unfold status_of in rw found (tests a met) in
      rw
        (
          replay-append id ApplicationStatus.draft events e (v.history id),
          status_of-update_self rows found here met,
          was,
        )
        (ground arith)

  -- Every other history is as it was.
  replay_other :
      {past : List ApplicationStatusEvent} (k : ℕ) (rows : List Application)
      (events : List ApplicationStatusEvent) {next : ℕ} (e : ApplicationStatusEvent)
      → e.application_id ≡ id
      → k ≢ id
      → Valid past rows events next
      → replay k ApplicationStatus.draft (events ++ e ∷ [])
        ≡ some (status_of k (update_where at_id f rows))
  replay_other k rows events e at ne v =
      rw
        (
          replay-append k ApplicationStatus.draft events e (v.history k),
          status_of-update_other k rows ne,
        )
        (ground arith)

  pub change-Valid :
      {past : List ApplicationStatusEvent} (rows : List Application)
      (events : List ApplicationStatusEvent) (next : ℕ) (e : ApplicationStatusEvent)
      → e.application_id ≡ id
      → e.from_status ≡ from
      → e.to_status ≡ to
      → edge from to ≡ true
      → count_where at_id rows ≡ 1
      → Valid past rows events next
      → Valid past (update_where at_id f rows) (events ++ e ∷ []) next
  change-Valid {past} rows events next e at leaves reaches step one v = record {
    keyed = update_where-IsKeyed (λ a. a.id) at_id f keeps rows v.keyed;
    used = All-update_where (λ a. a.id < next) at_id f (λ a _ h. rw (keeps a) h) rows v.used;
    dated = All-update_where IsDated at_id f (λ a met d. dates a (ground arith) d) rows v.dated;
    since = (v.since.0 ++ e ∷ [], rw (v.since.1) (append_assoc past v.since.0 (e ∷ [])));
    history = λ k. elim (ℕ_discrete k id) [
      | yes same ↦ rw same (replay_self rows events e at leaves reaches step one v)
      | no other ↦ replay_other k rows events e at other v
    ];
  }
