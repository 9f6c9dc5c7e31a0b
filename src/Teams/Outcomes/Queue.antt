-- ===== src/Teams/Outcomes/Queue.antt =====
-- What the e-mail jobs of new invitations leave.
use nti_backend.Prelude.{
  ℕ, ◌≡◌, refl, ◌∙◌, ◌⊎◌, inl, inr, Bool, true, false, not, List, [], ◌∷◌, map, nat_eq, arith,
  filter, all, includes, if◌then◌else◌, Bool-cases, All, ok, err, internal,
}
use nti_backend.Store.{Db, Team, Invitation}
use nti_backend.Store.Tables.{find_by_id-update_where, map_option}
use nti_backend.Teams.Invitations.{find_invitation, revoke_all, set_revoked}
use nti_backend.Teams.Mail.{InvitationEmail, Response}
use nti_backend.Teams.Lifecycle.{
  enqueue_in_order, enqueue_invitation_emails_or_revoke, invitation_email,
}

enqueue_in_order-all :
    (accepts : InvitationEmail → Bool) (emails : List InvitationEmail)
    → ((enqueue_in_order accepts emails).1 ≡ all accepts emails)
      × (all accepts emails ≡ true → (enqueue_in_order accepts emails).0 ≡ emails)
unfolding enqueue_in_order
enqueue_in_order-all accepts [] = (refl, λ _. refl)
enqueue_in_order-all accepts (email ∷ emails) = ground (arith, enqueue_in_order-all accepts emails)

-- The row of an invitation after a request revoked its invitations.
abbrev pub after_revoking : List ℕ → ℕ → Invitation → Invitation
after_revoking ids now i = if includes ids i.id then set_revoked now i else i

pub find-revoke_all :
    (ids : List ℕ) (now id : ℕ) (db : Db)
    → find_invitation id (revoke_all ids now db)
      ≡ map_option (after_revoking ids now) (find_invitation id db)
unfolding find_invitation revoke_all
find-revoke_all ids now id db =
    find_by_id-update_where (λ i. i.id) (λ i. includes ids i.id) (set_revoked now) (λ i. refl) id
      db.invitations

kept_jobs :
    (removes : InvitationEmail → Bool) (jobs : List InvitationEmail)
    → All (λ e. removes e ≡ false) (filter (λ e. not (removes e)) jobs)
kept_jobs removes [] = tt
kept_jobs removes (e ∷ jobs) = elim (Bool-cases (removes e)) [
  | inl gone ↦ rw gone (kept_jobs removes jobs)
  | inr stays ↦ rw stays (stays, kept_jobs removes jobs)
]

-- All jobs are queued and nothing is written; or one is refused, and the invitations of the request
-- are revoked.
abbrev pub IsQueuedOrRevoked :
    {A : Type 0}
    → (InvitationEmail → Bool)
    → (InvitationEmail → Bool)
    → Team
    → List Invitation
    → ℕ
    → A
    → Db
    → Response A
    → Type 0
IsQueuedOrRevoked accepts removes team is now answer db r =
    ((all accepts (map (invitation_email team) is) ≡ true)
      × (r.result ≡ ok answer)
      × (r.db ≡ db)
      × (r.mail ≡ map (invitation_email team) is))
    ⊎ ((all accepts (map (invitation_email team) is) ≡ false)
        × (r.result ≡ err (internal "Failed to enqueue invitation emails"))
        × ((id : ℕ)
            → find_invitation id r.db
              ≡ map_option (after_revoking (map (λ i. i.id) is) now) (find_invitation id db))
        × All (λ e. removes e ≡ false) r.mail)

-- If the queue takes every job of new invitations, the request succeeds, nothing more is written
-- and all jobs stay queued. If it refuses one, the request fails with FAILED_TO_ENQUEUE, each of
-- its invitations is revoked, every other invitation is as it was, and the jobs that stay are ones
-- that the queue could not remove.
pub enqueue_or_revoke_lem :
    {A : Type 0} (accepts removes : InvitationEmail → Bool) (team : Team) (is : List Invitation)
    (now : ℕ) (answer : A) (db : Db)
    → IsQueuedOrRevoked accepts removes team is now answer db
        (enqueue_invitation_emails_or_revoke accepts removes team is now answer db)
unfolding enqueue_invitation_emails_or_revoke
enqueue_or_revoke_lem accepts removes team is now answer db =
    let emails = map (invitation_email team) is in
    let (done, queued) = enqueue_in_order-all accepts emails in
    elim (Bool-cases (all accepts emails)) [
      | inl taken ↦
          let ok_all : (enqueue_in_order accepts emails).1 ≡ true = done ∙ taken in
          let jobs = queued taken in inl (taken, ground arith, ground arith, ground arith)
      | inr refused ↦
          let stopped : (enqueue_in_order accepts emails).1 ≡ false = done ∙ refused in
          inr (
            refused,
            ground arith,
            rw (enqueue_invitation_emails_or_revoke, stopped)
                (λ id. find-revoke_all (map (λ i. i.id) is) now id db),
            rw (enqueue_invitation_emails_or_revoke, stopped)
                (kept_jobs removes (enqueue_in_order accepts emails).0),
          )
    ]
