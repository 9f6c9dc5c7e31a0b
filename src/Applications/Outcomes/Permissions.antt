-- ===== src/Applications/Outcomes/Permissions.antt =====
-- How the access checks of the services relate to one another.
use nti_backend.Prelude.{◌≡◌, ◌↔◌, ok, arith}
use nti_backend.Domain.Roles.{AuthenticatedUserContext}
use nti_backend.Applications.Repository.{WorkflowView}
use nti_backend.Applications.Rules.{assert_read_access, assert_write_access, assert_admin_access}
use nti_backend.Applications.Access.{
  ensure_program_a_tracking_access, ensure_program_a_tracking_read_access, ensure_mentorship_access,
  ensure_mentorship_read_access, validate_application_access, validate_application_detail_access,
  validate_needs_info_thread_access, validate_eligibility_signals_access,
  ensure_application_is_draft,
}
use nti_backend.Applications.Rules.{assert_application_is_draft}

-- Whoever may write may read: managing the tracking or the mentorship notes of an application
-- allows reading them and the application, and so does editing its sections as team lead or as
-- administrator.
pub write_access_reads :
    (v : WorkflowView) (user : AuthenticatedUserContext)
    → (ensure_program_a_tracking_access v user ≡ ok tt
        → ensure_program_a_tracking_read_access v user ≡ ok tt)
      × (ensure_mentorship_access v user ≡ ok tt → ensure_mentorship_read_access v user ≡ ok tt)
      × (ensure_program_a_tracking_read_access v user ≡ ok tt
          → validate_application_detail_access v user ≡ ok tt)
      × (ensure_mentorship_read_access v user ≡ ok tt
          → validate_application_detail_access v user ≡ ok tt)
      × (assert_write_access v user ≡ ok tt → assert_read_access v user ≡ ok tt)
      × (assert_admin_access user ≡ ok tt → assert_read_access v user ≡ ok tt)
unfolding ensure_program_a_tracking_access ensure_program_a_tracking_read_access
    ensure_mentorship_access ensure_mentorship_read_access validate_application_detail_access
    assert_read_access assert_write_access assert_admin_access
write_access_reads v user = (
  λ h. ground arith,
  λ h. ground arith,
  λ h. ground arith,
  λ h. ground arith,
  λ h. ground arith,
  λ h. ground arith,
)

-- The two services that check the reading of an application agree, on its details and on whether it
-- is a draft; the thread and the signals are open to the same users as its document completeness,
-- who may all read the details.
pub read_access_iff :
    (v : WorkflowView) (user : AuthenticatedUserContext)
    → ((assert_read_access v user ≡ ok tt) ↔ (validate_application_detail_access v user ≡ ok tt))
      × ((validate_needs_info_thread_access v user ≡ ok tt)
          ↔ (validate_application_access v user ≡ ok tt))
      × ((validate_eligibility_signals_access v user ≡ ok tt)
          ↔ (validate_application_access v user ≡ ok tt))
      × (validate_application_access v user ≡ ok tt
          → validate_application_detail_access v user ≡ ok tt)
      × ((assert_application_is_draft v.status ≡ ok tt) ↔ (ensure_application_is_draft v ≡ ok tt))
unfolding assert_read_access validate_application_detail_access validate_needs_info_thread_access
    validate_application_access validate_eligibility_signals_access assert_application_is_draft
    ensure_application_is_draft
read_access_iff v user = (
  (λ h. ground arith, λ h. ground arith),
  (λ h. ground arith, λ h. ground arith),
  (λ h. ground arith, λ h. ground arith),
  λ h. ground arith,
  (λ h. ground arith, λ h. ground arith),
)
