-- ===== src/Applications/Tests/Permissions.antt =====
-- The theorems on permissions for an evaluator and for the team lead.
use nti_backend.Prelude.{◌≡◌, ◌↔◌, ok, none, some}
use nti_backend.Domain.{ApplicationStatus}
use nti_backend.Applications.Rules.{assert_read_access}
use nti_backend.Applications.Access.{
  ensure_program_a_tracking_access, ensure_program_a_tracking_read_access, ensure_mentorship_access,
  ensure_mentorship_read_access, validate_application_detail_access,
}
use nti_backend.Applications.Outcomes.Permissions.{write_access_reads, read_access_iff}
use nti_backend.Applications.Tests.World.{evaluator, leader, row, view}

write_access_reads_example :
    (ensure_program_a_tracking_access
          (view (row ApplicationStatus.approved (some 15) (some 20)))
          evaluator
        ≡ ok tt
      → ensure_program_a_tracking_read_access
          (view (row ApplicationStatus.approved (some 15) (some 20)))
          evaluator
        ≡ ok tt)
    × (ensure_mentorship_access
            (view (row ApplicationStatus.approved (some 15) (some 20)))
            evaluator
          ≡ ok tt
        → ensure_mentorship_read_access
            (view (row ApplicationStatus.approved (some 15) (some 20)))
            evaluator
          ≡ ok tt)
write_access_reads_example =
    let reads =
      write_access_reads (view (row ApplicationStatus.approved (some 15) (some 20))) evaluator in
    (reads.0, reads.1)

read_access_iff_example :
    (assert_read_access (view (row ApplicationStatus.draft none none)) leader ≡ ok tt) ↔ (
      validate_application_detail_access (view (row ApplicationStatus.draft none none)) leader
      ≡ ok tt)
read_access_iff_example = (read_access_iff (view (row ApplicationStatus.draft none none)) leader).0
