-- ===== src/Teams.antt =====
-- src/team.
pub mod Repository
pub mod Invitations
pub mod Tokens
pub mod Issue
pub mod Mail
pub mod Resend
pub mod Accept
pub mod Membership
pub mod Lifecycle
pub mod Roster
pub mod Outcomes
pub mod Runs
pub mod Tests
