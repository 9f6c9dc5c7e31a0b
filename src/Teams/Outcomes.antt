-- ===== src/Teams/Outcomes.antt =====
-- What the requests of src/team give.
pub mod Accept
pub mod Membership
pub mod Locked
pub mod Listing
pub mod Active
pub mod Personal
pub mod Queue
pub mod Issue
pub mod Invite
pub mod Resend
