-- ===== src/Applications/Outcomes.antt =====
-- What each request of src/applications gives: who may make it, what it leaves, how it fails.
pub mod Transactions
pub mod Transitions
pub mod Success
pub mod Decisions
pub mod Requests
pub mod Evaluations
pub mod Submission
pub mod Thread
pub mod Permissions
pub mod Slots
pub mod Pack
pub mod Completeness
