-- ===== src/Applications/Tests.antt =====
-- The theorems on the applications at concrete databases.
pub mod World
pub mod Histories
pub mod Runs
pub mod Outcomes
pub mod Reviews
pub mod Permissions
pub mod Submissions
pub mod Calls
pub mod Threads
