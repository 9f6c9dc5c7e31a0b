-- ===== src/Applications.antt =====
-- src/applications.
pub mod Repository
pub mod Rules
pub mod Access
pub mod Signals
pub mod Mail
pub mod Transitions
pub mod Lifecycle
pub mod Decision
pub mod NeedsInfo
pub mod Documents
pub mod Draft
pub mod Budget
pub mod Calls
pub mod History
pub mod Runs
pub mod Outcomes
pub mod Tests
