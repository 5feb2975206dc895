-- ===== src/Session.antt =====
-- internal/session: the session's states, its records, its service and its pull requests.
pub mod Status
pub mod Model
pub mod World
pub mod Rfc3339
pub mod Sqlite
pub mod Service
pub mod Creating
pub mod Loading
pub mod Listing
pub mod Operations
pub mod PrPlan
pub mod PrService
pub mod Trace
pub mod Samples
mod Tests
