-- ===== src/Worker.antt =====
-- internal/worker: the pool that works on queued sessions, the sweeper of stuck ones, and the
-- executor of a session.
pub mod Pool
pub mod Sweeper
pub mod Executor
pub mod Trace
mod Tests
