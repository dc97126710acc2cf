-- ===== src/Rollback.antt =====
-- internal/rollback: batched execution of reverse SQL. `Batches` cuts the statements into batches,
-- `Executor` runs them, `Retry` and `Commits` prove what a run has committed.
pub mod Batches
pub mod Executor
pub mod Retry
pub mod Commits
pub mod Preflight
mod Examples
