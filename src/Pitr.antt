-- ===== src/Pitr.antt =====
-- internal/server/pitr: the states of a recovery operation, and the requests and the background work
-- that change them. `State` is the table of transitions, `Operation` the steps, `Reach` what they lead to.
pub mod State
pub mod Operation
pub mod Reach
pub mod Terminal
mod Examples
