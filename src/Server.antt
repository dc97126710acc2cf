-- ===== src/Server.antt =====
-- internal/server: the stores of the platform and the handlers of its requests. `Orgs` has the
-- organisations and their members; `Agents`, `Audit` and `Operations` have the handlers that ask for
-- membership, `Platform` joins them, and `Access` proves what they let through.
pub mod Shared
pub mod Guard
pub mod Orgs
pub mod Agents
pub mod Audit
pub mod Operations
pub mod Requests
pub mod Platform
pub mod Checks
pub mod Answered
pub mod Access
pub mod Approval
mod Examples
