-- ===== src/Serve.antt =====
-- cmd/agent/serve.go: the handlers of the agent daemon. The host (its MySQL server, files, clock and
-- the program mysqlbinlog) is a record of parameters. `Client` runs each handler to its end before
-- the next message is read, so a handler is a function of the daemon's state.
pub mod Params
pub mod Execute
pub mod Marked
pub mod Parse
pub mod Daemon
mod Examples
