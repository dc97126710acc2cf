-- ===== src/Flashback.antt =====
-- cmd/agent/flashback.go: the row events in the output of mysqlbinlog. `Scan` reads the lines,
-- `Blocks` proves which events the lines of a list of row blocks give,
-- and `Undoable` which of them can be reversed.
pub mod Scan
pub mod Lines
pub mod Blocks
pub mod Undoable
pub mod Tool
pub mod Run
pub mod Safety
mod Examples
