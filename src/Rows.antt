-- ===== src/Rows.antt =====
-- internal/parser/rows_event.go: WRITE_ROWS, DELETE_ROWS and UPDATE_ROWS events. `Cell` reads the
-- column types other than dates and decimals, which `Temporal` and `Decimal` read; `Column` chooses
-- between them, `Event` reads the rows. `Progress` and `Advance` prove
-- that a column reader does not move back, `Loop` and `Ends` when the loop over the rows ends.
pub mod Cell
pub mod Temporal
pub mod Decimal
pub mod Column
pub mod Event
pub mod Progress
pub mod Advance
pub mod Loop
pub mod Ends
mod Examples
