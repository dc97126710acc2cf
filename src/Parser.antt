-- ===== src/Parser.antt =====
-- internal/parser/reader.go and internal/parser/parser.go: the event stream of a binlog file, and what
-- the parser makes of each event. `Reader` cuts the file into events, `Ddl` recognises statements in
-- QUERY events, `Dispatch` handles one event, `Files` runs over the events of several files.
pub mod Reader
pub mod Ddl
pub mod Dispatch
pub mod Files
pub mod Window
pub mod Filter
pub mod Images
mod Examples
