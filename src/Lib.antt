-- ===== src/Lib.antt =====
-- internal and cmd: a MySQL point-in-time recovery tool. The agent reads binlog files, turns row
-- events into reverse SQL and applies it in batches; the server drives agents and tracks operations.
--
-- Parts and files:
--
--   Base: byte strings, lists and results that the parts share.
--   Rollback (internal/rollback): `buildBatches` and `estimateBytes` are Rollback.Batches;
--     `Execute`, `executeWithRetry` and `executeBatch` are Rollback.Executor, over a server given by
--     the parameter `Driver`; the checks before a rollback are Rollback.Preflight; Rollback.Retry and
--     Rollback.Commits prove what is committed.
--   Wire (internal/parser/event.go): the event header, integers, length-encoded values, bitmaps.
--   TableMap (internal/parser/table_map.go): `ParseTableMap`, `parseColumnMetadata`, the registry;
--     TableMap.Columns describes the columns and their metadata.
--   Rows (internal/parser/rows_event.go): `readColumnValue` and its readers are Rows.Cell,
--     Rows.Temporal, Rows.Decimal and Rows.Column, the rows events are Rows.Event; Rows.Progress,
--     Rows.Advance, Rows.Loop and Rows.Ends prove when the loop over the rows ends.
--   Parser (internal/parser/reader.go, internal/parser/parser.go): `ReadEvent` is Parser.Reader, DDL
--     recognition is Parser.Ddl, `dispatch` and its handlers are Parser.Dispatch, `Parse` and
--     `ParseFiles` are Parser.Files. The parser reads events with the reader, keeps table maps in
--     the registry, reads rows with them, and gives row events.
--   Flashback (cmd/agent/flashback.go): the loop over the output of mysqlbinlog, `makeRowEvent` and
--     `parseColumnValue`; a second source of row events, which the flashback command uses.
--     Flashback.Run is `RunFlashback`, Flashback.Tool its call of mysqlbinlog, and Flashback.Safety
--     says when a run changes the database.
--   Connector (internal/connector): the order of tables by foreign keys is Connector.Tables (fk.go);
--     `ExecuteRollback`, `ParseBinlog` and `formatBytes` are Connector.Mysql, `Preflight` and its
--     checks are Connector.Preflight (mysql.go), over the answers of the server.
--   Checkpoint (internal/checkpoint): the operations of the manager on a directory of files whose
--     writes can fail; Checkpoint.Path is the cleaning of their paths, Checkpoint.Life follows one
--     recovery, Checkpoint.Listing the listing.
--   Ws (internal/ws): Ws.Hub is the server's end of the connections (hub/hub.go), with the goroutines
--     of its readers and of the calls of `SendToAgent` as steps; Ws.Agent is the agent's end
--     (agent/client.go, dispatcher.go, renewal.go), and Ws.Agent.Exchange joins the two.
--   Serve (cmd/agent/serve.go): the handlers of the agent daemon. Serve.Parse turns the events of
--     mysqlbinlog into reverse SQL and a preview, Serve.Execute runs statements by Rollback with
--     checkpoints of Checkpoint, and Serve.Daemon is a sequence of commands, as Ws.Agent reads it.
--   Server (internal/server): the requests of users. Server.Orgs is the store and the handlers of
--     organisations (org), with the interleavings of their calls in Server.Orgs.Steps; Server.Agents
--     (agent, server.go), Server.Operations and Server.Requests (pitr) and Server.Audit (audit) are
--     the other stores and handlers; Server.Platform joins them on one state, and Server.Access and
--     Server.Approval say whom they let through. Server.Requests launches the work that Pitr follows.
--   Pitr (internal/server/pitr): the states of a recovery operation, the requests and the answers of
--     the agent that change them, as steps of its background functions; Pitr.Reach proves what every
--     run keeps, Pitr.Terminal what can follow a terminal state.
--   Value (internal/parser/sql.go, internal/connector/types.go): column values, row events, and
--     `FormatColumnValue`; Value.Literal reads SQL string literals as a server does.
--   Reverse (internal/parser/reverse.go): `ReverseSQL` and `ReverseSQLBatch`; Reverse.Statement gives
--     the statements a meaning on tables, Reverse.Render ties the text to it, Reverse.Change
--     undoes one event, and Reverse.Undo proves that a batch undoes its events. Its statements are
--     what Rollback executes.
--
-- A Go `int` that can leave the range of a buffer is its 64-bit pattern. A slice or index out of
-- range is the result `panic`. Loops that are not structural run on fuel, and `stuck` says that it
-- ran out: `Parse` has one round for each byte of the file, `executeWithRetry` one for each statement
-- of the batch, the loop over rows one for each byte of the payload, the sort of the tables one for
-- each table, the loop of `formatBytes` 64, and the cut of `ExecuteRollback` one for each statement.
--
-- Not modelled: calls of the MySQL driver and the program mysqlbinlog (parameters), the start of
-- the processes and their command lines, certificates and the certificate authority, accounts
-- and their tokens (who asks is a parameter), the routes of the server, the configuration, the
-- web console, and formatting by %g, a parameter. Rows of a table are compared by their values,
-- so that a float that does not survive its decimal text is outside of what Reverse.Undo says.
pub mod Base
pub mod Checkpoint
pub mod Connector
pub mod Flashback
pub mod Parser
pub mod Pitr
pub mod Reverse
pub mod Rollback
pub mod Rows
pub mod Serve
pub mod Server
pub mod TableMap
pub mod Value
pub mod Wire
pub mod Ws
