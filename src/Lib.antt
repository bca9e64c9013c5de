-- ===== src/Lib.antt =====
-- gh-ost-cpp changes the structure of a MySQL table while the table stays in use. It makes a ghost
-- table with the new structure, copies the rows of the original into it, applies to it the changes
-- that the binary log reports meanwhile, and in the end swaps the two tables by a rename under a
-- lock.
--
-- Parts, and the files that model them. Paths are from the repository's root.
--   * Base: names that all files share, Boolean tests and lists over native numbers, texts as lists
--    of bytes.
--   * Strings: src/utils/string_utils.cpp. Strings.Trim, Strings.Split, Strings.Number
--    (`ParseUInt64` and its narrow forms, `ToString`), Strings.Signed (`ParseInt64`, `ParseInt32`),
--    Strings.Chars, Strings.Quote (`EscapeForSQL`, `QuoteForSQL`, `QuoteIdentifier`, beside the
--    rules by which MySQL reads literals and identifiers), Strings.Search, Strings.Edit (splitting
--    and replacing at a string, padding), Strings.Hex, Strings.Json, Strings.Wildcard
--    (`MatchesWildcard`), Strings.Comments (`RemoveSQLComments`), Strings.Pattern (what the parser
--    uses of `std::regex`).
--   * Binlog: src/binlog. Binlog.Coordinates (`BinlogCoordinates`), Binlog.Gtid (`GTIDCoordinates`,
--    `GTIDSet`), Binlog.Rows (`BinlogRowData`, `BinlogDMLEvent`), Binlog.Entry (`BinlogEntry`).
--   * Queue: include/utils/safe_queue.hpp, `SafeQueue`. Each method is one step, and a call that
--    waits is a value; `run` takes calls in the order in which threads take the mutex.
--   * Mysql: Mysql.InstanceKey (src/mysql/instance_key.cpp), Mysql.Structure (`ColumnInfo`,
--    `KeyInfo`, `TableStructure` of src/mysql/connection.cpp), Mysql.Server (the server behind
--    `Connection`, a parameter: what it answers depends on the requests that it has received),
--    Mysql.Version, Mysql.Statements and Mysql.Utils (src/mysql/utils.cpp), Mysql.Connection
--    (`Connection` itself, over the connector).
--   * Time: the timers and the formats of durations of src/utils/time_utils.cpp; what is computed
--    from a floating point duration is a parameter.
--   * Sql: Sql.Types (src/sql/types.cpp), Sql.Builder (src/sql/builder.cpp, one function per
--    statement; Sql.GhostTable and Sql.Pairs have its longest functions, and Sql.Builder.Swap is
--    what the statement of the cut-over does by the rules of RENAME TABLE).
--   * Sql.Encoding: src/sql/encoding.cpp.
--   * Sql.Column, Sql.Operation, Sql.Parser (`AlterTableParser`) and Sql.Query (`SQLParser`):
--    src/sql/parser.cpp. What the constructors of an operation and of a column leave uninitialised
--    is a parameter.
--   * Context: Context.Config (include/gh_ost/config.hpp), Context
--    (src/context/migration_context.cpp).
--   * Throttle: src/throttle/throttler.cpp, with `RunThrottleCheck`, `Throttle` and `Unthrottle` of
--    src/logic/migrator.cpp. What the servers answer in a round of checks is a record, `Readings`.
--   * Logic.Applier: src/logic/applier.cpp. The state holds the context that applier and migrator
--    share, and the requests sent so far.
--   * Logic.Migrator: src/logic/migrator.cpp. The flags, the local state of the threads, and
--    `take_turn`, a turn of one thread or a call from outside; `run_turns` is a schedule of turns.
--    `RunRowCopy` is cut at the tests of its loop, so that other threads run between the test, the
--    wait for the throttle and the copy; a chunk, a round of another thread, and the statements of
--    the cut-over are each one step.
--   * Logic.Streamer: src/logic/streamer.cpp, the filter of events and `HandleDMLEvent`;
--    Logic.Streamer.Thread has the thread and the wait for coordinates as steps.
--   * Logic.Checkpoint: src/logic/checkpoint.cpp.
--   * Logic.Inspector: src/logic/inspector.cpp. The order in which `std::unordered_map` hands out
--    its entries is a parameter.
--   * Logic.Run: `Initialize` and the phases of `Run` in src/logic/migrator.cpp, up to the start of
--    the row copy; a phase is a chain of steps of which each may fail.
--   * Logic.Ending: the rest of `Run`, as steps of its thread among the turns of the others:
--    `run_moves` runs an interleaving.
--   * Commands: src/server/interactive_commands.cpp, the command lines; the text of the percentage,
--    a floating point number, is a parameter.
--   * StatusServer: src/server/server.cpp, with Commands behind it; sockets and the text of JSON
--    objects are parameters, and a text that cannot be made ends the program.
--   * CommandLine: src/main.cpp. What the library cxxopts reads from the arguments is a parameter,
--    and so are its texts; the result is the exit code and the lines written.
--   * Hooks: src/hooks/hooks_executor.cpp. Files, processes and the clock are parameters: a process
--    is whether `fork` works, the readings of the clock, and what `waitpid` finds at each.
--   * Binlog.Reader: src/binlog/binlog_reader.cpp, on a machine that stores the low byte first.
--   * Pool: src/utils/thread_pool.cpp and include/utils/thread_pool.hpp, as steps of callers and
--    workers.
--   * Tests: a migration of a small table, and the properties on it.
--
-- Numbers are natural numbers; those of 64 bits wrap by `% u64_mod` where the code adds, doubles or
-- subtracts. Texts are lists of bytes, and a literal of the source is `codes "..."`. Recursion is
-- structural, or on fuel: the printing of numbers has one more than the number, and so more than
-- its digits; the reading of the values of an INSERT has the number of values; the loops of
-- Strings.Edit, Strings.Json and Sql.Encoding have the length of the text, of which each round
-- takes a byte or more; the loop of a wildcard has a round for each pair of places; the wait for a
-- hook has one round more than its timeout has milliseconds.
--
-- Not modelled: the network, sockets, files, logging, the calendar and floating point estimates;
-- nor the calls of hooks in the migrator, which find an empty table and do nothing
-- (Hooks.Variables). The applier is modelled on a connection that has been set; the constructor
-- sets none. `columns[0]` of a key without columns is undefined in C++ and is the empty name here.
pub mod Base
pub mod StatusServer
pub mod Strings
pub mod Binlog
pub mod Hooks
pub mod Pool
pub mod Queue
pub mod Mysql
pub mod Sql
pub mod Context
pub mod Throttle
pub mod Time
pub mod Logic
pub mod CommandLine
pub mod Commands
mod Tests
