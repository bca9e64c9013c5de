-- ===== src/Logic/Streamer.antt =====
-- The filter and the queue of `EventsStreamer` of src/logic/streamer.cpp.
pub mod Filter
pub mod Thread
use gh_ost_cpp.Base.{
  if◌then◌else◌, bytes_eq, ℕ, ◌+◌, ◌%◌, Bool, true, false, ◌&&◌, Option, none, some,
}
use gh_ost_cpp.Strings.Number.{u64_mod}
use gh_ost_cpp.Binlog.Entry.{
  BinlogEntry, BinlogEventType, rotate, query, is_dml, database_of, table_of,
}
use gh_ost_cpp.Context.{MigrationContext}
use gh_ost_cpp.Queue.{SafeQueue, Outcome, done, blocked, stopped_and_empty, push}

pub record EventsStreamer : Type 0 where
  pub event_queue : SafeQueue BinlogEntry
  pub dml_events : ℕ

abbrev is_changelog : MigrationContext → BinlogEntry → Bool
is_changelog ctx entry = bytes_eq (table_of entry) ctx.changelog_table_name

abbrev is_rotate_or_query : BinlogEventType → Bool
is_rotate_or_query rotate = true
is_rotate_or_query query = true
is_rotate_or_query _ = false

-- `none` is the null pointer
unfoldable pub process_changelog_event : MigrationContext → Option BinlogEntry → Bool
process_changelog_event ctx none = false
process_changelog_event ctx (some entry) = is_changelog ctx entry

unfoldable pub should_process_event : MigrationContext → Option BinlogEntry → Bool
should_process_event ctx none = false
should_process_event ctx (some entry) =
    if is_changelog ctx entry
    then true
    else if is_dml entry
    then bytes_eq (database_of entry) ctx.config.database_name
      && bytes_eq (table_of entry) ctx.config.table_name
    else is_rotate_or_query entry.event_type

-- `HandleDMLEvent`; `blocked` where the queue is full, and the call waits in `Push`. The entry counts
-- also where a stop of the queue has kept it out. The callback, which no code sets, is left out.
unfoldable pub handle_dml_event : BinlogEntry → EventsStreamer → Outcome {0} Unit × EventsStreamer
handle_dml_event entry s = elim entry.dml_event [
  | none ↦ (done tt, s)
  | some _ ↦ count (push s.event_queue entry)
]
  where
    count : Outcome {0} Bool × SafeQueue BinlogEntry → Outcome {0} Unit × EventsStreamer
    count (blocked, q) = (blocked, s)
    count (stopped_and_empty, q) = (stopped_and_empty, s)
    count (done b, q) =
        (done tt, record s { event_queue = q; dml_events = (s.dml_events + 1) % u64_mod })
