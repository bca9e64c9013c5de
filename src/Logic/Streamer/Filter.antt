-- ===== src/Logic/Streamer/Filter.antt =====
-- What the filter lets through.
use gh_ost_cpp.Base.{
  Bytes, bytes_eq, ◌≡◌, refl, ◌≢◌, true, ◌&&◌, ◌||◌, Option, none, some, [], arith,
}
use gh_ost_cpp.Binlog.Entry.{BinlogEntry, on_event, is_dml, is_for_table, database_of, table_of}
use gh_ost_cpp.Binlog.Rows.{BinlogDmlEvent}
use gh_ost_cpp.Context.{MigrationContext}
use gh_ost_cpp.Logic.Migrator.Events.{is_relevant}
use gh_ost_cpp.Logic.Streamer.{process_changelog_event, should_process_event}

-- An entry of a change is for the table under migration just where its database and table are.
is_for_table_lem :
    (entry : BinlogEntry) (database table : Bytes)
    → entry.dml_event ≢ none
    → is_for_table entry database table
      ≡ (bytes_eq (database_of entry) database && bytes_eq (table_of entry) table)
unfolding is_for_table database_of table_of
is_for_table_lem entry database table e = by_event entry.dml_event e
  where
    by_event :
        (event : Option BinlogDmlEvent)
        → event ≢ none
        → on_event event (λ e. bytes_eq e.database database && bytes_eq e.table table) ≡ (
            bytes_eq (elim event [ none ↦ [] | some e ↦ e.database ]) database
            && bytes_eq (elim event [ none ↦ [] | some e ↦ e.table ]) table)
    by_event none e = absurd (e refl)
    by_event (some event) e = refl

-- Of the entries that carry row changes, the filter lets through just those that the events thread
-- applies, which are the changes of the table under migration, and those of the changelog table.
pub should_process_event_iff :
    (ctx : MigrationContext) (entry : BinlogEntry)
    → is_dml entry ≡ true
    → entry.dml_event ≢ none
    → should_process_event ctx (some entry)
      ≡ (process_changelog_event ctx (some entry) || is_relevant ctx entry)
unfolding should_process_event process_changelog_event
should_process_event_iff ctx entry d e =
    rw (is_for_table_lem entry ctx.config.database_name ctx.config.table_name e, d) (ground arith)
