-- ===== src/Binlog/Entry.antt =====
-- `BinlogEntry` of include/binlog/binlog_entry.hpp and src/binlog/binlog_entry.cpp.
use gh_ost_cpp.Base.{Bytes, codes, bytes_eq, ℕ, Bool, true, false, ◌&&◌, Option, none, some, []}
use gh_ost_cpp.Strings.Search.{contains}
use gh_ost_cpp.Binlog.Coordinates.{BinlogCoordinates}
use gh_ost_cpp.Binlog.Rows.{BinlogDmlEvent}

pub data BinlogEventType : Type 0 where
  unknown_event write_rows update_rows delete_rows query rotate : BinlogEventType
  format_description : BinlogEventType

pub record BinlogEntry : Type 0 where
  pub coordinates : BinlogCoordinates
  pub event_type : BinlogEventType
  pub timestamp : ℕ
  pub event_size : ℕ
  pub server_id : ℕ
  pub dml_event : Option BinlogDmlEvent

-- a test on the row event, which fails where there is none
abbrev pub on_event : Option BinlogDmlEvent → (BinlogDmlEvent → Bool) → Bool
on_event none test = false
on_event (some e) test = test e

unfoldable pub is_for_table : BinlogEntry → Bytes → Bytes → Bool
is_for_table entry database table =
    on_event entry.dml_event (λ e. bytes_eq e.database database && bytes_eq e.table table)

unfoldable pub is_dml : BinlogEntry → Bool
is_dml entry = elim entry.event_type [
  | write_rows ↦ true
  | update_rows ↦ true
  | delete_rows ↦ true
  | _ ↦ false
]

unfoldable pub is_heartbeat : BinlogEntry → Bool
is_heartbeat entry = on_event entry.dml_event (λ e. contains e.table (codes "_gh_ost_"))

unfoldable pub database_of : BinlogEntry → Bytes
database_of entry = elim entry.dml_event [ none ↦ [] | some e ↦ e.database ]

unfoldable pub table_of : BinlogEntry → Bytes
table_of entry = elim entry.dml_event [ none ↦ [] | some e ↦ e.table ]
