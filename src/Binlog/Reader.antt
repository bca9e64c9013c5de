-- ===== src/Binlog/Reader.antt =====
-- src/binlog/binlog_reader.cpp: `BinlogReader` and `GoMySQLBinlogReader`. Numbers are read as on a
-- machine that stores the low byte first.
pub mod Events
use gh_ost_cpp.Base.{
  ltb, ◌==◌, if◌then◌else◌, length, drop, Bytes, codes, ℕ, zero, suc, ◌+◌, ◌*◌, ◌%◌, Bool, true,
  false, not, ◌&&◌, ◌||◌, Option, none, some, [], ◌∷◌,
}
use gh_ost_cpp.Strings.Number.{u64_mod}
use gh_ost_cpp.Binlog.Coordinates.{BinlogCoordinates, no_coordinates, is_valid}
use gh_ost_cpp.Binlog.Rows.{BinlogDmlEvent, DmlType, insert, update, delete}
use gh_ost_cpp.Binlog.Entry.{
  BinlogEntry, BinlogEventType, unknown_event, write_rows, update_rows, delete_rows, query, rotate,
  format_description,
}

-- `connection_`: whether it is set, and what `IsConnected` and `Ping` return
pub record Link : Type 0 where
  pub is_set : Bool
  pub is_connected : Bool
  pub pings : Bool

-- `has_thread` is `reader_thread_.joinable()`.
pub record BinlogReader : Type 0 where
  pub database : Bytes
  pub table : Bytes
  pub starting_coordinates : BinlogCoordinates
  pub current_coordinates : BinlogCoordinates
  pub running : Bool
  pub stopped : Bool
  pub has_thread : Bool
  pub events_processed : ℕ
  pub dml_events_processed : ℕ
  pub last_error : Bytes
  pub current_file : Bytes
  pub current_position : ℕ
  pub slave_server_id : ℕ

-- The constructor, at a time in seconds. `current_position_` is left uninitialised.
unfoldable pub create : ℕ → ℕ → BinlogReader
create uninitialised now = record {
  database = [];
  table = [];
  starting_coordinates = no_coordinates;
  current_coordinates = no_coordinates;
  running = false;
  stopped = false;
  has_thread = false;
  events_processed = 0;
  dml_events_processed = 0;
  last_error = [];
  current_file = [];
  current_position = uninitialised;
  slave_server_id = now % 1000000000;
}

unfoldable pub base_start : Link → BinlogReader → Bool × BinlogReader
base_start link r =
    if r.running
    then (true, r)
    else if not link.is_set || not link.is_connected
    then (false, record r { last_error = codes "Not connected to replica" })
    else if not (is_valid r.starting_coordinates)
    then (false, record r { last_error = codes "Invalid starting coordinates" })
    else (
      true,
      record r {
        running = true;
        stopped = false;
        current_coordinates = r.starting_coordinates;
        has_thread = true;
      },
    )

-- `Stop` behind the join of the thread.
unfoldable pub stop : BinlogReader → BinlogReader
stop r = record r { stopped = true; running = false; has_thread = false }

unfoldable pub register_as_slave : Link → Bool
register_as_slave link = link.pings

unfoldable pub request_binlog_stream : BinlogReader → Bool × BinlogReader
request_binlog_stream r = (
  true,
  record r {
    current_file = r.starting_coordinates.file;
    current_position = r.starting_coordinates.position;
  },
)

unfoldable pub connect_as_replica : Link → BinlogReader → Bool × BinlogReader
unfolding register_as_slave request_binlog_stream
connect_as_replica link r =
    if not (register_as_slave link)
    then (false, r)
    else (let requested = request_binlog_stream r in
        if not requested.0 then (false, requested.1) else (true, requested.1))

-- `GoMySQLBinlogReader::Start`, on a connection that is set.
unfoldable pub start : Link → BinlogReader → Bool × BinlogReader
unfolding connect_as_replica base_start
start link r =
    let connected = connect_as_replica link r in
    if not connected.0 then (false, connected.1) else base_start link connected.1

-- what `ReadNextEvent` does: it returns, or throws with a message
pub data Reading : Type 0 where
  reads : Bool → Reading
  throws : Bytes → Reading

-- A round of `BinlogReader::ReadLoop`; `none` where the loop ends.
unfoldable pub read_turn : Reading → BinlogReader → Option BinlogReader
read_turn reading r =
    if r.running && not r.stopped
    then some (elim reading [
      | reads true ↦ record r { events_processed = (r.events_processed + 1) % u64_mod }
      | reads false ↦ r
      | throws what ↦ record r { last_error = what }
    ])
    else none

-- a number of so many bytes at the start of a text
unfoldable pub read_number : ℕ → Bytes → ℕ
read_number zero s = 0
read_number (suc n) [] = 0
read_number (suc n) (b ∷ s) = b + 256 * read_number n s

abbrev pub byte_at : ℕ → Bytes → ℕ
byte_at i [] = 0
byte_at zero (b ∷ s) = b
byte_at (suc i) (b ∷ s) = byte_at i s

abbrev pub new_entry : BinlogEntry
new_entry = record {
  coordinates = no_coordinates;
  event_type = unknown_event;
  timestamp = 0;
  event_size = 0;
  server_id = 0;
  dml_event = none;
}

abbrev pub new_event : DmlType → BinlogDmlEvent
new_event type = record {
  database = [];
  table = [];
  dml_type = type;
  timestamp = 0;
  table_id = 0;
  transaction_id = 0;
  rows = [];
}

unfoldable pub parse_rotate_event : Bytes → BinlogReader → BinlogEntry × BinlogReader
unfolding read_number
parse_rotate_event event_data r =
    let entry = record new_entry { event_type = rotate } in
    if ltb (19 + 8) (length event_data)
    then (let position = read_number 8 (drop 19 event_data) in
        let filename = drop (19 + 8) event_data in
        (
          record entry { coordinates = record { file = filename; position = position } },
          record r { current_file = filename; current_position = position },
        ))
    else (entry, r)

unfoldable pub parse_write_rows_event : Bytes → BinlogEntry
parse_write_rows_event event_data = record new_entry {
  event_type = write_rows;
  dml_event = some (new_event insert);
}

unfoldable pub parse_update_rows_event : Bytes → BinlogEntry
parse_update_rows_event event_data = record new_entry {
  event_type = update_rows;
  dml_event = some (new_event update);
}

unfoldable pub parse_delete_rows_event : Bytes → BinlogEntry
parse_delete_rows_event event_data = record new_entry {
  event_type = delete_rows;
  dml_event = some (new_event delete);
}

unfoldable pub event_type_of : ℕ → BinlogEventType
event_type_of code =
    if code == 2
    then query
    else if code == 4
    then rotate
    else if code == 15
    then format_description
    else if code == 19
    then write_rows
    else if code == 20
    then update_rows
    else if code == 21
    then delete_rows
    else unknown_event

-- the entry of the header alone
abbrev pub header_entry : Bytes → BinlogEntry
header_entry event_data = record new_entry {
  event_type = event_type_of (byte_at 4 event_data);
  timestamp = read_number 4 event_data;
  server_id = read_number 4 (drop 5 event_data);
}

unfoldable pub parse_event : Bytes → BinlogReader → BinlogEntry × BinlogReader
unfolding parse_rotate_event parse_write_rows_event parse_update_rows_event parse_delete_rows_event
parse_event event_data r =
    if ltb (length event_data) 19
    then (new_entry, r)
    else elim (event_type_of (byte_at 4 event_data)) [
      | rotate ↦ parse_rotate_event event_data r
      | write_rows ↦ (parse_write_rows_event event_data, r)
      | update_rows ↦ (parse_update_rows_event event_data, r)
      | delete_rows ↦ (parse_delete_rows_event event_data, r)
      | _ ↦ (header_entry event_data, r)
    ]
