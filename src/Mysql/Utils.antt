-- ===== src/Mysql/Utils.antt =====
-- What src/mysql/utils.cpp, `MySQLUtils`, asks the server, and what `Connection` of
-- src/mysql/connection.cpp asks it with the same requests.
use gh_ost_cpp.Base.{
  ltb, get_elem?, Bytes, codes, bytes_eq, ℕ, Bool, true, false, not, ◌&&◌, Option, none, some, List,
  [], ◌∷◌, ◌++◌,
}
use gh_ost_cpp.Strings.Number.{parse_uint64, parse_uint16, to_string}
use gh_ost_cpp.Strings.Quote.{escape_for_sql}
use gh_ost_cpp.Strings.Search.{to_lower}
use gh_ost_cpp.Mysql.InstanceKey.{InstanceKey}
use gh_ost_cpp.Mysql.InstanceKey as InstanceKey
use gh_ost_cpp.Mysql.Server.{Server, Request, Row, get}
use gh_ost_cpp.Mysql.Version.{or_zero}
use gh_ost_cpp.Mysql.Statements.{quoted}

abbrev pub constraints_of : Bytes → Bytes → Bytes
constraints_of database table =
    codes "SELECT COUNT(*) FROM information_schema.table_constraints WHERE table_schema = '"
    ++ (escape_for_sql database
        ++ (codes "' AND table_name = '" ++ (escape_for_sql table ++ codes "' ")))

abbrev pub first_value : Row → Option Bytes
first_value row = get_elem? row.values 0

-- the keys that can be parsed, in order
abbrev pub keys_of : List Row → List InstanceKey
keys_of [] = []
keys_of (row ∷ rows) = elim (get row (codes "Host")) [
  | none ↦ keys_of rows
  | some host ↦ elim (InstanceKey.parse host) [
    | none ↦ keys_of rows
    | some key ↦ key ∷ keys_of rows
  ]
]

abbrev pub first_values : List Row → List Bytes
first_values [] = []
first_values (row ∷ rows) = elim (first_value row) [
  | none ↦ first_values rows
  | some v ↦ v ∷ first_values rows
]

-- The server, and the requests that it has received.
module _ (srv : Server) (sent : List Request) where
  unfoldable pub query_row : Bytes → Option Row
  query_row sql = get_elem? (srv.rows sent sql) 0

  abbrev pub number_value : Bytes → ℕ
  number_value sql = elim (srv.value sent sql) [ none ↦ 0 | some v ↦ or_zero (parse_uint64 v) ]

  abbrev pub is_one : Bytes → Bool
  is_one sql = elim (srv.value sent sql) [ none ↦ false | some v ↦ bytes_eq v (codes "1") ]

  unfoldable pub is_master : Bool
  unfolding query_row
  is_master = elim (query_row (codes "SHOW SLAVE STATUS")) [ none ↦ true | some row ↦ false ]

  unfoldable pub is_replica : Bool
  unfolding query_row
  is_replica = elim (query_row (codes "SHOW SLAVE STATUS")) [ none ↦ false | some row ↦ true ]

  unfoldable pub supports_gtid : Bool
  supports_gtid = elim (srv.value sent (codes "SELECT @@gtid_mode")) [
    | none ↦ false
    | some v ↦ bytes_eq (to_lower v) (codes "on")
  ]

  unfoldable pub supports_binlog_checksum : Bool
  supports_binlog_checksum = elim (srv.value sent (codes "SELECT @@binlog_checksum")) [
    | none ↦ false
    | some v ↦ not (bytes_eq (to_lower v) (codes "none"))
  ]

  -- the key of a host and a port; a port that is no number makes none
  abbrev pub key_of : Option Bytes → Option Bytes → Option InstanceKey
  key_of (some host) (some port) = elim (parse_uint16 port) [
    | none ↦ none
    | some n ↦ some (record { host = host; port = n })
  ]
  key_of _ _ = none

  unfoldable pub get_master_key : Option InstanceKey
  unfolding query_row
  get_master_key = elim (query_row (codes "SHOW SLAVE STATUS")) [
    | none ↦ none
    | some row ↦ key_of (get row (codes "Master_Host")) (get row (codes "Master_Port"))
  ]

  unfoldable pub get_replica_keys : List InstanceKey
  get_replica_keys = keys_of (
      srv.rows sent
        (codes "SHOW PROCESSLIST WHERE Command = 'Binlog Dump' OR Command = 'Binlog Dump GTID'"))

  abbrev pub column_number : Bytes → Bytes → ℕ
  unfolding query_row
  column_number sql column = elim (query_row sql) [
    | none ↦ 0
    | some row ↦ elim (get row column) [ none ↦ 0 | some v ↦ or_zero (parse_uint64 v) ]
  ]

  unfoldable pub get_replication_lag_seconds : ℕ
  get_replication_lag_seconds =
      column_number (codes "SHOW SLAVE STATUS") (codes "Seconds_Behind_Master")

  unfoldable pub get_current_binlog_file : Bytes
  unfolding query_row
  get_current_binlog_file = elim (query_row (codes "SHOW MASTER STATUS")) [
    | none ↦ []
    | some row ↦ elim (get row (codes "File")) [ none ↦ [] | some v ↦ v ]
  ]

  unfoldable pub get_current_binlog_position : ℕ
  get_current_binlog_position = column_number (codes "SHOW MASTER STATUS") (codes "Position")

  unfoldable pub get_current_binlog_coordinates : Bytes
  unfolding get_current_binlog_file get_current_binlog_position
  get_current_binlog_coordinates =
      get_current_binlog_file ++ (codes ":" ++ to_string get_current_binlog_position)

  abbrev pub counts_any : Bytes → Bool
  unfolding query_row
  counts_any sql = elim (query_row sql) [
    | none ↦ false
    | some row ↦ elim (first_value row) [ none ↦ false | some v ↦ ltb 0 (or_zero (parse_uint64 v)) ]
  ]

  unfoldable pub has_primary_key : Bytes → Bytes → Bool
  has_primary_key database table =
      counts_any (constraints_of database table ++ codes "AND constraint_type = 'PRIMARY KEY'")

  unfoldable pub has_unique_key : Bytes → Bytes → Bool
  has_unique_key database table = counts_any (
      constraints_of database table
      ++ codes "AND (constraint_type = 'PRIMARY KEY' OR constraint_type = 'UNIQUE')")

  unfoldable pub get_table_columns : Bytes → Bytes → List Bytes
  get_table_columns database table = first_values (
      srv.rows sent (
        codes "SELECT COLUMN_NAME FROM information_schema.columns WHERE table_schema = '"
        ++ (escape_for_sql database
            ++ (codes "' AND table_name = '"
                ++ (escape_for_sql table ++ codes "' ORDER BY ordinal_position")))))

  unfoldable pub get_lock : Bytes → ℕ → Bool
  get_lock lock_name timeout_seconds = is_one (
      codes "SELECT GET_LOCK('"
      ++ (escape_for_sql lock_name ++ (codes "', " ++ (to_string timeout_seconds ++ codes ")"))))

  unfoldable pub release_lock : Bytes → Bool
  release_lock lock_name =
      is_one (codes "SELECT RELEASE_LOCK('" ++ (escape_for_sql lock_name ++ codes "')"))

  unfoldable pub is_lock_used : Bytes → Bool
  is_lock_used lock_name =
      elim (srv.value sent
        (codes "SELECT IS_USED_LOCK('" ++ (escape_for_sql lock_name ++ codes "')"))) [
          | none ↦ false
          | some v ↦ not (bytes_eq v (codes "NULL")) && not (bytes_eq v (codes "0"))
        ]

  unfoldable pub get_threads_running : ℕ
  get_threads_running =
      number_value
        (codes "SELECT COUNT(*) FROM information_schema.processlist WHERE COMMAND != 'Sleep'")

  unfoldable pub get_max_connections : ℕ
  get_max_connections = number_value (codes "SELECT @@max_connections")

  unfoldable pub get_current_connections : ℕ
  get_current_connections =
      number_value (codes "SELECT COUNT(*) FROM information_schema.processlist")

  unfoldable pub table_checksum : Bytes → Bytes → Option ℕ
  table_checksum database table =
      elim (srv.value sent
        (codes "CHECKSUM TABLE " ++ (quoted database ++ (codes "." ++ quoted table)))) [
          | none ↦ none
          | some v ↦ parse_uint64 v
        ]

  -- `Connection::GetCurrentBinlogFile` and its like, which ask by other requests
  abbrev pub value_or_empty : Bytes → Bytes
  value_or_empty sql = elim (srv.value sent sql) [ none ↦ [] | some v ↦ v ]

  unfoldable pub connection_binlog_file : Bytes
  connection_binlog_file = value_or_empty (codes "SHOW MASTER STATUS LIKE 'File'")

  unfoldable pub connection_binlog_position : ℕ
  connection_binlog_position = number_value (codes "SHOW MASTER STATUS LIKE 'Position'")

  unfoldable pub connection_binlog_coordinates : Bytes
  unfolding connection_binlog_file connection_binlog_position
  connection_binlog_coordinates =
      connection_binlog_file ++ (codes ":" ++ to_string connection_binlog_position)

  -- `Connection::GetMasterKey`: a port that is no number is 3306
  abbrev pub default_port_key : Option Bytes → Option Bytes → Option InstanceKey
  default_port_key (some host) (some port) = elim (parse_uint16 port) [
    | none ↦ some (record { host = host; port = 3306 })
    | some n ↦ some (record { host = host; port = n })
  ]
  default_port_key _ _ = none

  unfoldable pub connection_master_key : Option InstanceKey
  unfolding query_row
  connection_master_key = elim (query_row (codes "SHOW SLAVE STATUS")) [
    | none ↦ none
    | some row ↦ default_port_key (get row (codes "Master_Host")) (get row (codes "Master_Port"))
  ]
