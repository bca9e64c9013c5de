-- ===== src/Tests/Data.antt =====
-- A table `shop`.`orders` under migration, and servers for it.
use gh_ost_cpp.Base.{leb, if◌then◌else◌, length, Bytes, codes, true, false, none, some, [], ◌∷◌}
use gh_ost_cpp.Mysql.Structure.{integer, primary, ColumnInfo, KeyInfo, TableStructure}
use gh_ost_cpp.Mysql.Server.{Server}
use gh_ost_cpp.Sql.Types.{
  AlterOperationType, add_column, drop_column, AlterOperation, AlterStatement,
}
use gh_ost_cpp.Sql.Pairs.{build_column_pairs}
use gh_ost_cpp.Context.Config.{
  default_connection, default_throttle, default_config, ThrottleConfig, MigrationConfig,
}
use gh_ost_cpp.Context.{MigrationContext, create, set_config, running, row_copy}
use gh_ost_cpp.Throttle.{Throttler, Readings, behind, disconnected}
use gh_ost_cpp.Throttle as Throttle
use gh_ost_cpp.Binlog.Rows.{BinlogRowData, BinlogDmlEvent, insert}
use gh_ost_cpp.Binlog.Entry.{BinlogEntry, write_rows}
use gh_ost_cpp.Logic.Applier.{Applier}
use gh_ost_cpp.Logic.Run.{Environment}
use gh_ost_cpp.Strings.Search.{starts_with}
use gh_ost_cpp.Logic.Migrator.{Migrator, at_loop}

abbrev pub column : Bytes → ColumnInfo
column name = record {
  name = name;
  type = integer;
  type_detail = codes "int";
  nullable = false;
  default_value = none;
  auto_increment = false;
  extra = [];
}

abbrev pub id_key : KeyInfo
id_key = record {
  name = codes "PRIMARY";
  type = primary;
  columns = codes "id" ∷ [];
  is_primary = true;
}

abbrev pub orders : TableStructure
orders = record {
  database = codes "shop";
  name = codes "orders";
  columns = column (codes "id") ∷ column (codes "price") ∷ column (codes "note") ∷ [];
  keys = id_key ∷ [];
}

abbrev pub operation : AlterOperationType → Bytes → AlterOperation
operation type name = record {
  type = type;
  value = [];
  name = name;
  definition = [];
  new_name = [];
  old_name = [];
  is_first = false;
  after_column = none;
}

abbrev pub alter : AlterStatement
alter = record {
  database = codes "shop";
  table_name = codes "orders";
  operations = operation add_column (codes "tax") ∷ operation drop_column (codes "note") ∷ [];
  original_statement = [];
}

abbrev pub throttle_config : ThrottleConfig
throttle_config = record default_throttle {
  max_load_threads_running = some 25;
  critical_load_threads_running = some 100;
  throttle_query = some (codes "SELECT busy()");
}

abbrev pub config : MigrationConfig
config = record default_config {
  master_connection = record default_connection { host = codes "db1" };
  replica_connection = record default_connection { host = codes "db2" };
  database_name = codes "shop";
  table_name = codes "orders";
  alter_statement = codes "ADD COLUMN tax int, DROP COLUMN note";
  throttle = throttle_config;
}

-- 7 of 10 rows are copied.
abbrev pub context : MigrationContext
context = record (set_config (create config) config) {
  alter_statement = alter;
  original_structure = orders;
  unique_key = id_key;
  column_pairs = build_column_pairs orders alter;
  min_key = codes "1";
  max_key = codes "10";
  total_row_count = 10;
  copied_row_count = 7;
  status = running;
  current_phase = row_copy;
}

abbrev pub applier : Applier
applier = record { context = context; sent = []; applied_count = 0; row_copy_count = 0 }

abbrev pub row : Bytes → BinlogRowData
row id = record {
  before_values = [];
  after_values = some id ∷ none ∷ [];
  column_names = codes "id" ∷ codes "price" ∷ [];
  pk_column = codes "id";
  pk_value = some id;
}

abbrev pub insertion : BinlogDmlEvent
insertion = record {
  database = codes "shop";
  table = codes "orders";
  dml_type = insert;
  timestamp = 1;
  table_id = 5;
  transaction_id = 1;
  rows = row (codes "11") ∷ row (codes "12") ∷ [];
}

abbrev pub inserting : BinlogEntry
inserting = record {
  coordinates = record { file = codes "mysql-bin.000003"; position = 120 };
  event_type = write_rows;
  timestamp = 1;
  event_size = 40;
  server_id = 1;
  dml_event = some insertion;
}

abbrev pub migrator : Migrator
migrator = record {
  applier = applier;
  throttler = Throttle.create;
  is_running = true;
  is_paused = false;
  is_cancelled = false;
  ghost_table_migrated = true;
  row_copy_complete = false;
  all_events_up_to_lock_processed = false;
  events = inserting ∷ [];
  is_streaming = true;
  row_copy_at = at_loop;
  last_key = codes "1";
  events_apply_alive = true;
  heartbeat_alive = true;
  throttle_alive = true;
}

-- A server that does all that it is told and has no rows in any range.
abbrev pub obliging : Server
obliging = record {
  accepts = λ sent r. true;
  rows = λ sent sql. [];
  value = λ sent sql. none;
  table_exists = λ sent database table. true;
  is_connected = true;
  instance_key = record { host = codes "db1"; port = 3306 };
  master_key = none;
}

-- A server that takes one request and no more, and has two rows.
abbrev pub failing : Server
failing = record {
  accepts = λ sent r. leb (length sent) 0;
  rows = λ sent sql.
      record {
        values = codes "8" ∷ codes "90" ∷ [];
        column_names = codes "id" ∷ codes "price" ∷ [];
      }
      ∷ record {
        values = codes "9" ∷ codes "70" ∷ [];
        column_names = codes "id" ∷ codes "price" ∷ [];
      }
      ∷ [];
  value = λ sent sql. none;
  table_exists = λ sent database table. true;
  is_connected = true;
  instance_key = record { host = codes "db1"; port = 3306 };
  master_key = none;
}

-- One column and one unique key in every table.
abbrev pub describing : Server
describing = record {
  accepts = λ sent r. true;
  rows = λ sent sql.
      if starts_with sql (codes "SHOW COLUMNS")
      then record {
        values = codes "id" ∷ codes "int" ∷ [];
        column_names = codes "Field" ∷ codes "Type" ∷ [];
      }
        ∷ []
      else if starts_with sql (codes "SHOW KEYS")
      then record {
        values = codes "by_id" ∷ codes "id" ∷ codes "0" ∷ [];
        column_names = codes "Key_name" ∷ codes "Column_name" ∷ codes "Non_unique" ∷ [];
      }
        ∷ []
      else [];
  value = λ sent sql. some (codes "1");
  table_exists = λ sent database table. true;
  is_connected = true;
  instance_key = record { host = codes "db1"; port = 3306 };
  master_key = none;
}

abbrev pub environment : Environment
environment = record {
  server = describing;
  iterate = λ keys. keys;
  position = record { file = codes "mysql-bin.000003"; position = 4 };
}

-- A quiet round of the throttler, and one in which too many threads run.
abbrev pub quiet : Readings
quiet = record {
  has_master = true;
  threads_at_critical_check = 3;
  threads_at_max_load_check = 3;
  replica = behind (codes "2");
  control_replicas = disconnected ∷ behind (codes "5") ∷ [];
  query_value = λ sql. some (codes "0");
}

abbrev pub busy : Readings
busy = record {
  has_master = true;
  threads_at_critical_check = 30;
  threads_at_max_load_check = 30;
  replica = behind (codes "2");
  control_replicas = [];
  query_value = λ sql. some (codes "0");
}
