-- ===== src/Context.antt =====
-- `MigrationConfig` of include/gh_ost/config.hpp and `MigrationContext` of
-- include/context/migration_context.hpp and src/context/migration_context.cpp.
pub mod Config
pub mod Progress
use gh_ost_cpp.Base.{
  if◌then◌else◌, is_empty, Bytes, codes, ℕ, ◌+◌, ◌-◌, ◌%◌, Bool, false, not, [], ◌++◌,
}
use gh_ost_cpp.Strings.Number.{u64_mod}
use gh_ost_cpp.Binlog.Coordinates.{BinlogCoordinates, no_coordinates}
use gh_ost_cpp.Mysql.InstanceKey.{InstanceKey, no_instance}
use gh_ost_cpp.Mysql.Structure.{TableStructure, KeyInfo, not_unique}
use gh_ost_cpp.Sql.Types.{AlterStatement, ColumnPairs}
use gh_ost_cpp.Sql.Builder.{SqlBuilder}
use gh_ost_cpp.Context.Config.{MigrationConfig}

pub data MigrationStatus : Type 0 where
  not_started running paused throttled cut_over_phase completed failed cancelled : MigrationStatus

pub data Phase : Type 0 where
  not_started_phase initial_setup row_copy all_events_up_to_lock_processed : Phase
  cut_over cleanup completed_phase failed_phase : Phase

pub data ThrottleReason : Type 0 where
  no_reason replication_lag max_load critical_load user_command heartbeat : ThrottleReason
  postponed_cut_over : ThrottleReason

-- The state of the context. Connections are reached through the server's model; clocks are left out.
pub record MigrationContext : Type 0 where
  pub config : MigrationConfig
  pub master_key : InstanceKey
  pub replica_key : InstanceKey
  pub ghost_table_name : Bytes
  pub changelog_table_name : Bytes
  pub alter_statement : AlterStatement
  pub sql_builder : SqlBuilder
  pub original_structure : TableStructure
  pub ghost_structure : TableStructure
  pub unique_key : KeyInfo
  pub column_pairs : ColumnPairs
  pub min_key : Bytes
  pub max_key : Bytes
  pub total_row_count : ℕ
  pub copied_row_count : ℕ
  pub applied_event_count : ℕ
  pub queued_event_count : ℕ
  pub status : MigrationStatus
  pub current_phase : Phase
  pub is_throttled : Bool
  pub throttle_reason : ThrottleReason
  pub is_cut_over_phase : Bool
  pub initial_coordinates : BinlogCoordinates
  pub current_coordinates : BinlogCoordinates
  pub last_error : Bytes

abbrev no_structure : TableStructure
no_structure = record { database = []; name = []; columns = []; keys = [] }

-- `MigrationContext()` before `SetConfig`. The kind of the empty key is indeterminate in C++.
unfoldable pub create : MigrationConfig → MigrationContext
create config = record {
  config = config;
  master_key = no_instance;
  replica_key = no_instance;
  ghost_table_name = [];
  changelog_table_name = [];
  alter_statement = record {
    database = [];
    table_name = [];
    operations = [];
    original_statement = [];
  };
  sql_builder = record {
    database = [];
    original_table = [];
    ghost_table = [];
    changelog_table = [];
  };
  original_structure = no_structure;
  ghost_structure = no_structure;
  unique_key = record { name = []; type = not_unique; columns = []; is_primary = false };
  column_pairs = record {
    shared_columns = [];
    dropped_columns = [];
    added_columns = [];
    modified_columns = [];
  };
  min_key = [];
  max_key = [];
  total_row_count = 0;
  copied_row_count = 0;
  applied_event_count = 0;
  queued_event_count = 0;
  status = not_started;
  current_phase = not_started_phase;
  is_throttled = false;
  throttle_reason = no_reason;
  is_cut_over_phase = false;
  initial_coordinates = no_coordinates;
  current_coordinates = no_coordinates;
  last_error = [];
}

unfoldable pub generate_ghost_table_name : MigrationConfig → Bytes
generate_ghost_table_name c =
    if not (is_empty c.ghost_table_name)
    then c.ghost_table_name
    else codes "_gh_ost_" ++ c.table_name

unfoldable pub generate_changelog_table_name : MigrationConfig → Bytes
generate_changelog_table_name c =
    if not (is_empty c.changelog_table_name)
    then c.changelog_table_name
    else (codes "_gh_ost_" ++ c.table_name) ++ codes "_changelog"

unfoldable pub set_config : MigrationContext → MigrationConfig → MigrationContext
unfolding generate_ghost_table_name generate_changelog_table_name
set_config ctx c = record ctx {
  config = c;
  ghost_table_name = generate_ghost_table_name c;
  changelog_table_name = generate_changelog_table_name c;
  sql_builder = record {
    database = c.database_name;
    original_table = c.table_name;
    ghost_table = generate_ghost_table_name c;
    changelog_table = generate_changelog_table_name c;
  };
}

-- the counts of `MigrationProgress`; its percentage and its estimate are floating point
pub record MigrationProgress : Type 0 where
  pub total_rows : ℕ
  pub copied_rows : ℕ
  pub remaining_rows : ℕ
  pub events_applied : ℕ
  pub events_queued : ℕ

-- A difference of two `uint64_t`.
abbrev pub u64_minus : ℕ → ℕ → ℕ
u64_minus a b = (a + (u64_mod - b)) % u64_mod

unfoldable pub get_progress : MigrationContext → MigrationProgress
get_progress ctx = record {
  total_rows = ctx.total_row_count;
  copied_rows = ctx.copied_row_count;
  remaining_rows = u64_minus ctx.total_row_count ctx.copied_row_count;
  events_applied = ctx.applied_event_count;
  events_queued = ctx.queued_event_count;
}

unfoldable pub phase_to_string : Phase → Bytes
phase_to_string not_started_phase = codes "Not Started"
phase_to_string initial_setup = codes "Initial Setup"
phase_to_string row_copy = codes "Row Copy"
phase_to_string all_events_up_to_lock_processed = codes "Processing Events"
phase_to_string cut_over = codes "Cut-Over"
phase_to_string cleanup = codes "Cleanup"
phase_to_string completed_phase = codes "Completed"
phase_to_string failed_phase = codes "Failed"

abbrev pub set_status : MigrationStatus → MigrationContext → MigrationContext
set_status s ctx = record ctx { status = s }

abbrev pub set_current_phase : Phase → MigrationContext → MigrationContext
set_current_phase p ctx = record ctx { current_phase = p }

abbrev pub set_last_error : Bytes → MigrationContext → MigrationContext
set_last_error e ctx = record ctx { last_error = e }

abbrev pub has_error : MigrationContext → Bool
has_error ctx = not (is_empty ctx.last_error)
