-- ===== src/Context/Config.antt =====
-- The settings of include/gh_ost/config.hpp with their defaults, `Validate`, and
-- `ValidationResult` of include/gh_ost/types.hpp.
use gh_ost_cpp.Base.{
  none, if◌then◌else◌, is_empty, Bytes, codes, ℕ, Bool, true, false, not, ◌&&◌, Option, List, [],
  ◌∷◌, ◌++◌,
}

pub record ConnectionConfig : Type 0 where
  pub host : Bytes
  pub port : ℕ
  pub user : Bytes
  pub password : Bytes
  pub database : Bytes
  pub connect_timeout_seconds : ℕ
  pub read_timeout_seconds : ℕ
  pub write_timeout_seconds : ℕ
  pub use_ssl : Bool
  pub ssl_ca_file : Option Bytes
  pub ssl_cert_file : Option Bytes
  pub ssl_key_file : Option Bytes

pub record ThrottleConfig : Type 0 where
  pub max_replication_lag : ℕ
  pub max_load_threads_running : Option ℕ
  pub critical_load_threads_running : Option ℕ
  pub throttle_query : Option Bytes
  pub critical_query : Option Bytes
  pub chunk_size : ℕ
  pub max_lag_millis : ℕ
  pub throttle_interval_millis : ℕ

pub data Strategy : Type 0 where
  atomic_swap lock_tables : Strategy

pub record CutOverConfig : Type 0 where
  pub strategy : Strategy
  pub cut_over_lock_timeout_seconds : ℕ
  pub cut_over_exponential_backoff_max_wait_seconds : ℕ
  pub postpone_cut_over : Bool
  pub postpone_flag_file : Option Bytes
  pub force_cut_over_flag_file : Option Bytes
  pub graceful_cut_over : Bool
  pub graceful_cut_over_max_wait_seconds : ℕ

pub record HooksConfig : Type 0 where
  pub hook_before_migration : Option Bytes
  pub hook_after_migration : Option Bytes
  pub hook_before_cut_over : Option Bytes
  pub hook_after_cut_over : Option Bytes
  pub hook_on_status : Option Bytes
  pub hook_on_throttle : Option Bytes
  pub hook_on_unthrottle : Option Bytes
  pub hook_on_failure : Option Bytes
  pub hook_on_success : Option Bytes
  pub hook_timeout_seconds : ℕ
  pub hook_fail_on_error : Bool

pub data MigrationMode : Type 0 where
  noop on_master on_replica test_on_replica : MigrationMode

pub record MigrationConfig : Type 0 where
  pub master_connection : ConnectionConfig
  pub replica_connection : ConnectionConfig
  pub database_name : Bytes
  pub table_name : Bytes
  pub ghost_table_name : Bytes
  pub changelog_table_name : Bytes
  pub alter_statement : Bytes
  pub mode : MigrationMode
  pub throttle : ThrottleConfig
  pub cut_over : CutOverConfig
  pub hooks : HooksConfig
  pub execute : Bool
  pub test_on_replica : Bool
  pub dry_run : Bool
  pub allow_on_master : Bool
  pub drop_original_table : Bool
  pub drop_ghost_table : Bool
  pub exact_rowcount : Bool
  pub progress_percentage : Bool
  pub status_socket_path : Option Bytes
  pub status_tcp_port : Option ℕ
  pub verbose : Bool
  pub quiet : Bool
  pub log_file : Option Bytes
  pub heartbeat_interval_millis : ℕ
  pub status_update_interval_millis : ℕ

abbrev pub default_connection : ConnectionConfig
default_connection = record {
  host = [];
  port = 3306;
  user = [];
  password = [];
  database = [];
  connect_timeout_seconds = 10;
  read_timeout_seconds = 30;
  write_timeout_seconds = 30;
  use_ssl = false;
  ssl_ca_file = none;
  ssl_cert_file = none;
  ssl_key_file = none;
}

abbrev pub default_throttle : ThrottleConfig
default_throttle = record {
  max_replication_lag = 60;
  max_load_threads_running = none;
  critical_load_threads_running = none;
  throttle_query = none;
  critical_query = none;
  chunk_size = 1000;
  max_lag_millis = 1500;
  throttle_interval_millis = 100;
}

abbrev pub default_cut_over : CutOverConfig
default_cut_over = record {
  strategy = atomic_swap;
  cut_over_lock_timeout_seconds = 3;
  cut_over_exponential_backoff_max_wait_seconds = 64;
  postpone_cut_over = false;
  postpone_flag_file = none;
  force_cut_over_flag_file = none;
  graceful_cut_over = true;
  graceful_cut_over_max_wait_seconds = 60;
}

abbrev pub default_hooks : HooksConfig
default_hooks = record {
  hook_before_migration = none;
  hook_after_migration = none;
  hook_before_cut_over = none;
  hook_after_cut_over = none;
  hook_on_status = none;
  hook_on_throttle = none;
  hook_on_unthrottle = none;
  hook_on_failure = none;
  hook_on_success = none;
  hook_timeout_seconds = 30;
  hook_fail_on_error = false;
}

-- `MigrationConfig()`.
abbrev pub default_config : MigrationConfig
default_config = record {
  master_connection = default_connection;
  replica_connection = default_connection;
  database_name = [];
  table_name = [];
  ghost_table_name = [];
  changelog_table_name = [];
  alter_statement = [];
  mode = on_replica;
  throttle = default_throttle;
  cut_over = default_cut_over;
  hooks = default_hooks;
  execute = false;
  test_on_replica = false;
  dry_run = false;
  allow_on_master = false;
  drop_original_table = true;
  drop_ghost_table = true;
  exact_rowcount = false;
  progress_percentage = true;
  status_socket_path = none;
  status_tcp_port = none;
  verbose = false;
  quiet = false;
  log_file = none;
  heartbeat_interval_millis = 100;
  status_update_interval_millis = 500;
}

pub record ValidationResult : Type 0 where
  pub valid : Bool
  pub errors : List Bytes
  pub warnings : List Bytes

abbrev pub no_problems : ValidationResult
no_problems = record { valid = true; errors = []; warnings = [] }

abbrev pub add_error : Bytes → ValidationResult → ValidationResult
add_error e r = record r { errors = r.errors ++ e ∷ []; valid = false }

abbrev pub add_warning : Bytes → ValidationResult → ValidationResult
add_warning w r = record r { warnings = r.warnings ++ w ∷ [] }

-- a check of a validation: the error where the test holds
abbrev pub error_if : Bool → Bytes → ValidationResult → ValidationResult
error_if test e r = if test then add_error e r else r

abbrev pub warning_if : Bool → Bytes → ValidationResult → ValidationResult
warning_if test w r = if test then add_warning w r else r

abbrev is_on_master : MigrationMode → Bool
is_on_master on_master = true
is_on_master _ = false

unfoldable pub validate : MigrationConfig → ValidationResult × MigrationConfig
validate c =
    let r₁ = error_if (is_empty c.database_name) (codes "Database name is required") no_problems in
    let r₂ = error_if (is_empty c.table_name) (codes "Table name is required") r₁ in
    let r₃ = error_if (is_empty c.alter_statement) (codes "ALTER statement is required") r₂ in
    let r₄ =
      error_if (is_empty c.master_connection.host && is_empty c.replica_connection.host)
        (codes "At least one connection (master or replica) is required") r₃ in
    let r₅ =
      warning_if (is_on_master c.mode && not c.allow_on_master)
        (codes "Running on master requires --allow-on-master flag") r₄ in
    (
      r₅,
      if is_empty c.ghost_table_name
          then record c { ghost_table_name = codes "_gh_ost_" ++ c.table_name }
          else c,
    )
