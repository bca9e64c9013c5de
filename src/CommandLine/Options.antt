-- ===== src/CommandLine/Options.antt =====
-- `ParseCommandLine` of src/main.cpp, and include/gh_ost/version.hpp.
use gh_ost_cpp.Base.{
  ◌==◌, if◌then◌else◌, Bytes, codes, bytes_eq, ℕ, String, Bool, true, not, ◌&&◌, Option, none, some,
  List, [], ◌∷◌, ◌++◌,
}
use gh_ost_cpp.Context.Config.{
  MigrationConfig, MigrationMode, on_master, on_replica, test_on_replica, Strategy, lock_tables,
}

-- `cxxopts::ParseResult`: how often an option was given, and its value in the type it is read in.
pub record ParseResult : Type 0 where
  pub count : Bytes → ℕ
  pub text : Bytes → Bytes
  pub number : Bytes → ℕ
  pub flag : Bytes → Bool

-- what `options.parse` does: it returns, or throws with a message
pub data Parsed : Type 0 where
  returns : ParseResult → Parsed
  throws : Bytes → Parsed

-- the lines that the program writes, by where they go
pub data Line : Type 0 where
  out err logged : Bytes → Line

abbrev pub given : ParseResult → Bytes → Bool
given r name = not (r.count name == 0)

-- `if (result.count(name)) field = result[name].as<T>();`
abbrev pub text_or : ParseResult → String → Bytes → Bytes
text_or r name old = if given r (codes name) then r.text (codes name) else old

abbrev pub optional_text_or : ParseResult → String → Option Bytes → Option Bytes
optional_text_or r name old = if given r (codes name) then some (r.text (codes name)) else old

abbrev pub number_or : ParseResult → String → ℕ → ℕ
number_or r name old = if given r (codes name) then r.number (codes name) else old

abbrev pub optional_number_or : ParseResult → String → Option ℕ → Option ℕ
optional_number_or r name old = if given r (codes name) then some (r.number (codes name)) else old

abbrev pub flag_or : ParseResult → String → Bool → Bool
flag_or r name old = if given r (codes name) then r.flag (codes name) else old

unfoldable pub set_connections : ParseResult → MigrationConfig → MigrationConfig
set_connections r c =
    let master = c.master_connection in
    let replica = c.replica_connection in
    record c {
      master_connection = record master {
        host = text_or r "host" master.host;
        port = number_or r "port" master.port;
        user = text_or r "user" master.user;
        password = text_or r "password" master.password;
        use_ssl = flag_or r "ssl" master.use_ssl;
        ssl_ca_file = optional_text_or r "ssl-ca" master.ssl_ca_file;
        ssl_cert_file = optional_text_or r "ssl-cert" master.ssl_cert_file;
        ssl_key_file = optional_text_or r "ssl-key" master.ssl_key_file;
      };
      replica_connection = record replica {
        host = text_or r "replica-host" replica.host;
        port = number_or r "replica-port" replica.port;
        user = text_or r "replica-user" replica.user;
        password = text_or r "replica-password" replica.password;
        use_ssl = flag_or r "ssl" replica.use_ssl;
        ssl_ca_file = optional_text_or r "ssl-ca" replica.ssl_ca_file;
        ssl_cert_file = optional_text_or r "ssl-cert" replica.ssl_cert_file;
        ssl_key_file = optional_text_or r "ssl-key" replica.ssl_key_file;
      };
      database_name = text_or r "database" c.database_name;
      table_name = text_or r "table" c.table_name;
      alter_statement = text_or r "alter" c.alter_statement;
    }

-- The execution modes, each test over what the ones before it left.
unfoldable pub set_mode : ParseResult → MigrationMode → MigrationMode
set_mode r m₀ =
    let m₁ = if given r (codes "test-on-replica") then test_on_replica else m₀ in
    let m₂ = if given r (codes "migrate-on-replica") then on_replica else m₁ in
    if given r (codes "allow-on-master")
    then (if given r (codes "execute") && not (given r (codes "replica-host"))
        then on_master
        else m₂)
    else m₂

unfoldable pub set_execution : ParseResult → MigrationConfig → MigrationConfig
unfolding set_mode
set_execution r c = record c {
  execute = flag_or r "execute" c.execute;
  test_on_replica = flag_or r "test-on-replica" c.test_on_replica;
  mode = set_mode r c.mode;
  allow_on_master = flag_or r "allow-on-master" c.allow_on_master;
  dry_run = flag_or r "noop" c.dry_run;
  ghost_table_name = text_or r "ghost-table" c.ghost_table_name;
  changelog_table_name = text_or r "changelog-table" c.changelog_table_name;
  drop_original_table = flag_or r "drop-original-table" c.drop_original_table;
  drop_ghost_table = flag_or r "drop-ghost-table" c.drop_ghost_table;
}

unfoldable pub set_strategy : ParseResult → Strategy → Strategy
set_strategy r s =
    if given r (codes "cut-over") && bytes_eq (r.text (codes "cut-over")) (codes "lock-tables")
    then lock_tables
    else s

unfoldable pub set_throttle_and_cut_over : ParseResult → MigrationConfig → MigrationConfig
unfolding set_strategy
set_throttle_and_cut_over r c =
    let throttle = c.throttle in
    let cut = c.cut_over in
    record c {
      throttle = record throttle {
        max_replication_lag = number_or r "max-replication-lag" throttle.max_replication_lag;
        max_load_threads_running =
            optional_number_or r "max-load" throttle.max_load_threads_running;
        critical_load_threads_running =
            optional_number_or r "critical-load" throttle.critical_load_threads_running;
        chunk_size = number_or r "chunk-size" throttle.chunk_size;
        throttle_query = optional_text_or r "throttle-query" throttle.throttle_query;
      };
      cut_over = record cut {
        strategy = set_strategy r cut.strategy;
        cut_over_lock_timeout_seconds =
            number_or r "cut-over-lock-timeout-seconds" cut.cut_over_lock_timeout_seconds;
        postpone_flag_file =
            optional_text_or r "postpone-cut-over-flag-file" cut.postpone_flag_file;
        postpone_cut_over =
            if given r (codes "postpone-cut-over-flag-file") then true else cut.postpone_cut_over;
        force_cut_over_flag_file =
            optional_text_or r "force-cut-over-flag-file" cut.force_cut_over_flag_file;
        graceful_cut_over = flag_or r "graceful-cut-over" cut.graceful_cut_over;
      };
    }

-- `--hooks-path` sets nothing. `--debug` is read behind `--verbose`, into the same field.
unfoldable pub set_hooks_and_output : ParseResult → MigrationConfig → MigrationConfig
set_hooks_and_output r c =
    let hooks = c.hooks in
    record c {
      hooks = record hooks {
        hook_before_migration =
            optional_text_or r "hooks-before-migration" hooks.hook_before_migration;
        hook_after_migration =
            optional_text_or r "hooks-after-migration" hooks.hook_after_migration;
        hook_on_status = optional_text_or r "hooks-on-status" hooks.hook_on_status;
        hook_on_throttle = optional_text_or r "hooks-on-throttle" hooks.hook_on_throttle;
        hook_timeout_seconds = number_or r "hooks-timeout-seconds" hooks.hook_timeout_seconds;
      };
      status_tcp_port = optional_number_or r "serve-status-http" c.status_tcp_port;
      status_socket_path = optional_text_or r "serve-status-socket" c.status_socket_path;
      exact_rowcount = flag_or r "exact-rowcount" c.exact_rowcount;
      progress_percentage = flag_or r "progress" c.progress_percentage;
      heartbeat_interval_millis = number_or r "heartbeat-interval" c.heartbeat_interval_millis;
      verbose = flag_or r "debug" (flag_or r "verbose" c.verbose);
      quiet = flag_or r "quiet" c.quiet;
      log_file = optional_text_or r "log-file" c.log_file;
    }

abbrev pub get_full_version : Bytes
get_full_version = codes "gh-ost-cpp" ++ (codes " " ++ codes "1.0.0")

-- What is to be done with the configuration, if anything, and the lines written. `help` is the
-- text that cxxopts makes.
unfoldable pub parse_command_line :
    Bytes → Parsed → MigrationConfig → Option MigrationConfig × List Line
unfolding set_connections set_execution set_throttle_and_cut_over set_hooks_and_output
parse_command_line help (throws what) c =
    (none, err (codes "Error parsing options: " ++ what) ∷ out help ∷ [])
parse_command_line help (returns r) c =
    if given r (codes "help")
    then (none, out help ∷ [])
    else if given r (codes "version")
    then (none, out get_full_version ∷ out (codes "C++ Implementation of GitHub's gh-ost") ∷ [])
    else (
      some (
          set_hooks_and_output r
            (set_throttle_and_cut_over r (set_execution r (set_connections r c)))),
      [],
    )
