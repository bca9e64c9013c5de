-- ===== src/Tests/Runs.antt =====
-- The preparation of the migration of `orders`.
use gh_ost_cpp.Base.{◌≡◌, refl, ◌↔◌, true, false, List, []}
use gh_ost_cpp.Context.{MigrationContext, set_config, create}
use gh_ost_cpp.Logic.Migrator.{Migrator}
use gh_ost_cpp.Logic.Run.{
  Environment, run_phases, run_to_row_copy, initialize, and_then, or_error, by_applier, ignoring,
  by_inspector, when, testing, always, phase_initial_setup, phase_create_ghost_table,
  phase_alter_ghost_table, phase_inspect_original_table, phase_validate_migration,
  phase_populate_row_range, phase_read_stream_initiate,
}
use gh_ost_cpp.Logic.Run.Failure.{HasFailed, run_to_row_copy-failed}
use gh_ost_cpp.Mysql.Structure.{
  has_unique_key, TableStructure, primary_in, get_primary_key, get_unique_keys,
}
use gh_ost_cpp.Mysql.Server.{Request, get, value_of}
use gh_ost_cpp.Sql.Types.{is_valid, has_rename_table, get_validation_errors}
use gh_ost_cpp.Context.Config.{MigrationConfig}
use gh_ost_cpp.Logic.Inspector.{
  detect_master, inspect_ghost_table, inspect_original_table, determine_shared_unique_key,
  determine_column_pairs, validate_migration, ghost_table_exists, first_shared,
  find_best_unique_key, check_privileges, changelog_table_exists, read_table_structure,
  column_of_row, keys_of_rows, add_key_row, new_key, read_row_range,
}
use gh_ost_cpp.Logic.Applier.{
  send, create_ghost_table, create_changelog_table, alter_ghost_table, drop_ghost_table,
  drop_changelog_table, write_changelog,
}
use gh_ost_cpp.Logic.Run.Validity.{
  alter_of, validate_migration_iff, run_to_row_copy-is_valid, run_to_row_copy-initialize,
}
use gh_ost_cpp.Logic.Inspector.UniqueKey.{IsChoice, find_best_unique_key_lem}
use gh_ost_cpp.Tests.Data.{orders, config, context, migrator, environment}
use gh_ost_cpp.Strings.Quote.{quote_identifier}
use gh_ost_cpp.Strings.Search.{starts_with, begins}

succeeds : (run_to_row_copy environment migrator).0 ≡ true
unfolding run_to_row_copy run_phases and_then or_error by_applier ignoring by_inspector when testing
    always phase_initial_setup phase_create_ghost_table phase_alter_ghost_table
    phase_inspect_original_table phase_validate_migration phase_populate_row_range
    phase_read_stream_initiate detect_master check_privileges ghost_table_exists
    changelog_table_exists inspect_ghost_table inspect_original_table read_table_structure
    column_of_row keys_of_rows add_key_row new_key determine_shared_unique_key
    determine_column_pairs find_best_unique_key first_shared validate_migration read_row_range send
    create_ghost_table create_changelog_table alter_ghost_table drop_ghost_table
    drop_changelog_table write_changelog get value_of starts_with begins is_valid has_rename_table
    get_validation_errors has_unique_key get_primary_key primary_in get_unique_keys set_config
    create quote_identifier
succeeds = refl

run_to_row_copy-failed_example :
    let env : Environment = environment in
    let m : Migrator = initialize config in HasFailed (run_to_row_copy env m).1
run_to_row_copy-failed_example =
    run_to_row_copy-failed environment (initialize config)
      (run_to_row_copy-initialize environment config)

run_to_row_copy-initialize_example :
    let env : Environment = environment in
    let config : MigrationConfig = config in (run_to_row_copy env (initialize config)).0 ≡ false
run_to_row_copy-initialize_example = run_to_row_copy-initialize environment config

validate_migration_iff_example :
    let env : Environment = environment in
    let sent : List Request = [] in
    let ctx : MigrationContext = context in
    ((validate_migration env.server sent ctx).valid ≡ true) ↔ (
      (is_valid ctx.alter_statement ≡ true)
      × (has_unique_key ctx.original_structure ≡ true)
      × (ghost_table_exists env.server sent ctx ≡ true))
validate_migration_iff_example = validate_migration_iff environment ([]) context

run_to_row_copy-is_valid_example : let m : Migrator = migrator in is_valid (alter_of m) ≡ true
run_to_row_copy-is_valid_example = run_to_row_copy-is_valid environment migrator succeeds

find_best_unique_key_lem_example :
    let original : TableStructure = orders in
    let ghost : TableStructure = orders in
    IsChoice (find_best_unique_key original ghost) original.keys ghost.keys
find_best_unique_key_lem_example = find_best_unique_key_lem orders orders
