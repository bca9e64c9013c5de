-- ===== src/Tests/Endings.antt =====
-- A whole run on a table whose rows are copied.
use gh_ost_cpp.Base.{◌≡◌, refl, true, List, [], ◌∷◌, ◌++◌}
use gh_ost_cpp.Mysql.Server.{get, value_of}
use gh_ost_cpp.Context.{set_config, create}
use gh_ost_cpp.Logic.Applier.{
  send, create_ghost_table, create_changelog_table, alter_ghost_table, drop_ghost_table,
  drop_changelog_table, write_changelog, lock_original_table, rename_tables, atomic_rename_tables,
  unlock_tables, apply_if_any, apply_dml_event, apply_rows,
}
use gh_ost_cpp.Logic.Migrator.{
  Migrator, row_copies, applies_event, beats, checks_throttle, cancels, take_turn, row_copy_turn,
  events_apply_turn, process_entry, execute_cut_over, begin_cleanup, begin_cancel, heartbeat_turn,
  throttle_turn,
}
use gh_ost_cpp.Logic.Run.{
  Environment, and_then, or_error, by_applier, ignoring, by_inspector, when, testing, always,
  phase_initial_setup, phase_create_ghost_table, phase_alter_ghost_table,
  phase_inspect_original_table, phase_validate_migration, phase_populate_row_range,
  phase_read_stream_initiate, run_phases, run_to_row_copy,
}
use gh_ost_cpp.Logic.Ending.{Ending, Move, run_moves, run_steps, takes, take_move, ending_step}
use gh_ost_cpp.Logic.Ending.Order.{row_copy_begins, has_succeeded}
use gh_ost_cpp.Logic.Ending.Whole.{run-has_succeeded}
use gh_ost_cpp.Tests.Data.{migrator, quiet, environment}
use gh_ost_cpp.Logic.Inspector.{
  detect_master, check_privileges, ghost_table_exists, changelog_table_exists, inspect_ghost_table,
  inspect_original_table, read_table_structure, column_of_row, keys_of_rows, add_key_row, new_key,
  determine_shared_unique_key, determine_column_pairs, find_best_unique_key, first_shared,
  validate_migration, read_row_range, get_estimated_row_count,
}
use gh_ost_cpp.Strings.Quote.{quote_identifier}
use gh_ost_cpp.Strings.Search.{starts_with, begins}
use gh_ost_cpp.Sql.Types.{is_valid, has_rename_table, get_validation_errors}
use gh_ost_cpp.Mysql.Structure.{has_unique_key, get_primary_key, primary_in, get_unique_keys}
use gh_ost_cpp.Strings.Number.{parse_uint64}
use gh_ost_cpp.Binlog.Entry.{is_dml, is_for_table}

-- The row copy ends, the events thread takes the event and declares all processed, and `Run` goes on.
abbrev to_cut_over : List Move
to_cut_over =
    takes row_copies
    ∷ takes applies_event
    ∷ takes applies_event
    ∷ run_steps
    ∷ run_steps
    ∷ run_steps
    ∷ run_steps
    ∷ []

-- Then the cut-over and the cleanup, and a call of `Cancel` that lets the other threads end.
abbrev to_end : List Move
to_end =
    to_cut_over
    ++ (run_steps
        ∷ run_steps
        ∷ takes cancels
        ∷ takes (beats 5)
        ∷ takes (checks_throttle quiet)
        ∷ run_steps
        ∷ run_steps
        ∷ [])

succeeds_whole : (run_to_row_copy environment migrator).0 ≡ true
unfolding run_to_row_copy run_phases and_then or_error by_applier ignoring by_inspector when testing
    always phase_initial_setup phase_create_ghost_table phase_alter_ghost_table
    phase_inspect_original_table phase_validate_migration phase_populate_row_range
    phase_read_stream_initiate detect_master check_privileges ghost_table_exists
    changelog_table_exists inspect_ghost_table inspect_original_table read_table_structure
    column_of_row keys_of_rows add_key_row new_key determine_shared_unique_key
    determine_column_pairs find_best_unique_key first_shared validate_migration read_row_range send
    create_ghost_table create_changelog_table alter_ghost_table drop_ghost_table
    drop_changelog_table write_changelog get value_of starts_with begins is_valid has_rename_table
    get_validation_errors has_unique_key get_primary_key primary_in get_unique_keys set_config
    create quote_identifier
succeeds_whole = refl

ends :
    has_succeeded
      (run_moves environment.server to_end
        (row_copy_begins (run_to_row_copy environment migrator).1)).at
    ≡ true
unfolding run_to_row_copy run_phases and_then or_error by_applier ignoring by_inspector when testing
    always phase_initial_setup phase_create_ghost_table phase_alter_ghost_table
    phase_inspect_original_table phase_validate_migration phase_populate_row_range
    phase_read_stream_initiate detect_master check_privileges ghost_table_exists
    changelog_table_exists inspect_ghost_table inspect_original_table read_table_structure
    column_of_row keys_of_rows add_key_row new_key determine_shared_unique_key
    determine_column_pairs find_best_unique_key first_shared validate_migration read_row_range send
    create_ghost_table create_changelog_table alter_ghost_table drop_ghost_table
    drop_changelog_table write_changelog get value_of starts_with begins is_valid has_rename_table
    get_validation_errors has_unique_key get_primary_key primary_in get_unique_keys set_config
    create quote_identifier run_moves take_move ending_step take_turn row_copy_turn
    events_apply_turn process_entry get_estimated_row_count parse_uint64 is_dml is_for_table
    apply_if_any apply_dml_event apply_rows execute_cut_over begin_cleanup begin_cancel
    heartbeat_turn throttle_turn lock_original_table rename_tables atomic_rename_tables
    unlock_tables
ends = refl

run-has_succeeded_example :
    let env : Environment = environment in
    let m : Migrator = migrator in
    let vs : List Move = to_end in
    (run_moves env.server vs (row_copy_begins (run_to_row_copy env m).1)).migrator.is_cancelled
    ≡ true
run-has_succeeded_example = run-has_succeeded environment migrator to_end refl succeeds_whole ends
