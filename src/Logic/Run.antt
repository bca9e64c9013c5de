-- ===== src/Logic/Run.antt =====
-- `Initialize` and the phases of `Run` of src/logic/migrator.cpp up to the start of the row copy.
pub mod Failure
pub mod Validity
use gh_ost_cpp.Base.{if◌then◌else◌, Bytes, codes, ℕ, Bool, true, false, not, List, [], ◌∷◌}
use gh_ost_cpp.Binlog.Coordinates.{BinlogCoordinates}
use gh_ost_cpp.Mysql.Structure.{KeyInfo}
use gh_ost_cpp.Mysql.Server.{Request, Server}
use gh_ost_cpp.Context.Config.{MigrationConfig, ValidationResult}
use gh_ost_cpp.Context.{
  MigrationContext, running, initial_setup, row_copy, set_status, set_current_phase, set_last_error,
  set_config,
}
use gh_ost_cpp.Context as Context
use gh_ost_cpp.Throttle as Throttle
use gh_ost_cpp.Logic.Inspector.{
  detect_master, check_privileges, ghost_table_exists, changelog_table_exists, inspect_ghost_table,
  inspect_original_table, determine_shared_unique_key, determine_column_pairs, validate_migration,
  read_row_range, get_estimated_row_count, get_exact_row_count,
}
use gh_ost_cpp.Logic.Applier.{
  Applier, create_ghost_table, create_changelog_table, alter_ghost_table, drop_ghost_table,
  drop_changelog_table, write_changelog,
}
use gh_ost_cpp.Logic.Migrator.{Migrator, on_context, handle_error, row_copy_stopped, at_loop}

-- What a migration meets: the server, the order in which `std::unordered_map` hands out its entries,
-- and the position of the binary log at the start.
pub record Environment : Type 0 where
  pub server : Server
  pub iterate : List KeyInfo → List KeyInfo
  pub position : BinlogCoordinates

-- `Initialize` of a new migrator
unfoldable pub initialize : MigrationConfig → Migrator
initialize config = record {
  applier = record {
    context =
        set_current_phase initial_setup
          (set_status running (set_config (Context.create config) config));
    sent = [];
    applied_count = 0;
    row_copy_count = 0;
  };
  throttler = Throttle.create;
  is_running = false;
  is_paused = false;
  is_cancelled = false;
  ghost_table_migrated = false;
  row_copy_complete = false;
  all_events_up_to_lock_processed = false;
  events = [];
  is_streaming = false;
  row_copy_at = row_copy_stopped;
  last_key = [];
  events_apply_alive = false;
  heartbeat_alive = false;
  throttle_alive = false;
}

-- Work that may fail, and leaves a state in both cases.
abbrev pub Step : Type 0
Step = Migrator → Bool × Migrator

-- `if (!first()) return false; return second();`
unfoldable pub and_then : Step → Step → Step
and_then first second m =
    let (ok, m₁) = first m in let later = second m₁ in if ok then later else (false, m₁)

-- the error noted where the step fails
unfoldable pub or_error : Bytes → Step → Step
or_error error step m =
    let (ok, m₁) = step m in
    if ok then (true, m₁) else (false, on_context (set_last_error error) m₁)

unfoldable pub by_applier : (Applier → Bool × Applier) → Step
by_applier f m = let (ok, a) = f m.applier in (ok, record m { applier = a })

-- a call whose result nobody looks at
unfoldable pub ignoring : (Applier → Bool × Applier) → Step
ignoring f m = let (_, a) = f m.applier in (true, record m { applier = a })

unfoldable pub by_inspector : (List Request → MigrationContext → Bool × MigrationContext) → Step
by_inspector f m =
    let (ok, c) = f m.applier.sent m.applier.context in
    (ok, record m { applier = record (m.applier) { context = c } })

unfoldable pub when : (Migrator → Bool) → Step → Step
when test step m = let done = step m in if test m then done else (true, m)

unfoldable pub testing : (Migrator → Bool) → Step
testing test m = (test m, m)

unfoldable pub always : (Migrator → Migrator) → Step
always f m = (true, f m)

module _ (env : Environment) where
  unfoldable pub phase_initial_setup : Step
  phase_initial_setup =
      and_then
        (or_error (codes "Inspector initialization failed")
          (testing (λ m. env.server.is_connected)))
        (and_then
          (or_error (codes "Failed to detect master")
            (by_inspector (λ sent ctx. detect_master env.server sent ctx)))
          (or_error (codes "Insufficient privileges")
            (testing (λ m. check_privileges env.server m.applier.sent))))

  unfoldable pub phase_create_ghost_table : Step
  phase_create_ghost_table =
      and_then
        (when (λ m. ghost_table_exists env.server m.applier.sent m.applier.context)
          (by_applier (drop_ghost_table env.server)))
        (and_then (by_applier (create_ghost_table env.server)) (
          and_then
            (when (λ m. changelog_table_exists env.server m.applier.sent m.applier.context)
              (ignoring (drop_changelog_table env.server)))
            (and_then (by_applier (create_changelog_table env.server))
              (always (λ m. record m { ghost_table_migrated = true })))))

  unfoldable pub phase_alter_ghost_table : Step
  phase_alter_ghost_table =
      and_then (by_applier (alter_ghost_table env.server))
        (by_inspector (λ sent ctx. inspect_ghost_table env.server env.iterate sent ctx))

  unfoldable pub phase_inspect_original_table : Step
  phase_inspect_original_table =
      and_then (by_inspector (λ sent ctx. inspect_original_table env.server env.iterate sent ctx)) (
        and_then
          (or_error (codes "Cannot find suitable unique key")
            (by_inspector (λ sent ctx. determine_shared_unique_key ctx)))
          (by_inspector (λ sent ctx. determine_column_pairs ctx)))

  unfoldable pub phase_validate_migration : Step
  phase_validate_migration =
      testing (λ m. (validate_migration env.server m.applier.sent m.applier.context).valid)

  row_count : Applier → ℕ
  row_count a =
      if a.context.config.exact_rowcount
      then get_exact_row_count env.server a.sent a.context
      else get_estimated_row_count env.server a.sent a.context

  unfoldable pub phase_populate_row_range : Step
  unfolding row_count
  phase_populate_row_range =
      and_then (by_inspector (λ sent ctx. read_row_range env.server sent ctx))
        (always (λ m. on_context (λ ctx. record ctx { total_row_count = row_count m.applier }) m))

  -- `Initialize` and `Start` of the streamer succeed; the heartbeat and the throttle thread start.
  unfoldable pub phase_read_stream_initiate : Step
  phase_read_stream_initiate =
      and_then (always (on_context (λ ctx. record ctx { initial_coordinates = env.position }))) (
        and_then (ignoring (write_changelog env.server (codes "good-to-go") [])) (
          always
            (λ m. record m { is_streaming = true; heartbeat_alive = true; throttle_alive = true })))

  -- The phases in the order of `Run`, each with the error that it is reported by.
  abbrev pub phases : List (Step × Bytes)
  phases =
      (phase_initial_setup, codes "Initial setup failed")
      ∷ (phase_create_ghost_table, codes "Create ghost table failed")
      ∷ (phase_alter_ghost_table, codes "Alter ghost table failed")
      ∷ (phase_inspect_original_table, codes "Inspect original table failed")
      ∷ (phase_validate_migration, codes "Validation failed")
      ∷ (phase_populate_row_range, codes "Populate row range failed")
      ∷ (phase_read_stream_initiate, codes "Stream initiation failed")
      ∷ []

  -- `if (!Phase()) { HandleError(error); return false; }` for each phase
  unfoldable pub run_phases : List (Step × Bytes) → Step
  run_phases [] m = (true, m)
  run_phases ((phase, error) ∷ ps) m =
      let (ok, m₁) = phase m in
      let later = run_phases ps m₁ in
      if ok then later else (false, handle_error env.server error m₁)

  -- `Run` up to the loop of `PhaseRowCopy`: the row copy and the events thread start behind the phases.
  unfoldable pub run_to_row_copy : Step
  run_to_row_copy m =
      let (ok, m₁) = run_phases phases (record m { is_running = true }) in
      if not ok then (false, m₁) else (
        true,
        on_context (set_current_phase row_copy) (record m₁ {
          row_copy_at = at_loop;
          last_key = m₁.applier.context.min_key;
          events_apply_alive = true;
        }),
      )
