-- ===== src/Logic/Ending/Whole.antt =====
-- `Run` as a whole: the preparation, and then the threads.
use gh_ost_cpp.Base.{
  Bytes, codes, ◌≡◌, refl, ◌∙◌, inl, Bool, true, false, List, [], ◌∷◌, ◌++◌, arith,
}
use gh_ost_cpp.Mysql.Server.{Request}
use gh_ost_cpp.Context.{MigrationContext}
use gh_ost_cpp.Logic.Applier.{Applier}
use gh_ost_cpp.Logic.Migrator.{Migrator}
use gh_ost_cpp.Logic.Run.{
  Environment, Step, and_then, or_error, by_applier, ignoring, by_inspector, when, testing, always,
  phase_initial_setup, phase_create_ghost_table, phase_alter_ghost_table,
  phase_inspect_original_table, phase_validate_migration, phase_populate_row_range,
  phase_read_stream_initiate, run_phases, run_to_row_copy,
}
use gh_ost_cpp.Logic.Ending.{Ending, Move, run_moves}
use gh_ost_cpp.Logic.Ending.Order.{row_copy_begins, has_succeeded, run_moves-has_succeeded}

-- The flags that the preparation leaves alone.
abbrev SameFlags : Migrator → Migrator → Type 0
SameFlags m n =
    (n.is_running ≡ m.is_running)
    × (n.all_events_up_to_lock_processed ≡ m.all_events_up_to_lock_processed)

abbrev KeepsFlags : Step → Type 0
KeepsFlags s = (m : Migrator) → SameFlags m (s m).1

and_then-KeepsFlags : (s t : Step) → KeepsFlags s → KeepsFlags t → KeepsFlags (and_then s t)
unfolding and_then
and_then-KeepsFlags s t k l m = ground (arith, k m, l (s m).1)

or_error-KeepsFlags : (e : Bytes) (s : Step) → KeepsFlags s → KeepsFlags (or_error e s)
unfolding or_error
or_error-KeepsFlags e s k m = ground (arith, k m)

when-KeepsFlags : (test : Migrator → Bool) (s : Step) → KeepsFlags s → KeepsFlags (when test s)
unfolding when
when-KeepsFlags test s k m = ground (arith, k m)

testing-KeepsFlags : (test : Migrator → Bool) → KeepsFlags (testing test)
unfolding testing
testing-KeepsFlags test m = (refl, refl)

by_applier-KeepsFlags : (f : Applier → Bool × Applier) → KeepsFlags (by_applier f)
unfolding by_applier
by_applier-KeepsFlags f m = (refl, refl)

ignoring-KeepsFlags : (f : Applier → Bool × Applier) → KeepsFlags (ignoring f)
unfolding ignoring
ignoring-KeepsFlags f m = (refl, refl)

by_inspector-KeepsFlags :
    (f : List Request → MigrationContext → Bool × MigrationContext) → KeepsFlags (by_inspector f)
unfolding by_inspector
by_inspector-KeepsFlags f m = (refl, refl)

module _ (env : Environment) where
  initial_setup-KeepsFlags : KeepsFlags (phase_initial_setup env)
  unfolding phase_initial_setup
  initial_setup-KeepsFlags =
      and_then-KeepsFlags _ _ (or_error-KeepsFlags _ _ (testing-KeepsFlags _)) (
        and_then-KeepsFlags _ _ (or_error-KeepsFlags _ _ (by_inspector-KeepsFlags _))
          (or_error-KeepsFlags _ _ (testing-KeepsFlags _)))

  create_ghost_table-KeepsFlags : KeepsFlags (phase_create_ghost_table env)
  unfolding phase_create_ghost_table always
  create_ghost_table-KeepsFlags =
      and_then-KeepsFlags _ _ (when-KeepsFlags _ _ (by_applier-KeepsFlags _)) (
        and_then-KeepsFlags _ _ (by_applier-KeepsFlags _) (
          and_then-KeepsFlags _ _ (when-KeepsFlags _ _ (ignoring-KeepsFlags _))
            (and_then-KeepsFlags _ _ (by_applier-KeepsFlags _) (λ m. (refl, refl)))))

  alter_ghost_table-KeepsFlags : KeepsFlags (phase_alter_ghost_table env)
  unfolding phase_alter_ghost_table
  alter_ghost_table-KeepsFlags =
      and_then-KeepsFlags _ _ (by_applier-KeepsFlags _) (by_inspector-KeepsFlags _)

  inspect_original_table-KeepsFlags : KeepsFlags (phase_inspect_original_table env)
  unfolding phase_inspect_original_table
  inspect_original_table-KeepsFlags = and_then-KeepsFlags _ _ (by_inspector-KeepsFlags _) (
      and_then-KeepsFlags _ _ (or_error-KeepsFlags _ _ (by_inspector-KeepsFlags _))
        (by_inspector-KeepsFlags _))

  populate_row_range-KeepsFlags : KeepsFlags (phase_populate_row_range env)
  unfolding phase_populate_row_range always
  populate_row_range-KeepsFlags =
      and_then-KeepsFlags _ _ (by_inspector-KeepsFlags _) (λ m. (refl, refl))

  -- The last phase starts the two threads.
  read_stream_initiate_lem :
      (m : Migrator)
      → let n : Migrator = (phase_read_stream_initiate env m).1 in
        (n.heartbeat_alive ≡ true) × (n.throttle_alive ≡ true) × SameFlags m n
  unfolding phase_read_stream_initiate and_then always ignoring
  read_stream_initiate_lem m = ground arith

  abbrev AllKeepFlags : List (Step × Bytes) → Type 0
  AllKeepFlags [] = Unit
  AllKeepFlags ((phase, error) ∷ ps) = KeepsFlags phase × AllKeepFlags ps

  -- Phases that succeed hand a migrator with the same flags to the last one.
  run_phases-last :
      (ps : List (Step × Bytes)) (last : Step) (error : Bytes) (m : Migrator)
      → AllKeepFlags ps
      → (run_phases env (ps ++ (last, error) ∷ []) m).0 ≡ true
      → (n : Migrator) × SameFlags m n
        × ((run_phases env (ps ++ (last, error) ∷ []) m).1 ≡ (last n).1)
  unfolding run_phases
  run_phases-last [] last error m k h = (m, (refl, refl), ground arith)
  run_phases-last ((phase, e) ∷ ps) last error m k h =
      let (n, same, eq) = run_phases-last ps last error (phase m).1 k.1 (ground arith) in
      (n, ground (arith, k.0 m), ground arith)

  -- A preparation that succeeds leaves the migration running, with the two threads started.
  run_to_row_copy_lem :
      (m : Migrator)
      → (run_to_row_copy env m).0 ≡ true
      → let n : Migrator = (run_to_row_copy env m).1 in
        (n.is_running ≡ true)
        × (n.heartbeat_alive ≡ true)
        × (n.throttle_alive ≡ true)
        × (n.all_events_up_to_lock_processed ≡ m.all_events_up_to_lock_processed)
  unfolding run_to_row_copy
  run_to_row_copy_lem m h =
      let started : Migrator = record m { is_running = true } in
      let (n, same, eq) =
        run_phases-last
          ((phase_initial_setup env, codes "Initial setup failed")
            ∷ (phase_create_ghost_table env, codes "Create ghost table failed")
            ∷ (phase_alter_ghost_table env, codes "Alter ghost table failed")
            ∷ (phase_inspect_original_table env, codes "Inspect original table failed")
            ∷ (phase_validate_migration env, codes "Validation failed")
            ∷ (phase_populate_row_range env, codes "Populate row range failed")
            ∷ [])
          (phase_read_stream_initiate env) (codes "Stream initiation failed") started
          (
            initial_setup-KeepsFlags,
            (
              create_ghost_table-KeepsFlags,
              (
                alter_ghost_table-KeepsFlags,
                (
                  inspect_original_table-KeepsFlags,
                  (
                    (unfold phase_validate_migration in testing-KeepsFlags _),
                    (populate_row_range-KeepsFlags, tt),
                  ),
                ),
              ),
            ),
          )
          (ground arith) in
      ground (arith, read_stream_initiate_lem n)

  -- A whole run, of a migration that has processed no events yet: whatever the server answers and
  -- however the threads interleave, `Run` returns true only if somebody has cancelled the migration.
  pub run-has_succeeded :
      (m : Migrator) (vs : List Move)
      → m.all_events_up_to_lock_processed ≡ false
      → (run_to_row_copy env m).0 ≡ true
      → has_succeeded (run_moves env.server vs (row_copy_begins (run_to_row_copy env m).1)).at
        ≡ true
      → (run_moves env.server vs (row_copy_begins (run_to_row_copy env m).1)).migrator.is_cancelled
        ≡ true
  run-has_succeeded m vs f h s =
      let n : Migrator = (run_to_row_copy env m).1 in
      let (r, b, t, e) = run_to_row_copy_lem m h in
      run_moves-has_succeeded env.server vs n r b t (inl (e ∙ f)) s
