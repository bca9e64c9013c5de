-- ===== src/Logic/Run/Failure.antt =====
-- A phase that fails.
use gh_ost_cpp.Base.{Bytes, ◌≡◌, true, false, List, [], ◌∷◌, arith}
use gh_ost_cpp.Context.{failed, failed_phase}
use gh_ost_cpp.Logic.Migrator.{Migrator, goes_on}
use gh_ost_cpp.Logic.Migrator.Errors.{handle_error_lem}
use gh_ost_cpp.Logic.Run.{Environment, Step, run_phases, phases, run_to_row_copy}

-- Failed, and told to stop.
abbrev pub HasFailed : Migrator → Type 0
HasFailed m =
    (m.applier.context.status ≡ failed)
    × (m.applier.context.current_phase ≡ failed_phase)
    × (goes_on m ≡ false)
    × (m.is_streaming ≡ false)

module _ (env : Environment) where
  run_phases-failed :
      (ps : List (Step × Bytes)) (m : Migrator)
      → (run_phases env ps m).0 ≡ false
      → HasFailed (run_phases env ps m).1
  unfolding run_phases
  run_phases-failed [] m h = ground arith
  run_phases-failed ((phase, error) ∷ ps) m h =
      ground
        (arith, run_phases-failed ps (phase m).1, handle_error_lem env.server error (phase m).1)

  -- A run whose preparation fails, in whatever phase, leaves the migration failed, with every loop told
  -- to end and the streamer stopped.
  pub run_to_row_copy-failed :
      (m : Migrator) → (run_to_row_copy env m).0 ≡ false → HasFailed (run_to_row_copy env m).1
  unfolding run_to_row_copy
  run_to_row_copy-failed m h =
      ground (arith, run_phases-failed (phases env) (record m { is_running = true }))
