-- ===== src/Logic/Ending.antt =====
-- `Run` of src/logic/migrator.cpp from the start of the row copy on: the loop of `PhaseRowCopy`,
-- `PhaseCutOver`, `PhaseCleanup` and the return, as steps of the thread that called `Run`, among the
-- turns of the other threads. A step is one test of a loop, one join, or the statements of a phase.
pub mod Order
pub mod Whole
use gh_ost_cpp.Base.{if◌then◌else◌, Bytes, codes, Bool, true, false, not, ◌&&◌, List, [], ◌∷◌}
use gh_ost_cpp.Mysql.Server.{Server}
use gh_ost_cpp.Context.{
  completed, completed_phase, cut_over, cleanup, set_status, set_current_phase,
}
use gh_ost_cpp.Logic.Migrator.{
  Migrator, Turn, RowCopyAt, row_copy_stopped, on_context, goes_on, take_turn, execute_cut_over,
  begin_cleanup, handle_error,
}

pub data RunAt : Type 0 where
  monitoring joins_row_copy joins_events_apply waits_for_events postponed : RunAt
  cuts_over cleans_up joins_heartbeat joins_throttle : RunAt
  returned : Bool → RunAt

pub record Ending : Type 0 where
  pub migrator : Migrator
  pub at : RunAt

abbrev pub has_stopped : RowCopyAt → Bool
has_stopped row_copy_stopped = true
has_stopped _ = false

abbrev stays : RunAt → Migrator → Ending
stays at m = record { migrator = m; at = at }

module _ (srv : Server) where
  -- `HandleError(error); return false;`
  abbrev fails : Bytes → Migrator → Ending
  fails error m = stays (returned false) (handle_error srv error m)

  -- what the result of the cut-over leads to
  abbrev behind_cut_over : Bool × Migrator → Ending
  behind_cut_over (ok, m) =
      if ok
      then stays cleans_up (on_context (set_current_phase cleanup) m)
      else fails (codes "Cut-over failed") m

  abbrev step_at : RunAt → Migrator → Ending
  -- `while (running_ && !row_copy_complete_ && !cancelled_)`; the body changes nothing
  step_at monitoring m =
      if m.is_running && not m.row_copy_complete && not m.is_cancelled
      then stays monitoring m
      else stays joins_row_copy m
  step_at joins_row_copy m =
      if has_stopped m.row_copy_at then stays joins_events_apply m else stays joins_row_copy m
  step_at joins_events_apply m =
      if m.events_apply_alive
      then stays joins_events_apply m
      else if m.is_cancelled
      then fails (codes "Row copy failed") m
      else stays waits_for_events (on_context (set_current_phase cut_over) m)
  step_at waits_for_events m =
      if m.is_running && not m.all_events_up_to_lock_processed && not m.is_cancelled
      then stays waits_for_events m
      else if m.is_cancelled
      then fails (codes "Cut-over failed") m
      else if m.applier.context.config.cut_over.postpone_cut_over
      then stays postponed m
      else stays cuts_over m
  step_at postponed m =
      if goes_on m
      then stays postponed m
      else if m.is_cancelled
      then fails (codes "Cut-over failed") m
      else stays cuts_over m
  step_at cuts_over m = behind_cut_over (execute_cut_over srv m)
  step_at cleans_up m = stays joins_heartbeat (begin_cleanup srv m)
  step_at joins_heartbeat m =
      if m.heartbeat_alive then stays joins_heartbeat m else stays joins_throttle m
  step_at joins_throttle m =
      if m.throttle_alive
      then stays joins_throttle m
      else stays (returned true)
          (on_context (λ ctx. set_current_phase completed_phase (set_status completed ctx)) m)
  step_at (returned ok) m = stays (returned ok) m

  -- One step of the thread of `Run`.
  unfoldable pub ending_step : Ending → Ending
  ending_step e = step_at e.at e.migrator

-- What may happen next: a step of `Run`, or a turn of another thread.
pub data Move : Type 0 where
  run_steps : Move
  takes : Turn → Move

unfoldable pub take_move : Server → Move → Ending → Ending
take_move srv run_steps e = ending_step srv e
take_move srv (takes t) e = record e { migrator = take_turn srv t e.migrator }

unfoldable pub run_moves : Server → List Move → Ending → Ending
run_moves srv [] e = e
run_moves srv (v ∷ vs) e = run_moves srv vs (take_move srv v e)
