-- ===== src/Logic/Migrator.antt =====
-- `Migrator` of include/logic/migrator.hpp and src/logic/migrator.cpp: its flags, its threads and the
-- phases that end a migration. The threads share the state and run in any order: a thread that is not
-- at its end takes a turn, which is one round of its loop, and for the row copy the part of a round up
-- to the next test. No hook runs: `Initialize` of `HooksExecutor` is never called, so that no hook is
-- registered and `ExecuteHook` does nothing.
pub mod Threads
pub mod RowCopy
pub mod Events
pub mod CutOver
pub mod Errors
use gh_ost_cpp.Base.{
  leb, if◌then◌else◌, Bytes, ℕ, Bool, true, false, not, ◌&&◌, List, [], ◌∷◌, ◌++◌,
}
use gh_ost_cpp.Mysql.Server.{Server}
use gh_ost_cpp.Binlog.Entry.{BinlogEntry, is_dml, is_for_table}
use gh_ost_cpp.Context.Config.{MigrationConfig}
use gh_ost_cpp.Context.{
  MigrationContext, running, paused, failed, cancelled, failed_phase, MigrationStatus, set_status,
  set_current_phase, set_last_error, set_config, initial_setup,
}
use gh_ost_cpp.Context as Context
use gh_ost_cpp.Throttle.{Throttler, Readings, throttle_round, user_throttle, user_unthrottle}
use gh_ost_cpp.Throttle as Throttle
use gh_ost_cpp.Logic.Applier.{
  Applier, next_count, copy_rows, apply_if_any, write_heartbeat, lock_original_table, unlock_tables,
  rename_tables, drop_old_table, drop_ghost_table, drop_changelog_table,
}

-- Where the row copy thread stands: at the test of its loop, in the wait for the throttle, before the
-- call of `CopyRows`, or at its end.
pub data RowCopyAt : Type 0 where
  at_loop at_throttle at_copy row_copy_stopped : RowCopyAt

pub record Migrator : Type 0 where
  pub applier : Applier
  pub throttler : Throttler
  pub is_running : Bool
  pub is_paused : Bool
  pub is_cancelled : Bool
  pub ghost_table_migrated : Bool
  pub row_copy_complete : Bool
  pub all_events_up_to_lock_processed : Bool
  -- the queue of the streamer, and whether the streamer runs
  pub events : List BinlogEntry
  pub is_streaming : Bool
  -- the row copy thread, its local variable `last_key`, and the other threads while they loop
  pub row_copy_at : RowCopyAt
  pub last_key : Bytes
  pub events_apply_alive : Bool
  pub heartbeat_alive : Bool
  pub throttle_alive : Bool

abbrev pub on_context : (MigrationContext → MigrationContext) → Migrator → Migrator
on_context f m = record m { applier = record (m.applier) { context = f m.applier.context } }

abbrev pub goes_on : Migrator → Bool
goes_on m = m.is_running && not m.is_cancelled

abbrev pub with_applier : Bool × Applier → Migrator → Migrator
with_applier r m = record m { applier = r.1 }

-- `Pause`, `Resume`, `Throttle`, `Unthrottle`
unfoldable pub pause : Migrator → Migrator
pause m = on_context (set_status paused) (record m { is_paused = true })

unfoldable pub resume : Migrator → Migrator
resume m = on_context (set_status running) (record m { is_paused = false })

unfoldable pub throttle : Migrator → Migrator
throttle m = on_context user_throttle m

unfoldable pub unthrottle : Migrator → Migrator
unthrottle m = on_context user_unthrottle m

-- The first lines of `Cancel`, up to the joins.
unfoldable pub begin_cancel : Migrator → Migrator
begin_cancel m =
    on_context (set_status cancelled) (record m { is_cancelled = true; is_running = false })

module _ (srv : Server) where
  -- The loop of `RunRowCopy`, from one test to the next. `max_key` is `last_key`.
  unfoldable pub row_copy_turn : Migrator → Migrator
  row_copy_turn m = elim m.row_copy_at [
    | at_loop ↦
        if not (goes_on m && not m.is_paused)
        then record m { row_copy_at = row_copy_stopped }
        else if leb m.applier.context.total_row_count m.applier.context.copied_row_count
        then record m { row_copy_complete = true; row_copy_at = row_copy_stopped }
        else record m { row_copy_at = at_throttle }
    | at_throttle ↦ if m.applier.context.is_throttled then m else record m { row_copy_at = at_copy }
    | at_copy ↦
        let max_key = m.last_key in
        let (ok, a) =
          copy_rows srv m.last_key max_key m.applier.context.config.throttle.chunk_size m.applier in
        if not ok
        then record m { applier = a; row_copy_at = row_copy_stopped }
        else record m { applier = a; last_key = max_key; row_copy_at = at_loop }
    | row_copy_stopped ↦ m
  ]

  -- `RunEventsApply` on an entry that it has taken from the queue.
  unfoldable pub process_entry : BinlogEntry → Applier → Applier
  process_entry entry a =
      let c = a.context.config in
      let a₁ =
        if is_dml entry && is_for_table entry c.database_name c.table_name
        then (apply_if_any srv entry.dml_event a).1
        else a in
      record a₁ {
        context = record (a₁.context) {
          current_coordinates = entry.coordinates;
          applied_event_count = next_count a₁.context.applied_event_count;
        };
      }

  -- One round of `RunEventsApply`; `PopFor` takes the first entry, if there is one.
  unfoldable pub events_apply_turn : Migrator → Migrator
  events_apply_turn m =
      if not m.events_apply_alive
      then m
      else if not (goes_on m)
      then record m { events_apply_alive = false }
      else elim m.events [
        | [] ↦
            if m.row_copy_complete
            then record m { all_events_up_to_lock_processed = true; events_apply_alive = false }
            else m
        | ◌∷◌ entry rest ↦ record m { events = rest; applier = process_entry entry m.applier }
      ]

  -- One round of `RunHeartbeat`, at a time of the clock.
  unfoldable pub heartbeat_turn : ℕ → Migrator → Migrator
  heartbeat_turn now m =
      if not m.heartbeat_alive
      then m
      else if not (goes_on m)
      then record m { heartbeat_alive = false }
      else with_applier (write_heartbeat srv now m.applier) m

-- One round of `RunThrottleCheck`.
unfoldable pub throttle_turn : Readings → Migrator → Migrator
throttle_turn r m =
    if not m.throttle_alive
    then m
    else if not (goes_on m)
    then record m { throttle_alive = false }
    else (let (ctx, t) = throttle_round r (m.applier.context, m.throttler) in
        record m { applier = record (m.applier) { context = ctx }; throttler = t })

-- What may happen next: a turn of a thread, an entry from the streamer, or a call from outside.
pub data Turn : Type 0 where
  row_copies applies_event : Turn
  beats : ℕ → Turn
  checks_throttle : Readings → Turn
  streams : BinlogEntry → Turn
  pauses resumes throttles unthrottles cancels : Turn

unfoldable pub take_turn : Server → Turn → Migrator → Migrator
take_turn srv row_copies m = row_copy_turn srv m
take_turn srv applies_event m = events_apply_turn srv m
take_turn srv (beats now) m = heartbeat_turn srv now m
take_turn srv (checks_throttle r) m = throttle_turn r m
take_turn srv (streams entry) m = record m { events = m.events ++ entry ∷ [] }
take_turn srv pauses m = pause m
take_turn srv resumes m = resume m
take_turn srv throttles m = throttle m
take_turn srv unthrottles m = unthrottle m
take_turn srv cancels m = begin_cancel m

-- A schedule of turns, the first one first.
unfoldable pub run_turns : Server → List Turn → Migrator → Migrator
run_turns srv [] m = m
run_turns srv (t ∷ ts) m = run_turns srv ts (take_turn srv t m)

module _ (srv : Server) where
  -- `PhaseCutOver` from its last wait on.
  unfoldable pub execute_cut_over : Migrator → Bool × Migrator
  execute_cut_over m =
      let m₁ = on_context (λ ctx. record ctx { is_cut_over_phase = true }) m in
      let (locked, a₁) = lock_original_table srv m₁.applier in
      let (renamed, a₂) = rename_tables srv a₁ in
      let (_, a₃) = unlock_tables srv a₂ in
      if not locked
      then (false, record m₁ { applier = a₁ })
      else if not renamed
      then (false, record m₁ { applier = a₃ })
      else (
        true,
        on_context (λ ctx. record ctx { is_cut_over_phase = false }) (record m₁ { applier = a₃ }),
      )

  -- The statements of `PhaseCleanup`, up to the joins.
  unfoldable pub begin_cleanup : Migrator → Migrator
  begin_cleanup m =
      let a₁ =
        if m.applier.context.config.drop_original_table
        then (drop_old_table srv m.applier).1
        else m.applier in
      record m { applier = (drop_changelog_table srv a₁).1; is_streaming = false }

  unfoldable pub cleanup_on_error : Migrator → Migrator
  cleanup_on_error m =
      let a₁ =
        if m.ghost_table_migrated && m.applier.context.config.drop_ghost_table
        then (drop_ghost_table srv m.applier).1
        else m.applier in
      record m {
        is_running = false;
        is_cancelled = true;
        is_streaming = false;
        applier = (drop_changelog_table srv a₁).1;
      }

  unfoldable pub handle_error : Bytes → Migrator → Migrator
  handle_error error m = cleanup_on_error (
      on_context
        (λ ctx. set_current_phase failed_phase (set_status failed (set_last_error error ctx))) m)

  -- `Cancel` behind its joins.
  unfoldable pub end_cancel : Migrator → Migrator
  end_cancel m = cleanup_on_error m
