-- ===== src/Logic/Ending/Order.antt =====
-- When `Run` cuts over, and when it returns.
use gh_ost_cpp.Base.{◌≡◌, refl, ◌⊎◌, Bool, true, false, List, [], ◌∷◌, arith}
use gh_ost_cpp.Mysql.Server.{Server}
use gh_ost_cpp.Logic.Migrator.{
  Migrator, Turn, take_turn, row_copy_turn, events_apply_turn, heartbeat_turn, throttle_turn, pause,
  resume, throttle, unthrottle, begin_cancel, execute_cut_over, begin_cleanup, cleanup_on_error,
  handle_error,
}
use gh_ost_cpp.Logic.Migrator.Events.{IsSettled, take_turn-IsSettled}
use gh_ost_cpp.Logic.Ending.{
  RunAt, monitoring, cuts_over, cleans_up, joins_heartbeat, joins_throttle, postponed, returned,
  Ending, ending_step, Move, run_steps, takes, take_move, run_moves,
}

-- `Run` has left the wait for the events, with success so far.
abbrev pub is_past_wait : RunAt → Bool
is_past_wait postponed = true
is_past_wait cuts_over = true
is_past_wait cleans_up = true
is_past_wait joins_heartbeat = true
is_past_wait joins_throttle = true
is_past_wait (returned ok) = ok
is_past_wait _ = false

abbrev pub has_succeeded : RunAt → Bool
has_succeeded (returned ok) = ok
has_succeeded _ = false

abbrev Loops : Migrator → Type 0
Loops m =
    ((m.is_running ≡ true) × (m.heartbeat_alive ≡ true) × (m.throttle_alive ≡ true))
    ⊎ (m.is_cancelled ≡ true)

record IsOrdered (e : Ending) : Type 0 where
  loops : Loops e.migrator
  settled : IsSettled e.migrator
  processed : (is_past_wait e.at ≡ false) ⊎ (e.migrator.all_events_up_to_lock_processed ≡ true)
  unsuccessful : (has_succeeded e.at ≡ false) ⊎ (e.migrator.is_cancelled ≡ true)

-- The thread of `Run` at the loop of `PhaseRowCopy`.
abbrev pub row_copy_begins : Migrator → Ending
row_copy_begins m = record { migrator = m; at = monitoring }

module _ (srv : Server) where
  take_turn-Loops : (t : Turn) (m : Migrator) → Loops m → Loops (take_turn srv t m)
  unfolding take_turn row_copy_turn events_apply_turn heartbeat_turn throttle_turn pause resume
      throttle unthrottle begin_cancel
  take_turn-Loops t m l = ground arith

  -- Flags that are up stay up.
  take_turn-flags :
      (t : Turn) (m : Migrator)
      → (m.all_events_up_to_lock_processed ≡ true
          → (take_turn srv t m).all_events_up_to_lock_processed ≡ true)
        × (m.is_cancelled ≡ true → (take_turn srv t m).is_cancelled ≡ true)
  unfolding take_turn row_copy_turn events_apply_turn heartbeat_turn throttle_turn pause resume
      throttle unthrottle begin_cancel
  take_turn-flags t m = ground arith

  takes-IsOrdered : (t : Turn) (e : Ending) → IsOrdered e → IsOrdered (take_move srv (takes t) e)
  unfolding take_move
  takes-IsOrdered t e o = record {
    loops = take_turn-Loops t e.migrator o.loops;
    settled = take_turn-IsSettled srv t e.migrator refl o.settled;
    processed = ground (arith, take_turn-flags t e.migrator);
    unsuccessful = ground (arith, take_turn-flags t e.migrator);
  }

  ending_step-IsOrdered : (e : Ending) → IsOrdered e → IsOrdered (ending_step srv e)
  unfolding ending_step execute_cut_over begin_cleanup handle_error cleanup_on_error
  ending_step-IsOrdered e o = ground arith

  take_move-IsOrdered : (v : Move) (e : Ending) → IsOrdered e → IsOrdered (take_move srv v e)
  take_move-IsOrdered run_steps e o = unfold take_move in ending_step-IsOrdered e o
  take_move-IsOrdered (takes t) e o = takes-IsOrdered t e o

  run_moves-IsOrdered : (vs : List Move) (e : Ending) → IsOrdered e → IsOrdered (run_moves srv vs e)
  unfolding run_moves
  run_moves-IsOrdered [] e o = o
  run_moves-IsOrdered (v ∷ vs) e o =
      run_moves-IsOrdered vs (take_move srv v e) (take_move-IsOrdered v e o)

  starts-IsOrdered :
      (m : Migrator)
      → m.is_running ≡ true
      → m.heartbeat_alive ≡ true
      → m.throttle_alive ≡ true
      → IsSettled m
      → IsOrdered (row_copy_begins m)
  starts-IsOrdered m r h t s = ground arith

  -- However the threads interleave, and whoever calls what, `Run` is past its wait for the events, and
  -- so at the cut-over or behind it, only when the row copy is complete, all events are processed, and
  -- the events thread has ended.
  pub run_moves-is_past_wait :
      (vs : List Move) (m : Migrator)
      → m.is_running ≡ true
      → m.heartbeat_alive ≡ true
      → m.throttle_alive ≡ true
      → IsSettled m
      → is_past_wait (run_moves srv vs (row_copy_begins m)).at ≡ true
      → let e : Ending = run_moves srv vs (row_copy_begins m) in
        (e.migrator.all_events_up_to_lock_processed ≡ true)
        × (e.migrator.row_copy_complete ≡ true)
        × (e.migrator.events_apply_alive ≡ false)
  run_moves-is_past_wait vs m r h t s p =
      let o = run_moves-IsOrdered vs (row_copy_begins m) (starts-IsOrdered m r h t s) in
      ground arith

  -- `Run` returns true only of a migration that somebody has cancelled: the joins of `PhaseCleanup` wait
  -- for threads that nothing else ends.
  pub run_moves-has_succeeded :
      (vs : List Move) (m : Migrator)
      → m.is_running ≡ true
      → m.heartbeat_alive ≡ true
      → m.throttle_alive ≡ true
      → IsSettled m
      → has_succeeded (run_moves srv vs (row_copy_begins m)).at ≡ true
      → (run_moves srv vs (row_copy_begins m)).migrator.is_cancelled ≡ true
  run_moves-has_succeeded vs m r h t s p =
      let o = run_moves-IsOrdered vs (row_copy_begins m) (starts-IsOrdered m r h t s) in
      ground arith
