-- ===== src/Logic/Migrator/Events.antt =====
-- The events thread: what it does with an entry, and when it declares all events processed.
use gh_ost_cpp.Base.{
  if◌then◌else◌, all, ◌≡◌, refl, ◌⊎◌, Bool, true, false, ◌&&◌, List, [], ◌∷◌, arith,
}
use gh_ost_cpp.Binlog.Entry.{BinlogEntry, is_dml, is_for_table}
use gh_ost_cpp.Mysql.Server.{Server}
use gh_ost_cpp.Context.{MigrationContext}
use gh_ost_cpp.Logic.Applier.{Applier}
use gh_ost_cpp.Logic.Migrator.{
  Migrator, Turn, take_turn, run_turns, row_copy_turn, events_apply_turn, heartbeat_turn,
  throttle_turn, pause, resume, throttle, unthrottle, begin_cancel,
}
use gh_ost_cpp.Logic.Migrator.Threads.{run_turns-keeps}

-- All events can be declared processed only behind a complete row copy, and then the thread has ended.
abbrev pub IsSettled : Migrator → Type 0
IsSettled m =
    (m.all_events_up_to_lock_processed ≡ false)
    ⊎ ((m.row_copy_complete ≡ true) × (m.events_apply_alive ≡ false))

-- The entry is a change of the table under migration.
abbrev pub is_relevant : MigrationContext → BinlogEntry → Bool
is_relevant ctx entry =
    is_dml entry && is_for_table entry ctx.config.database_name ctx.config.table_name

-- The applier behind an entry that is relevant or not.
abbrev pub chosen : Bool → Applier → Applier → Applier
chosen relevant applied a = if relevant then applied else a

module _ (srv : Server) where
  pub take_turn-IsSettled :
      (t : Turn) (m : Migrator) → true ≡ true → IsSettled m → IsSettled (take_turn srv t m)
  unfolding take_turn row_copy_turn events_apply_turn heartbeat_turn throttle_turn pause resume
      throttle unthrottle begin_cancel
  take_turn-IsSettled t m n s = ground arith

  -- In every schedule, the flag that lets the cut-over begin is set only behind a complete row copy,
  -- and the events thread has ended by then: it processes no event after the flag is up.
  pub run_turns-IsSettled :
      (ts : List Turn) (m : Migrator) → IsSettled m → IsSettled (run_turns srv ts m)
  run_turns-IsSettled ts m s =
      run_turns-keeps srv IsSettled (λ t. true) take_turn-IsSettled ts m (every ts) s
    where
      every : (l : List Turn) → all (λ t. true) l ≡ true
      every [] = refl
      every (t ∷ l) = every l
