-- ===== src/Logic/Migrator/RowCopy.antt =====
-- The row copy thread.
use gh_ost_cpp.Base.{
  leb, if◌then◌else◌, all, Bytes, ℕ, ◌≡◌, refl, ap, Bool, true, false, ◌&&◌, List, [], ◌∷◌, arith,
}
use gh_ost_cpp.Mysql.Server.{Server, Request}
use gh_ost_cpp.Binlog.Entry.{BinlogEntry, is_dml, is_for_table}
use gh_ost_cpp.Sql.Builder.{build_row_copy_sql}
use gh_ost_cpp.Context.{MigrationContext}
use gh_ost_cpp.Throttle.{throttle_round, user_throttle, user_unthrottle, Readings}
use gh_ost_cpp.Logic.Applier.Batch.{apply_if_any_lem}
use gh_ost_cpp.Logic.Migrator.{
  Migrator, Turn, take_turn, run_turns, row_copy_turn, events_apply_turn, heartbeat_turn,
  throttle_turn, pause, resume, throttle, unthrottle, begin_cancel, row_copy_stopped, at_loop,
  process_entry, row_copies, applies_event, beats, checks_throttle,
}
use gh_ost_cpp.Logic.Migrator.Threads.{run_turns-keeps}
use gh_ost_cpp.Logic.Applier.{
  Applier, first_column, copy_rows, chunk_of, apply_if_any, write_heartbeat, write_changelog, send,
}

module _ (srv : Server) where
  abbrev HasStopped : Bool → Migrator → Type 0
  HasStopped complete m = (m.row_copy_at ≡ row_copy_stopped) × (m.row_copy_complete ≡ complete)

  take_turn-HasStopped :
      (complete : Bool) (t : Turn) (m : Migrator)
      → true ≡ true
      → HasStopped complete m
      → HasStopped complete (take_turn srv t m)
  unfolding take_turn row_copy_turn events_apply_turn heartbeat_turn throttle_turn pause resume
      throttle unthrottle begin_cancel
  take_turn-HasStopped complete t m n s = ground arith

  pub every_turn : (ts : List Turn) → all (λ t. true) ts ≡ true
  every_turn [] = refl
  every_turn (t ∷ ts) = every_turn ts

  pause-stops :
      (m : Migrator)
      → m.row_copy_at ≡ at_loop
      → m.row_copy_complete ≡ false
      → HasStopped false (row_copy_turn srv (pause m))
  unfolding row_copy_turn pause
  pause-stops m at c = ground arith

  -- A row copy thread that comes to its test while the migration is paused ends there, and no schedule
  -- of turns and calls, `Resume` included, brings it back or completes the row copy.
  pub pause-never_resumes :
      (ts : List Turn) (m : Migrator)
      → m.row_copy_at ≡ at_loop
      → m.row_copy_complete ≡ false
      → let later = run_turns srv ts (row_copy_turn srv (pause m)) in
        (later.row_copy_at ≡ row_copy_stopped) × (later.row_copy_complete ≡ false)
  pause-never_resumes ts m at c =
      run_turns-keeps srv (HasStopped false) (λ t. true) (take_turn-HasStopped false) ts
        (row_copy_turn srv (pause m)) (every_turn ts) (pause-stops m at c)

  -- What the row copy reads and the schedule leaves alone: its range, the statements' parameters, the
  -- counts, and that it is not complete.
  abbrev pub IsStuck : MigrationContext → Bytes → Migrator → Type 0
  IsStuck ctx key m =
      let c = m.applier.context in
      (m.row_copy_complete ≡ false)
      × (m.last_key ≡ key)
      × (c.config ≡ ctx.config)
      × (c.sql_builder ≡ ctx.sql_builder)
      × (c.unique_key ≡ ctx.unique_key)
      × (c.column_pairs ≡ ctx.column_pairs)
      × (c.total_row_count ≡ ctx.total_row_count)
      × (c.copied_row_count ≡ ctx.copied_row_count)

  -- No row has a key above a bound and at most that bound.
  abbrev pub HasNoRowsInEmptyRanges : MigrationContext → Bytes → Type 0
  HasNoRowsInEmptyRanges ctx key =
      (sent : List Request)
      → srv.rows sent (
          build_row_copy_sql ctx.sql_builder (first_column ctx.unique_key.columns) key key
            ctx.config.throttle.chunk_size ctx.column_pairs)
        ≡ []

  module _ (ctx : MigrationContext) (key : Bytes) (no_rows : HasNoRowsInEmptyRanges ctx key)
      (incomplete : leb ctx.total_row_count ctx.copied_row_count ≡ false) where
    empty_chunk :
        (m : Migrator)
        → IsStuck ctx key m
        → chunk_of srv m.last_key m.last_key m.applier.context.config.throttle.chunk_size m.applier
          ≡ []
    unfolding chunk_of
    empty_chunk m (_, k, config, builder, unique, pairs, _, _) =
        rw (k, config, builder, unique, pairs) (no_rows m.applier.sent)

    nothing_copied :
        (m : Migrator)
        → IsStuck ctx key m
        → copy_rows srv m.last_key m.last_key m.applier.context.config.throttle.chunk_size m.applier
          ≡ (true, m.applier)
    unfolding copy_rows
    nothing_copied m s = ground (arith, empty_chunk m s)

    row_copy_turn-IsStuck :
        (m : Migrator) → IsStuck ctx key m → IsStuck ctx key (row_copy_turn srv m)
    unfolding row_copy_turn
    row_copy_turn-IsStuck m s = ground (arith, nothing_copied m s, incomplete)

    -- What the row copy reads is the same in both contexts.
    abbrev Alike : MigrationContext → MigrationContext → Type 0
    Alike c d =
        (c.config ≡ d.config)
        × (c.sql_builder ≡ d.sql_builder)
        × (c.unique_key ≡ d.unique_key)
        × (c.column_pairs ≡ d.column_pairs)
        × (c.total_row_count ≡ d.total_row_count)
        × (c.copied_row_count ≡ d.copied_row_count)

    Alike-of_eq : (c d : MigrationContext) → c ≡ d → Alike c d
    Alike-of_eq c d e = (
      ap (λ (x : MigrationContext). x.config) e,
      ap (λ (x : MigrationContext). x.sql_builder) e,
      ap (λ (x : MigrationContext). x.unique_key) e,
      ap (λ (x : MigrationContext). x.column_pairs) e,
      ap (λ (x : MigrationContext). x.total_row_count) e,
      ap (λ (x : MigrationContext). x.copied_row_count) e,
    )

    chosen-context :
        (b : Bool) (x a : Applier)
        → x.context ≡ a.context
        → (if b then x else a).context ≡ a.context
    chosen-context true x a e = e
    chosen-context false x a e = refl

    process_entry-context :
        (entry : BinlogEntry) (a : Applier) → Alike (process_entry srv entry a).context a.context
    unfolding process_entry
    process_entry-context entry a =
        let (_, same) = apply_if_any_lem srv entry.dml_event a in
        let relevant =
          is_dml entry
          && is_for_table entry a.context.config.database_name a.context.config.table_name in
        let x = (apply_if_any srv entry.dml_event a).1 in
        Alike-of_eq (if relevant then x else a).context a.context (chosen-context relevant x a same)

    events_apply_turn-IsStuck :
        (m : Migrator) (events : List BinlogEntry)
        → m.events ≡ events
        → IsStuck ctx key m
        → IsStuck ctx key (events_apply_turn srv m)
    unfolding events_apply_turn
    events_apply_turn-IsStuck m [] e s = ground arith
    events_apply_turn-IsStuck m (entry ∷ rest) e s =
        ground (arith, process_entry-context entry m.applier)

    heartbeat_turn-IsStuck :
        (now : ℕ) (m : Migrator) → IsStuck ctx key m → IsStuck ctx key (heartbeat_turn srv now m)
    unfolding heartbeat_turn write_heartbeat write_changelog send
    heartbeat_turn-IsStuck now m s = ground arith

    throttle_turn-IsStuck :
        (r : Readings) (m : Migrator) → IsStuck ctx key m → IsStuck ctx key (throttle_turn r m)
    unfolding throttle_turn throttle_round
    throttle_turn-IsStuck r m s = ground arith

    take_turn-IsStuck :
        (t : Turn) (m : Migrator)
        → true ≡ true
        → IsStuck ctx key m
        → IsStuck ctx key (take_turn srv t m)
    unfolding take_turn pause resume throttle unthrottle user_throttle user_unthrottle begin_cancel
    take_turn-IsStuck row_copies m n s = row_copy_turn-IsStuck m s
    take_turn-IsStuck applies_event m n s = events_apply_turn-IsStuck m m.events refl s
    take_turn-IsStuck (beats now) m n s = heartbeat_turn-IsStuck now m s
    take_turn-IsStuck (checks_throttle r) m n s = throttle_turn-IsStuck r m s
    take_turn-IsStuck t m n s = s

    -- The row copy of a table with rows is never complete. If the server returns no rows for a range
    -- with the same key as both bounds, if fewer rows have been copied than there are, and if the row
    -- copy is not complete, then in every schedule of turns and calls it stays so and the count of
    -- copied rows never changes: the range that the thread copies is always the one from `last_key`
    -- to `last_key`.
    pub row_copy-never_completes :
        (ts : List Turn) (m : Migrator)
        → m.applier.context ≡ ctx
        → m.last_key ≡ key
        → m.row_copy_complete ≡ false
        → let later = run_turns srv ts m in
          (later.row_copy_complete ≡ false)
          × (later.applier.context.copied_row_count ≡ ctx.copied_row_count)
    row_copy-never_completes ts m same k c =
        let (config, builder, unique, pairs, total, count) =
          Alike-of_eq m.applier.context ctx same in
        let (still, _, _, _, _, _, _, copied) =
          run_turns-keeps srv (IsStuck ctx key) (λ t. true) take_turn-IsStuck ts m (every_turn ts)
            (c, k, config, builder, unique, pairs, total, count) in
        (still, copied)
