-- ===== src/Logic/Checkpoint.antt =====
-- `Checkpoint` of include/logic/checkpoint.hpp and src/logic/checkpoint.cpp.
pub mod Resume
use gh_ost_cpp.Base.{
  if◌then◌else◌, Bytes, codes, bytes_eq, ℕ, Bool, true, false, not, ◌||◌, Option, none, some, List,
  [], ◌∷◌, ◌++◌,
}
use gh_ost_cpp.Strings.Quote.{escape_for_sql}
use gh_ost_cpp.Strings.Number.{to_string}
use gh_ost_cpp.Binlog.Coordinates.{BinlogCoordinates, no_coordinates}
use gh_ost_cpp.Binlog.Coordinates as Coordinates
use gh_ost_cpp.Binlog.Rows.{quote_name}
use gh_ost_cpp.Mysql.Server.{Row, Request, Server, execute, get}
use gh_ost_cpp.Context.{MigrationContext}

pub data Hint : Type 0 where
  heartbeat ghost_table_migrated row_copy_complete : Hint
  all_events_up_to_lock_processed cut_over_phase completed cancelled panic_abort : Hint

-- `copied_rows`, `phase` and `status`, which no code sets, are left out.
pub record CheckpointState : Type 0 where
  pub hint : Bytes
  pub value : Bytes
  pub coordinates : BinlogCoordinates

abbrev pub no_state : CheckpointState
no_state = record { hint = []; value = []; coordinates = no_coordinates }

unfoldable pub hint_to_string : Hint → Bytes
hint_to_string heartbeat = codes "heartbeat"
hint_to_string ghost_table_migrated = codes "ghost-table-migrated"
hint_to_string row_copy_complete = codes "row-copy-complete"
hint_to_string all_events_up_to_lock_processed = codes "all-events-up-to-lock-processed"
hint_to_string cut_over_phase = codes "cut-over-phase"
hint_to_string completed = codes "completed"
hint_to_string cancelled = codes "cancelled"
hint_to_string panic_abort = codes "panic-abort"

unfoldable pub parse_hint : Bytes → Hint
parse_hint s =
    if bytes_eq s (codes "heartbeat")
    then heartbeat
    else if bytes_eq s (codes "ghost-table-migrated")
    then ghost_table_migrated
    else if bytes_eq s (codes "row-copy-complete")
    then row_copy_complete
    else if bytes_eq s (codes "all-events-up-to-lock-processed")
    then all_events_up_to_lock_processed
    else if bytes_eq s (codes "cut-over-phase")
    then cut_over_phase
    else if bytes_eq s (codes "completed")
    then completed
    else if bytes_eq s (codes "cancelled")
    then cancelled
    else if bytes_eq s (codes "panic-abort")
    then panic_abort
    else heartbeat

unfoldable pub is_complete : CheckpointState → Bool
is_complete s = bytes_eq s.hint (codes "completed")

unfoldable pub is_cancelled : CheckpointState → Bool
is_cancelled s = bytes_eq s.hint (codes "cancelled") || bytes_eq s.hint (codes "panic-abort")

unfoldable pub can_resume : CheckpointState → Bool
can_resume s = is_complete s || is_cancelled s

unfoldable pub parse_changelog_entry : Bytes → Bytes → CheckpointState → CheckpointState
parse_changelog_entry hint value s = record s {
  hint = hint;
  value = value;
  coordinates = elim (Coordinates.parse value) [ none ↦ s.coordinates | some c ↦ c ];
}

abbrev or_empty : Option Bytes → Bytes
or_empty none = []
or_empty (some v) = v

-- `ReadCheckpoint` on the row that the server returns, if there is one; a statement is sent over a
-- connection that is there.
unfoldable pub read_checkpoint : Option Row → CheckpointState → Bool × CheckpointState
read_checkpoint none s = (false, s)
read_checkpoint (some row) s = (
  true,
  parse_changelog_entry (or_empty (get row (codes "hint"))) (or_empty (get row (codes "value"))) s,
)

unfoldable pub resume_from_checkpoint : CheckpointState → MigrationContext → Bool × MigrationContext
resume_from_checkpoint s ctx =
    if not (can_resume s)
    then (false, ctx)
    else (true, record ctx { current_coordinates = s.coordinates })

-- the changelog table as the checkpoint writes it
changelog_name : MigrationContext → Bytes
changelog_name ctx =
    quote_name ctx.config.database_name ++ (codes "." ++ quote_name ctx.changelog_table_name)

module _ (srv : Server) where
  unfoldable pub write_hint : Hint → Bytes → MigrationContext → List Request → Bool × List Request
  unfolding changelog_name
  write_hint hint value ctx sent =
      let r = execute (
        codes "INSERT INTO "
        ++ (changelog_name ctx
            ++ (codes " (hint, value) VALUES ('"
                ++ (escape_for_sql (hint_to_string hint)
                    ++ (codes "', '" ++ (escape_for_sql value ++ codes "')")))))) in
      (srv.accepts sent r, sent ++ r ∷ [])

  -- `now` is the clock, in milliseconds
  unfoldable pub write_checkpoint : ℕ → MigrationContext → List Request → Bool × List Request
  write_checkpoint now ctx sent = write_hint heartbeat (to_string now) ctx sent

  unfoldable pub read_hint : Hint → MigrationContext → List Request → Option Bytes
  unfolding changelog_name
  read_hint hint ctx sent = srv.value sent (
      codes "SELECT value FROM "
      ++ (changelog_name ctx
          ++ (codes " WHERE hint = '"
              ++ (escape_for_sql (hint_to_string hint)
                  ++ (codes "' " ++ codes " ORDER BY id DESC LIMIT 1")))))

  unfoldable pub clear_checkpoint : MigrationContext → List Request → Bool × List Request
  unfolding changelog_name
  clear_checkpoint ctx sent =
      let r = execute (codes "DELETE FROM " ++ changelog_name ctx) in
      (srv.accepts sent r, sent ++ r ∷ [])
