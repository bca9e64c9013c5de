-- ===== src/Logic/Migrator/Errors.antt =====
-- The ends of a migration that does not succeed.
use gh_ost_cpp.Base.{
  if◌then◌else◌, Bytes, codes, ◌≡◌, false, ◌&&◌, List, [], ◌∷◌, ◌++◌, append_assoc, arith,
}
use gh_ost_cpp.Mysql.Server.{Server, Request, execute}
use gh_ost_cpp.Sql.Builder.{build_drop_ghost_table_sql}
use gh_ost_cpp.Context.{failed, failed_phase}
use gh_ost_cpp.Logic.Applier.{full_name, send, drop_ghost_table, drop_changelog_table}
use gh_ost_cpp.Logic.Migrator.{Migrator, goes_on, cleanup_on_error, handle_error}

abbrev pub drop_changelog_request : Migrator → Request
drop_changelog_request m =
    execute
      (codes "DROP TABLE IF EXISTS " ++ full_name m.applier m.applier.context.changelog_table_name)

-- The statements of `CleanupOnError`.
abbrev pub cleanup_requests : Migrator → List Request
cleanup_requests m =
    let c = m.applier.context in
    (if m.ghost_table_migrated && c.config.drop_ghost_table
      then execute (build_drop_ghost_table_sql c.sql_builder) ∷ []
      else [])
    ++ drop_changelog_request m ∷ []

drops_append :
    (m : Migrator)
    → let first = execute (build_drop_ghost_table_sql m.applier.context.sql_builder) ∷ [] in
      let second = drop_changelog_request m ∷ [] in
      (m.applier.sent ++ first) ++ second ≡ m.applier.sent ++ (first ++ second)
drops_append m =
    append_assoc m.applier.sent
      (execute (build_drop_ghost_table_sql m.applier.context.sql_builder) ∷ [])
      (drop_changelog_request m ∷ [])

module _ (srv : Server) where
  -- An error leaves the migration failed, with the error noted, every loop told to end and the streamer
  -- stopped. It drops the changelog table, and the ghost table first where this migration has made it
  -- and the configuration asks for it; it touches no other table.
  pub handle_error_lem :
      (error : Bytes) (m : Migrator)
      → let after = handle_error srv error m in
        let c = after.applier.context in
        (c.status ≡ failed)
        × (c.current_phase ≡ failed_phase)
        × (c.last_error ≡ error)
        × (goes_on after ≡ false)
        × (after.is_streaming ≡ false)
        × (after.applier.sent ≡ m.applier.sent ++ cleanup_requests m)
  unfolding handle_error cleanup_on_error drop_ghost_table drop_changelog_table send
  handle_error_lem error m = ground (arith, drops_append m)
