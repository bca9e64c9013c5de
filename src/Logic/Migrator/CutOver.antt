-- ===== src/Logic/Migrator/CutOver.antt =====
-- The cut-over and the statements of the cleanup.
use gh_ost_cpp.Base.{if◌then◌else◌, codes, ◌≡◌, not, ◌&&◌, [], ◌∷◌, ◌++◌, append_assoc, arith}
use gh_ost_cpp.Mysql.Server.{Server, Request, execute}
use gh_ost_cpp.Sql.Builder.{
  build_lock_original_table_sql, build_rename_tables_sql, build_drop_old_table_sql,
}
use gh_ost_cpp.Logic.Applier.{
  full_name, send, lock_original_table, rename_tables, atomic_rename_tables, unlock_tables,
  drop_old_table, drop_changelog_table,
}
use gh_ost_cpp.Logic.Migrator.{Migrator, execute_cut_over, begin_cleanup}

abbrev pub lock_request : Migrator → Request
lock_request m = execute (build_lock_original_table_sql m.applier.context.sql_builder)

abbrev pub rename_request : Migrator → Request
rename_request m = execute (build_rename_tables_sql m.applier.context.sql_builder)

abbrev pub unlock_request : Request
unlock_request = execute (codes "UNLOCK TABLES")

module _ (srv : Server) where
  -- The cut-over sends the lock of the original table first. If that is refused it sends nothing more
  -- and fails. Otherwise it sends the rename, and then, whether the rename was accepted or not, the
  -- unlock; it succeeds just when the rename was accepted. The flag that marks the cut-over is taken
  -- back only by a success.
  pub execute_cut_over_lem :
      (m : Migrator)
      → let before = m.applier.sent in
        let result = execute_cut_over srv m in
        let after = result.1 in
        let locked = srv.accepts before (lock_request m) in
        let renamed = srv.accepts (before ++ lock_request m ∷ []) (rename_request m) in
        (result.0 ≡ (locked && renamed))
        × (after.applier.sent
            ≡ before
              ++ (if locked
                  then lock_request m ∷ rename_request m ∷ unlock_request ∷ []
                  else lock_request m ∷ []))
        × (after.applier.context.is_cut_over_phase ≡ not (locked && renamed))
  unfolding execute_cut_over lock_original_table rename_tables atomic_rename_tables unlock_tables
      send
  execute_cut_over_lem m = ground (
    arith,
    append_assoc m.applier.sent (lock_request m ∷ []) (rename_request m ∷ []),
    append_assoc m.applier.sent (lock_request m ∷ rename_request m ∷ []) (unlock_request ∷ []),
  )

  -- The cleanup of a migration drops the old table just where the configuration asks for it, then
  -- always the changelog table, whatever the server answers.
  pub begin_cleanup-sent :
      (m : Migrator)
      → let c = m.applier.context in
        (begin_cleanup srv m).applier.sent
        ≡ m.applier.sent
          ++ ((if c.config.drop_original_table
                then execute (build_drop_old_table_sql c.sql_builder) ∷ []
                else [])
              ++ execute
                  (codes "DROP TABLE IF EXISTS " ++ full_name m.applier c.changelog_table_name)
                ∷ [])
  unfolding begin_cleanup drop_old_table drop_changelog_table send
  begin_cleanup-sent m =
      let c = m.applier.context in
      ground (
        arith,
        append_assoc m.applier.sent (execute (build_drop_old_table_sql c.sql_builder) ∷ []) (
            execute (codes "DROP TABLE IF EXISTS " ++ full_name m.applier c.changelog_table_name)
            ∷ []),
      )
