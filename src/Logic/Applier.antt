-- ===== src/Logic/Applier.antt =====
-- `Applier` of include/logic/applier.hpp and src/logic/applier.cpp, on a connection that has been set.
-- The context that it shares with the migrator is part of its state, and so are the requests that the
-- server has received.
pub mod Statements
pub mod Batch
pub mod Copy
use gh_ost_cpp.Base.{
  if◌then◌else◌, is_empty, Bytes, codes, ℕ, ◌+◌, ◌%◌, Bool, true, false, not, Option, none, some,
  List, [], ◌∷◌, ◌++◌, map,
}
use gh_ost_cpp.Strings.Split.{join}
use gh_ost_cpp.Strings.Number.{u64_mod, parse_uint64, to_string}
use gh_ost_cpp.Strings.Quote.{escape_for_sql}
use gh_ost_cpp.Binlog.Rows.{
  BinlogRowData, BinlogDmlEvent, DmlType, insert, update, delete, quote_name, value_to_sql,
  to_insert_values_sql, to_update_sql,
}
use gh_ost_cpp.Binlog.Entry.{BinlogEntry}
use gh_ost_cpp.Mysql.Server.{Row, Request, execute, begin_transaction, commit, rollback, Server}
use gh_ost_cpp.Sql.Types.{AlterOperation}
use gh_ost_cpp.Sql.Builder.{
  build_create_changelog_table_sql, build_row_copy_sql, build_insert_into_ghost_sql,
  build_insert_changelog_sql, build_select_changelog_sql, build_delete_changelog_sql,
  build_lock_original_table_sql, build_rename_tables_sql, build_drop_old_table_sql,
  build_drop_ghost_table_sql,
}
use gh_ost_cpp.Context.{MigrationContext}

pub record Applier : Type 0 where
  pub context : MigrationContext
  pub sent : List Request
  pub applied_count : ℕ
  pub row_copy_count : ℕ

-- `columns[0]` of the unique key: a key has a column, and reading one that has none is undefined.
abbrev pub first_column : List Bytes → Bytes
first_column [] = []
first_column (c ∷ cs) = c

abbrev pub key_column : Applier → Bytes
key_column a = first_column a.context.unique_key.columns

-- `database`.`table` as the applier writes it
abbrev pub full_name : Applier → Bytes → Bytes
full_name a table = quote_name a.context.config.database_name ++ (codes "." ++ quote_name table)

abbrev pub next_count : ℕ → ℕ
next_count n = (n + 1) % u64_mod

unfoldable pub build_insert_sql : MigrationContext → BinlogRowData → Bytes
build_insert_sql ctx row =
    codes "INSERT INTO "
    ++ ((quote_name ctx.config.database_name ++ (codes "." ++ quote_name ctx.ghost_table_name))
        ++ (codes " ("
            ++ (join (map quote_name row.column_names) (codes ", ")
                ++ (codes ") VALUES " ++ to_insert_values_sql row))))

unfoldable pub build_update_sql : MigrationContext → BinlogRowData → Bytes
build_update_sql ctx row =
    codes "UPDATE "
    ++ ((quote_name ctx.config.database_name ++ (codes "." ++ quote_name ctx.ghost_table_name))
        ++ (codes " " ++ to_update_sql row (first_column ctx.unique_key.columns)))

unfoldable pub build_delete_sql : MigrationContext → BinlogRowData → Bytes
build_delete_sql ctx row =
    codes "DELETE FROM "
    ++ ((quote_name ctx.config.database_name ++ (codes "." ++ quote_name ctx.ghost_table_name))
        ++ (codes " WHERE "
            ++ (quote_name (first_column ctx.unique_key.columns)
                ++ (codes " = " ++ value_to_sql row.pk_value))))

unfoldable pub build_sql : DmlType → MigrationContext → BinlogRowData → Bytes
unfolding build_insert_sql build_update_sql build_delete_sql
build_sql insert ctx row = build_insert_sql ctx row
build_sql update ctx row = build_update_sql ctx row
build_sql delete ctx row = build_delete_sql ctx row

row_count_of : Option Bytes → ℕ
row_count_of none = 0
row_count_of (some s) = elim (parse_uint64 s) [ none ↦ 0 | some n ↦ n ]

-- one accepted row of an event
abbrev pub count_applied : Applier → Applier
count_applied a = record a { applied_count = next_count a.applied_count }

abbrev pub literals : List Bytes → List Bytes
literals values = map (λ v. codes "'" ++ (escape_for_sql v ++ codes "'")) values

module _ (srv : Server) where
  unfoldable pub send : Request → Applier → Bool × Applier
  send r a = (srv.accepts a.sent r, record a { sent = a.sent ++ r ∷ [] })

  abbrev pub run_sql : Bytes → Applier → Bool × Applier
  run_sql sql a = send (execute sql) a

  unfoldable pub create_ghost_table : Applier → Bool × Applier
  create_ghost_table a =
      run_sql
        (codes "CREATE TABLE "
          ++ (full_name a a.context.ghost_table_name
              ++ (codes " LIKE " ++ full_name a a.context.config.table_name)))
        a

  unfoldable pub create_changelog_table : Applier → Bool × Applier
  create_changelog_table a = run_sql (build_create_changelog_table_sql a.context.sql_builder) a

  unfoldable pub alter_ghost_table : Applier → Bool × Applier
  alter_ghost_table a =
      run_sql
        (codes "ALTER TABLE "
          ++ (full_name a a.context.ghost_table_name
              ++ (codes " "
                  ++ join
                      (map (λ (op : AlterOperation). op.value) a.context.alter_statement.operations)
                      (codes ", "))))
        a

  unfoldable pub write_changelog : Bytes → Bytes → Applier → Bool × Applier
  write_changelog hint value a =
      run_sql (build_insert_changelog_sql a.context.sql_builder hint value) a

  unfoldable pub read_changelog : Bytes → Applier → Bool
  read_changelog hint a =
      not (is_empty (srv.rows a.sent (build_select_changelog_sql a.context.sql_builder hint)))

  unfoldable pub clear_changelog : Applier → Bool × Applier
  clear_changelog a = run_sql (build_delete_changelog_sql a.context.sql_builder) a

  -- `now` is the clock, in milliseconds
  unfoldable pub write_heartbeat : ℕ → Applier → Bool × Applier
  write_heartbeat now a = write_changelog (codes "heartbeat") (to_string now) a

  unfoldable pub lock_original_table : Applier → Bool × Applier
  lock_original_table a = run_sql (build_lock_original_table_sql a.context.sql_builder) a

  unfoldable pub unlock_tables : Applier → Bool × Applier
  unlock_tables a = run_sql (codes "UNLOCK TABLES") a

  unfoldable pub atomic_rename_tables : Applier → Bool × Applier
  atomic_rename_tables a = run_sql (build_rename_tables_sql a.context.sql_builder) a

  unfoldable pub rename_tables : Applier → Bool × Applier
  unfolding atomic_rename_tables
  rename_tables a = atomic_rename_tables a

  unfoldable pub drop_old_table : Applier → Bool × Applier
  drop_old_table a = run_sql (build_drop_old_table_sql a.context.sql_builder) a

  unfoldable pub drop_ghost_table : Applier → Bool × Applier
  drop_ghost_table a = run_sql (build_drop_ghost_table_sql a.context.sql_builder) a

  unfoldable pub drop_changelog_table : Applier → Bool × Applier
  drop_changelog_table a =
      run_sql (codes "DROP TABLE IF EXISTS " ++ full_name a a.context.changelog_table_name) a

  unfoldable pub get_row_count_estimate : Applier → ℕ
  unfolding row_count_of
  get_row_count_estimate a = row_count_of (
      srv.value a.sent (
        codes "SELECT TABLE_ROWS FROM information_schema.TABLES "
        ++ (codes "WHERE TABLE_SCHEMA = '"
            ++ (a.context.config.database_name
                ++ (codes "' "
                    ++ (codes "AND TABLE_NAME = '"
                        ++ (a.context.config.table_name ++ codes "'")))))))

  -- The loop of `ApplyInsert`, `ApplyUpdate` and `ApplyDelete`, which differ in the statement.
  unfoldable pub apply_rows : DmlType → List BinlogRowData → Applier → Bool × Applier
  apply_rows type [] a = (true, a)
  apply_rows type (row ∷ rows) a =
      let (ok, a₁) = run_sql (build_sql type a.context row) a in
      let later = apply_rows type rows (count_applied a₁) in if ok then later else (false, a₁)

  unfoldable pub apply_dml_event : BinlogDmlEvent → Applier → Bool × Applier
  apply_dml_event e a = apply_rows e.dml_type e.rows a

  -- `ApplyBatch` on one entry: an entry without a row event is passed over
  unfoldable pub apply_if_any : Option BinlogDmlEvent → Applier → Bool × Applier
  apply_if_any none a = (true, a)
  apply_if_any (some e) a = apply_dml_event e a

  -- the loop of `ApplyBatch`, up to a failure
  unfoldable pub apply_entries : List BinlogEntry → Applier → Bool × Applier
  apply_entries [] a = (true, a)
  apply_entries (entry ∷ entries) a =
      let (ok, a₁) = apply_if_any entry.dml_event a in
      let later = apply_entries entries a₁ in if ok then later else (false, a₁)

  unfoldable pub apply_batch : List BinlogEntry → Applier → Bool × Applier
  apply_batch entries a =
      let (begun, a₁) = send begin_transaction a in
      let (applied, a₂) = apply_entries entries a₁ in
      if not begun
      then (false, a₁)
      else if applied
      then send commit a₂
      else (false, (send rollback a₂).1)

  -- the loop of `CopyRows` on the rows of the chunk
  unfoldable pub insert_rows : List Row → Applier → Bool × Applier
  insert_rows [] a = (true, a)
  insert_rows (row ∷ rows) a =
      let c = a.context in
      let (ok, a₁) =
        run_sql (build_insert_into_ghost_sql c.sql_builder (literals row.values) c.column_pairs)
          a in
      let later = insert_rows rows (record a₁ {
        row_copy_count = next_count a₁.row_copy_count;
        context = record (a₁.context) { copied_row_count = next_count a₁.context.copied_row_count };
      }) in
      if ok then later else (false, a₁)

  unfoldable pub chunk_of : Bytes → Bytes → ℕ → Applier → List Row
  chunk_of min_key max_key chunk_size a =
      let c = a.context in
      srv.rows a.sent
        (build_row_copy_sql c.sql_builder (key_column a) min_key max_key chunk_size c.column_pairs)

  unfoldable pub copy_rows : Bytes → Bytes → ℕ → Applier → Bool × Applier
  copy_rows min_key max_key chunk_size a =
      let rows = chunk_of min_key max_key chunk_size a in
      if is_empty rows then (true, a) else insert_rows rows a
