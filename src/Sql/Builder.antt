-- ===== src/Sql/Builder.antt =====
-- `SQLBuilder` of src/sql/builder.cpp.
use gh_ost_cpp.Base.{
  if◌then◌else◌, is_empty, Bytes, codes, ℕ, ◌*◌, Bool, not, List, [], ◌∷◌, ◌++◌, map,
}
use gh_ost_cpp.Strings.Split.{join}
use gh_ost_cpp.Strings.Number.{to_string}
use gh_ost_cpp.Strings.Quote.{escape_for_sql, quote_for_sql}
use gh_ost_cpp.Strings.Quote as Quote
use gh_ost_cpp.Mysql.Structure.{
  ColumnInfo, KeyInfo, TableStructure, column_to_text, key_to_text, get_primary_key,
}
use gh_ost_cpp.Sql.Types.{
  AlterOperation, AlterStatement, ColumnPairs, get_add_column_ops, get_drop_column_ops,
  get_shared_columns_sql, is_modify_column, is_change_column,
}
pub mod Columns
pub mod Names
pub mod Swap

pub record SqlBuilder : Type 0 where
  pub database : Bytes
  pub original_table : Bytes
  pub ghost_table : Bytes
  pub changelog_table : Bytes

unfoldable pub quote_name : Bytes → Bytes
unfolding Quote.quote_identifier
quote_name identifier = Quote.quote_identifier identifier b'`'

unfoldable pub quoted_value : Bytes → Bytes
unfolding quote_for_sql
quoted_value s = quote_for_sql s b'\''

unfoldable pub build_table_full_name : SqlBuilder → Bytes → Bytes
unfolding quote_name
build_table_full_name b table = (quote_name b.database ++ codes ".") ++ quote_name table

-- The name of the table that a rename leaves behind.
abbrev pub old_name : SqlBuilder → Bytes
old_name b = b.original_table ++ codes "_old"

unfoldable pub build_create_changelog_table_sql : SqlBuilder → Bytes
unfolding build_table_full_name
build_create_changelog_table_sql b =
    codes "CREATE TABLE "
    ++ (build_table_full_name b b.changelog_table
        ++ (codes " ("
            ++ (codes "id bigint auto_increment, "
                ++ (codes "hint varchar(64) not null, "
                    ++ (codes "value varchar(255) not null, "
                        ++ (codes "ts timestamp not null default current_timestamp, "
                            ++ (codes "primary key(id)" ++ codes ")")))))))

unfoldable pub build_row_copy_sql : SqlBuilder → Bytes → Bytes → Bytes → ℕ → ColumnPairs → Bytes
unfolding build_table_full_name quote_name quoted_value to_string get_shared_columns_sql
build_row_copy_sql b key_column min_value max_value chunk_size pairs =
    codes "SELECT /*+ gh-ost-copy-row */ "
    ++ (get_shared_columns_sql pairs
        ++ (codes " FROM "
            ++ (build_table_full_name b b.original_table
                ++ (codes " WHERE "
                    ++ (quote_name key_column
                        ++ (codes " > "
                            ++ (quoted_value min_value
                                ++ (codes " AND "
                                    ++ (quote_name key_column
                                        ++ (codes " <= "
                                            ++ (quoted_value max_value
                                                ++ (codes " ORDER BY "
                                                    ++ (quote_name key_column
                                                        ++ (codes " LIMIT "
                                                            ++ to_string chunk_size))))))))))))))

unfoldable pub build_min_key_sql : SqlBuilder → Bytes → Bytes
unfolding build_table_full_name quote_name
build_min_key_sql b key_column =
    codes "SELECT MIN("
    ++ (quote_name key_column
        ++ (codes ")" ++ (codes " FROM " ++ build_table_full_name b b.original_table)))

unfoldable pub build_max_key_sql : SqlBuilder → Bytes → Bytes
unfolding build_table_full_name quote_name
build_max_key_sql b key_column =
    codes "SELECT MAX("
    ++ (quote_name key_column
        ++ (codes ")" ++ (codes " FROM " ++ build_table_full_name b b.original_table)))

unfoldable pub build_insert_into_ghost_sql : SqlBuilder → List Bytes → ColumnPairs → Bytes
unfolding build_table_full_name join
build_insert_into_ghost_sql b values pairs =
    codes "INSERT /*+ gh-ost-write */ INTO "
    ++ (build_table_full_name b b.ghost_table
        ++ (codes " ("
            ++ (join (map (λ (c : Bytes × Bytes). c.1) pairs.shared_columns) (codes ", ")
                ++ (codes ")" ++ (codes " VALUES (" ++ (join values (codes ", ") ++ codes ")"))))))

-- the SET clause of `BuildUpdateGhostSQL`
assignments : List (Bytes × Bytes) → Bytes
unfolding quote_name
assignments [] = []
assignments ((column, value) ∷ vs) =
    quote_name column
    ++ (codes " = " ++ (value ++ ((if is_empty vs then [] else codes ", ") ++ assignments vs)))

unfoldable pub build_update_ghost_sql : SqlBuilder → Bytes → Bytes → List (Bytes × Bytes) → Bytes
unfolding build_table_full_name quote_name quoted_value assignments
build_update_ghost_sql b key_column key_value values =
    codes "UPDATE /*+ gh-ost-write */ "
    ++ (build_table_full_name b b.ghost_table
        ++ (codes " SET "
            ++ (assignments values
                ++ (codes " WHERE "
                    ++ (quote_name key_column ++ (codes " = " ++ quoted_value key_value))))))

unfoldable pub build_delete_from_ghost_sql : SqlBuilder → Bytes → Bytes → Bytes
unfolding build_table_full_name quote_name quoted_value
build_delete_from_ghost_sql b key_column key_value =
    codes "DELETE /*+ gh-ost-write */ FROM "
    ++ (build_table_full_name b b.ghost_table
        ++ (codes " WHERE " ++ (quote_name key_column ++ (codes " = " ++ quoted_value key_value))))

unfoldable pub build_insert_changelog_sql : SqlBuilder → Bytes → Bytes → Bytes
unfolding build_table_full_name escape_for_sql
build_insert_changelog_sql b hint value =
    codes "INSERT INTO "
    ++ (build_table_full_name b b.changelog_table
        ++ (codes " (hint, value) VALUES ('"
            ++ (escape_for_sql hint ++ (codes "', '" ++ (escape_for_sql value ++ codes "')")))))

unfoldable pub build_select_changelog_sql : SqlBuilder → Bytes → Bytes
unfolding build_table_full_name escape_for_sql
build_select_changelog_sql b hint =
    codes "SELECT * FROM "
    ++ (build_table_full_name b b.changelog_table
        ++ (codes " WHERE hint = '"
            ++ (escape_for_sql hint ++ (codes "'" ++ codes " ORDER BY id DESC LIMIT 1"))))

unfoldable pub build_select_latest_changelog_sql : SqlBuilder → Bytes
unfolding build_table_full_name
build_select_latest_changelog_sql b =
    codes "SELECT * FROM "
    ++ (build_table_full_name b b.changelog_table ++ codes " ORDER BY id DESC LIMIT 1")

unfoldable pub build_delete_changelog_sql : SqlBuilder → Bytes
unfolding build_table_full_name
build_delete_changelog_sql b = codes "DELETE FROM " ++ build_table_full_name b b.changelog_table

unfoldable pub build_lock_original_table_sql : SqlBuilder → Bytes
unfolding build_table_full_name
build_lock_original_table_sql b =
    codes "LOCK TABLES " ++ (build_table_full_name b b.original_table ++ codes " WRITE")

unfoldable pub build_unlock_tables_sql : Bytes
build_unlock_tables_sql = codes "UNLOCK TABLES"

unfoldable pub build_rename_tables_sql : SqlBuilder → Bytes
build_rename_tables_sql b =
    codes "RENAME TABLE "
    ++ (build_table_full_name b b.original_table
        ++ (codes " TO "
            ++ (build_table_full_name b (old_name b)
                ++ (codes ", "
                    ++ (build_table_full_name b b.ghost_table
                        ++ (codes " TO " ++ build_table_full_name b b.original_table))))))

unfoldable pub build_rename_original_to_old_sql : SqlBuilder → Bytes
unfolding build_table_full_name
build_rename_original_to_old_sql b =
    codes "RENAME TABLE "
    ++ (build_table_full_name b b.original_table
        ++ (codes " TO " ++ build_table_full_name b (old_name b)))

unfoldable pub build_rename_ghost_to_original_sql : SqlBuilder → Bytes
unfolding build_table_full_name
build_rename_ghost_to_original_sql b =
    codes "RENAME TABLE "
    ++ (build_table_full_name b b.ghost_table
        ++ (codes " TO " ++ build_table_full_name b b.original_table))

unfoldable pub build_drop_old_table_sql : SqlBuilder → Bytes
unfolding build_table_full_name
build_drop_old_table_sql b = codes "DROP TABLE IF EXISTS " ++ build_table_full_name b (old_name b)

unfoldable pub build_drop_ghost_table_sql : SqlBuilder → Bytes
unfolding build_table_full_name
build_drop_ghost_table_sql b =
    codes "DROP TABLE IF EXISTS " ++ build_table_full_name b b.ghost_table

unfoldable pub build_select_row_count_sql : SqlBuilder → Bool → Bytes
unfolding build_table_full_name
build_select_row_count_sql b exact =
    if exact
    then codes "SELECT COUNT(*) FROM " ++ build_table_full_name b b.original_table
    else codes "SELECT TABLE_ROWS FROM information_schema.TABLES "
      ++ (codes "WHERE TABLE_SCHEMA = '"
          ++ (b.database
              ++ (codes "' " ++ (codes "AND TABLE_NAME = '" ++ (b.original_table ++ codes "'")))))

unfoldable pub build_get_next_chunk_sql : SqlBuilder → Bytes → Bytes → ℕ → Bytes
unfolding build_table_full_name quote_name quoted_value
build_get_next_chunk_sql b key_column last_value chunk_size =
    codes "SELECT "
    ++ (quote_name key_column
        ++ (codes " FROM "
            ++ (build_table_full_name b b.original_table
                ++ (codes " WHERE "
                    ++ (quote_name key_column
                        ++ (codes " > "
                            ++ (quoted_value last_value
                                ++ (codes " ORDER BY "
                                    ++ (quote_name key_column ++ codes " LIMIT 1")))))))))

unfoldable pub build_column_list_sql : List Bytes → Bytes
unfolding join quote_name
build_column_list_sql columns = join (map quote_name columns) (codes ", ")
