-- ===== src/Sql/GhostTable.antt =====
-- The statement that creates the ghost table: `BuildCreateGhostTableSQL` of src/sql/builder.cpp.
use gh_ost_cpp.Base.{
  if◌then◌else◌, is_empty, any, Bytes, codes, bytes_eq, Bool, not, Option, none, some, List, [],
  ◌∷◌, ◌++◌,
}
use gh_ost_cpp.Mysql.Structure.{
  ColumnInfo, KeyInfo, TableStructure, column_to_text, key_to_text, get_primary_key,
}
use gh_ost_cpp.Sql.Types.{AlterOperation, AlterStatement, get_add_column_ops, get_drop_column_ops}
use gh_ost_cpp.Sql.Builder.{SqlBuilder, build_table_full_name}

-- `is_dropped`
abbrev pub is_dropped : List AlterOperation → Bytes → Bool
is_dropped ops name = any (λ (op : AlterOperation). bytes_eq op.name name) ops

-- The loop on the columns; the comma goes behind each column that is not the last of the original.
unfoldable pub column_lines : List AlterOperation → List ColumnInfo → Bytes
column_lines ops [] = []
column_lines ops (c ∷ cs) =
    let later = column_lines ops cs in
    if is_dropped ops c.name
    then later
    else codes "  "
      ++ (column_to_text c ++ ((if is_empty cs then [] else codes ",") ++ (10 ∷ [] ++ later)))

unfoldable pub added_lines : List AlterOperation → Bytes
added_lines [] = []
added_lines (op ∷ ops) = codes ", " ++ (op.definition ++ added_lines ops)

unfoldable pub key_lines : List KeyInfo → Bytes
unfolding key_to_text
key_lines [] = []
key_lines (k ∷ ks) =
    let later = key_lines ks in
    if not k.is_primary then codes ", " ++ (key_to_text k ++ later) else later

primary_line : Option KeyInfo → Bytes
unfolding key_to_text
primary_line none = []
primary_line (some k) = codes ", " ++ key_to_text k

unfoldable pub build_create_ghost_table_sql : SqlBuilder → TableStructure → AlterStatement → Bytes
unfolding build_table_full_name column_lines added_lines primary_line key_lines get_primary_key
    get_drop_column_ops get_add_column_ops
build_create_ghost_table_sql b original alter =
    codes "CREATE TABLE "
    ++ (build_table_full_name b b.ghost_table
        ++ (codes " ("
            ++ (10 ∷ []
                ++ (column_lines (get_drop_column_ops alter) original.columns
                    ++ (added_lines (get_add_column_ops alter)
                        ++ (primary_line (get_primary_key original)
                            ++ (key_lines original.keys ++ codes ")")))))))
