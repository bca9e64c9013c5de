-- ===== src/Sql/Pairs.antt =====
-- The pairs of columns: `BuildColumnPairs` of src/sql/builder.cpp.
use gh_ost_cpp.Base.{
  if◌then◌else◌, any, filterb, Bytes, bytes_eq, Bool, not, ◌||◌, List, [], ◌∷◌, map,
}
use gh_ost_cpp.Mysql.Structure.{ColumnInfo, TableStructure}
use gh_ost_cpp.Sql.Types.{
  AlterOperation, AlterStatement, ColumnPairs, get_add_column_ops, get_drop_column_ops,
  is_modify_column, is_change_column,
}

-- `std::find(…) == end()`
abbrev pub is_missing : List Bytes → Bytes → Bool
is_missing names name = not (any (λ n. bytes_eq n name) names)

abbrev pub operation_names : List AlterOperation → List Bytes
operation_names ops = map (λ (op : AlterOperation). op.name) ops

unfoldable pub shared_from : List Bytes → List ColumnInfo → List (Bytes × Bytes)
shared_from dropped [] = []
shared_from dropped (c ∷ cs) =
    let later = shared_from dropped cs in
    if is_missing dropped c.name then (c.name, c.name) ∷ later else later

unfoldable pub build_column_pairs : TableStructure → AlterStatement → ColumnPairs
unfolding get_drop_column_ops get_add_column_ops shared_from
build_column_pairs original alter =
    let dropped = operation_names (get_drop_column_ops alter) in
    record {
      shared_columns = shared_from dropped original.columns;
      dropped_columns = dropped;
      added_columns = operation_names (get_add_column_ops alter);
      modified_columns =
          operation_names
            (filterb (λ op. is_modify_column op || is_change_column op) alter.operations);
    }
