-- ===== src/Tests/Parsing.antt =====
-- ALTER statements.
use gh_ost_cpp.Base.{Bytes, codes, ◌≡◌, refl, Bool, true, false, List, [], ◌∷◌, ◌++◌, map}
use gh_ost_cpp.Strings.Trim.{trim, is_space}
use gh_ost_cpp.Strings.Split.{join, split}
use gh_ost_cpp.Mysql.Structure.{ColumnType, unknown_type}
use gh_ost_cpp.Sql.Types.{AlterStatement, AlterOperation}
use gh_ost_cpp.Sql.Operation.{
  parse_operation, parse_add_column, parse_add_index, parse_drop_column, parse_engine_change,
  trim_parentheses,
}
use gh_ost_cpp.Sql.Parser.{
  parts_from, operation_parts, parse_operations, parse, create, parse_table_name,
}
use gh_ost_cpp.Sql.Parser.Parts.{parse_operations-join}
use gh_ost_cpp.Strings.Comments.{remove_sql_comments}
use gh_ost_cpp.Strings.Search.{
  to_upper, starts_with, find, contains, replace_first, normalize_table_name,
}
use gh_ost_cpp.Strings.Pattern.{search, matches}
use gh_ost_cpp.Sql.Column.{parse_column_definition}

-- A whole statement.
parse_runs :
    map {B = Bytes × Bytes × Bool}
      (λ (op : AlterOperation). (op.name, op.definition, op.is_first))
      ((parse false unknown_type
          (codes
            "ALTER TABLE shop.orders ADD COLUMN price DECIMAL(10,2) FIRST, add unique index u(a, b), DROP note, ADD UNIQUE INDEX v (c, d), ENGINE = InnoDB")
          create).1
        ).alter_statement.operations
    ≡ (codes "price", codes "price DECIMAL(10,2) FIRST", true)
      ∷ (codes "", codes "a, b", false)
      ∷ (codes "note", codes "", false)
      ∷ (codes "v", codes "c, d", false)
      ∷ (codes "InnoDB", codes "", false)
      ∷ []
unfolding parse create remove_sql_comments trim replace_first parse_table_name parse_operations
    operation_parts parse_operation parse_add_column parse_add_index parse_drop_column
    parse_engine_change parse_column_definition search find contains split normalize_table_name
    to_upper starts_with is_space trim_parentheses parts_from matches
parse_runs = refl

parse_operations-join_example :
    let garbage : Bool = false in
    let garbage_type : ColumnType = unknown_type in
    let p : Bytes = codes "ADD COLUMN price DECIMAL(10,2)" in
    let ps : List Bytes = codes " DROP note" ∷ codes " ADD INDEX i (a, b)" ∷ [] in
    let a : AlterStatement = create.alter_statement in
    (parse_operations garbage garbage_type (join (p ∷ ps) (codes ",")) a).operations
    ≡ a.operations ++ map (λ q. parse_operation garbage garbage_type (trim q)) (p ∷ ps)
parse_operations-join_example =
    parse_operations-join false unknown_type (codes "ADD COLUMN price DECIMAL(10,2)")
      (codes " DROP note" ∷ codes " ADD INDEX i (a, b)" ∷ []) create.alter_statement refl
      (unfold trim join is_space in refl)
