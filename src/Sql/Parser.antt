-- ===== src/Sql/Parser.antt =====
-- `AlterTableParser` of src/sql/parser.cpp.
pub mod Parts
use gh_ost_cpp.Base.{
  ◌==◌, if◌then◌else◌, is_empty, filterb, Bytes, codes, ℕ, suc, Bool, true, false, not, ◌&&◌, ◌||◌,
  Option, none, some, List, [], ◌∷◌, ◌++◌, map,
}
use gh_ost_cpp.Strings.Trim.{trim}
use gh_ost_cpp.Strings.Split.{split, join}
use gh_ost_cpp.Strings.Search.{replace_first, normalize_table_name}
use gh_ost_cpp.Strings.Comments.{remove_sql_comments}
use gh_ost_cpp.Strings.Pattern.{Pattern, char, then_, maybe, group, search, identifier}
use gh_ost_cpp.Mysql.Structure.{ColumnType}
use gh_ost_cpp.Sql.Types.{
  AlterOperation, AlterStatement, get_validation_errors, has_rename_table, is_rename_table,
}
use gh_ost_cpp.Sql.Operation.{parse_operation}

pub record AlterTableParser : Type 0 where
  pub alter_statement : AlterStatement
  pub validation_errors : List Bytes
  pub parsed : Bool

unfoldable pub create : AlterTableParser
create = record {
  alter_statement = record {
    database = [];
    table_name = [];
    operations = [];
    original_statement = [];
  };
  validation_errors = [];
  parsed = false;
}

unfoldable pub table_pattern : Pattern
table_pattern = group (then_ identifier (maybe (then_ (char (λ c. c == b'.')) identifier)))

abbrev named : Bytes → List Bytes → AlterStatement → AlterStatement
named part (database ∷ table ∷ []) a = record a {
  database = normalize_table_name database;
  table_name = normalize_table_name table;
}
named part _ a = record a { table_name = normalize_table_name part }

unfoldable pub parse_table_name : Bytes → AlterStatement → AlterStatement
unfolding table_pattern
parse_table_name statement a = elim (search table_pattern statement) [
  | some (part ∷ _) ↦ named part (split part b'.') a
  | _ ↦ a
]

-- `if (!current.empty()) operation_parts.push_back(Trim(current))`, before the later parts
abbrev pub push_part : Bytes → List Bytes → List Bytes
push_part current later = if is_empty current then later else trim current ∷ later

-- The loop over the characters. `paren_depth` is `opened - closed`, an `int` that may be negative.
unfoldable pub parts_from : ℕ → ℕ → Bytes → Bytes → List Bytes
parts_from opened closed current [] = push_part current []
parts_from opened closed current (c ∷ s) = elim (c == b'(') [
  | true ↦ parts_from (suc opened) closed (current ++ c ∷ []) s
  | false ↦ elim (c == b')') [
    | true ↦ parts_from opened (suc closed) (current ++ c ∷ []) s
    | false ↦ elim (c == b',' && opened == closed) [
      | true ↦ push_part current (parts_from opened closed [] s)
      | false ↦ parts_from opened closed (current ++ c ∷ []) s
    ]
  ]
]

unfoldable pub operation_parts : Bytes → List Bytes
operation_parts statement = parts_from 0 0 [] (trim statement)

-- `statement.substr(statement.find_first_of(" \t\n\r"))`
abbrev pub from_blank : Bytes → Option Bytes
from_blank [] = none
from_blank (c ∷ s) =
    let later = from_blank s in
    if c == 32 || (c == 9 || (c == 10 || c == 13)) then some (c ∷ s) else later

module _ (garbage : Bool) (garbage_type : ColumnType) where
  unfoldable pub parse_operations : Bytes → AlterStatement → AlterStatement
  parse_operations statement a = record a {
    operations =
        a.operations ++ map (parse_operation garbage garbage_type) (operation_parts statement);
  }

  unfoldable pub parse : Bytes → AlterTableParser → Bool × AlterTableParser
  parse alter_statement p =
      let original = remove_sql_comments alter_statement in
      let cleared = record p.alter_statement { original_statement = original; operations = [] } in
      let statement = replace_first (trim original) (codes "ALTER TABLE ") [] in
      let a = parse_table_name statement cleared in
      let b : AlterStatement = elim (from_blank statement) [
        | none ↦ a
        | some rest ↦ parse_operations (trim rest) a
      ] in
      let errors = get_validation_errors b in
      let parsed = not (is_empty b.operations) && is_empty errors in
      (parsed, record { alter_statement = b; validation_errors = errors; parsed = parsed })

unfoldable pub get_database_name : AlterTableParser → Option Bytes
get_database_name p =
    if is_empty p.alter_statement.database then none else some p.alter_statement.database

unfoldable pub has_unsupported_operation : AlterTableParser → Bool
has_unsupported_operation p = has_rename_table p.alter_statement

unfoldable pub get_unsupported_operations : AlterTableParser → List Bytes
get_unsupported_operations p =
    map (λ (op : AlterOperation). op.value) (filterb is_rename_table p.alter_statement.operations)

unfoldable pub normalize : AlterTableParser → Bytes
normalize p =
    codes "ALTER TABLE "
    ++ (p.alter_statement.table_name
        ++ (codes " "
            ++ join (map (λ (op : AlterOperation). op.value) p.alter_statement.operations)
                (codes ", ")))
