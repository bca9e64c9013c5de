-- ===== src/Sql/Types.antt =====
-- include/sql/types.hpp and src/sql/types.cpp.
use gh_ost_cpp.Base.{
  if◌then◌else◌, is_empty, all, any, filterb, Bytes, codes, bytes_eq, ◌≡◌, refl, ◌↔◌, Bool, true,
  false, not, Option, none, some, List, [], ◌∷◌, ◌++◌, map, arith,
}
use gh_ost_cpp.Strings.Split.{join}
use gh_ost_cpp.Mysql.Structure.{ColumnType, UniqueKeyType, primary, unique, not_unique}

pub data AlterOperationType : Type 0 where
  add_column drop_column modify_column change_column rename_column : AlterOperationType
  add_index drop_index rename_index add_primary_key drop_primary_key : AlterOperationType
  add_foreign_key drop_foreign_key add_unique_key alter_column rename_table : AlterOperationType
  engine_change auto_increment_change charset_change collation_change : AlterOperationType
  comment_change unknown_operation : AlterOperationType

pub record AlterOperation : Type 0 where
  pub type : AlterOperationType
  pub value : Bytes
  pub name : Bytes
  pub definition : Bytes
  pub new_name : Bytes
  pub old_name : Bytes
  pub is_first : Bool
  pub after_column : Option Bytes

pub record ColumnDefinition : Type 0 where
  pub name : Bytes
  pub type : ColumnType
  pub type_detail : Bytes
  pub nullable : Bool
  pub default_value : Option Bytes
  pub auto_increment : Bool
  pub unsigned_type : Bool
  pub zerofill : Bool
  pub charset : Bytes
  pub collation : Bytes
  pub comment : Bytes
  pub is_first : Bool
  pub after_column : Option Bytes

pub record IndexDefinition : Type 0 where
  pub name : Bytes
  pub type : UniqueKeyType
  pub columns : List Bytes
  pub method : Bytes
  pub comment : Bytes

pub record AlterStatement : Type 0 where
  pub database : Bytes
  pub table_name : Bytes
  pub operations : List AlterOperation
  pub original_statement : Bytes

pub record ColumnPairs : Type 0 where
  pub shared_columns : List (Bytes × Bytes)
  pub dropped_columns : List Bytes
  pub added_columns : List Bytes
  pub modified_columns : List Bytes

-- text around a value that is there
abbrev if_some : Option Bytes → Bytes → Bytes → Bytes
if_some none before after = []
if_some (some v) before after = before ++ (v ++ after)

unfoldable pub column_definition_to_sql : ColumnDefinition → Bytes
column_definition_to_sql c =
    c.name
    ++ (codes " "
        ++ (c.type_detail
            ++ ((if not c.nullable then codes " NOT NULL" else [])
                ++ (if_some c.default_value (codes " DEFAULT '") (codes "'")
                    ++ ((if c.auto_increment then codes " AUTO_INCREMENT" else [])
                        ++ (if c.is_first
                            then codes " FIRST"
                            else if_some c.after_column (codes " AFTER ") []))))))

key_kind : UniqueKeyType → Bytes → Bytes
key_kind primary name = codes "PRIMARY KEY"
key_kind unique name = codes "UNIQUE KEY " ++ name
key_kind not_unique name = codes "INDEX " ++ name

unfoldable pub index_definition_to_sql : IndexDefinition → Bytes
unfolding key_kind join
index_definition_to_sql i =
    key_kind i.type i.name
    ++ (codes " ("
        ++ (join i.columns (codes ", ")
            ++ (codes ")"
                ++ (if not (bytes_eq i.method (codes "BTREE"))
                    then codes " USING " ++ i.method
                    else []))))

abbrev pub is_add_column : AlterOperation → Bool
is_add_column op = elim op.type [ add_column ↦ true | _ ↦ false ]

abbrev pub is_drop_column : AlterOperation → Bool
is_drop_column op = elim op.type [ drop_column ↦ true | _ ↦ false ]

abbrev pub is_modify_column : AlterOperation → Bool
is_modify_column op = elim op.type [ modify_column ↦ true | _ ↦ false ]

abbrev pub is_change_column : AlterOperation → Bool
is_change_column op = elim op.type [ change_column ↦ true | _ ↦ false ]

abbrev pub is_rename_table : AlterOperation → Bool
is_rename_table op = elim op.type [ rename_table ↦ true | _ ↦ false ]

abbrev pub is_engine_change : AlterOperation → Bool
is_engine_change op = elim op.type [ engine_change ↦ true | _ ↦ false ]

abbrev pub is_index_operation : AlterOperation → Bool
is_index_operation op = elim op.type [
  | add_index ↦ true
  | drop_index ↦ true
  | add_primary_key ↦ true
  | drop_primary_key ↦ true
  | _ ↦ false
]

unfoldable pub has_add_column : AlterStatement → Bool
has_add_column a = any is_add_column a.operations

unfoldable pub has_drop_column : AlterStatement → Bool
has_drop_column a = any is_drop_column a.operations

unfoldable pub has_modify_column : AlterStatement → Bool
has_modify_column a = any is_modify_column a.operations

unfoldable pub has_rename_table : AlterStatement → Bool
has_rename_table a = any is_rename_table a.operations

unfoldable pub has_engine_change : AlterStatement → Bool
has_engine_change a = any is_engine_change a.operations

unfoldable pub get_add_column_ops : AlterStatement → List AlterOperation
get_add_column_ops a = filterb is_add_column a.operations

unfoldable pub get_drop_column_ops : AlterStatement → List AlterOperation
get_drop_column_ops a = filterb is_drop_column a.operations

unfoldable pub get_index_ops : AlterStatement → List AlterOperation
get_index_ops a = filterb is_index_operation a.operations

unfoldable pub get_validation_errors : AlterStatement → List Bytes
unfolding has_rename_table
get_validation_errors a =
    (if is_empty a.table_name then codes "Table name is required" ∷ [] else [])
    ++ ((if is_empty a.operations then codes "No ALTER operations specified" ∷ [] else [])
        ++ (if has_rename_table a
            then codes "ALTER TABLE ... RENAME is not supported by gh-ost" ∷ []
            else []))

-- `!GetValidationErrors().empty() == false` groups as `(!…empty()) == false`.
unfoldable pub is_valid : AlterStatement → Bool
unfolding has_rename_table get_validation_errors
is_valid a = if has_rename_table a then false else not (not (is_empty (get_validation_errors a)))

unfoldable pub get_shared_columns_sql : ColumnPairs → Bytes
unfolding join
get_shared_columns_sql p = join (map (λ (c : Bytes × Bytes). c.0) p.shared_columns) (codes ", ")

-- `IsValid` accepts a statement just when `GetValidationErrors` finds nothing, and that is when it
-- names a table, has an operation, and none of its operations renames the table.
pub is_valid_iff :
    (a : AlterStatement)
    → (is_valid a ≡ is_empty (get_validation_errors a))
      × ((is_valid a ≡ true) ↔ (
          (is_empty a.table_name ≡ false)
          × (is_empty a.operations ≡ false)
          × (all (λ op. not (is_rename_table op)) a.operations ≡ true)))
unfolding is_valid get_validation_errors has_rename_table
is_valid_iff a = (ground arith, ground (arith, none_renames a.operations))
  where
    none_renames :
        (ops : List AlterOperation)
        → all (λ op. not (is_rename_table op)) ops ≡ not (any is_rename_table ops)
    none_renames [] = refl
    none_renames (op ∷ ops) = ground (arith, none_renames ops)
