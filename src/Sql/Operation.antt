-- ===== src/Sql/Operation.antt =====
-- The parsing of one operation in src/sql/parser.cpp.
use gh_ost_cpp.Base.{
  ◌==◌, if◌then◌else◌, length, drop, Bytes, codes, ◌-◌, Bool, ◌&&◌, ◌||◌, none, some, List, [], ◌∷◌,
  ◌++◌, map,
}
use gh_ost_cpp.Strings.Trim.{trim, substr}
use gh_ost_cpp.Strings.Split.{split, join}
use gh_ost_cpp.Strings.Search.{
  to_upper, starts_with, find, contains, replace_first, normalize_table_name, last_or,
}
use gh_ost_cpp.Strings.Pattern.{
  Pattern, char, then_, maybe, either, group, search, word, is_letter, some_of, spaces, some_spaces,
  identifier,
}
use gh_ost_cpp.Mysql.Structure.{ColumnType}
use gh_ost_cpp.Sql.Column.{parenthesis, up_to_closing, position_of, parse_column_definition}
use gh_ost_cpp.Sql.Types.{
  AlterOperation, AlterOperationType, add_column, drop_column, modify_column, change_column,
  rename_table, engine_change, add_index, add_unique_key, drop_index, add_primary_key,
  drop_primary_key, unknown_operation,
}

abbrev index_or_key : Pattern
index_or_key = either (word b'I' (codes "NDEX")) (word b'K' (codes "EY"))

index_pattern : Pattern
index_pattern = then_ (word b'A' (codes "DD")) (
    then_ some_spaces (
      then_ (maybe (then_ (word b'U' (codes "NIQUE")) some_spaces)) (
        then_ index_or_key (
          then_ some_spaces (
            then_ (group identifier) (
              then_ spaces
                (then_ (parenthesis b'(') (then_ (group up_to_closing) (parenthesis b')')))))))))

drop_pattern : Pattern
drop_pattern =
    then_ (word b'D' (codes "ROP"))
      (then_ some_spaces (then_ index_or_key (then_ some_spaces (group identifier))))

engine_pattern : Pattern
engine_pattern =
    then_ (word b'E' (codes "NGINE"))
      (then_ spaces (then_ (char (λ c. c == b'=')) (then_ spaces (group (some_of is_letter)))))

unfoldable pub trim_parentheses : Bytes → Bytes
trim_parentheses str = elim (trim str) [
  | [] ↦ trim []
  | c ∷ s ↦
      trim
        (if c == b'(' && last_or c s == b')' then substr (c ∷ s) 1 (length (c ∷ s) - 2) else c ∷ s)
]

-- the text within the first parenthesis, if there is one
abbrev parenthesized : Bytes → Bytes
parenthesized operation = elim (find operation (codes "(")) [
  | none ↦ []
  | some pos ↦ trim_parentheses (drop pos operation)
]

unfoldable pub parse_column_list : Bytes → List Bytes
parse_column_list columns_str = map normalize_table_name (split columns_str b',')

-- What the constructors leave uninitialised: `is_first` of an operation, and the type of a column.
module _ (garbage : Bool) (garbage_type : ColumnType) where
  abbrev pub new_operation : AlterOperationType → Bytes → AlterOperation
  new_operation type value = record {
    type = type;
    value = value;
    name = [];
    definition = [];
    new_name = [];
    old_name = [];
    is_first = garbage;
    after_column = none;
  }

  -- ADD COLUMN and MODIFY COLUMN behind their words
  abbrev column_operation : AlterOperationType → Bytes → Bytes → AlterOperation
  column_operation type operation words =
      let def = trim (replace_first operation words []) in
      let position = position_of def garbage in
      record (new_operation type operation) {
        name = (parse_column_definition garbage_type def).name;
        definition = def;
        is_first = position.0;
        after_column = position.1;
      }

  unfoldable pub parse_add_column : Bytes → AlterOperation
  parse_add_column operation = column_operation add_column operation (codes "ADD COLUMN ")

  unfoldable pub parse_modify_column : Bytes → AlterOperation
  parse_modify_column operation = column_operation modify_column operation (codes "MODIFY COLUMN ")

  unfoldable pub parse_drop_column : Bytes → AlterOperation
  parse_drop_column operation = record (new_operation drop_column operation) {
    name = normalize_table_name (trim (replace_first operation (codes "DROP COLUMN ") []));
  }

  abbrev changed : List Bytes → AlterOperation → AlterOperation
  changed (old ∷ new ∷ parts) op = record op {
    old_name = normalize_table_name old;
    name = normalize_table_name new;
    definition = join parts (codes " ");
  }
  changed _ op = op

  unfoldable pub parse_change_column : Bytes → AlterOperation
  parse_change_column operation =
      changed (split (trim (replace_first operation (codes "CHANGE COLUMN ") [])) b' ')
        (new_operation change_column operation)

  unfoldable pub parse_add_index : Bytes → AlterOperation
  unfolding index_pattern
  parse_add_index operation =
      let op =
        new_operation
          (if contains (to_upper operation) (codes "UNIQUE") then add_unique_key else add_index)
          operation in
      elim (search index_pattern operation) [
        | some (name ∷ columns ∷ _) ↦ record op { name = name; definition = columns }
        | _ ↦ record op { definition = parenthesized operation }
      ]

  unfoldable pub parse_drop_index : Bytes → AlterOperation
  unfolding drop_pattern
  parse_drop_index operation = elim (search drop_pattern operation) [
    | some (name ∷ _) ↦ record (new_operation drop_index operation) { name = name }
    | _ ↦ new_operation drop_index operation
  ]

  unfoldable pub parse_add_primary_key : Bytes → AlterOperation
  parse_add_primary_key operation = record (new_operation add_primary_key operation) {
    definition = parenthesized operation;
  }

  unfoldable pub parse_drop_primary_key : Bytes → AlterOperation
  parse_drop_primary_key operation = new_operation drop_primary_key operation

  unfoldable pub parse_engine_change : Bytes → AlterOperation
  unfolding engine_pattern
  parse_engine_change operation = elim (search engine_pattern operation) [
    | some (name ∷ _) ↦ record (new_operation engine_change operation) { name = name }
    | _ ↦ new_operation engine_change operation
  ]

  -- the chain of tests of the loop in `ParseOperations`
  unfoldable pub parse_operation : Bytes → AlterOperation
  parse_operation op_str =
      let upper = to_upper op_str in
      if starts_with upper (codes "ADD COLUMN ")
      then parse_add_column op_str
      else if starts_with upper (codes "ADD ")
      then (if contains upper (codes "PRIMARY KEY")
          then parse_add_primary_key op_str
          else if contains upper (codes "UNIQUE")
              || (contains upper (codes "KEY") || contains upper (codes "INDEX"))
          then parse_add_index op_str
          else parse_add_column (codes "ADD COLUMN " ++ drop 4 op_str))
      else if starts_with upper (codes "DROP COLUMN ")
      then parse_drop_column op_str
      else if starts_with upper (codes "DROP ")
      then (if contains upper (codes "PRIMARY KEY")
          then parse_drop_primary_key op_str
          else if contains upper (codes "KEY") || contains upper (codes "INDEX")
          then parse_drop_index op_str
          else parse_drop_column (codes "DROP COLUMN " ++ drop 5 op_str))
      else if starts_with upper (codes "MODIFY COLUMN ")
      then parse_modify_column op_str
      else if starts_with upper (codes "MODIFY ")
      then parse_modify_column (codes "MODIFY COLUMN " ++ drop 7 op_str)
      else if starts_with upper (codes "CHANGE COLUMN ")
      then parse_change_column op_str
      else if starts_with upper (codes "CHANGE ")
      then parse_change_column (codes "CHANGE COLUMN " ++ drop 7 op_str)
      else if starts_with upper (codes "RENAME ") || starts_with upper (codes "RENAME TO ")
      then new_operation rename_table op_str
      else if starts_with upper (codes "ENGINE ")
      then parse_engine_change op_str
      else new_operation unknown_operation op_str
