-- ===== src/Sql/Column.antt =====
-- The parsing of a column definition in src/sql/parser.cpp.
use gh_ost_cpp.Base.{
  ◌==◌, if◌then◌else◌, drop, Bytes, codes, ℕ, ◌+◌, Bool, true, false, not, Option, none, some, List,
  [], ◌∷◌,
}
use gh_ost_cpp.Strings.Trim.{trim}
use gh_ost_cpp.Strings.Search.{to_upper, find, contains}
use gh_ost_cpp.Strings.Pattern.{
  Pattern, char, then_, maybe, group, search, is_letter, some_of, some_spaces, identifier,
}
use gh_ost_cpp.Mysql.Structure.{
  ColumnType, integer, float, double, decimal, string, text, blob, date_time, date, time, timestamp,
  year, bool, enum, set, json,
}
use gh_ost_cpp.Sql.Types.{ColumnDefinition}

abbrev pub parenthesis : ℕ → Pattern
parenthesis p = char (λ c. c == p)

-- `[^)]+`
abbrev pub up_to_closing : Pattern
up_to_closing = some_of (λ c. not (c == b')'))

column_pattern : Pattern
column_pattern = then_ (group identifier) (
    then_ some_spaces (
      group (
        then_ (some_of is_letter)
          (maybe (then_ (parenthesis b'(') (then_ up_to_closing (parenthesis b')')))))))

abbrev type_names : List (Bytes × ColumnType)
type_names =
    (codes "INT", integer)
    ∷ (codes "FLOAT", float)
    ∷ (codes "DOUBLE", double)
    ∷ (codes "DECIMAL", decimal)
    ∷ (codes "VARCHAR", string)
    ∷ (codes "CHAR", string)
    ∷ (codes "TEXT", text)
    ∷ (codes "BLOB", blob)
    ∷ (codes "DATETIME", date_time)
    ∷ (codes "DATE", date)
    ∷ (codes "TIME", time)
    ∷ (codes "TIMESTAMP", timestamp)
    ∷ (codes "YEAR", year)
    ∷ (codes "BOOL", bool)
    ∷ (codes "ENUM", enum)
    ∷ (codes "SET", set)
    ∷ (codes "JSON", json)
    ∷ []

unfoldable pub type_among : List (Bytes × ColumnType) → Bytes → ColumnType → ColumnType
type_among [] upper other = other
type_among ((name, type) ∷ names) upper other =
    let later = type_among names upper other in if contains upper name then type else later

-- the position of a column: whether FIRST, and behind which one
abbrev pub position_of : Bytes → Bool → Bool × Option Bytes
position_of definition garbage =
    if contains definition (codes "FIRST")
    then (true, none)
    else elim (find definition (codes "AFTER ")) [
      | none ↦ (garbage, none)
      | some pos ↦ (garbage, some (trim (drop (pos + 6) definition)))
    ]

-- What the constructor leaves uninitialised is the type.
module _ (garbage_type : ColumnType) where
  abbrev typed : List Bytes → ColumnDefinition → ColumnDefinition
  typed (name ∷ detail ∷ _) col = record col {
    name = name;
    type_detail = detail;
    type = type_among type_names (to_upper detail) garbage_type;
  }
  typed _ col = col

  abbrev new_column : ColumnDefinition
  new_column = record {
    name = [];
    type = garbage_type;
    type_detail = [];
    nullable = true;
    default_value = none;
    auto_increment = false;
    unsigned_type = false;
    zerofill = false;
    charset = [];
    collation = [];
    comment = [];
    is_first = false;
    after_column = none;
  }

  unfoldable pub parse_column_definition : Bytes → ColumnDefinition
  unfolding type_among column_pattern
  parse_column_definition definition =
      let col : ColumnDefinition = elim (search column_pattern definition) [
        | none ↦ new_column
        | some groups ↦ typed groups new_column
      ] in
      let upper = to_upper definition in
      let position = position_of definition false in
      record col {
        nullable = not (contains upper (codes "NOT NULL"));
        auto_increment = contains upper (codes "AUTO_INCREMENT");
        unsigned_type = contains upper (codes "UNSIGNED");
        is_first = position.0;
        after_column = position.1;
      }
