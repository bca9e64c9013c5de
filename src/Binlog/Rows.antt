-- ===== src/Binlog/Rows.antt =====
-- `BinlogRowData` and `BinlogDMLEvent` of include/binlog/binlog_dml_event.hpp and
-- src/binlog/binlog_dml_event.cpp.
pub mod Values
pub mod Lookup
use gh_ost_cpp.Base.{
  ltb, if◌then◌else◌, drop, is_empty, Bytes, codes, bytes_eq, ℕ, ◌+◌, not, Option, none, some, List,
  [], ◌∷◌, ◌++◌, map,
}
use gh_ost_cpp.Strings.Split.{join}
use gh_ost_cpp.Strings.Quote.{escape_for_sql}
use gh_ost_cpp.Strings.Quote as Quote

pub data DmlType : Type 0 where
  insert update delete : DmlType

pub record BinlogRowData : Type 0 where
  pub before_values : List (Option Bytes)
  pub after_values : List (Option Bytes)
  pub column_names : List Bytes
  pub pk_column : Bytes
  pub pk_value : Option Bytes

pub record BinlogDmlEvent : Type 0 where
  pub database : Bytes
  pub table : Bytes
  pub dml_type : DmlType
  pub timestamp : ℕ
  pub table_id : ℕ
  pub transaction_id : ℕ
  pub rows : List BinlogRowData

-- The loop of `GetBeforeValue` and `GetAfterValue` from one index on: the names and the values left.
-- A match that has no value lets the loop go on.
unfoldable pub value_in : List Bytes → List (Option Bytes) → Bytes → Option Bytes
value_in [] values name = none
value_in (c ∷ cs) [] name = value_in cs [] name
value_in (c ∷ cs) (v ∷ vs) name =
    let later = value_in cs vs name in if bytes_eq c name then v else later

unfoldable pub get_before_value : BinlogRowData → Bytes → Option Bytes
get_before_value row name = value_in row.column_names row.before_values name

unfoldable pub get_after_value : BinlogRowData → Bytes → Option Bytes
get_after_value row name = value_in row.column_names row.after_values name

unfoldable pub get_value : BinlogRowData → Bytes → Option Bytes
get_value row name = get_after_value row name

-- A value as a literal, or NULL.
unfoldable pub value_to_sql : Option Bytes → Bytes
value_to_sql none = codes "NULL"
value_to_sql (some v) = codes "'" ++ (escape_for_sql v ++ codes "'")

unfoldable pub values_to_sql : List (Option Bytes) → Bytes
values_to_sql [] = []
values_to_sql (v ∷ vs) =
    value_to_sql v ++ ((if is_empty vs then [] else codes ", ") ++ values_to_sql vs)

unfoldable pub to_insert_values_sql : BinlogRowData → Bytes
to_insert_values_sql row = codes "(" ++ (values_to_sql row.after_values ++ codes ")")

abbrev pub quote_name : Bytes → Bytes
quote_name s = Quote.quote_identifier s b'`'

abbrev pub head_value : List (Option Bytes) → Option Bytes
head_value [] = none
head_value (v ∷ vs) = v

-- The loop of `ToUpdateSQL`: `count` columns are written, and the names and values left.
unfoldable pub update_loop : Bytes → ℕ → List Bytes → List (Option Bytes) → Bytes
update_loop key count [] values = []
update_loop key count (c ∷ cs) values =
    let skipped = update_loop key count cs (drop 1 values) in
    let written = update_loop key (count + 1) cs (drop 1 values) in
    if bytes_eq c key
    then skipped
    else (if ltb 0 count then codes ", " else [])
      ++ (quote_name c ++ (codes " = " ++ (value_to_sql (head_value values) ++ written)))

unfoldable pub to_update_sql : BinlogRowData → Bytes → Bytes
to_update_sql row key =
    codes "SET "
    ++ (update_loop key 0 row.column_names row.after_values
        ++ (codes " WHERE " ++ (quote_name key ++ (codes " = " ++ value_to_sql row.pk_value))))

abbrev event_table : BinlogDmlEvent → Bytes
event_table e = quote_name e.database ++ (codes "." ++ quote_name e.table)

unfoldable pub generate_insert_sql : BinlogDmlEvent → BinlogRowData → Bytes
generate_insert_sql e row =
    codes "INSERT INTO "
    ++ (event_table e
        ++ (codes " ("
            ++ (join (map quote_name row.column_names) (codes ", ")
                ++ (codes ")" ++ (codes " VALUES " ++ to_insert_values_sql row)))))

unfoldable pub generate_update_sql : BinlogDmlEvent → BinlogRowData → Bytes
generate_update_sql e row =
    codes "UPDATE " ++ (event_table e ++ (codes " " ++ to_update_sql row row.pk_column))

unfoldable pub generate_delete_sql : BinlogDmlEvent → BinlogRowData → Bytes
generate_delete_sql e row =
    codes "DELETE FROM "
    ++ (event_table e
        ++ (codes " WHERE "
            ++ (quote_name row.pk_column ++ (codes " = " ++ value_to_sql row.pk_value))))

unfoldable pub generate_sql : BinlogDmlEvent → BinlogRowData → Bytes
generate_sql e row = elim e.dml_type [
  | insert ↦ generate_insert_sql e row
  | update ↦ generate_update_sql e row
  | delete ↦ generate_delete_sql e row
]

statements_of : BinlogDmlEvent → List BinlogRowData → List Bytes
statements_of e [] = []
statements_of e (row ∷ rows) =
    let later = statements_of e rows in
    if not (is_empty (generate_sql e row)) then generate_sql e row ∷ later else later

unfoldable pub to_sql_statements : BinlogDmlEvent → List Bytes
unfolding statements_of
to_sql_statements e = statements_of e e.rows

unfoldable pub to_sql : BinlogDmlEvent → Bytes
to_sql e = elim (to_sql_statements e) [ [] ↦ [] | ◌∷◌ s _ ↦ s ]
