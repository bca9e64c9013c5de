-- ===== src/Logic/Inspector.antt =====
-- `Inspector` of include/logic/inspector.hpp and src/logic/inspector.cpp, on the connection to the
-- server that the applier uses too: what the server answers depends on what it has been sent.
pub mod UniqueKey
pub mod Tables
use gh_ost_cpp.Base.{
  if◌then◌else◌, is_empty, any, Bytes, codes, bytes_eq, ℕ, Bool, true, false, not, ◌&&◌, ◌||◌,
  Option, none, some, List, [], ◌∷◌, ◌++◌, map,
}
use gh_ost_cpp.Strings.Number.{parse_uint64}
use gh_ost_cpp.Strings.Quote as Quote
use gh_ost_cpp.Strings.Search.{contains, contains_ignore_case, to_upper}
use gh_ost_cpp.Mysql.Structure.{
  ColumnType, unknown_type, integer, string, text, date_time, timestamp, decimal, UniqueKeyType,
  primary, unique, not_unique, ColumnInfo, KeyInfo, TableStructure, has_primary_key, has_unique_key,
  get_primary_key, get_unique_keys,
}
use gh_ost_cpp.Mysql.Server.{Row, Request, Server, get}
use gh_ost_cpp.Sql.Types as Types
use gh_ost_cpp.Sql.Types.{
  get_drop_column_ops, get_add_column_ops, get_validation_errors, has_rename_table,
}
use gh_ost_cpp.Sql.Builder.{build_min_key_sql, build_max_key_sql, build_select_row_count_sql}
use gh_ost_cpp.Sql.Pairs.{operation_names, shared_from}
use gh_ost_cpp.Context.Config.{ValidationResult, no_problems, add_error, error_if}
use gh_ost_cpp.Context.{MigrationContext}

abbrev or_empty : Option Bytes → Bytes
or_empty none = []
or_empty (some v) = v

-- `type_upper.find(…) != npos`, in the order of the tests
unfoldable pub type_of_detail : Bytes → ColumnType
type_of_detail detail =
    let upper = to_upper detail in
    if contains upper (codes "INT")
    then integer
    else if contains upper (codes "VARCHAR") || contains upper (codes "CHAR")
    then string
    else if contains upper (codes "TEXT")
    then text
    else if contains upper (codes "DATETIME")
    then date_time
    else if contains upper (codes "TIMESTAMP")
    then timestamp
    else if contains upper (codes "DECIMAL")
    then decimal
    else unknown_type

unfoldable pub column_of_row : Row → ColumnInfo
column_of_row row =
    let detail = or_empty (get row (codes "Type")) in
    let extra = or_empty (get row (codes "Extra")) in
    record {
      name = or_empty (get row (codes "Field"));
      type = type_of_detail detail;
      type_detail = detail;
      nullable = bytes_eq (or_empty (get row (codes "Null"))) (codes "YES");
      default_value = get row (codes "Default");
      auto_increment = contains_ignore_case extra (codes "auto_increment");
      extra = extra;
    }

is_zero : Option Bytes → Bool
is_zero none = false
is_zero (some v) = bytes_eq v (codes "0")

unfoldable pub new_key : Row → KeyInfo
unfolding is_zero
new_key row =
    let name = or_empty (get row (codes "Key_name")) in
    let is_primary = bytes_eq name (codes "PRIMARY") in
    record {
      name = name;
      type =
          if is_primary
          then primary
          else if is_zero (get row (codes "Non_unique"))
          then unique
          else not_unique;
      columns = or_empty (get row (codes "Column_name")) ∷ [];
      is_primary = is_primary;
    }

-- `key_map` with one more row, the keys in the order in which they were first seen.
unfoldable pub add_key_row : List KeyInfo → Row → List KeyInfo
unfolding new_key
add_key_row [] row = new_key row ∷ []
add_key_row (k ∷ ks) row =
    let later = add_key_row ks row in
    if bytes_eq k.name (or_empty (get row (codes "Key_name")))
    then record k { columns = k.columns ++ or_empty (get row (codes "Column_name")) ∷ [] } ∷ ks
    else k ∷ later

unfoldable pub keys_of_rows : List KeyInfo → List Row → List KeyInfo
keys_of_rows keys [] = keys
keys_of_rows keys (row ∷ rows) = keys_of_rows (add_key_row keys row) rows

quote : Bytes → Bytes
quote s = Quote.quote_identifier s b'`'

-- `KeyInfo()`, all of whose members are zero
abbrev pub no_key : KeyInfo
no_key = record { name = []; type = primary; columns = []; is_primary = false }

-- `==` of two lists of columns
abbrev pub columns_eq : List Bytes → List Bytes → Bool
columns_eq [] [] = true
columns_eq (x ∷ xs) (y ∷ ys) = bytes_eq x y && columns_eq xs ys
columns_eq _ _ = false

abbrev pub has_key_on : List Bytes → List KeyInfo → Bool
has_key_on columns keys = any (λ (k : KeyInfo). columns_eq k.columns columns) keys

-- the loop on the unique keys of the original
unfoldable pub first_shared : List KeyInfo → List KeyInfo → KeyInfo
first_shared [] ghost_keys = no_key
first_shared (k ∷ ks) ghost_keys =
    let later = first_shared ks ghost_keys in
    if k.is_primary then later else if has_key_on k.columns ghost_keys then k else later

abbrev pub same_columns : Option KeyInfo → Option KeyInfo → Bool
same_columns (some k) (some g) = columns_eq g.columns k.columns
same_columns _ _ = false

abbrev or_no_key : Option KeyInfo → KeyInfo
or_no_key none = no_key
or_no_key (some k) = k

unfoldable pub find_best_unique_key : TableStructure → TableStructure → KeyInfo
find_best_unique_key original ghost =
    if same_columns (get_primary_key original) (get_primary_key ghost)
    then or_no_key (get_primary_key original)
    else first_shared (get_unique_keys original) ghost.keys

unfoldable pub determine_shared_unique_key : MigrationContext → Bool × MigrationContext
determine_shared_unique_key ctx =
    let best = find_best_unique_key ctx.original_structure ctx.ghost_structure in
    if is_empty best.name then (false, ctx) else (true, record ctx { unique_key = best })

unfoldable pub determine_column_pairs : MigrationContext → Bool × MigrationContext
determine_column_pairs ctx =
    let dropped = operation_names (get_drop_column_ops ctx.alter_statement) in
    (
      true,
      record ctx {
        column_pairs = record {
          shared_columns = shared_from dropped ctx.original_structure.columns;
          dropped_columns = dropped;
          added_columns = operation_names (get_add_column_ops ctx.alter_statement);
          modified_columns = [];
        };
      },
    )

abbrev or_zero_text : Option Bytes → Bytes
or_zero_text none = codes "0"
or_zero_text (some v) = v

number_of : Option Bytes → ℕ
number_of none = 0
number_of (some s) = elim (parse_uint64 s) [ none ↦ 0 | some n ↦ n ]

abbrev pub add_errors : List Bytes → ValidationResult → ValidationResult
add_errors [] r = r
add_errors (e ∷ es) r = add_errors es (add_error e r)

-- `iterate` is the order in which `std::unordered_map` hands out its entries, and `sent` is what the
-- server has received.
module _ (srv : Server) (iterate : List KeyInfo → List KeyInfo) (sent : List Request) where
  unfoldable pub read_table_structure : Bytes → Bytes → TableStructure
  unfolding quote
  read_table_structure database table =
      let name = quote database ++ (codes "." ++ quote table) in
      record {
        database = database;
        name = table;
        columns = map column_of_row (srv.rows sent (codes "SHOW COLUMNS FROM " ++ name));
        keys = iterate (keys_of_rows [] (srv.rows sent (codes "SHOW KEYS FROM " ++ name)));
      }

  unfoldable pub inspect_original_table : MigrationContext → Bool × MigrationContext
  inspect_original_table ctx =
      let s = read_table_structure ctx.config.database_name ctx.config.table_name in
      if not (is_empty s.columns)
      then (true, record ctx { original_structure = s })
      else (false, ctx)

  unfoldable pub inspect_ghost_table : MigrationContext → Bool × MigrationContext
  inspect_ghost_table ctx =
      let s = read_table_structure ctx.config.database_name ctx.ghost_table_name in
      if not (is_empty s.columns) then (true, record ctx { ghost_structure = s }) else (false, ctx)

module _ (srv : Server) (sent : List Request) where
  unfoldable pub detect_master : MigrationContext → Bool × MigrationContext
  detect_master ctx = if not srv.is_connected then (false, ctx) else (
    true,
    record ctx { master_key = elim srv.master_key [ none ↦ srv.instance_key | some k ↦ k ] },
  )

  unfoldable pub check_privileges : Bool
  check_privileges = is_one (srv.value sent (codes "SELECT 1"))
    where
      is_one : Option Bytes → Bool
      is_one none = false
      is_one (some v) = bytes_eq v (codes "1")

  unfoldable pub original_table_exists : MigrationContext → Bool
  original_table_exists ctx = srv.table_exists sent ctx.config.database_name ctx.config.table_name

  unfoldable pub ghost_table_exists : MigrationContext → Bool
  ghost_table_exists ctx = srv.table_exists sent ctx.config.database_name ctx.ghost_table_name

  unfoldable pub changelog_table_exists : MigrationContext → Bool
  changelog_table_exists ctx =
      srv.table_exists sent ctx.config.database_name ctx.changelog_table_name

  range_of : Bytes → MigrationContext → MigrationContext
  range_of column ctx = record ctx {
    min_key = or_zero_text (srv.value sent (build_min_key_sql ctx.sql_builder column));
    max_key = or_zero_text (srv.value sent (build_max_key_sql ctx.sql_builder column));
  }

  unfoldable pub read_row_range : MigrationContext → Bool × MigrationContext
  unfolding range_of
  read_row_range ctx = elim ctx.unique_key.columns [
    | [] ↦ (false, ctx)
    | ◌∷◌ column _ ↦ (true, range_of column ctx)
  ]

  unfoldable pub get_estimated_row_count : MigrationContext → ℕ
  unfolding number_of
  get_estimated_row_count ctx =
      number_of (srv.value sent (build_select_row_count_sql ctx.sql_builder false))

  unfoldable pub get_exact_row_count : MigrationContext → ℕ
  unfolding number_of
  get_exact_row_count ctx =
      number_of (srv.value sent (build_select_row_count_sql ctx.sql_builder true))

  -- `CompareTables` always succeeds, and never adds its warning.
  unfoldable pub validate_migration : MigrationContext → ValidationResult
  validate_migration ctx =
      let alter = ctx.alter_statement in
      let r₁ =
        if not (Types.is_valid alter)
        then add_errors (get_validation_errors alter) no_problems
        else no_problems in
      let r₂ = error_if (has_rename_table alter) (codes "ALTER TABLE RENAME is not supported") r₁ in
      let r₃ =
        error_if (not (has_unique_key ctx.original_structure))
          (codes "Original table must have a unique key") r₂ in
      error_if (not (ghost_table_exists ctx)) (codes "Ghost table not found") r₃
