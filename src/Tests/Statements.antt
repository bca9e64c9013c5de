-- ===== src/Tests/Statements.antt =====
-- The ALTER statement, the builder and the names of `orders`.
use gh_ost_cpp.Base.{if◌then◌else◌, filterb, codes, ℕ, ◌≡◌, refl, not, none, some, map}
use gh_ost_cpp.Sql.Builder.{SqlBuilder, build_rename_tables_sql}
use gh_ost_cpp.Sql.Builder.Names.{TableName, read_two_renames}
use gh_ost_cpp.Sql.Builder.Swap.{
  Catalog, name_eq, run_renames, swapped, run_renames-build_rename_tables_sql,
}
use gh_ost_cpp.Mysql.Structure.{ColumnInfo, TableStructure}
use gh_ost_cpp.Sql.Types.{AlterStatement}
use gh_ost_cpp.Sql.Pairs.{build_column_pairs}
use gh_ost_cpp.Sql.Builder.Columns.{drops, build_column_pairs-shared}
use gh_ost_cpp.Tests.Data.{orders, alter}

abbrev builder : SqlBuilder
builder = record {
  database = codes "shop";
  original_table = codes "orders";
  ghost_table = codes "_orders_gho";
  changelog_table = codes "_orders_ghc";
}

-- the original is 1, the ghost 2, and another table 3
abbrev tables : Catalog ℕ
tables name =
    if name_eq name (codes "shop", codes "orders")
    then some 1
    else if name_eq name (codes "shop", codes "_orders_gho")
    then some 2
    else if name_eq name (codes "shop", codes "items")
    then some 3
    else none

run_renames-build_rename_tables_sql_example :
    let b : SqlBuilder = builder in
    let c : Catalog ℕ = tables in
    let original : ℕ = 1 in
    let ghost : ℕ = 2 in
    (after : Catalog ℕ) × (run_renames (read_two_renames (build_rename_tables_sql b)) c
      ≡ some after)
    × ((name : TableName) → after name ≡ swapped b original ghost c name)
run_renames-build_rename_tables_sql_example =
    run_renames-build_rename_tables_sql builder tables 1 2 refl refl refl refl

build_column_pairs-shared_example :
    let original : TableStructure = orders in
    let alter : AlterStatement = alter in
    (build_column_pairs original alter).shared_columns
    ≡ map
        (λ (c : ColumnInfo). (c.name, c.name))
        (filterb (λ (c : ColumnInfo). not (drops alter c.name)) original.columns)
build_column_pairs-shared_example = build_column_pairs-shared orders alter
