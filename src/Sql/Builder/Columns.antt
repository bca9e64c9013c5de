-- ===== src/Sql/Builder/Columns.antt =====
-- The columns that `BuildColumnPairs` pairs and that `BuildCreateGhostTableSQL` keeps.
use gh_ost_cpp.Base.{
  Bool-cases, is_empty, any, filterb, Bytes, codes, bytes_eq, ◌≡◌, refl, inl, inr, Bool, true,
  false, not, ◌&&◌, List, [], ◌∷◌, ◌++◌, map, append_assoc, arith,
}
use gh_ost_cpp.Mysql.Structure.{ColumnInfo, TableStructure, column_to_text}
use gh_ost_cpp.Sql.Types.{AlterOperation, AlterStatement, is_drop_column, get_drop_column_ops}
use gh_ost_cpp.Sql.Pairs.{build_column_pairs, shared_from, operation_names}
use gh_ost_cpp.Sql.GhostTable.{is_dropped, column_lines}

-- The statement has an operation that drops the column.
abbrev pub drops : AlterStatement → Bytes → Bool
drops alter name = any (λ op. is_drop_column op && bytes_eq op.name name) alter.operations

any-operation_names :
    (name : Bytes) (ops : List AlterOperation)
    → any (λ n. bytes_eq n name) (operation_names (filterb is_drop_column ops))
      ≡ any (λ op. is_drop_column op && bytes_eq op.name name) ops
any-operation_names name [] = refl
any-operation_names name (op ∷ ops) = ground (arith, any-operation_names name ops)

-- The shared columns are those of the original table that no operation drops, each once, in the
-- order of the table and under its own name on both sides.
pub build_column_pairs-shared :
    (original : TableStructure) (alter : AlterStatement)
    → (build_column_pairs original alter).shared_columns
      ≡ map
          (λ (c : ColumnInfo). (c.name, c.name))
          (filterb (λ (c : ColumnInfo). not (drops alter c.name)) original.columns)
unfolding build_column_pairs shared_from get_drop_column_ops
build_column_pairs-shared original alter = each original.columns
  where
    each :
        (cs : List ColumnInfo)
        → shared_from (operation_names (filterb is_drop_column alter.operations)) cs
          ≡ map
              (λ (c : ColumnInfo). (c.name, c.name))
              (filterb (λ (c : ColumnInfo). not (drops alter c.name)) cs)
    each [] = refl
    each (c ∷ cs) = ground (arith, each cs, any-operation_names c.name alter.operations)

is_empty-append :
    (cs : List ColumnInfo) (c : ColumnInfo) (l : List ColumnInfo) → is_empty (cs ++ c ∷ l) ≡ false
is_empty-append [] c l = refl
is_empty-append (x ∷ cs) c l = refl

-- The lines of the columns end in a comma where the last column is dropped and the one before it is
-- kept, so that the statement has a comma with no column behind it.
pub column_lines-last_dropped :
    (ops : List AlterOperation) (cs : List ColumnInfo) (kept last : ColumnInfo)
    → is_dropped ops kept.name ≡ false
    → is_dropped ops last.name ≡ true
    → (before : Bytes) × (column_lines ops (cs ++ kept ∷ last ∷ []) ≡ before ++ codes ",\n")
unfolding column_lines
column_lines-last_dropped ops [] kept last k d =
    (codes "  " ++ column_to_text kept, rw (k, d) (simp append_assoc))
column_lines-last_dropped ops (c ∷ cs) kept last k d =
    let (before, e) = column_lines-last_dropped ops cs kept last k d in
    elim (Bool-cases (is_dropped ops c.name)) [
      | inl h ↦ (before, rw h e)
      | inr h ↦ (
        codes "  " ++ (column_to_text c ++ (codes ",\n" ++ before)),
        rw (h, is_empty-append cs kept (last ∷ []), e) (simp append_assoc),
      )
    ]
