-- ===== src/Sql/Builder/Names.antt =====
-- The names in the statements of `SQLBuilder`, as MySQL reads them.
use gh_ost_cpp.Base.{
  ◌==◌, if◌then◌else◌, ==_refl, Bytes, codes, ◌≡◌, refl, sym, ap, ◌∙◌, Option, none, some, [], ◌∷◌,
  ◌++◌, append-nil, append_assoc, arith,
}
use gh_ost_cpp.Strings.Quote.{identifier, quote_identifier}
use gh_ost_cpp.Strings.Quote.ReadBack.{GoesOn, identifier-quote_identifier}
use gh_ost_cpp.Sql.Builder.{
  SqlBuilder, quote_name, build_table_full_name, old_name, build_rename_tables_sql,
}

-- Go on with what has been read and with the rest of the text.
abbrev pub then_read : {A B : Type 0} → Option (A × Bytes) → (A → Bytes → Option B) → Option B
then_read none f = none
then_read (some (a, rest)) f = f a rest

-- The text behind a keyword.
abbrev pub expect : Bytes → Bytes → Option Bytes
expect [] s = some s
expect (c ∷ cs) [] = none
expect (c ∷ cs) (d ∷ s) = let later = expect cs s in if c == d then later else none

abbrev pub after : {B : Type 0} → Option Bytes → (Bytes → Option B) → Option B
after none f = none
after (some s) f = f s

-- A table, as the pair of its database and its name.
abbrev pub TableName : Type 0
TableName = Bytes × Bytes

-- `database`.`table`
unfoldable pub read_table : Bytes → Option (TableName × Bytes)
read_table s = then_read (identifier b'`' s) (λ database rest.
    after (expect (codes ".") rest)
      (λ rest. then_read (identifier b'`' rest) (λ table rest. some ((database, table), rest))))

-- `a` TO `b`
unfoldable pub read_rename : Bytes → Option ((TableName × TableName) × Bytes)
read_rename s = then_read (read_table s) (λ source rest.
    after (expect (codes " TO ") rest)
      (λ rest. then_read (read_table rest) (λ target rest. some ((source, target), rest))))

-- RENAME TABLE of two tables: the renames, and the text behind them.
unfoldable pub read_two_renames :
    Bytes → Option ((TableName × TableName) × (TableName × TableName) × Bytes)
read_two_renames s = after (expect (codes "RENAME TABLE ") s) (λ rest.
    then_read (read_rename rest) (λ first rest.
      after (expect (codes ", ") rest)
        (λ rest. then_read (read_rename rest) (λ second rest. some (first, second, rest)))))

expect-append : (k s : Bytes) → expect k (k ++ s) ≡ some s
expect-append [] s = refl
expect-append (c ∷ k) s = ground (arith, expect-append k s, ==_refl c)

-- MySQL reads the full name that the builder writes as the table meant, whatever bytes the names
-- hold, if what follows does not begin with a backquote.
pub read_table-build_table_full_name :
    (b : SqlBuilder) (table rest : Bytes)
    → GoesOn b'`' rest
    → read_table (build_table_full_name b table ++ rest) ≡ some ((b.database, table), rest)
unfolding read_table build_table_full_name quote_name
read_table-build_table_full_name b table rest h =
    let database = quote_identifier b.database b'`' in
    let name = quote_identifier table b'`' in
    rw
      (
        append_assoc (database ++ codes ".") name rest,
        append_assoc database (codes ".") (name ++ rest),
        identifier-quote_identifier b'`' b.database (codes "." ++ (name ++ rest)) (ground arith),
        identifier-quote_identifier b'`' table rest h,
      )
      refl

read_rename_lem :
    (b : SqlBuilder) (source target rest : Bytes)
    → GoesOn b'`' rest
    → read_rename (
        build_table_full_name b source
        ++ (codes " TO " ++ (build_table_full_name b target ++ rest)))
      ≡ some (((b.database, source), (b.database, target)), rest)
unfolding read_rename
read_rename_lem b source target rest h =
    rw
      (
        read_table-build_table_full_name b source
            (codes " TO " ++ (build_table_full_name b target ++ rest)) (ground arith),
        read_table-build_table_full_name b target rest h,
      )
      refl

-- The statement of the cut-over, as MySQL reads it, whatever bytes the names hold: it renames the
-- original table to the name with `_old` and the ghost table to the name of the original, in this
-- order, and nothing else.
pub read_two_renames-build_rename_tables_sql :
    (b : SqlBuilder)
    → read_two_renames (build_rename_tables_sql b)
      ≡ some (
        ((b.database, b.original_table), (b.database, old_name b)),
        ((b.database, b.ghost_table), (b.database, b.original_table)),
        [],
      )
unfolding read_two_renames build_rename_tables_sql
read_two_renames-build_rename_tables_sql b =
    let last =
      codes ", "
      ++ (build_table_full_name b b.ghost_table
          ++ (codes " TO " ++ build_table_full_name b b.original_table)) in
    let second =
      ap (λ s. read_rename (build_table_full_name b b.ghost_table ++ (codes " TO " ++ s)))
        (sym (append-nil (build_table_full_name b b.original_table)))
      ∙ read_rename_lem b b.ghost_table b.original_table [] tt in
    rw (read_rename_lem b b.original_table (old_name b) last (ground arith), second) refl
