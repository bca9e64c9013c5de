-- ===== src/Sql/Builder/Swap.antt =====
-- What the statement of the cut-over does to a catalog of tables, by the rules of RENAME TABLE.
use gh_ost_cpp.Base.{
  if◌then◌else◌, Bytes, bytes_eq, bytes_eq_iff, bytes_eq_refl, ◌≡◌, refl, sym, ap, ◌∙◌, Bool, true,
  false, ◌&&◌, Option, none, some, arith,
}
use gh_ost_cpp.Sql.Builder.{SqlBuilder, old_name, build_rename_tables_sql}
use gh_ost_cpp.Sql.Builder.Names.{
  TableName, read_two_renames, read_two_renames-build_rename_tables_sql,
}

-- The table that stands under each name, if there is one.
abbrev pub Catalog {ℓ} : Type ℓ → Type ℓ
Catalog A = TableName → Option A

abbrev pub name_eq : TableName → TableName → Bool
name_eq (d, t) (e, u) = bytes_eq d e && bytes_eq t u

name_eq_refl : (n : TableName) → name_eq n n ≡ true
name_eq_refl (d, t) = rw (bytes_eq_refl d, bytes_eq_refl t) refl

name_eq-eq : (m n : TableName) → name_eq m n ≡ true → m ≡ n
name_eq-eq (d, t) (e, u) h = ground (arith, bytes_eq_iff d e, bytes_eq_iff t u)

module _ {ℓ} {A : Type ℓ} where
  abbrev pub moved : TableName → TableName → A → Catalog A → Catalog A
  moved source target table c name =
      if name_eq name target then some table else if name_eq name source then none else c name

  abbrev moved_if : Option A → Option A → TableName → TableName → Catalog A → Option (Catalog A)
  moved_if (some table) none source target c = some (moved source target table c)
  moved_if _ _ source target c = none

  -- A rename fails if the source does not exist or the target does.
  abbrev pub rename : TableName × TableName → Catalog A → Option (Catalog A)
  rename (source, target) c = moved_if (c source) (c target) source target c

  abbrev then_rename : TableName × TableName → Option (Catalog A) → Option (Catalog A)
  then_rename r none = none
  then_rename r (some c) = rename r c

  -- The renames of a statement happen from left to right, all of them or none.
  abbrev pub run_renames :
      Option ((TableName × TableName) × (TableName × TableName) × Bytes)
      → Catalog A
      → Option (Catalog A)
  run_renames none c = none
  run_renames (some (first, second, rest)) c = then_rename second (rename first c)

  rename_lem :
      (source target : TableName) (table : A) (c : Catalog A)
      → c source ≡ some table
      → c target ≡ none
      → rename (source, target) c ≡ some (moved source target table c)
  rename_lem source target table c e f = rw (e, f) refl

  moved_other :
      (source target name : TableName) (table : A) (c : Catalog A)
      → name_eq name target ≡ false
      → name_eq name source ≡ false
      → moved source target table c name ≡ c name
  moved_other source target name table c h k = rw (h, k) refl

  moved_source :
      (source target : TableName) (table : A) (c : Catalog A)
      → name_eq source target ≡ false
      → moved source target table c source ≡ none
  moved_source source target table c h = rw (h, name_eq_refl source) refl

  -- A name that has a table is another name than one that has none.
  names_differ :
      (c : Catalog A) (m n : TableName) (table : A)
      → c m ≡ some table
      → c n ≡ none
      → name_eq m n ≡ false
  names_differ c m n table e f = by_test (name_eq m n) refl
    where
      same : name_eq m n ≡ true → c m ≡ c n
      same h = ap c (name_eq-eq m n h)

      by_test : (b : Bool) → name_eq m n ≡ b → name_eq m n ≡ false
      by_test false h = h
      by_test true h = ground (arith, sym e ∙ same h ∙ f)

  -- The catalog behind the two renames.
  abbrev pub swapped : SqlBuilder → A → A → Catalog A → Catalog A
  swapped b original ghost c name =
      if name_eq name (b.database, b.original_table)
      then some ghost
      else if name_eq name (b.database, b.ghost_table)
      then none
      else if name_eq name (b.database, old_name b)
      then some original
      else c name

  -- Where the original and the ghost table exist under different names and no table has the name with
  -- `_old`, the statement succeeds, and then the name of the original has the table that was the ghost,
  -- the name of the ghost has none, the name with `_old` has the table that was the original, and every
  -- other name has what it had.
  pub run_renames-build_rename_tables_sql :
      (b : SqlBuilder) (c : Catalog A) (original ghost : A)
      → c (b.database, b.original_table) ≡ some original
      → c (b.database, b.ghost_table) ≡ some ghost
      → c (b.database, old_name b) ≡ none
      → bytes_eq b.ghost_table b.original_table ≡ false
      → (after : Catalog A) × (run_renames (read_two_renames (build_rename_tables_sql b)) c
          ≡ some after)
        × ((name : TableName) → after name ≡ swapped b original ghost c name)
  run_renames-build_rename_tables_sql b c original ghost o g n d =
      let from : TableName = (b.database, b.original_table) in
      let old : TableName = (b.database, old_name b) in
      let ghost_name : TableName = (b.database, b.ghost_table) in
      let c₁ : Catalog A = moved from old original c in
      let g₁ =
        moved_other from old ghost_name original c (names_differ c ghost_name old ghost g n)
          (rw (bytes_eq_refl b.database, d) refl)
        ∙ g in
      let o₁ = moved_source from old original c (names_differ c from old original o n) in
      (
        moved ghost_name from ghost c₁,
        ap (λ r. run_renames r c) (read_two_renames-build_rename_tables_sql b)
            ∙ ap (then_rename (ghost_name, from)) (rename_lem from old original c o n)
            ∙ rename_lem ghost_name from ghost c₁ g₁ o₁,
        λ name. ground arith,
      )
