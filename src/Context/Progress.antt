-- ===== src/Context/Progress.antt =====
-- What the context reports and the names it makes.
use gh_ost_cpp.Base.{
  leb, leb→le, Bool-cases, length, is_empty, length-append, Bytes, codes, ℕ, ◌+◌, ◌-◌, ◌≤◌, ◌<◌,
  ◌≡◌, ap, ◌≢◌, ◌↔◌, ◌⊎◌, inl, inr, true, false, ◌&&◌, ◌++◌, arith,
}
use gh_ost_cpp.Strings.Number.{u64_mod}
use gh_ost_cpp.Context.Config.{MigrationConfig, validate}
use gh_ost_cpp.Context.{
  MigrationContext, get_progress, u64_minus, generate_ghost_table_name,
  generate_changelog_table_name, set_config,
}

-- For counts of 64 bits, the remaining rows are the difference while no more rows have been copied
-- than were expected; with more, the difference wraps around to a number near 2^64.
pub get_progress-remaining_rows :
    (ctx : MigrationContext)
    → ctx.total_row_count < u64_mod
    → ctx.copied_row_count < u64_mod
    → ((ctx.copied_row_count ≤ ctx.total_row_count)
        × ((get_progress ctx).remaining_rows + ctx.copied_row_count ≡ ctx.total_row_count))
      ⊎ ((ctx.total_row_count < ctx.copied_row_count)
          × ((get_progress ctx).remaining_rows + (ctx.copied_row_count - ctx.total_row_count)
              ≡ u64_mod))
unfolding get_progress
get_progress-remaining_rows ctx t c = cases ctx.total_row_count ctx.copied_row_count t c
  where
    cases :
        (total copied : ℕ)
        → total < u64_mod
        → copied < u64_mod
        → ((copied ≤ total) × (u64_minus total copied + copied ≡ total))
          ⊎ ((total < copied) × (u64_minus total copied + (copied - total) ≡ u64_mod))
    cases total copied t c = elim (Bool-cases (leb copied total)) [
      | inl h ↦ inl (leb→le copied total h, ground (arith, leb→le copied total h))
      | inr h ↦ inr (ground arith, ground arith)
    ]

-- Where the configuration names neither table, the original, the ghost and the changelog table and
-- the name that the cut-over leaves the original under are four different names.
pub set_config-distinct_names :
    (ctx : MigrationContext) (c : MigrationConfig)
    → is_empty c.ghost_table_name ≡ true
    → is_empty c.changelog_table_name ≡ true
    → let b = (set_config ctx c).sql_builder in
      (b.original_table ≢ b.ghost_table)
      × (b.original_table ≢ b.changelog_table)
      × (b.ghost_table ≢ b.changelog_table)
      × (b.original_table ++ codes "_old" ≢ b.original_table)
      × (b.original_table ++ codes "_old" ≢ b.ghost_table)
      × (b.original_table ++ codes "_old" ≢ b.changelog_table)
unfolding set_config generate_ghost_table_name generate_changelog_table_name
set_config-distinct_names ctx c g h = rw (g, h) (distinct c.table_name)
  where
    by_length : (a b : Bytes) → length a ≢ length b → a ≢ b
    by_length a b n e = n (ap length e)

    distinct :
        (t : Bytes)
        → (t ≢ codes "_gh_ost_" ++ t)
          × (t ≢ (codes "_gh_ost_" ++ t) ++ codes "_changelog")
          × (codes "_gh_ost_" ++ t ≢ (codes "_gh_ost_" ++ t) ++ codes "_changelog")
          × (t ++ codes "_old" ≢ t)
          × (t ++ codes "_old" ≢ codes "_gh_ost_" ++ t)
          × (t ++ codes "_old" ≢ (codes "_gh_ost_" ++ t) ++ codes "_changelog")
    distinct t =
        let old = length-append t (codes "_old") in
        let log = length-append t (codes "_changelog") in
        (
          by_length _ _ (ground arith),
          by_length _ _ (ground arith),
          by_length _ _ (ground arith),
          by_length _ _ (ground arith),
          by_length _ _ (ground arith),
          by_length _ _ (ground arith),
        )

-- A configuration is valid just when it has a database, a table, an ALTER and a host, and it is
-- valid just when no error is reported.
pub validate_lem :
    (c : MigrationConfig)
    → (((validate c).0).valid ≡ is_empty ((validate c).0).errors)
      × ((((validate c).0).valid ≡ true) ↔ (
          (is_empty c.database_name ≡ false)
          × (is_empty c.table_name ≡ false)
          × (is_empty c.alter_statement ≡ false)
          × ((is_empty c.master_connection.host && is_empty c.replica_connection.host) ≡ false)))
unfolding validate
validate_lem c = (ground arith, ground arith)

-- The ghost table's name that `Validate` fills in is the one that the context would make, and the
-- context keeps it.
pub validate-ghost_table_name :
    (c : MigrationConfig)
    → (((validate c).1).ghost_table_name ≡ generate_ghost_table_name c)
      × (generate_ghost_table_name (validate c).1 ≡ generate_ghost_table_name c)
unfolding validate generate_ghost_table_name
validate-ghost_table_name c = (ground arith, ground arith)
