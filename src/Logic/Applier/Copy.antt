-- ===== src/Logic/Applier/Copy.antt =====
-- `CopyRows`: one chunk of the row copy.
use gh_ost_cpp.Base.{
  if◌then◌else◌, length, take, ℕ, suc, ◌<◌, ◌≡◌, ◌⊎◌, Bool, true, false, List, ◌++◌, map,
}
use gh_ost_cpp.Mysql.Server.{Row, Request, execute, Server}
use gh_ost_cpp.Sql.Builder.{build_insert_into_ghost_sql}
use gh_ost_cpp.Context.{MigrationContext}
use gh_ost_cpp.Logic.Applier.{Applier, next_count, literals}
use gh_ost_cpp.Logic.Applier.Statements.{counted, with_sent}

-- The insertions of the rows, in order.
abbrev pub inserts : MigrationContext → List Row → List Request
inserts ctx rows =
    map
      (λ (row : Row).
        execute
          (build_insert_into_ghost_sql ctx.sql_builder (literals row.values) ctx.column_pairs))
      rows

abbrev pub with_copied : ℕ → MigrationContext → MigrationContext
with_copied n ctx = record ctx { copied_row_count = counted ctx.copied_row_count n }

-- How a list of insertions ends: all accepted, or cut after the first that is refused, with the
-- counts of rows gone up by the number of those accepted.
abbrev pub Copied : List Request → ℕ → Bool × Applier → Applier → Type 0
Copied requests n result a =
    (((result.0 ≡ true) × (n ≡ length requests)) ⊎ ((result.0 ≡ false) × (n < length requests)))
    × ((result.1).sent ≡ a.sent ++ take (if result.0 then n else suc n) requests)
    × ((result.1).context ≡ with_copied n a.context)
    × ((result.1).row_copy_count ≡ counted a.row_copy_count n)

-- The state behind one insertion that was accepted.
abbrev pub inserted : Request → Applier → Applier
inserted r a = record (with_sent r a) {
  row_copy_count = next_count a.row_copy_count;
  context = record (a.context) { copied_row_count = next_count a.context.copied_row_count };
}
