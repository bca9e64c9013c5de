-- ===== src/Tests/Settings.antt =====
-- The configuration and the context of the migration of `orders`.
use gh_ost_cpp.Base.{codes, refl, ◌≢◌, ◌++◌}
use gh_ost_cpp.Context.Config.{MigrationConfig}
use gh_ost_cpp.Context.{MigrationContext, set_config}
use gh_ost_cpp.Context.Progress.{set_config-distinct_names}
use gh_ost_cpp.Tests.Data.{config, context}

set_config-distinct_names_example :
    let ctx : MigrationContext = context in
    let c : MigrationConfig = config in
    let b = (set_config ctx c).sql_builder in
    (b.original_table ≢ b.ghost_table)
    × (b.original_table ≢ b.changelog_table)
    × (b.ghost_table ≢ b.changelog_table)
    × (b.original_table ++ codes "_old" ≢ b.original_table)
    × (b.original_table ++ codes "_old" ≢ b.ghost_table)
    × (b.original_table ++ codes "_old" ≢ b.changelog_table)
set_config-distinct_names_example = set_config-distinct_names context config refl refl
