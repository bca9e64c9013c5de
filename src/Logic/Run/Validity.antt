-- ===== src/Logic/Run/Validity.antt =====
-- What the preparation of a migration makes sure of.
use gh_ost_cpp.Base.{
  is_empty, Bytes, ◌≡◌, refl, sym, ap, ◌∙◌, ◌↔◌, Bool, true, false, List, [], ◌∷◌, arith,
}
use gh_ost_cpp.Mysql.Structure.{has_unique_key}
use gh_ost_cpp.Mysql.Server.{Request}
use gh_ost_cpp.Sql.Types.{
  AlterStatement, is_valid, has_rename_table, get_validation_errors, is_valid_iff,
}
use gh_ost_cpp.Context.Config.{MigrationConfig, ValidationResult, add_error, no_problems}
use gh_ost_cpp.Context.{MigrationContext, set_config, create}
use gh_ost_cpp.Logic.Inspector.{
  detect_master, inspect_ghost_table, inspect_original_table, determine_shared_unique_key,
  determine_column_pairs, validate_migration, ghost_table_exists, add_errors,
}
use gh_ost_cpp.Logic.Applier.{
  Applier, send, create_ghost_table, create_changelog_table, alter_ghost_table, drop_ghost_table,
  drop_changelog_table,
}
use gh_ost_cpp.Logic.Migrator.{Migrator}
use gh_ost_cpp.Logic.Run.{
  Environment, initialize, Step, and_then, or_error, by_applier, ignoring, by_inspector, when,
  testing, always, phase_initial_setup, phase_create_ghost_table, phase_alter_ghost_table,
  phase_inspect_original_table, phase_validate_migration, phases, run_phases, run_to_row_copy,
}

abbrev pub alter_of : Migrator → AlterStatement
alter_of m = m.applier.context.alter_statement

-- A step that leaves the ALTER statement alone.
abbrev Keeps : Step → Type 0
Keeps s = (m : Migrator) → alter_of (s m).1 ≡ alter_of m

abbrev KeepsContext : (Applier → Bool × Applier) → Type 0
KeepsContext f = (a : Applier) → (f a).1.context ≡ a.context

and_then-Keeps : (s t : Step) → Keeps s → Keeps t → Keeps (and_then s t)
unfolding and_then
and_then-Keeps s t k l m = ground (arith, k m, l (s m).1)

or_error-Keeps : (e : Bytes) (s : Step) → Keeps s → Keeps (or_error e s)
unfolding or_error
or_error-Keeps e s k m = ground (arith, k m)

when-Keeps : (test : Migrator → Bool) (s : Step) → Keeps s → Keeps (when test s)
unfolding when
when-Keeps test s k m = ground (arith, k m)

testing-Keeps : (test : Migrator → Bool) → Keeps (testing test)
unfolding testing
testing-Keeps test m = refl

by_applier-Keeps : (f : Applier → Bool × Applier) → KeepsContext f → Keeps (by_applier f)
unfolding by_applier
by_applier-Keeps f k m = ap (λ (c : MigrationContext). c.alter_statement) (k m.applier)

ignoring-Keeps : (f : Applier → Bool × Applier) → KeepsContext f → Keeps (ignoring f)
unfolding ignoring
ignoring-Keeps f k m = ap (λ (c : MigrationContext). c.alter_statement) (k m.applier)

by_inspector-Keeps :
    (f : List Request → MigrationContext → Bool × MigrationContext)
    → ((sent : List Request) (c : MigrationContext)
        → ((f sent c).1).alter_statement ≡ c.alter_statement)
    → Keeps (by_inspector f)
unfolding by_inspector
by_inspector-Keeps f k m = k m.applier.sent m.applier.context

is_valid-has_rename_table : (a : AlterStatement) → is_valid a ≡ true → has_rename_table a ≡ false
unfolding is_valid
is_valid-has_rename_table a h = ground arith

initialize-invalid : (config : MigrationConfig) → is_valid (alter_of (initialize config)) ≡ false
unfolding initialize set_config create is_valid has_rename_table get_validation_errors
initialize-invalid config = refl

module _ (env : Environment) where
  initial_setup-Keeps : Keeps (phase_initial_setup env)
  unfolding phase_initial_setup detect_master
  initial_setup-Keeps = and_then-Keeps _ _ (or_error-Keeps _ _ (testing-Keeps _)) (
      and_then-Keeps _ _ (or_error-Keeps _ _ (by_inspector-Keeps _ (λ sent c. ground arith)))
        (or_error-Keeps _ _ (testing-Keeps _)))

  create_ghost_table-Keeps : Keeps (phase_create_ghost_table env)
  unfolding phase_create_ghost_table drop_ghost_table create_ghost_table drop_changelog_table
      create_changelog_table send always
  create_ghost_table-Keeps = and_then-Keeps _ _ (when-Keeps _ _ (by_applier-Keeps _ (λ a. refl))) (
      and_then-Keeps _ _ (by_applier-Keeps _ (λ a. refl)) (
        and_then-Keeps _ _ (when-Keeps _ _ (ignoring-Keeps _ (λ a. refl)))
          (and_then-Keeps _ _ (by_applier-Keeps _ (λ a. refl)) (λ m. refl))))

  alter_ghost_table-Keeps : Keeps (phase_alter_ghost_table env)
  unfolding phase_alter_ghost_table alter_ghost_table send inspect_ghost_table
  alter_ghost_table-Keeps =
      and_then-Keeps _ _ (by_applier-Keeps _ (λ a. refl))
        (by_inspector-Keeps _ (λ sent c. ground arith))

  inspect_original_table-Keeps : Keeps (phase_inspect_original_table env)
  unfolding phase_inspect_original_table inspect_original_table determine_shared_unique_key
      determine_column_pairs
  inspect_original_table-Keeps =
      and_then-Keeps _ _ (by_inspector-Keeps _ (λ sent c. ground arith)) (
        and_then-Keeps _ _ (or_error-Keeps _ _ (by_inspector-Keeps _ (λ sent c. ground arith)))
          (by_inspector-Keeps _ (λ sent c. refl)))

  run_phases-cons :
      (phase : Step) (error : Bytes) (ps : List (Step × Bytes)) (m : Migrator)
      → (run_phases env ((phase, error) ∷ ps) m).0 ≡ true
      → ((phase m).0 ≡ true) × ((run_phases env ps (phase m).1).0 ≡ true)
  unfolding run_phases
  run_phases-cons phase error ps m h = ground arith

  error_stays :
      (es : List Bytes) (r : ValidationResult) → r.valid ≡ false → (add_errors es r).valid ≡ false
  error_stays [] r h = h
  error_stays (e ∷ es) r h = error_stays es (add_error e r) refl

  errors_invalid :
      (es : List Bytes) (r : ValidationResult)
      → is_empty es ≡ false
      → (add_errors es r).valid ≡ false
  errors_invalid [] r h = ground arith
  errors_invalid (e ∷ es) r h = error_stays es (add_error e r) refl

  -- The validation finds no error just in a migration whose ALTER is valid, whose original table has a
  -- unique key that is not its primary key, and whose ghost table exists.
  pub validate_migration_iff :
      (sent : List Request) (ctx : MigrationContext)
      → ((validate_migration env.server sent ctx).valid ≡ true) ↔ (
          (is_valid ctx.alter_statement ≡ true)
          × (has_unique_key ctx.original_structure ≡ true)
          × (ghost_table_exists env.server sent ctx ≡ true))
  unfolding validate_migration
  validate_migration_iff sent ctx = ground (
    arith,
    is_valid_iff ctx.alter_statement,
    errors_invalid (get_validation_errors ctx.alter_statement) no_problems,
    is_valid-has_rename_table ctx.alter_statement,
  )

  phases_succeed :
      (m : Migrator)
      → (run_to_row_copy env m).0 ≡ true
      → (run_phases env (phases env) (record m { is_running = true })).0 ≡ true
  unfolding run_to_row_copy
  phases_succeed m h = ground arith

  phase_valid :
      (m : Migrator) → (phase_validate_migration env m).0 ≡ true → is_valid (alter_of m) ≡ true
  unfolding phase_validate_migration testing
  phase_valid m h =
      let (valid, _, _) = (validate_migration_iff m.applier.sent m.applier.context).0 h in valid

  -- A preparation that succeeds has found the ALTER statement of the migration valid.
  pub run_to_row_copy-is_valid :
      (m : Migrator) → (run_to_row_copy env m).0 ≡ true → is_valid (alter_of m) ≡ true
  run_to_row_copy-is_valid m h =
      let start = record m { is_running = true } in
      let m₁ = (phase_initial_setup env start).1 in
      let m₂ = (phase_create_ghost_table env m₁).1 in
      let m₃ = (phase_alter_ghost_table env m₂).1 in
      let m₄ = (phase_inspect_original_table env m₃).1 in
      let (_, h₁) = run_phases-cons (phase_initial_setup env) _ _ start (phases_succeed m h) in
      let (_, h₂) = run_phases-cons (phase_create_ghost_table env) _ _ m₁ h₁ in
      let (_, h₃) = run_phases-cons (phase_alter_ghost_table env) _ _ m₂ h₂ in
      let (_, h₄) = run_phases-cons (phase_inspect_original_table env) _ _ m₃ h₃ in
      let (valid, _) = run_phases-cons (phase_validate_migration env) _ _ m₄ h₄ in
      let same =
        inspect_original_table-Keeps m₃
        ∙ alter_ghost_table-Keeps m₂
        ∙ create_ghost_table-Keeps m₁
        ∙ initial_setup-Keeps start in
      ap is_valid (sym same) ∙ phase_valid m₄ valid

  -- A migration that begins with `Initialize` fails in its preparation, whatever the server answers and
  -- whatever the configuration: no code hands its ALTER statement to the context.
  pub run_to_row_copy-initialize :
      (config : MigrationConfig) → (run_to_row_copy env (initialize config)).0 ≡ false
  run_to_row_copy-initialize config =
      ground (arith, run_to_row_copy-is_valid (initialize config), initialize-invalid config)
