-- ===== src/CommandLine/Program.antt =====
-- `PrintConfig` and `main` of src/main.cpp.
use gh_ost_cpp.Base.{
  if◌then◌else◌, is_empty, Bytes, codes, ℕ, not, none, some, List, [], ◌∷◌, ◌++◌, map,
}
use gh_ost_cpp.Strings.Number.{to_string}
use gh_ost_cpp.Context.Config.{
  MigrationConfig, default_config, validate, MigrationMode, noop, on_master, on_replica,
  test_on_replica,
}
use gh_ost_cpp.CommandLine.Options.{Parsed, Line, out, err, logged, parse_command_line}

abbrev mode_text : MigrationMode → Bytes
mode_text noop = codes "Noop (test)"
mode_text on_master = codes "On Master"
mode_text on_replica = codes "On Replica"
mode_text test_on_replica = codes "Test On Replica"

abbrev address : Bytes → ℕ → Bytes
unfolding to_string
address host port = (host ++ codes ":") ++ to_string port

-- `PrintConfig`. A `\n` at the start of a text is an empty line before it.
unfoldable pub print_config : MigrationConfig → List Line
unfolding to_string
print_config c =
    let replica = c.replica_connection in
    out []
    ∷ out (codes "=== gh-ost-cpp Configuration ===")
    ∷ out (codes "Database: " ++ c.database_name)
    ∷ out (codes "Table: " ++ c.table_name)
    ∷ out (codes "Ghost Table: " ++ c.ghost_table_name)
    ∷ out (codes "Alter: " ++ c.alter_statement)
    ∷ out []
    ∷ out (codes "Master Connection: " ++ address c.master_connection.host c.master_connection.port)
    ∷ ((if is_empty replica.host
          then []
          else out (codes "Replica Connection: " ++ address replica.host replica.port) ∷ [])
        ++ (out []
            ∷ out (codes "Mode: " ++ mode_text c.mode)
            ∷ out []
            ∷ out (codes "Throttle Settings:")
            ∷ out (
                (codes "  Max Replication Lag: " ++ to_string c.throttle.max_replication_lag)
                ++ codes "s")
            ∷ out (codes "  Chunk Size: " ++ to_string c.throttle.chunk_size)
            ∷ out []
            ∷ out (codes "Execute: " ++ (if c.execute then codes "Yes" else codes "No"))
            ∷ out (codes "================================")
            ∷ out []
            ∷ []))

-- The exit code and the lines written. The place at which a migration would be run is empty.
abbrev main_workflow : MigrationConfig → ℕ × List Line
main_workflow c =
    if not c.execute
    then (
      0,
      logged (codes "No-op mode: migration will not be executed")
          ∷ logged (codes "Use --execute flag to perform actual migration")
          ∷ [],
    )
    else (0, logged (codes "Starting migration...") ∷ logged (codes "Migration complete!") ∷ [])

-- the part behind the reading of the options
unfoldable pub run_with : MigrationConfig → ℕ × List Line
unfolding print_config
run_with c =
    let validation = validate c in
    if not (validation.0).valid
    then (1, map (λ e. err (codes "Error: " ++ e)) (validation.0).errors)
    else (let done = main_workflow validation.1 in (done.0, print_config validation.1 ++ done.1))

unfoldable pub main : Bytes → Parsed → ℕ × List Line
unfolding parse_command_line run_with
main help parsed =
    let read = parse_command_line help parsed default_config in
    elim read.0 [ none ↦ (0, read.1) | some c ↦ run_with c ]
