-- ===== src/CommandLine/Outcome.antt =====
-- What the command line of src/main.cpp makes of its options, and how the program ends.
use gh_ost_cpp.Base.{
  if◌then◌else◌, is_empty, Bytes, codes, ℕ, String, ◌≡◌, ◌≢◌, ◌↔◌, Bool, true, false, not, ◌&&◌,
  ◌||◌, arith,
}
use gh_ost_cpp.Context.Config.{
  MigrationConfig, default_config, on_master, on_replica, test_on_replica, noop,
}
use gh_ost_cpp.CommandLine.Options.{
  ParseResult, Parsed, returns, throws, given, set_mode, set_connections, set_execution,
  set_throttle_and_cut_over, set_hooks_and_output,
}

abbrev pub is_given : ParseResult → String → Bool
is_given r name = given r (codes name)

-- the text of an option that must be there
abbrev pub is_missing : ParseResult → String → Bool
is_missing r name = not (is_given r name) || is_empty (r.text (codes name))

abbrev pub wants_master : ParseResult → Bool
wants_master r =
    is_given r "allow-on-master" && (is_given r "execute" && not (is_given r "replica-host"))

-- Whatever the options, the mode is never the one that changes nothing; it is the master's just
-- where `--allow-on-master` and `--execute` are given and `--replica-host` is not, whatever their
-- values, and the test mode just where `--test-on-replica` is given, `--migrate-on-replica` is not,
-- and it is not the master's.
pub set_mode_lem :
    (r : ParseResult)
    → (set_mode r on_replica ≢ noop)
      × ((set_mode r on_replica ≡ on_master) ↔ (wants_master r ≡ true))
      × ((set_mode r on_replica ≡ test_on_replica) ↔ (
          (is_given r "test-on-replica" ≡ true)
          × (is_given r "migrate-on-replica" ≡ false)
          × (wants_master r ≡ false)))
unfolding set_mode
set_mode_lem r = (ground arith, ground arith, ground arith)

-- the test of `Validate` on the four required settings
abbrev lacks : Bytes → Bytes → Bytes → Bytes → Bytes → Bool
lacks database table alter master replica =
    (is_empty database || is_empty table)
    || (is_empty alter || (is_empty master && is_empty replica))

abbrev settings : ParseResult → MigrationConfig
settings r =
    set_hooks_and_output r
      (set_throttle_and_cut_over r (set_execution r (set_connections r default_config)))

-- how the program is to end
abbrev pub exit_code : Parsed → ℕ
exit_code (throws what) = 0
exit_code (returns r) =
    if is_given r "help" || is_given r "version"
    then 0
    else if (is_missing r "database" || is_missing r "table")
        || (is_missing r "alter" || (is_missing r "host" && is_missing r "replica-host"))
    then 1
    else 0
