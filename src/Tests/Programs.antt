-- ===== src/Tests/Programs.antt =====
-- The command line, a hook, and an event.
use gh_ost_cpp.Base.{
  ltb, if◌then◌else◌, is_empty, Bytes, codes, bytes_eq, ◌*◌, ◌≡◌, ◌≢◌, ◌↔◌, true, false, not, ◌||◌,
  [],
}
use gh_ost_cpp.Context.Config.{on_master, on_replica, test_on_replica, noop}
use gh_ost_cpp.CommandLine.Options.{ParseResult, set_mode}
use gh_ost_cpp.CommandLine.Outcome.{is_given, wants_master, set_mode_lem}
use gh_ost_cpp.Hooks.{still_running, ended, HookProcess}
use gh_ost_cpp.Binlog.Reader.Events.{Event}
use gh_ost_cpp.Binlog.Reader as Reader

-- `--execute --database shop --table orders --alter "ADD COLUMN tax int"`
abbrev option_text : Bytes → Bytes
option_text name =
    if bytes_eq name (codes "database")
    then codes "shop"
    else if bytes_eq name (codes "table")
    then codes "orders"
    else if bytes_eq name (codes "alter")
    then codes "ADD COLUMN tax int"
    else []

abbrev options : ParseResult
options = record {
  count =
      λ name. if bytes_eq name (codes "execute") || not (is_empty (option_text name)) then 1 else 0;
  text = option_text;
  number = λ name. 0;
  flag = λ name. true;
}

-- It ends with success in the third round.
abbrev hook : HookProcess
hook = record {
  forks = true;
  now = λ i. 100 * i;
  waited = λ i. if ltb i 3 then still_running else ended true 0;
  elapsed = 300;
}

abbrev rotating : Event
rotating = record {
  timestamp = 1700000000;
  type_code = 4;
  server_id = 1;
  size = 43;
  log_position = 0;
  flags = 32;
  body = [];
}

set_mode_lem_example :
    let r : ParseResult = options in
    (set_mode r on_replica ≢ noop)
    × ((set_mode r on_replica ≡ on_master) ↔ (wants_master r ≡ true))
    × ((set_mode r on_replica ≡ test_on_replica) ↔ (
        (is_given r "test-on-replica" ≡ true)
        × (is_given r "migrate-on-replica" ≡ false)
        × (wants_master r ≡ false)))
set_mode_lem_example = set_mode_lem options
