-- ===== src/Commands.antt =====
-- `InteractiveCommands` of include/server/interactive_commands.hpp and
-- src/server/interactive_commands.cpp, with the commands that the constructor registers.
pub mod Effects
use gh_ost_cpp.Base.{
  leb, if◌then◌else◌, Bytes, codes, bytes_eq, ℕ, ◌/◌, ◌%◌, max, Bool, true, false, Option, none,
  some, List, [], ◌∷◌, ◌++◌,
}
use gh_ost_cpp.Strings.Split.{split}
use gh_ost_cpp.Strings.Search.{to_lower}
use gh_ost_cpp.Strings.Number.{parse_uint64, to_string}
use gh_ost_cpp.Context.{
  MigrationContext, MigrationStatus, not_started, running, paused, throttled, cut_over_phase,
  completed, failed, cancelled, user_command, no_reason, phase_to_string, get_progress,
}

pub record CommandResult : Type 0 where
  pub success : Bool
  pub message : Bytes
  pub data_text : Bytes

abbrev pub succeeds_with : Bytes → CommandResult
succeeds_with message = record { success = true; message = message; data_text = [] }

abbrev pub fails_with : Bytes → CommandResult
fails_with message = record { success = false; message = message; data_text = [] }

abbrev pub with_data : Bytes → CommandResult
with_data text = record { success = true; message = codes "OK"; data_text = text }

-- The context with `paused` of its runtime configuration.
pub record Console : Type 0 where
  pub context : MigrationContext
  pub runtime_paused : Bool

-- `static_cast<int>` of the status
abbrev pub status_number : MigrationStatus → ℕ
status_number not_started = 0
status_number running = 1
status_number paused = 2
status_number throttled = 3
status_number cut_over_phase = 4
status_number completed = 5
status_number failed = 6
status_number cancelled = 7

abbrev pub command_of : List Bytes → Bytes × List Bytes
command_of [] = ([], [])
command_of (command ∷ args) = (to_lower command, args)

unfoldable pub parse_command : Bytes → Bytes × List Bytes
parse_command line = command_of (split line b' ')

unfoldable pub handle_status : Console → CommandResult
handle_status s = with_data (
    codes "Status: "
    ++ (to_string (status_number s.context.status)
        ++ (codes ", Phase: " ++ phase_to_string s.context.current_phase)))

-- `percentage` is the text of the percentage, a floating point number.
unfoldable pub handle_progress : Bytes → Console → CommandResult
handle_progress percentage s =
    let progress = get_progress s.context in
    with_data (
      codes "Copied: "
      ++ (to_string progress.copied_rows
          ++ (codes "/"
              ++ (to_string progress.total_rows ++ (codes " (" ++ (percentage ++ codes "%)"))))))

unfoldable pub handle_throttle : Console → CommandResult × Console
handle_throttle s = (
  succeeds_with (codes "Throttle applied"),
  record s { context = record s.context { is_throttled = true; throttle_reason = user_command } },
)

unfoldable pub handle_unthrottle : Console → CommandResult × Console
handle_unthrottle s = (
  succeeds_with (codes "Throttle released"),
  record s { context = record s.context { is_throttled = false; throttle_reason = no_reason } },
)

unfoldable pub handle_pause : Console → CommandResult × Console
handle_pause s = (succeeds_with (codes "Migration paused"), record s { runtime_paused = true })

unfoldable pub handle_resume : Console → CommandResult × Console
handle_resume s = (succeeds_with (codes "Migration resumed"), record s { runtime_paused = false })

abbrev pub with_chunk_size : ℕ → Console → Console
with_chunk_size size s =
    let ctx = s.context in
    record s {
      context = record ctx {
        config = record ctx.config { throttle = record ctx.config.throttle { chunk_size = size } };
      };
    }

abbrev with_max_lag : ℕ → Console → Console
with_max_lag lag s =
    let ctx = s.context in
    record s {
      context = record ctx {
        config = record ctx.config {
          throttle = record ctx.config.throttle { max_replication_lag = lag };
        };
      };
    }

abbrev pub chunk_size_set : Option ℕ → Console → CommandResult × Console
chunk_size_set none s = (fails_with (codes "Invalid chunk size"), s)
chunk_size_set (some size) s =
    if leb size 0
    then (fails_with (codes "Invalid chunk size"), s)
    else (succeeds_with (codes "Chunk size set to " ++ to_string size), with_chunk_size size s)

unfoldable pub handle_chunk_size : List Bytes → Console → CommandResult × Console
handle_chunk_size [] s =
    (with_data (codes "Current chunk size: " ++ to_string s.context.config.throttle.chunk_size), s)
handle_chunk_size (arg ∷ _) s = chunk_size_set (parse_uint64 arg) s

abbrev pub max_lag_set : Option ℕ → Console → CommandResult × Console
max_lag_set none s = (fails_with (codes "Invalid max lag value"), s)
max_lag_set (some lag) s =
    (succeeds_with (codes "Max lag set to " ++ (to_string lag ++ codes "s")), with_max_lag lag s)

unfoldable pub handle_max_lag : List Bytes → Console → CommandResult × Console
handle_max_lag [] s = (
  with_data (
      codes "Current max lag: "
      ++ (to_string s.context.config.throttle.max_replication_lag ++ codes "s")),
  s,
)
handle_max_lag (arg ∷ _) s = max_lag_set (parse_uint64 arg) s

pub data Command : Type 0 where
  status progress throttle unthrottle pause resume panic_abort cut_over chunk_size max_lag : Command
  unknown : Command

-- the handler that `handlers_` holds under a name
unfoldable pub handler_of : Bytes → Command
handler_of name =
    if bytes_eq name (codes "status")
    then status
    else if bytes_eq name (codes "progress")
    then progress
    else if bytes_eq name (codes "throttle")
    then throttle
    else if bytes_eq name (codes "unthrottle")
    then unthrottle
    else if bytes_eq name (codes "pause")
    then pause
    else if bytes_eq name (codes "resume")
    then resume
    else if bytes_eq name (codes "panic-abort")
    then panic_abort
    else if bytes_eq name (codes "cut-over")
    then cut_over
    else if bytes_eq name (codes "chunk-size")
    then chunk_size
    else if bytes_eq name (codes "max-lag")
    then max_lag
    else unknown

unfoldable pub run_handler :
    Bytes → Bytes → List Bytes → Command → Console → CommandResult × Console
run_handler percentage name args status s = (handle_status s, s)
run_handler percentage name args progress s = (handle_progress percentage s, s)
run_handler percentage name args throttle s = handle_throttle s
run_handler percentage name args unthrottle s = handle_unthrottle s
run_handler percentage name args pause s = handle_pause s
run_handler percentage name args resume s = handle_resume s
run_handler percentage name args panic_abort s = (succeeds_with (codes "Panic abort initiated"), s)
run_handler percentage name args cut_over s =
    (succeeds_with (codes "Cut-over will be initiated when ready"), s)
run_handler percentage name args chunk_size s = handle_chunk_size args s
run_handler percentage name args max_lag s = handle_max_lag args s
run_handler percentage name args unknown s = (fails_with (codes "Unknown command: " ++ name), s)

unfoldable pub process_command : Bytes → Bytes → Console → CommandResult × Console
process_command percentage line s =
    let (command, args) = parse_command line in
    run_handler percentage command args (handler_of command) s
