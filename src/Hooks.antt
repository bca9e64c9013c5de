-- ===== src/Hooks.antt =====
-- src/hooks/hooks_executor.cpp: the table of hooks, what a hook is given, and `ExecuteHook`. The
-- files and the process of a hook are the operating system's, a parameter.
pub mod Waiting
pub mod Variables
use gh_ost_cpp.Base.{
  ltb, ◌==◌, if◌then◌else◌, Bytes, codes, bytes_eq, ℕ, zero, suc, ◌*◌, ◌%◌, String, Bool, true,
  false, not, ◌&&◌, Option, none, some, List, [], ◌∷◌, ◌++◌,
}
use gh_ost_cpp.Strings.Split.{split}
use gh_ost_cpp.Strings.Number.{to_string}
use gh_ost_cpp.Context.Config.{HooksConfig}
use gh_ost_cpp.Context.{MigrationContext, u64_minus, phase_to_string, get_progress, set_last_error}
use gh_ost_cpp.Commands.{status_number}
use gh_ost_cpp.Strings.Number.{u64_mod}

pub record HookResult : Type 0 where
  pub success : Bool
  pub output : Bytes
  pub error : Bytes
  pub duration_ms : ℕ

abbrev pub no_result : HookResult
no_result = record { success = false; output = []; error = []; duration_ms = 0 }

-- what `waitpid` with `WNOHANG` finds: the child runs on, or it has ended, with the values of
-- `WIFEXITED` and `WEXITSTATUS`
pub data Waited : Type 0 where
  still_running : Waited
  ended : Bool → ℕ → Waited

-- A call of `fork` and what is seen of the child: the clock at its `n`th reading, and `waitpid`
-- behind that reading.
pub record HookProcess : Type 0 where
  pub forks : Bool
  pub now : ℕ → ℕ
  pub waited : ℕ → Waited
  pub elapsed : ℕ

pub record System : Type 0 where
  pub is_executable : Bytes → Bool
  -- the process of an `argv`, in an environment in which variables have been set
  pub run : List Bytes → List (Bytes × Bytes) → HookProcess
  -- `StringUtils::ToString` of the percentage of the rows copied
  pub percentage_text : MigrationContext → Bytes

pub record HooksExecutor : Type 0 where
  pub context : MigrationContext
  pub hooks : List (Bytes × Bytes)
  pub timeout_seconds : ℕ

unfoldable pub create : MigrationContext → HooksExecutor
create ctx = record { context = ctx; hooks = []; timeout_seconds = 30 }

-- `hooks_[name] = path`
abbrev pub assign : Bytes → Bytes → List (Bytes × Bytes) → List (Bytes × Bytes)
assign name path [] = (name, path) ∷ []
assign name path ((n, p) ∷ hooks) =
    if bytes_eq n name then (n, path) ∷ hooks else (n, p) ∷ assign name path hooks

abbrev pub register : String → Option Bytes → List (Bytes × Bytes) → List (Bytes × Bytes)
register name none hooks = hooks
register name (some path) hooks = assign (codes name) path hooks

unfoldable pub initialize : HooksExecutor → Bool × HooksExecutor
initialize h =
    let c = h.context.config.hooks in
    (
      true,
      record h {
        hooks = register "on-success" c.hook_on_success (
            register "on-failure" c.hook_on_failure (
              register "on-unthrottle" c.hook_on_unthrottle (
                register "on-throttle" c.hook_on_throttle (
                  register "on-status" c.hook_on_status (
                    register "after-cut-over" c.hook_after_cut_over (
                      register "before-cut-over" c.hook_before_cut_over (
                        register "after-migration" c.hook_after_migration
                          (register "before-migration" c.hook_before_migration h.hooks))))))));
        timeout_seconds = c.hook_timeout_seconds;
      },
    )

abbrev pub path_in : Bytes → List (Bytes × Bytes) → Option Bytes
path_in name [] = none
path_in name ((n, p) ∷ hooks) = if bytes_eq n name then some p else path_in name hooks

unfoldable pub get_hook_path : HooksExecutor → Bytes → Option Bytes
get_hook_path h name = path_in name h.hooks

unfoldable pub has_hook : HooksExecutor → Bytes → Bool
has_hook h name = elim (path_in name h.hooks) [ none ↦ false | some p ↦ true ]

unfoldable pub set_timeout : HooksExecutor → ℕ → HooksExecutor
set_timeout h timeout = record h { timeout_seconds = timeout }

unfoldable pub build_hook_args : MigrationContext → Bytes → List Bytes
build_hook_args ctx name =
    ctx.config.database_name ∷ ctx.config.table_name ∷ ctx.ghost_table_name ∷ name ∷ []

unfoldable pub build_environment : System → MigrationContext → List Bytes
unfolding to_string
build_environment sys ctx =
    (codes "GH_OST_DATABASE=" ++ ctx.config.database_name)
    ∷ (codes "GH_OST_TABLE=" ++ ctx.config.table_name)
    ∷ (codes "GH_OST_GHOST_TABLE=" ++ ctx.ghost_table_name)
    ∷ (codes "GH_OST_CHANGELOG_TABLE=" ++ ctx.changelog_table_name)
    ∷ (codes "GH_OST_PHASE=" ++ phase_to_string ctx.current_phase)
    ∷ (codes "GH_OST_STATUS=" ++ to_string (status_number ctx.status))
    ∷ (codes "GH_OST_PROGRESS=" ++ sys.percentage_text ctx)
    ∷ (codes "GH_OST_TOTAL_ROWS=" ++ to_string (get_progress ctx).total_rows)
    ∷ (codes "GH_OST_COPIED_ROWS=" ++ to_string (get_progress ctx).copied_rows)
    ∷ []

-- what the child sets for one entry: nothing, unless the entry splits into two parts
abbrev pub variable_of : List Bytes → List (Bytes × Bytes)
variable_of (name ∷ value ∷ []) = (name, value) ∷ []
variable_of _ = []

-- the calls of `setenv` in the child
unfoldable pub set_variables : List Bytes → List (Bytes × Bytes)
set_variables [] = []
set_variables (e ∷ env) = variable_of (split e 61) ++ set_variables env

-- `TimeUtils::NowUnixMillis() - start_time < timeout_seconds_ * 1000`, at a reading of the clock
abbrev pub in_time : HookProcess → ℕ → ℕ → Bool
in_time p limit i = ltb (u64_minus (p.now i) (p.now 0)) limit

abbrev pub exit_result : Bool → ℕ → HookResult → HookResult
exit_result exited code r =
    if exited && code == 0
    then record r { success = true }
    else record r { success = false; error = codes "Hook returned exit code: " ++ to_string code }

-- The loop that waits, from a reading of the clock on: the result so far, and the next reading.
unfoldable pub wait_loop : HookProcess → ℕ → ℕ → ℕ → HookResult → Option (HookResult × ℕ)
wait_loop p limit zero i r = none
wait_loop p limit (suc fuel) i r =
    if in_time p limit i
    then elim (p.waited i) [
      | still_running ↦ wait_loop p limit fuel (suc i) r
      | ended exited code ↦ some (exit_result exited code r, suc i)
    ]
    else some (r, suc i)

-- the test behind the loop, and whether the child is killed
abbrev pub behind_loop : HookProcess → ℕ → HookResult × ℕ → HookResult × Bool
behind_loop p limit (r, i) =
    if in_time p limit i
    then (record r { duration_ms = p.elapsed }, false)
    else (record r { error = codes "Hook timeout"; duration_ms = p.elapsed }, true)

-- `timeout_seconds_ * 1000`
abbrev pub timeout_millis : ℕ → ℕ
timeout_millis timeout_seconds = (timeout_seconds * 1000) % u64_mod

-- The child kept waiting longer than the limit in milliseconds has a loop of at most so many rounds.
unfoldable pub execute_process : HookProcess → ℕ → Option (HookResult × Bool)
unfolding wait_loop
execute_process p timeout_seconds =
    let limit = timeout_millis timeout_seconds in
    if not p.forks
    then some (record no_result { error = codes "Failed to fork process" }, false)
    else elim (wait_loop p limit (suc limit) 1 no_result) [
      | none ↦ none
      | some looped ↦ some (behind_loop p limit looped)
    ]

-- what `ExecuteHook` does with the result
abbrev pub record_failure : Bytes → HookResult × Bool → HooksExecutor → HookResult × HooksExecutor
record_failure name (r, killed) h =
    if r.success
    then (r, h)
    else if h.context.config.hooks.hook_fail_on_error
    then (
      r,
      record h {
        context =
            set_last_error ((codes "Hook " ++ name) ++ (codes " failed: " ++ r.error)) h.context;
      },
    )
    else (r, h)

unfoldable pub execute_hook :
    System → Bytes → List Bytes → HooksExecutor → Option (HookResult × HooksExecutor)
unfolding get_hook_path execute_process set_variables build_hook_args build_environment
execute_hook sys name args h = elim (get_hook_path h name) [
  | none ↦ some (record no_result { success = true }, h)
  | some path ↦
      if not (sys.is_executable path)
      then some (record no_result { error = codes "Hook file not executable: " ++ path }, h)
      else (let p =
            sys.run (path ∷ (build_hook_args h.context name ++ args))
              (set_variables (build_environment sys h.context)) in
          elim (execute_process p h.timeout_seconds) [
            | none ↦ none
            | some done ↦ some (record_failure name done h)
          ])
]

-- The occasions that have a method of their own.
pub data Occasion : Type 0 where
  before_migration after_migration before_cut_over after_cut_over on_status : Occasion
  on_throttle on_unthrottle on_failure on_success : Occasion

unfoldable pub occasion_name : Occasion → Bytes
occasion_name before_migration = codes "before-migration"
occasion_name after_migration = codes "after-migration"
occasion_name before_cut_over = codes "before-cut-over"
occasion_name after_cut_over = codes "after-cut-over"
occasion_name on_status = codes "on-status"
occasion_name on_throttle = codes "on-throttle"
occasion_name on_unthrottle = codes "on-unthrottle"
occasion_name on_failure = codes "on-failure"
occasion_name on_success = codes "on-success"

unfoldable pub execute_on : System → Occasion → HooksExecutor → Option (Bool × HooksExecutor)
unfolding execute_hook occasion_name
execute_on sys occasion h = elim (execute_hook sys (occasion_name occasion) [] h) [
  | none ↦ none
  | some (r, h') ↦ some (r.success, h')
]
