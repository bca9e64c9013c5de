-- ===== src/Commands/Effects.antt =====
-- What a command line can change.
use gh_ost_cpp.Base.{
  leb, Bool-cases, Bytes, codes, ℕ, ◌<◌, ◌≡◌, refl, ap, ◌∙◌, ◌≢◌, inl, inr, Option, none, some,
  List, [], ◌∷◌, ◌++◌, arith,
}
use gh_ost_cpp.Strings.Split.{split, split-cons, split_one}
use gh_ost_cpp.Strings.Number.{
  u64_mod, to_string, parse_uint64, parse_uint64-to_string, to_string-head, to_string-has,
}
use gh_ost_cpp.Context.{MigrationContext}
use gh_ost_cpp.Commands.{
  Console, Command, command_of, status, progress, throttle, unthrottle, pause, resume, panic_abort,
  cut_over, chunk_size, max_lag, unknown, chunk_size_set, max_lag_set, succeeds_with,
  with_chunk_size, parse_command, handle_throttle, handle_unthrottle, handle_pause, handle_resume,
  handle_chunk_size, handle_max_lag, handler_of, run_handler, process_command,
}
use gh_ost_cpp.Strings.Search.{to_lower}

-- The context with the throttle and the two numbers of another one.
abbrev pub with_settings : MigrationContext → MigrationContext → MigrationContext
with_settings next ctx = record ctx {
  is_throttled = next.is_throttled;
  throttle_reason = next.throttle_reason;
  config = record ctx.config {
    throttle = record ctx.config.throttle {
      chunk_size = next.config.throttle.chunk_size;
      max_replication_lag = next.config.throttle.max_replication_lag;
    };
  };
}

-- The console `next` differs from `s` in no other part of the context, and keeps a chunk size.
abbrev pub ChangesSettings : Console → Console → Type 0
ChangesSettings s next =
    (next.context ≡ with_settings next.context s.context)
    × (s.context.config.throttle.chunk_size ≢ 0 → next.context.config.throttle.chunk_size ≢ 0)

chunk_size_set-ChangesSettings :
    (size : Option ℕ) (s : Console) → ChangesSettings s (chunk_size_set size s).1
chunk_size_set-ChangesSettings none s = (refl, λ h. h)
chunk_size_set-ChangesSettings (some size) s = elim (Bool-cases (leb size 0)) [
  | inl none_left ↦ rw none_left (refl, λ h. h)
  | inr positive ↦ rw positive (refl, λ h. ground arith)
]

handle_chunk_size-ChangesSettings :
    (args : List Bytes) (s : Console) → ChangesSettings s (handle_chunk_size args s).1
unfolding handle_chunk_size
handle_chunk_size-ChangesSettings [] s = (refl, λ h. h)
handle_chunk_size-ChangesSettings (arg ∷ _) s = chunk_size_set-ChangesSettings (parse_uint64 arg) s

max_lag_set-ChangesSettings :
    (lag : Option ℕ) (s : Console) → ChangesSettings s (max_lag_set lag s).1
max_lag_set-ChangesSettings none s = (refl, λ h. h)
max_lag_set-ChangesSettings (some lag) s = (refl, λ h. h)

handle_max_lag-ChangesSettings :
    (args : List Bytes) (s : Console) → ChangesSettings s (handle_max_lag args s).1
unfolding handle_max_lag
handle_max_lag-ChangesSettings [] s = (refl, λ h. h)
handle_max_lag-ChangesSettings (arg ∷ _) s = max_lag_set-ChangesSettings (parse_uint64 arg) s

run_handler-ChangesSettings :
    (percentage name : Bytes) (args : List Bytes) (c : Command) (s : Console)
    → ChangesSettings s (run_handler percentage name args c s).1
unfolding run_handler handle_throttle handle_unthrottle handle_pause handle_resume
run_handler-ChangesSettings percentage name args status s = (refl, λ h. h)
run_handler-ChangesSettings percentage name args progress s = (refl, λ h. h)
run_handler-ChangesSettings percentage name args throttle s = (refl, λ h. h)
run_handler-ChangesSettings percentage name args unthrottle s = (refl, λ h. h)
run_handler-ChangesSettings percentage name args pause s = (refl, λ h. h)
run_handler-ChangesSettings percentage name args resume s = (refl, λ h. h)
run_handler-ChangesSettings percentage name args panic_abort s = (refl, λ h. h)
run_handler-ChangesSettings percentage name args cut_over s = (refl, λ h. h)
run_handler-ChangesSettings percentage name args unknown s = (refl, λ h. h)
run_handler-ChangesSettings percentage name args chunk_size s =
    handle_chunk_size-ChangesSettings args s
run_handler-ChangesSettings percentage name args max_lag s = handle_max_lag-ChangesSettings args s

-- Whatever the line, a command changes nothing of the context but the throttle, the chunk size and the
-- greatest lag: no command pauses, aborts or cuts over. The chunk size stays other than zero.
pub process_command-ChangesSettings :
    (percentage line : Bytes) (s : Console)
    → ChangesSettings s (process_command percentage line s).1
unfolding process_command
process_command-ChangesSettings percentage line s =
    let (command, args) = parse_command line in
    run_handler-ChangesSettings percentage command args (handler_of command) s

split-to_string : (n : ℕ) → split (to_string n) b' ' ≡ to_string n ∷ []
split-to_string n =
    let (c, t, e, _, _) = to_string-head n in
    rw e (split_one b' ' c t (rw e at (to_string-has b' ' n (inl (omega arith)))))

parse_command-to_string :
    (n : ℕ)
    → parse_command (codes "chunk-size " ++ to_string n) ≡ (codes "chunk-size", to_string n ∷ [])
unfolding parse_command to_lower
parse_command-to_string n = ap command_of (
    split-cons b' ' (codes "chunk-size") (to_string n) refl
    ∙ ap (◌∷◌ (codes "chunk-size")) (split-to_string n))

-- `chunk-size` with the digits of a number that is not zero and fits in 64 bits sets the chunk size to
-- this number, and answers with it.
pub process_command-to_string :
    (percentage : Bytes) (size : ℕ) (s : Console)
    → 0 < size
    → size < u64_mod
    → process_command percentage (codes "chunk-size " ++ to_string size) s
      ≡ (succeeds_with (codes "Chunk size set to " ++ to_string size), with_chunk_size size s)
unfolding process_command run_handler handler_of handle_chunk_size
process_command-to_string percentage size s p f =
    rw (parse_command-to_string size, parse_uint64-to_string size f) (ground arith)
