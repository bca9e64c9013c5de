-- ===== src/Time.antt =====
-- The timers and the formats of durations of src/utils/time_utils.cpp. A time is a number of
-- nanoseconds since the epoch. A `Duration` is a floating point number of seconds: what is computed from
-- one is a parameter, or its whole seconds are.
pub mod Limits
use gh_ost_cpp.Base.{
  ltb, leb, if◌then◌else◌, length, replicate, Bytes, codes, ℕ, ◌+◌, ◌-◌, ◌*◌, ◌/◌, ◌%◌, Bool, true,
  false, ◌||◌, Option, none, some, [], ◌++◌,
}
use gh_ost_cpp.Strings.Number.{to_string}

-- `ToMillis(DurationBetween(a, b))`
abbrev pub Elapsed : Type 0
Elapsed = ℕ → ℕ → ℕ

pub record RateLimiter : Type 0 where
  pub interval_millis : ℕ
  pub last_execution : ℕ

unfoldable pub create_limiter : ℕ → RateLimiter
create_limiter interval_millis = record { interval_millis = interval_millis; last_execution = 0 }

-- `ShouldProceed` at a time
unfoldable pub should_proceed : Elapsed → ℕ → RateLimiter → Bool × RateLimiter
should_proceed elapsed now l =
    if leb l.interval_millis (elapsed l.last_execution now)
    then (true, record l { last_execution = now })
    else (false, l)

-- `WaitForNext`, called at a time and past its sleep at a later one: how long it sleeps, if at all
unfoldable pub wait_for_next : Elapsed → ℕ → ℕ → RateLimiter → ℕ × RateLimiter
wait_for_next elapsed now later l =
    let elapsed_ms = elapsed l.last_execution now in
    (
      if ltb elapsed_ms l.interval_millis then l.interval_millis - elapsed_ms else 0,
      record l { last_execution = later },
    )

unfoldable pub set_interval : ℕ → RateLimiter → RateLimiter
set_interval interval_millis l = record l { interval_millis = interval_millis }

pub record ElapsedTimer : Type 0 where
  pub start_time : ℕ
  pub stop_time : ℕ
  pub running : Bool

unfoldable pub create_timer : ElapsedTimer
create_timer = record { start_time = 0; stop_time = 0; running = false }

unfoldable pub start_timer : ℕ → ElapsedTimer → ElapsedTimer
start_timer now t = record t { start_time = now; running = true }

unfoldable pub stop_timer : ℕ → ElapsedTimer → ElapsedTimer
stop_timer now t = record t { stop_time = now; running = false }

unfoldable pub reset_timer : ElapsedTimer → ElapsedTimer
reset_timer t = record { start_time = 0; stop_time = 0; running = false }

unfoldable pub elapsed_millis : Elapsed → ℕ → ElapsedTimer → ℕ
elapsed_millis elapsed now t =
    if t.running then elapsed t.start_time now else elapsed t.start_time t.stop_time

-- The deadline of a timeout in milliseconds.
pub record DeadlineTimer : Type 0 where
  pub start : ℕ
  pub deadline : ℕ
  pub timeout_millis : ℕ

unfoldable pub create_deadline : ℕ → ℕ → DeadlineTimer
create_deadline now timeout_millis = record {
  start = now;
  deadline = now + timeout_millis * 1000000;
  timeout_millis = timeout_millis;
}

unfoldable pub is_expired : ℕ → DeadlineTimer → Bool
is_expired now d = leb d.deadline now

unfoldable pub remaining_millis : Elapsed → ℕ → DeadlineTimer → ℕ
remaining_millis elapsed now d = if leb d.deadline now then 0 else elapsed now d.deadline

unfoldable pub reset_deadline : ℕ → DeadlineTimer → DeadlineTimer
reset_deadline now d = record d { start = now; deadline = now + d.timeout_millis * 1000000 }

unfoldable pub reset_deadline_to : ℕ → ℕ → DeadlineTimer → DeadlineTimer
unfolding reset_deadline
reset_deadline_to now timeout_millis d =
    reset_deadline now (record d { timeout_millis = timeout_millis })

-- `FormatDuration`: whether the duration is negative, and its whole seconds.
unfoldable pub format_duration : Bool → ℕ → Bytes
format_duration negative total =
    if negative
    then codes "0s"
    else (let hours = total / 3600 in
        let minutes = (total % 3600) / 60 in
        let seconds = total % 60 in
        (if ltb 0 hours then to_string hours ++ codes "h " else [])
        ++ ((if ltb 0 minutes || ltb 0 hours then to_string minutes ++ codes "m " else [])
            ++ (to_string seconds ++ codes "s")))

-- `FormatDurationHuman`, with the milliseconds of a duration below a second.
unfoldable pub format_duration_human : Bool → Option ℕ → ℕ → Bytes
format_duration_human negative millis total = if negative then codes "0s" else elim millis [
  | some ms ↦ to_string ms ++ codes "ms"
  | none ↦
      (let days = total / 86400 in
        let hours = (total % 86400) / 3600 in
        let minutes = (total % 3600) / 60 in
        let seconds = total % 60 in
        (if ltb 0 days then to_string days ++ codes "d " else [])
        ++ ((if ltb 0 hours || ltb 0 days then to_string hours ++ codes "h " else [])
            ++ ((if ltb 0 minutes || (ltb 0 hours || ltb 0 days)
                  then to_string minutes ++ codes "m "
                  else [])
                ++ (to_string seconds ++ codes "s"))))
]

-- `std::setfill('0') << std::setw(n)`
abbrev pub zero_filled : ℕ → Bytes → Bytes
zero_filled n s = replicate (n - length s) 48 ++ s

-- `FormatDurationPrecise` of a duration of whole milliseconds that is not negative
unfoldable pub format_duration_precise : ℕ → Bytes
format_duration_precise millis =
    to_string (millis / 1000)
    ++ (codes "." ++ (zero_filled 3 (to_string (millis % 1000)) ++ codes "s"))

-- the seconds of `ToMySQLTimestamp`, and the milliseconds within a second of `Millisecond`
unfoldable pub to_my_sql_timestamp : ℕ → ℕ
to_my_sql_timestamp time = time / 1000000000

unfoldable pub millisecond : ℕ → ℕ
millisecond time = (time / 1000000) % 1000
