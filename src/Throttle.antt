-- ===== src/Throttle.antt =====
-- `Throttler` of src/throttle/throttler.cpp, with the throttle thread of `Migrator`
-- (`RunThrottleCheck`, `Throttle` and `Unthrottle` of src/logic/migrator.cpp).
pub mod Backoff
pub mod Conditions
pub mod Replicas
use gh_ost_cpp.Base.{
  ltb, leb, if◌then◌else◌, is_empty, Bytes, codes, ℕ, zero, suc, ◌+◌, ◌*◌, ◌%◌, max, Bool, true,
  false, not, ◌&&◌, Option, none, some, List, [], ◌∷◌,
}
use gh_ost_cpp.Strings.Number.{u64_mod, parse_uint64}
use gh_ost_cpp.Context.Config.{ThrottleConfig}
use gh_ost_cpp.Context.{
  MigrationContext, ThrottleReason, no_reason, replication_lag, max_load, critical_load,
  user_command, heartbeat, postponed_cut_over,
}

pub record Throttler : Type 0 where
  pub reason : ThrottleReason
  pub throttled : Bool
  pub throttle_count : ℕ
  pub last_replication_lag : ℕ
  pub last_threads_running : ℕ
  pub http_url : Bytes

unfoldable pub create : Throttler
create = record {
  reason = no_reason;
  throttled = false;
  throttle_count = 0;
  last_replication_lag = 0;
  last_threads_running = 0;
  http_url = [];
}

-- What one replica answers to SHOW SLAVE STATUS: no connection, no status row or no value in it, or
-- the text of `Seconds_Behind_Master`.
pub data Replica : Type 0 where
  disconnected without_status : Replica
  behind : Bytes → Replica

-- What the servers answer during one round of checks. The number of running threads is asked for
-- once in each of two checks. Without a master connection it is 0 and no query is sent.
pub record Readings : Type 0 where
  pub has_master : Bool
  pub threads_at_critical_check : ℕ
  pub threads_at_max_load_check : ℕ
  pub replica : Replica
  pub control_replicas : List Replica
  pub query_value : Bytes → Option Bytes

unfoldable pub apply_throttle : Throttler → Throttler
apply_throttle t = record t { throttled = true; throttle_count = (t.throttle_count + 1) % u64_mod }

unfoldable pub release_throttle : Throttler → Throttler
release_throttle t = record t { throttled = false; reason = no_reason }

unfoldable pub reason_to_string : ThrottleReason → Bytes
reason_to_string no_reason = codes "None"
reason_to_string replication_lag = codes "Replication Lag"
reason_to_string max_load = codes "Max Load"
reason_to_string critical_load = codes "Critical Load"
reason_to_string user_command = codes "User Command"
reason_to_string heartbeat = codes "Heartbeat"
reason_to_string postponed_cut_over = codes "Postponed Cut-Over"

-- `value_or(0)`
abbrev pub or_zero : Option ℕ → ℕ
or_zero none = 0
or_zero (some n) = n

-- `MySQLUtils::GetReplicationLagSeconds` of a connection that may be missing.
unfoldable pub lag_of : Replica → Option ℕ
lag_of disconnected = none
lag_of without_status = some 0
lag_of (behind s) = some (or_zero (parse_uint64 s))

unfoldable pub max_lag_of : ℕ → List Replica → ℕ
max_lag_of max_lag [] = max_lag
max_lag_of max_lag (r ∷ rs) =
    max_lag_of (elim (lag_of r) [ none ↦ max_lag | some lag ↦ max max_lag lag ]) rs

unfoldable pub get_replication_lag_seconds : Readings → ℕ
get_replication_lag_seconds r = max_lag_of (or_zero (lag_of r.replica)) r.control_replicas

abbrev pub threads_running : Readings → ℕ → ℕ
threads_running r n = if r.has_master then n else 0

unfoldable pub check_replication_lag : ThrottleConfig → Readings → Throttler → Bool × Throttler
check_replication_lag c r t =
    if leb c.max_replication_lag 0
    then (false, t)
    else (let lag = get_replication_lag_seconds r in
        let t₁ = record t { last_replication_lag = lag } in
        if ltb c.max_replication_lag lag
        then (true, record t₁ { reason = replication_lag })
        else (false, t₁))

unfoldable pub check_max_load : ThrottleConfig → Readings → Throttler → Bool × Throttler
check_max_load c r t = by_limit c.max_load_threads_running
  where
    by_limit : Option ℕ → Bool × Throttler
    by_limit none = (false, t)
    by_limit (some limit) =
        let threads = threads_running r r.threads_at_max_load_check in
        let t₁ = record t { last_threads_running = threads } in
        if ltb limit threads then (true, record t₁ { reason = max_load }) else (false, t₁)

unfoldable pub check_critical_load : ThrottleConfig → Readings → Throttler → Bool × Throttler
check_critical_load c r t = by_limit c.critical_load_threads_running
  where
    by_limit : Option ℕ → Bool × Throttler
    by_limit none = (false, t)
    by_limit (some limit) =
        if ltb limit (threads_running r r.threads_at_critical_check)
        then (true, record t { reason = critical_load })
        else (false, t)

-- a result of the throttle query that asks for a throttle
is_positive_number : Option Bytes → Bool
is_positive_number none = false
is_positive_number (some s) = ltb 0 (or_zero (parse_uint64 s))

unfoldable pub check_custom_query : ThrottleConfig → Readings → Bool
unfolding is_positive_number
check_custom_query c r = by_query c.throttle_query
  where
    by_query : Option Bytes → Bool
    by_query none = false
    by_query (some query) =
        if not r.has_master then false else is_positive_number (r.query_value query)

unfoldable pub check_http_throttle : Throttler → Bool
check_http_throttle t = if is_empty t.http_url then false else false

abbrev pub is_user_command : ThrottleReason → Bool
is_user_command user_command = true
is_user_command _ = false

-- `CheckAllConditions`, each check on the throttler that the one before it has left.
unfoldable pub check_all_conditions : MigrationContext → Readings → Throttler → Bool × Throttler
check_all_conditions ctx r t =
    let c = ctx.config.throttle in
    let (critical, t₁) = check_critical_load c r t in
    let (max_load_exceeded, t₂) = check_max_load c r t₁ in
    let (lags, t₃) = check_replication_lag c r t₂ in
    if critical
    then (true, t₁)
    else if max_load_exceeded
    then (true, t₂)
    else if lags
    then (true, t₃)
    else if check_custom_query c r
    then (true, t₃)
    else if check_http_throttle t₃
    then (true, t₃)
    else if ctx.is_throttled && is_user_command ctx.throttle_reason
    then (true, record t₃ { reason = user_command })
    else (false, t₃)

-- The loop of `CalculateBackoffMs`: `n` rounds are left.
unfoldable pub backoff_loop : ℕ → ℕ → ℕ → ℕ
backoff_loop max_ms zero backoff = backoff
backoff_loop max_ms (suc n) backoff =
    let doubled = (backoff * 2) % u64_mod in
    let later = backoff_loop max_ms n doubled in if leb max_ms doubled then max_ms else later

unfoldable pub calculate_backoff_ms : MigrationContext → Throttler → ℕ
calculate_backoff_ms ctx t =
    backoff_loop
      ((ctx.config.cut_over.cut_over_exponential_backoff_max_wait_seconds * 1000) % u64_mod)
      t.throttle_count ctx.config.throttle.throttle_interval_millis

-- One round of the loop of `RunThrottleCheck`.
unfoldable pub throttle_round :
    Readings → MigrationContext × Throttler → MigrationContext × Throttler
throttle_round r (ctx, t) =
    let (throttles, t₁) = check_all_conditions ctx r t in
    if throttles
    then (record ctx { is_throttled = true; throttle_reason = t₁.reason }, apply_throttle t₁)
    else (record ctx { is_throttled = false; throttle_reason = no_reason }, t₁)

-- `Migrator::Throttle` and `Migrator::Unthrottle`
unfoldable pub user_throttle : MigrationContext → MigrationContext
user_throttle ctx = record ctx { is_throttled = true; throttle_reason = user_command }

unfoldable pub user_unthrottle : MigrationContext → MigrationContext
user_unthrottle ctx = record ctx { is_throttled = false; throttle_reason = no_reason }
