-- ===== src/Throttle/Conditions.antt =====
-- When the throttler throttles, for what reason, and what becomes of a throttle that a user has asked
-- for.
use gh_ost_cpp.Base.{
  ltb, if◌then◌else◌, all, ℕ, ◌≡◌, ap, Bool, true, false, not, ◌&&◌, ◌||◌, Option, none, some, List,
  [], ◌∷◌, arith,
}
use gh_ost_cpp.Context.Config.{ThrottleConfig, MigrationConfig}
use gh_ost_cpp.Context.{
  MigrationContext, no_reason, replication_lag, max_load, critical_load, user_command,
}
use gh_ost_cpp.Throttle.{
  Throttler, Readings, threads_running, get_replication_lag_seconds, check_replication_lag,
  check_max_load, check_critical_load, check_custom_query, check_http_throttle, is_user_command,
  check_all_conditions, throttle_round, user_throttle,
}

-- The number is above a limit that is set.
abbrev pub exceeds : Option ℕ → ℕ → Bool
exceeds none n = false
exceeds (some limit) n = ltb limit n

abbrev pub is_critical : ThrottleConfig → Readings → Bool
is_critical c r =
    exceeds c.critical_load_threads_running (threads_running r r.threads_at_critical_check)

abbrev pub is_loaded : ThrottleConfig → Readings → Bool
is_loaded c r = exceeds c.max_load_threads_running (threads_running r r.threads_at_max_load_check)

-- A limit of 0 is no limit.
abbrev pub is_lagging : ThrottleConfig → Readings → Bool
is_lagging c r =
    ltb 0 c.max_replication_lag && ltb c.max_replication_lag (get_replication_lag_seconds r)

abbrev pub is_user_throttled : MigrationContext → Bool
is_user_throttled ctx = ctx.is_throttled && is_user_command ctx.throttle_reason

-- A condition other than the user's holds.
abbrev pub is_busy : ThrottleConfig → Readings → Bool
is_busy c r = is_critical c r || (is_loaded c r || (is_lagging c r || check_custom_query c r))

critical_lem :
    (c : ThrottleConfig) (r : Readings) (t : Throttler)
    → check_critical_load c r t
      ≡ (if is_critical c r then (true, record t { reason = critical_load }) else (false, t))
unfolding check_critical_load
critical_lem c r t = ground arith

max_load_lem :
    (c : ThrottleConfig) (r : Readings) (t : Throttler)
    → ((check_max_load c r t).0 ≡ is_loaded c r)
      × (((check_max_load c r t).1).reason ≡ (if is_loaded c r then max_load else t.reason))
unfolding check_max_load
max_load_lem c r t = ground arith

lag_lem :
    (c : ThrottleConfig) (r : Readings) (t : Throttler)
    → ((check_replication_lag c r t).0 ≡ is_lagging c r)
      × (((check_replication_lag c r t).1).reason
          ≡ (if is_lagging c r then replication_lag else t.reason))
unfolding check_replication_lag
lag_lem c r t = ground arith

pub check_all_conditions_lem :
    (ctx : MigrationContext) (r : Readings) (t : Throttler)
    → let c = ctx.config.throttle in
      ((check_all_conditions ctx r t).0 ≡ (is_busy c r || is_user_throttled ctx))
      × (((check_all_conditions ctx r t).1).reason ≡ (
          if is_critical c r
          then critical_load
          else if is_loaded c r
          then max_load
          else if is_lagging c r
          then replication_lag
          else if check_custom_query c r
          then t.reason
          else if is_user_throttled ctx
          then user_command
          else t.reason))
unfolding check_all_conditions check_http_throttle
check_all_conditions_lem ctx r t =
    let c = ctx.config.throttle in
    let t₁ = (check_critical_load c r t).1 in
    let t₂ = (check_max_load c r t₁).1 in
    ground (arith, critical_lem c r t, max_load_lem c r t₁, lag_lem c r t₂)

-- Rounds of the throttle thread, one for each of the readings.
unfoldable pub throttle_rounds :
    List Readings → MigrationContext × Throttler → MigrationContext × Throttler
throttle_rounds [] s = s
throttle_rounds (r ∷ rs) s = throttle_rounds rs (throttle_round r s)

throttle_round_lem :
    (r : Readings) (ctx : MigrationContext) (t : Throttler)
    → let next = (throttle_round r (ctx, t)).0 in
      let checked = check_all_conditions ctx r t in
      (next.config ≡ ctx.config)
      × (next.is_throttled ≡ checked.0)
      × (next.throttle_reason ≡ (if checked.0 then (checked.1).reason else no_reason))
unfolding throttle_round
throttle_round_lem r ctx t = ground arith

-- A throttle of the user lasts as long as no other condition holds in any round.
pub user_throttle-throttle_rounds :
    (rs : List Readings) (ctx : MigrationContext) (t : Throttler)
    → all (λ r. not (is_busy ctx.config.throttle r)) rs ≡ true
    → is_user_throttled ctx ≡ true
    → is_user_throttled (throttle_rounds rs (ctx, t)).0 ≡ true
unfolding throttle_rounds
user_throttle-throttle_rounds [] ctx t q u = u
user_throttle-throttle_rounds (r ∷ rs) ctx t q u =
    let (same, throttles, reason) = throttle_round_lem r ctx t in
    let checked = check_all_conditions_lem ctx r t in
    let next = throttle_round r (ctx, t) in
    user_throttle-throttle_rounds rs next.0 next.1 (rw same (ground arith))
      (ground (arith, checked))

-- A round in which another condition holds takes the user's throttle away: with the next quiet round
-- the migration goes on, although the user never released the throttle.
pub user_throttle-lost :
    (busy quiet : Readings) (ctx : MigrationContext) (t : Throttler)
    → (is_critical ctx.config.throttle busy
        || (is_loaded ctx.config.throttle busy || is_lagging ctx.config.throttle busy))
      ≡ true
    → is_busy ctx.config.throttle quiet ≡ false
    → ((throttle_rounds (busy ∷ quiet ∷ []) (user_throttle ctx, t)).0).is_throttled ≡ false
unfolding throttle_rounds user_throttle
user_throttle-lost busy quiet ctx t b q =
    let asked = user_throttle ctx in
    let next = throttle_round busy (asked, t) in
    let (same, _, reason) = throttle_round_lem busy asked t in
    let (_, throttles, _) = throttle_round_lem quiet next.0 next.1 in
    rw throttles (
      ground (
        arith,
        check_all_conditions_lem asked busy t,
        check_all_conditions_lem next.0 quiet next.1,
        ap (λ (c : MigrationConfig). is_busy c.throttle quiet) same,
      ))
