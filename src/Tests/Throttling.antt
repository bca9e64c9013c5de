-- ===== src/Tests/Throttling.antt =====
-- The throttler on quiet and on busy servers.
use gh_ost_cpp.Base.{all, ◌*◌, ◌^◌, min, ◌≡◌, refl, true, false, not, ◌||◌, List, [], ◌∷◌, arith}
use gh_ost_cpp.Context.{MigrationContext, set_config, create}
use gh_ost_cpp.Throttle.{
  Throttler, Readings, get_replication_lag_seconds, check_custom_query, user_throttle,
  calculate_backoff_ms, max_lag_of, lag_of,
}
use gh_ost_cpp.Throttle.Conditions.{
  is_critical, is_loaded, is_lagging, is_user_throttled, is_busy, throttle_rounds,
  user_throttle-throttle_rounds,
}
use gh_ost_cpp.Strings.Number.{parse_uint64}
use gh_ost_cpp.Throttle.Backoff.{calculate_backoff_ms_lem}
use gh_ost_cpp.Tests.Data.{context, quiet, busy}
use gh_ost_cpp.Throttle as Throttle

quiet_round : is_busy context.config.throttle quiet ≡ false
unfolding set_config create check_custom_query get_replication_lag_seconds max_lag_of lag_of
    parse_uint64
quiet_round = refl

quiet_rounds :
    all (λ r. not (is_busy (user_throttle context).config.throttle r)) (quiet ∷ quiet ∷ []) ≡ true
unfolding user_throttle set_config create check_custom_query get_replication_lag_seconds max_lag_of
    lag_of parse_uint64
quiet_rounds = refl

user_throttled : is_user_throttled (user_throttle context) ≡ true
unfolding user_throttle
user_throttled = refl

busy_round :
    (is_critical context.config.throttle busy
      || (is_loaded context.config.throttle busy || is_lagging context.config.throttle busy))
    ≡ true
unfolding set_config create get_replication_lag_seconds max_lag_of lag_of parse_uint64
busy_round = refl

user_throttle-throttle_rounds_example :
    let rs : List Readings = quiet ∷ quiet ∷ [] in
    let ctx : MigrationContext = user_throttle context in
    let t : Throttler = Throttle.create in is_user_throttled (throttle_rounds rs (ctx, t)).0 ≡ true
user_throttle-throttle_rounds_example =
    user_throttle-throttle_rounds (quiet ∷ quiet ∷ []) (user_throttle context) Throttle.create
      quiet_rounds user_throttled

calculate_backoff_ms_lem_example :
    let ctx : MigrationContext = context in
    let t : Throttler = record Throttle.create { throttle_count = 3 } in
    calculate_backoff_ms ctx t
    ≡ min
        (ctx.config.throttle.throttle_interval_millis * 2 ^ t.throttle_count)
        (ctx.config.cut_over.cut_over_exponential_backoff_max_wait_seconds * 1000)
calculate_backoff_ms_lem_example =
    calculate_backoff_ms_lem context (record Throttle.create { throttle_count = 3 })
      (unfold set_config in omega arith) (unfold set_config in omega arith)
      (unfold Throttle.create in omega arith)
