-- ===== src/Throttle/Backoff.antt =====
-- `CalculateBackoffMs` against its closed form.
use gh_ost_cpp.Base.{
  leb, leb→le, Bool-cases, ℕ, zero, suc, ◌*◌, ◌%◌, ◌^◌, ◌≤◌, ◌<◌, min, ◌≡◌, ◌⊎◌, inl, inr, arith,
}
use gh_ost_cpp.Strings.Number.{u64_mod}
use gh_ost_cpp.Context.{MigrationContext}
use gh_ost_cpp.Throttle.{Throttler, backoff_loop, calculate_backoff_ms}

one_le_pow : (n : ℕ) → 1 ≤ 2 ^ n
one_le_pow zero = omega arith
one_le_pow (suc n) = omega (arith, one_le_pow n)

pow_shift : (b n : ℕ) → b * 2 ^ suc n ≡ (b * 2) * 2 ^ n
pow_shift b n = grind arith

le_mul_pow : (b n : ℕ) → b ≤ b * 2 ^ n
le_mul_pow b zero = omega arith
le_mul_pow b (suc n) = rw (pow_shift b n) (omega (arith, le_mul_pow (b * 2) n))

double_lem : (b : ℕ) → b < 2 ^ 63 → (b * 2) % u64_mod ≡ b * 2
double_lem b f = omega arith

backoff_loop_lem :
    (max_ms n b : ℕ)
    → max_ms ≤ 2 ^ 63
    → b < 2 ^ 63
    → (b ≤ max_ms) ⊎ (0 < n)
    → backoff_loop max_ms n b ≡ min (b * 2 ^ n) max_ms
unfolding backoff_loop
backoff_loop_lem max_ms zero b m f h = ground arith
backoff_loop_lem max_ms (suc n) b m f h =
    rw (pow_shift b n, double_lem b f)
      (elim (Bool-cases (leb max_ms (b * 2))) [
        | inl l ↦ rw l (ground (arith, le_mul_pow (b * 2) n, leb→le max_ms (b * 2) l))
        | inr l ↦ rw l (backoff_loop_lem max_ms n (b * 2) m (ground arith) (inl (ground arith)))
      ])

-- After at least one throttle, the wait is the interval doubled once for each throttle so far, capped
-- at the configured maximum: 64-bit doubling does not overflow, for an interval below 2^63
-- milliseconds and a maximum of at most 2^63.
pub calculate_backoff_ms_lem :
    (ctx : MigrationContext) (t : Throttler)
    → ctx.config.cut_over.cut_over_exponential_backoff_max_wait_seconds * 1000 ≤ 2 ^ 63
    → ctx.config.throttle.throttle_interval_millis < 2 ^ 63
    → 0 < t.throttle_count
    → calculate_backoff_ms ctx t
      ≡ min
          (ctx.config.throttle.throttle_interval_millis * 2 ^ t.throttle_count)
          (ctx.config.cut_over.cut_over_exponential_backoff_max_wait_seconds * 1000)
unfolding calculate_backoff_ms
calculate_backoff_ms_lem ctx t m f h =
    let max_ms = ctx.config.cut_over.cut_over_exponential_backoff_max_wait_seconds * 1000 in
    rw (small max_ms m) (
      backoff_loop_lem max_ms t.throttle_count ctx.config.throttle.throttle_interval_millis m f
        (inr h))
  where
    small : (n : ℕ) → n ≤ 2 ^ 63 → n % u64_mod ≡ n
    small n l = omega arith
