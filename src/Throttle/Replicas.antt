-- ===== src/Throttle/Replicas.antt =====
-- `GetReplicationLagSeconds`: the worst of the replicas.
use gh_ost_cpp.Base.{
  leb, ◌==◌, all, any, ℕ, ◌≤◌, max, ◌≡◌, refl, ap, ◌∙◌, ◌⊎◌, Bool, true, Option, none, some, List,
  [], ◌∷◌, arith,
}
use gh_ost_cpp.Throttle.{
  Readings, Replica, lag_of, or_zero, max_lag_of, get_replication_lag_seconds,
}

-- The replica is connected and reports at most the lag.
abbrev pub lags_at_most : ℕ → Replica → Bool
lags_at_most n r = leb (or_zero (lag_of r)) n

max_lag_of-cons :
    (n : ℕ) (r : Replica) (rs : List Replica)
    → max_lag_of n (r ∷ rs) ≡ max_lag_of (max n (or_zero (lag_of r))) rs
unfolding max_lag_of
max_lag_of-cons n r rs = ap (λ m. max_lag_of m rs) (by_lag (lag_of r))
  where
    by_lag : (o : Option ℕ) → (elim o [ none ↦ n | some lag ↦ max n lag ]) ≡ max n (or_zero o)
    by_lag none = omega arith
    by_lag (some lag) = refl

max_lag_of-nil : (n : ℕ) → max_lag_of n [] ≡ n
unfolding max_lag_of
max_lag_of-nil n = refl

max_lag_of_lem :
    (n m : ℕ) (rs : List Replica)
    → m ≡ max_lag_of n rs
    → (n ≤ m)
      × (all (lags_at_most m) rs ≡ true)
      × ((m ≡ n) ⊎ (any (λ r. or_zero (lag_of r) == m) rs ≡ true))
max_lag_of_lem n m [] e = ground (arith, max_lag_of-nil n)
max_lag_of_lem n m (r ∷ rs) e =
    ground (arith, max_lag_of_lem (max n (or_zero (lag_of r))) m rs (e ∙ max_lag_of-cons n r rs))

-- The lag that the throttler acts on is the largest that a connected replica reports, the replica of
-- the migration and the control replicas alike: none reports more, and one of them reports it, unless
-- it is 0.
pub get_replication_lag_seconds_lem :
    (r : Readings)
    → let lag = get_replication_lag_seconds r in
      (all (lags_at_most lag) (r.replica ∷ r.control_replicas) ≡ true)
      × (any (λ x. or_zero (lag_of x) == lag) (r.replica ∷ r.control_replicas) ≡ true)
unfolding get_replication_lag_seconds
get_replication_lag_seconds_lem r = ground (
  arith,
  max_lag_of_lem (or_zero (lag_of r.replica)) (get_replication_lag_seconds r) r.control_replicas
      refl,
)
