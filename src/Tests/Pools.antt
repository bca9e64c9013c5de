-- ===== src/Tests/Pools.antt =====
-- A pool of two threads.
use gh_ost_cpp.Base.{length, ℕ, ◌+◌, ◌≡◌, refl, true, false, List, [], ◌∷◌}
use gh_ost_cpp.Pool.{
  Event, submits, starts, takes, finishes, submit, start, take_task, finish_task, wait_all_returns,
  step, run, create,
}
use gh_ost_cpp.Pool.Balance.{wait_all-finished}

abbrev pool_events : List (Event ℕ)
pool_events = starts ∷ submits 5 ∷ submits 6 ∷ takes 0 ∷ takes 1 ∷ finishes 1 ∷ finishes 0 ∷ []

pool_done : wait_all_returns (run (create 2) pool_events).next ≡ true
unfolding wait_all_returns run create step start submit take_task finish_task
pool_done = refl

pool_goes_on : (run (create 2) pool_events).next.stopped ≡ false
unfolding run create step start submit take_task finish_task
pool_goes_on = refl

wait_all-finished_example :
    let num_threads : ℕ = 2 in
    let es : List (Event ℕ) = pool_events in
    length (run (create num_threads) es).accepted
    ≡ length (run (create num_threads) es).finished + length (run (create num_threads) es).dropped
wait_all-finished_example = wait_all-finished 2 pool_events pool_done pool_goes_on
