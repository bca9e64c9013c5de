-- ===== src/Pool/Balance.antt =====
-- Where the tasks of a pool are, under every interleaving of its callers and workers.
use gh_ost_cpp.Base.{
  Bool-cases, length, get_elem?, replicate, length-append, all, ℕ, ◌+◌, ◌≡◌, refl, ap, inl, inr,
  true, false, Option, none, some, List, [], ◌∷◌, arith,
}
use gh_ost_cpp.Pool.{
  Worker, waiting, ended, executing, ThreadPool, Event, submits, starts, stops, waits_for_workers,
  takes, finishes, submit, start, stop, end_wait, take_task, finish_task, set_num_threads, resizes,
  wait_all_returns, step, run, create, take_as, finish_as, from_queue, has_ended, Effect, silent,
}
use gh_ost_cpp.Pool.Counts.{
  count_executing, count_executing-set_worker, count_executing-append, count_executing-replicate,
  count_executing-ended, run-CountsActive,
}

module _ {ℓ} {A : Type ℓ} where
  -- Each task that was there or was accepted waits, or was taken or thrown away; each task that was
  -- taken runs, or has finished.
  abbrev Balances : ThreadPool A → Effect A → Type 0
  Balances p f =
      (length p.tasks + length f.accepted
        ≡ length f.taken + (length f.dropped + length f.next.tasks))
      × (count_executing p.workers + length f.taken
          ≡ length f.finished + count_executing f.next.workers)

  silent-Balances :
      (p q : ThreadPool A)
      → q.tasks ≡ p.tasks
      → count_executing q.workers ≡ count_executing p.workers
      → Balances p (silent q)
  silent-Balances p q e c = (let l = ap length e in (omega arith, omega arith))

  from_queue-Balances :
      (i : ℕ) (ts : List A) (p : ThreadPool A)
      → get_elem? p.workers i ≡ some waiting
      → p.tasks ≡ ts
      → Balances p (from_queue i ts p)
  from_queue-Balances i [] p e t =
      (let c = count_executing-set_worker i waiting ended p.workers e in
        (ground arith, ground arith))
  from_queue-Balances i (x ∷ ts) p e t =
      (let c = count_executing-set_worker i waiting (executing x) p.workers e in
        let l = ap length t in (omega arith, omega arith))

  take_as-Balances :
      (i : ℕ) (o : Option (Worker A)) (p : ThreadPool A)
      → get_elem? p.workers i ≡ o
      → Balances p (take_as i o p)
  take_as-Balances i (some waiting) p e = from_queue-Balances i p.tasks p e refl
  take_as-Balances i (some (executing x)) p e = silent-Balances p p refl refl
  take_as-Balances i (some ended) p e = silent-Balances p p refl refl
  take_as-Balances i none p e = silent-Balances p p refl refl

  finish_as-Balances :
      (i : ℕ) (o : Option (Worker A)) (p : ThreadPool A)
      → get_elem? p.workers i ≡ o
      → Balances p (finish_as i o p)
  finish_as-Balances i (some (executing t)) p e =
      (let c = count_executing-set_worker i (executing t) waiting p.workers e in
        (omega arith, omega arith))
  finish_as-Balances i (some waiting) p e = silent-Balances p p refl refl
  finish_as-Balances i (some ended) p e = silent-Balances p p refl refl
  finish_as-Balances i none p e = silent-Balances p p refl refl

  step-Balances : (p : ThreadPool A) (e : Event A) → Balances p (step p e)
  unfolding step submit start stop end_wait take_task finish_task set_num_threads
  step-Balances p (submits t) =
      (let l = length-append p.tasks (t ∷ []) in (ground arith, ground arith))
  step-Balances p starts =
      (let c = count_executing-append p.workers (replicate p.num_threads waiting) in
        let r = count_executing-replicate {A = A} p.num_threads waiting refl in
        (ground arith, ground arith))
  step-Balances p stops = silent-Balances p (stop p) refl refl
  step-Balances p waits_for_workers = elim (Bool-cases (all has_ended p.workers)) [
    | inl e ↦ (let c = count_executing-ended p.workers e in rw e (omega arith, omega arith))
    | inr e ↦ rw e (omega arith, omega arith)
  ]
  step-Balances p (resizes n) = silent-Balances p (set_num_threads n p) refl refl
  step-Balances p (takes i) = take_as-Balances i _ p refl
  step-Balances p (finishes i) = finish_as-Balances i _ p refl

  run-Balances : (p : ThreadPool A) (es : List (Event A)) → Balances p (run p es)
  unfolding run
  run-Balances p [] = silent-Balances p p refl refl
  run-Balances p (e ∷ es) =
      (let (a, b) = step-Balances p e in
        let (c, d) = run-Balances (step p e).next es in
        let f = step p e in
        let g = run f.next es in
        let l₁ = length-append f.accepted g.accepted in
        let l₂ = length-append f.taken g.taken in
        let l₃ = length-append f.finished g.finished in
        let l₄ = length-append f.dropped g.dropped in (omega arith, omega arith))

  -- Where `WaitAll` returns from a pool that is not stopped, every task that was accepted since the pool
  -- was made has finished, or was thrown away in a `StopAndWait`, whatever the interleaving of callers
  -- and workers.
  pub wait_all-finished :
      (num_threads : ℕ) (es : List (Event A))
      → wait_all_returns (run (create num_threads) es).next ≡ true
      → (run (create num_threads) es).next.stopped ≡ false
      → length (run (create num_threads) es).accepted
        ≡ length (run (create num_threads) es).finished
          + length (run (create num_threads) es).dropped
  unfolding wait_all_returns create
  wait_all-finished num_threads es w s =
      (let f = run (create num_threads) es in
        let (a, b) = run-Balances (create num_threads) es in
        let c = run-CountsActive (create num_threads) es refl in ground arith)
