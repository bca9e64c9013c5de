-- ===== src/Pool/Counts.antt =====
-- What holds of a pool under every interleaving of its callers and workers.
use gh_ost_cpp.Base.{
  Bool-cases, get_elem?, replicate, all, ℕ, zero, suc, ◌+◌, ◌≡◌, refl, ap, inl, inr, true, Option,
  none, some, List, [], ◌∷◌, ◌++◌, arith,
}
use gh_ost_cpp.Pool.{
  Worker, waiting, ended, executing, ThreadPool, Event, submits, starts, stops, waits_for_workers,
  takes, finishes, submit, start, stop, end_wait, take_task, finish_task, set_num_threads, resizes,
  step, run, set_worker, take_as, finish_as, from_queue, has_ended,
}

module _ {ℓ} {A : Type ℓ} where
  abbrev pub one_if_executing : Worker A → ℕ
  one_if_executing (executing t) = 1
  one_if_executing _ = 0

  abbrev pub count_executing : List (Worker A) → ℕ
  count_executing [] = 0
  count_executing (w ∷ ws) = one_if_executing w + count_executing ws

  -- `active_tasks_` is the number of workers in a task.
  abbrev pub CountsActive : ThreadPool A → Type 0
  CountsActive p = p.active_tasks ≡ count_executing p.workers

  pub count_executing-set_worker :
      (i : ℕ) (v w : Worker A) (ws : List (Worker A))
      → get_elem? ws i ≡ some v
      → count_executing (set_worker i w ws) + one_if_executing v
        ≡ count_executing ws + one_if_executing w
  count_executing-set_worker i v w [] h = absurd (ground arith)
  count_executing-set_worker zero v w (u ∷ ws) h =
      omega (arith, ap {B = ℕ} (λ o. elim o [ none ↦ 0 | some x ↦ one_if_executing x ]) h)
  count_executing-set_worker (suc i) v w (u ∷ ws) h =
      omega (arith, count_executing-set_worker i v w ws h)

  pub count_executing-append :
      (ws vs : List (Worker A))
      → count_executing (ws ++ vs) ≡ count_executing ws + count_executing vs
  count_executing-append [] vs = omega arith
  count_executing-append (w ∷ ws) vs = omega (arith, count_executing-append ws vs)

  pub count_executing-replicate :
      (n : ℕ) (w : Worker A) → one_if_executing w ≡ 0 → count_executing (replicate n w) ≡ 0
  count_executing-replicate zero w h = refl
  count_executing-replicate (suc n) w h = omega (arith, count_executing-replicate n w h)

  from_queue-CountsActive :
      (i : ℕ) (ts : List A) (p : ThreadPool A)
      → get_elem? p.workers i ≡ some waiting
      → CountsActive p
      → CountsActive (from_queue i ts p).next
  from_queue-CountsActive i [] p e h =
      (let c = count_executing-set_worker i waiting ended p.workers e in ground arith)
  from_queue-CountsActive i (t ∷ ts) p e h =
      (let c = count_executing-set_worker i waiting (executing t) p.workers e in omega arith)

  take_as-CountsActive :
      (i : ℕ) (o : Option (Worker A)) (p : ThreadPool A)
      → get_elem? p.workers i ≡ o
      → CountsActive p
      → CountsActive (take_as i o p).next
  take_as-CountsActive i (some waiting) p e h = from_queue-CountsActive i p.tasks p e h
  take_as-CountsActive i (some (executing t)) p e h = h
  take_as-CountsActive i (some ended) p e h = h
  take_as-CountsActive i none p e h = h

  pub count_executing-ended :
      (ws : List (Worker A)) → all has_ended ws ≡ true → count_executing ws ≡ 0
  count_executing-ended [] h = refl
  count_executing-ended (ended ∷ ws) h = omega (arith, count_executing-ended ws h)
  count_executing-ended (waiting ∷ ws) h = absurd (ground arith)
  count_executing-ended (executing t ∷ ws) h = absurd (ground arith)

  finish_as-CountsActive :
      (i : ℕ) (o : Option (Worker A)) (p : ThreadPool A)
      → get_elem? p.workers i ≡ o
      → CountsActive p
      → CountsActive (finish_as i o p).next
  finish_as-CountsActive i (some (executing t)) p e h =
      (let c = count_executing-set_worker i (executing t) waiting p.workers e in omega arith)
  finish_as-CountsActive i (some waiting) p e h = h
  finish_as-CountsActive i (some ended) p e h = h
  finish_as-CountsActive i none p e h = h

  step-CountsActive :
      (p : ThreadPool A) (e : Event A) → CountsActive p → CountsActive (step p e).next
  unfolding step submit start stop end_wait take_task finish_task set_num_threads
  step-CountsActive p (submits t) h = ground arith
  step-CountsActive p starts h =
      (let c = count_executing-append p.workers (replicate p.num_threads waiting) in
        let r = count_executing-replicate p.num_threads waiting refl in ground arith)
  step-CountsActive p stops h = h
  step-CountsActive p waits_for_workers h = elim (Bool-cases (all has_ended p.workers)) [
    | inl e ↦ (let c = count_executing-ended p.workers e in rw e (omega arith))
    | inr e ↦ rw e h
  ]
  step-CountsActive p (resizes n) h = h
  step-CountsActive p (takes i) h = take_as-CountsActive i _ p refl h
  step-CountsActive p (finishes i) h = finish_as-CountsActive i _ p refl h

  pub run-CountsActive :
      (p : ThreadPool A) (es : List (Event A)) → CountsActive p → CountsActive (run p es).next
  unfolding run
  run-CountsActive p [] h = h
  run-CountsActive p (e ∷ es) h = run-CountsActive (step p e).next es (step-CountsActive p e h)
