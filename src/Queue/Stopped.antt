-- ===== src/Queue/Stopped.antt =====
-- A stopped queue.
use gh_ost_cpp.Base.{◌≡◌, refl, ◌⊎◌, inl, inr, Bool, false, none, List, [], ◌∷◌, arith}
use gh_ost_cpp.Queue.{
  SafeQueue, done, stopped_and_empty, push, try_push, pop, try_pop, pop_for, peek, stop,
}

module _ {ℓ} {A : Type ℓ} (q : SafeQueue A) where
  -- Once stopped, the queue takes nothing in, and `TryPop`, `PopFor` and `Peek` find nothing, whatever
  -- it still holds and whether or not the wait of `PopFor` has ended.
  pub stopped_refuses :
      (item : A) (woken : Bool)
      → (push (stop q) item ≡ (done false, stop q))
        × (try_push (stop q) item ≡ (false, stop q))
        × (try_pop (stop q) ≡ (none, stop q))
        × (pop_for woken (stop q) ≡ (none, stop q))
        × (peek (stop q) ≡ none)
  unfolding stop push try_push try_pop pop_for peek
  stopped_refuses item woken = ground arith

  -- `Pop` alone still hands out what a stopped queue holds, in order, and throws once it is empty; it
  -- never waits.
  pub pop-stop :
      ((q.queue ≡ []) × (pop (stop q) ≡ (stopped_and_empty, stop q)))
      ⊎ ((item : A) × (rest : List A) × (q.queue ≡ item ∷ rest)
          × (pop (stop q) ≡ (done item, record (stop q) { queue = rest })))
  unfolding stop pop
  pop-stop = by_items q.queue refl
    where
      by_items :
          (l : List A)
          → q.queue ≡ l
          → ((q.queue ≡ []) × (pop (stop q) ≡ (stopped_and_empty, stop q)))
            ⊎ ((item : A) × (rest : List A) × (q.queue ≡ item ∷ rest)
                × (pop (stop q) ≡ (done item, record (stop q) { queue = rest })))
      by_items [] e = inl (e, ground arith)
      by_items (item ∷ rest) e = inr (item, rest, e, ground arith)
