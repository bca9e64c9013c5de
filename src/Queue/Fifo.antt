-- ===== src/Queue/Fifo.antt =====
-- First in, first out, and the bound on the size, over every interleaving of calls.
use gh_ost_cpp.Base.{
  length, length-append, ◌≤◌, ◌≡◌, sym, ap, ◌∙◌, ◌⊎◌, List, [], ◌∷◌, ◌++◌, append-nil, append_assoc,
  arith,
}
use gh_ost_cpp.Queue.{
  SafeQueue, Call, pushes, try_pushes, resizes, pops, push, try_push, pop, try_pop, pop_for, clear,
  set_max_size, stop, start, step, run,
}

-- With no limit, or within it.
abbrev pub IsBounded {ℓ} : {A : Type ℓ} → SafeQueue A → Type 0
IsBounded q = (q.max_size ≡ 0) ⊎ (length q.queue ≤ q.max_size)

-- The calls leave the limit alone.
abbrev pub KeepsLimit {ℓ} : {A : Type ℓ} → List (Call A) → Type 0
KeepsLimit [] = Unit
KeepsLimit (resizes n ∷ cs) = ⊥
KeepsLimit (c ∷ cs) = KeepsLimit cs

module _ {ℓ} {A : Type ℓ} where
  step_fifo :
      (q : SafeQueue A) (c : Call A)
      → q.queue ++ (step q c).entered ≡ (step q c).left ++ (step q c).next.queue
  unfolding step push try_push pop try_pop pop_for clear set_max_size stop start
  step_fifo q (pushes item) = ground (arith, append-nil q.queue)
  step_fifo q c = ground (arith, append-nil q.queue)

  -- Whatever calls the threads make and in whatever order, the items leave the queue in the order in
  -- which they entered, none is lost and none is made up: what was in the queue and what entered is
  -- what left (popped, or dropped by `Clear`) and what is still in it.
  pub run_fifo :
      (q : SafeQueue A) (cs : List (Call A))
      → q.queue ++ (run q cs).entered ≡ (run q cs).left ++ (run q cs).next.queue
  unfolding run
  run_fifo q [] = append-nil q.queue
  run_fifo q (c ∷ cs) =
      let e = step q c in
      let later = run e.next cs in
      sym (append_assoc q.queue e.entered later.entered)
      ∙ ap (λ l. l ++ later.entered) (step_fifo q c)
      ∙ append_assoc e.left e.next.queue later.entered
      ∙ ap (λ l. e.left ++ l) (run_fifo e.next cs)
      ∙ sym (append_assoc e.left later.left later.next.queue)

  step-IsBounded :
      (q : SafeQueue A) (c : Call A) → KeepsLimit (c ∷ []) → IsBounded q → IsBounded (step q c).next
  unfolding step push try_push pop try_pop pop_for clear set_max_size stop start
  step-IsBounded q (pushes item) k b = ground (arith, length-append q.queue (item ∷ []))
  step-IsBounded q (try_pushes item) k b = ground (arith, length-append q.queue (item ∷ []))
  step-IsBounded q c k b = ground arith

  KeepsLimit-cons :
      (c : Call A) (cs : List (Call A)) → KeepsLimit (c ∷ cs) → KeepsLimit (c ∷ []) × KeepsLimit cs
  KeepsLimit-cons pops cs k = (tt, k)
  KeepsLimit-cons (resizes n) cs k = absurd k
  KeepsLimit-cons c cs k = (tt, k)

  -- No interleaving of calls takes the queue past its limit, unless one of them changes the limit.
  pub run-IsBounded :
      (q : SafeQueue A) (cs : List (Call A))
      → KeepsLimit cs
      → IsBounded q
      → IsBounded (run q cs).next
  unfolding run
  run-IsBounded q [] k b = b
  run-IsBounded q (c ∷ cs) k b =
      let (k₁, k₂) = KeepsLimit-cons c cs k in
      run-IsBounded (step q c).next cs k₂ (step-IsBounded q c k₁ b)
