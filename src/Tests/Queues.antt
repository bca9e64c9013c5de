-- ===== src/Tests/Queues.antt =====
-- The queue with a limit of two items.
use gh_ost_cpp.Base.{ℕ, ◌≡◌, inr, true, List, [], ◌∷◌, ◌++◌, arith}
use gh_ost_cpp.Queue.{SafeQueue, Call, pushes, pops, run, try_pops}
use gh_ost_cpp.Queue.Fifo.{IsBounded, run_fifo, run-IsBounded}

abbrev two_items : SafeQueue ℕ
two_items = record { queue = 7 ∷ 8 ∷ []; max_size = 2; running = true }

run_fifo_example :
    let q : SafeQueue ℕ = two_items in
    let cs : List (Call ℕ) = pops ∷ pushes 9 ∷ try_pops ∷ [] in
    q.queue ++ (run q cs).entered ≡ (run q cs).left ++ (run q cs).next.queue
run_fifo_example = run_fifo two_items (pops ∷ pushes 9 ∷ try_pops ∷ [])

run-IsBounded_example :
    let q : SafeQueue ℕ = two_items in
    let cs : List (Call ℕ) = pushes 9 ∷ pops ∷ [] in IsBounded (run q cs).next
run-IsBounded_example = run-IsBounded two_items (pushes 9 ∷ pops ∷ []) tt (inr (omega arith))
