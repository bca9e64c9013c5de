-- ===== src/Queue.antt =====
-- include/utils/safe_queue.hpp, `SafeQueue`. Each method holds the mutex from its first line to its
-- last, or gives it up in a wait on a condition variable: a call is one atomic step on the state, and a
-- call that would wait is `blocked` and leaves the state as it is until another thread's step.
use gh_ost_cpp.Base.{
  ltb, leb, if◌then◌else◌, length, is_empty, ℕ, Bool, true, false, not, ◌&&◌, ◌||◌, Option, none,
  some, List, [], ◌∷◌, ◌++◌,
}
pub mod Fifo
pub mod Stopped

pub record SafeQueue {ℓ} (A : Type ℓ) : Type ℓ where
  pub queue : List A
  pub max_size : ℕ
  pub running : Bool

-- How one step of a call ends.
pub data Outcome {ℓ} (A : Type ℓ) : Type ℓ where
  done : A → Outcome A
  blocked : Outcome A
  stopped_and_empty : Outcome A

module _ {ℓ} {A : Type ℓ} where
  pub create : ℕ → SafeQueue A
  create max_size = record { queue = []; max_size = max_size; running = true }

  abbrev at_capacity : SafeQueue A → Bool
  at_capacity q = ltb 0 q.max_size && leb q.max_size (length q.queue)

  abbrev enqueue : SafeQueue A → A → SafeQueue A
  enqueue q item = record q { queue = q.queue ++ item ∷ [] }

  -- `true` where the item went in: a push that a stop has woken returns without it.
  unfoldable pub push : SafeQueue A → A → Outcome Bool × SafeQueue A
  push q item =
      if q.running && at_capacity q
      then (blocked, q)
      else if not q.running
      then (done false, q)
      else (done true, enqueue q item)

  unfoldable pub try_push : SafeQueue A → A → Bool × SafeQueue A
  try_push q item = if not q.running || at_capacity q then (false, q) else (true, enqueue q item)

  take_front : SafeQueue A → List A → Outcome A × SafeQueue A
  take_front q [] = (stopped_and_empty, q)
  take_front q (item ∷ rest) = (done item, record q { queue = rest })

  unfoldable pub pop : SafeQueue A → Outcome A × SafeQueue A
  unfolding take_front
  pop q = if q.running && is_empty q.queue then (blocked, q) else take_front q q.queue

  front_if_any : SafeQueue A → List A → Option A × SafeQueue A
  front_if_any q [] = (none, q)
  front_if_any q (item ∷ rest) = (some item, record q { queue = rest })

  unfoldable pub try_pop : SafeQueue A → Option A × SafeQueue A
  unfolding front_if_any
  try_pop q = if not q.running || is_empty q.queue then (none, q) else front_if_any q q.queue

  -- `woken` is whether the predicate of `wait_for` held before the timeout.
  unfoldable pub pop_for : Bool → SafeQueue A → Option A × SafeQueue A
  unfolding front_if_any
  pop_for woken q =
      if not woken
      then (none, q)
      else if not q.running || is_empty q.queue
      then (none, q)
      else front_if_any q q.queue

  unfoldable pub peek : SafeQueue A → Option A
  unfolding front_if_any
  peek q = if not q.running || is_empty q.queue then none else (front_if_any q q.queue).0

  unfoldable pub empty : SafeQueue A → Bool
  empty q = is_empty q.queue

  unfoldable pub full : SafeQueue A → Bool
  full q = at_capacity q

  unfoldable pub size : SafeQueue A → ℕ
  size q = length q.queue

  unfoldable pub clear : SafeQueue A → SafeQueue A
  clear q = record q { queue = [] }

  unfoldable pub set_max_size : SafeQueue A → ℕ → SafeQueue A
  set_max_size q max_size = record q { max_size = max_size }

  unfoldable pub stop : SafeQueue A → SafeQueue A
  stop q = record q { running = false }

  unfoldable pub start : SafeQueue A → SafeQueue A
  start q = record q { running = true }

-- The calls that threads make, in the order in which they take the mutex.
pub data Call {ℓ} (A : Type ℓ) : Type ℓ where
  pushes try_pushes : A → Call A
  pops try_pops clears stops starts : Call A
  pops_for : Bool → Call A
  resizes : ℕ → Call A

-- What a call has put in and taken out.
pub record Effect {ℓ} (A : Type ℓ) : Type ℓ where
  pub entered : List A
  pub left : List A
  pub next : SafeQueue A

abbrev outcome_flag : Outcome Bool → Bool
outcome_flag (done b) = b
outcome_flag _ = false

module _ {ℓ} {A : Type ℓ} where
  abbrev entered_if : Bool → A → List A
  entered_if true item = item ∷ []
  entered_if false item = []

  abbrev of_outcome : Outcome A → List A
  of_outcome (done item) = item ∷ []
  of_outcome _ = []

  abbrev of_option : Option A → List A
  of_option none = []
  of_option (some item) = item ∷ []

  unfoldable pub step : SafeQueue A → Call A → Effect A
  step q (pushes item) =
      let (r, q') = push q item in
      record { entered = entered_if (outcome_flag r) item; left = []; next = q' }
  step q (try_pushes item) =
      let (r, q') = try_push q item in record { entered = entered_if r item; left = []; next = q' }
  step q pops = let (r, q') = pop q in record { entered = []; left = of_outcome r; next = q' }
  step q try_pops =
      let (r, q') = try_pop q in record { entered = []; left = of_option r; next = q' }
  step q (pops_for woken) =
      let (r, q') = pop_for woken q in record { entered = []; left = of_option r; next = q' }
  step q clears = record { entered = []; left = q.queue; next = clear q }
  step q (resizes n) = record { entered = []; left = []; next = set_max_size q n }
  step q stops = record { entered = []; left = []; next = stop q }
  step q starts = record { entered = []; left = []; next = start q }

  -- A run of calls: all that entered, all that left, and the queue at the end.
  unfoldable pub run : SafeQueue A → List (Call A) → Effect A
  run q [] = record { entered = []; left = []; next = q }
  run q (c ∷ cs) =
      let e = step q c in
      let later = run e.next cs in
      record {
        entered = e.entered ++ later.entered;
        left = e.left ++ later.left;
        next = later.next;
      }
