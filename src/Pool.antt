-- ===== src/Pool.antt =====
-- `ThreadPool` of include/utils/thread_pool.hpp and src/utils/thread_pool.cpp. A step is a part of a
-- method or of a worker under the mutex, or the run of a task.
pub mod Counts
pub mod Balance
use gh_ost_cpp.Base.{
  ◌==◌, if◌then◌else◌, length, get_elem?, replicate, is_empty, all, ℕ, zero, suc, ◌+◌, ◌-◌, Bool,
  true, false, ◌&&◌, ◌||◌, Option, some, List, [], ◌∷◌, ◌++◌,
}

-- Where a thread of `WorkerThread` is: in front of the wait, in a task, or returned.
pub data Worker {ℓ} (A : Type ℓ) : Type ℓ where
  waiting ended : Worker A
  executing : A → Worker A

pub record ThreadPool {ℓ} (A : Type ℓ) : Type ℓ where
  pub tasks : List A
  pub workers : List (Worker A)
  pub num_threads : ℕ
  pub running : Bool
  pub stopped : Bool
  pub active_tasks : ℕ

-- What may happen next.
pub data Event {ℓ} (A : Type ℓ) : Type ℓ where
  submits : A → Event A
  starts stops waits_for_workers : Event A
  takes finishes resizes : ℕ → Event A

-- The next state, and the tasks that were accepted, taken by a worker, finished, and thrown away.
pub record Effect {ℓ} (A : Type ℓ) : Type ℓ where
  pub next : ThreadPool A
  pub accepted : List A
  pub taken : List A
  pub finished : List A
  pub dropped : List A

module _ {ℓ} {A : Type ℓ} where
  unfoldable pub create : ℕ → ThreadPool A
  create num_threads = record {
    tasks = [];
    workers = [];
    num_threads = num_threads;
    running = false;
    stopped = true;
    active_tasks = 0;
  }

  abbrev pub silent : ThreadPool A → Effect A
  silent p = record { next = p; accepted = []; taken = []; finished = []; dropped = [] }

  -- `Submit`, which throws where the pool is stopped
  unfoldable pub submit : A → ThreadPool A → Effect A
  submit t p =
      if p.stopped
      then silent p
      else record (silent (record p { tasks = p.tasks ++ t ∷ [] })) { accepted = t ∷ [] }

  -- The new threads are put behind those that are there.
  unfoldable pub start : ThreadPool A → ThreadPool A
  start p = if p.running then p else record p {
    stopped = false;
    running = true;
    workers = p.workers ++ replicate p.num_threads waiting;
  }

  unfoldable pub stop : ThreadPool A → ThreadPool A
  stop p = record p { stopped = true; running = false }

  abbrev pub has_ended : Worker A → Bool
  has_ended ended = true
  has_ended _ = false

  -- The rest of `StopAndWait` behind `Stop`, where all threads have been joined.
  unfoldable pub end_wait : ThreadPool A → Effect A
  end_wait p =
      if all has_ended p.workers
      then record (silent (record p { workers = []; tasks = [] })) { dropped = p.tasks }
      else silent p

  abbrev pub set_worker : ℕ → Worker A → List (Worker A) → List (Worker A)
  set_worker i w [] = []
  set_worker zero w (v ∷ ws) = w ∷ ws
  set_worker (suc i) w (v ∷ ws) = v ∷ set_worker i w ws

  -- the part of the loop under the first lock, for a worker that is in front of it
  abbrev pub from_queue : ℕ → List A → ThreadPool A → Effect A
  from_queue i [] p =
      if p.stopped then silent (record p { workers = set_worker i ended p.workers }) else silent p
  from_queue i (t ∷ ts) p =
      record (silent (record p {
        tasks = ts;
        workers = set_worker i (executing t) p.workers;
        active_tasks = p.active_tasks + 1;
      })) { taken = t ∷ [] }

  abbrev pub take_as : ℕ → Option (Worker A) → ThreadPool A → Effect A
  take_as i (some waiting) p = from_queue i p.tasks p
  take_as i _ p = silent p

  unfoldable pub take_task : ℕ → ThreadPool A → Effect A
  take_task i p = take_as i (get_elem? p.workers i) p

  abbrev pub finish_as : ℕ → Option (Worker A) → ThreadPool A → Effect A
  finish_as i (some (executing t)) p =
      record (silent (record p {
        workers = set_worker i waiting p.workers;
        active_tasks = p.active_tasks - 1;
      })) { finished = t ∷ [] }
  finish_as i _ p = silent p

  -- the run of the task, and the part under the second lock
  unfoldable pub finish_task : ℕ → ThreadPool A → Effect A
  finish_task i p = finish_as i (get_elem? p.workers i) p

  -- The assignment of `SetNumThreads`, which stands between a `StopAndWait` and a `Start`. `Restart` is
  -- these two alone.
  unfoldable pub set_num_threads : ℕ → ThreadPool A → ThreadPool A
  set_num_threads num_threads p = record p { num_threads = num_threads }

  unfoldable pub pending_tasks : ThreadPool A → ℕ
  pending_tasks p = length p.tasks

  -- the predicate that `WaitAll` waits for
  unfoldable pub wait_all_returns : ThreadPool A → Bool
  wait_all_returns p = p.stopped || (is_empty p.tasks && p.active_tasks == 0)

  unfoldable pub step : ThreadPool A → Event A → Effect A
  unfolding submit start stop end_wait take_task finish_task set_num_threads
  step p (submits t) = submit t p
  step p starts = silent (start p)
  step p stops = silent (stop p)
  step p waits_for_workers = end_wait p
  step p (resizes n) = silent (set_num_threads n p)
  step p (takes i) = take_task i p
  step p (finishes i) = finish_task i p

  unfoldable pub run : ThreadPool A → List (Event A) → Effect A
  run p [] = silent p
  run p (e ∷ es) =
      let first = step p e in
      let rest = run first.next es in
      record {
        next = rest.next;
        accepted = first.accepted ++ rest.accepted;
        taken = first.taken ++ rest.taken;
        finished = first.finished ++ rest.finished;
        dropped = first.dropped ++ rest.dropped;
      }
