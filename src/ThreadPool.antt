-- ===== src/ThreadPool.antt =====
-- protocol-server/src/utils/thread_pool and thread_safe_queue: workers that take tasks from a shared
-- queue, and the destructor that stops them. `push` and `pop` run under the queue's mutex, so each
-- is one step; `pop` waits while the queue is empty, so it has a step only where something is
-- there. The interleaving of the threads is open. The lists `submitted`, `early` and `started` are history:
-- `early` has the tasks that were pushed before the destructor began.
pub mod Queue
pub mod Invariant
pub mod Order
pub mod Stop
mod Tests
use cpp_socket_programming.Prelude.{
  ℕ, suc, ◌+◌, ◌-◌, ◌%◌, ◌^◌, ◌<◌, ◌≡◌, Bool, true, false, List, [], ◌∷◌, ◌++◌, ◌==◌, if◌then◌else◌,
}

-- `Task`: a task to execute, known by a number, or the request to stop.
pub data Task : Type 0 where
  execute : ℕ → Task
  stop : Task

-- Where a worker stands in the loop of `make_thread_handler`.
pub data Worker : Type 0 where
  waiting : Worker
  running : ℕ → Worker
  stopped : Worker

-- Where the thread that owns the pool stands: before the destructor, at its `push`, at its `join`
-- in round i, or past it.
pub data Phase : Type 0 where
  alive : Phase
  pushing : ℕ → Phase
  joining : ℕ → Phase
  destroyed : Phase

pub record Pool : Type 0 where
  pub queue : List Task
  pub workers : ℕ → Worker
  pub phase : Phase
  pub submitted : List ℕ
  pub early : List ℕ
  pub started : List ℕ

-- The constructor starts `n` workers on an empty queue.
abbrev pub init : Pool
init = record {
  queue = [];
  workers = λ _. waiting;
  phase = alive;
  submitted = [];
  early = [];
  started = [];
}

abbrev pub put : ℕ → Worker → (ℕ → Worker) → ℕ → Worker
put i x f j = if i == j then x else f j

-- `ThreadSafeQueue::push`.
abbrev pub enqueue : Task → List Task → List Task
enqueue t q = q ++ t ∷ []

abbrev pub in_time : Phase → ℕ → List ℕ → List ℕ
in_time alive x early = early ++ x ∷ []
in_time (pushing i) x early = early
in_time (joining i) x early = early
in_time destroyed x early = early

-- `ThreadPool::push` of a task, which tests nothing.
abbrev pub push : ℕ → Pool → Pool
push x s = record s {
  queue = enqueue (execute x) s.queue;
  submitted = s.submitted ++ x ∷ [];
  early = in_time s.phase x s.early;
}

-- One step of a pool with `n` workers.
pub data Step (n : ℕ) (s t : Pool) : Type 0 where
  -- A push by a client, which must not use an object whose destructor runs.
  submit : (x : ℕ) → s.phase ≡ alive → t ≡ push x s → Step n s t
  -- A push by a task that a worker executes, in the destructor too.
  spawn : (i x y : ℕ) → i < n → s.workers i ≡ running y → t ≡ push x s → Step n s t
  -- A worker's `pop` gives a task.
  take :
      (i x : ℕ) (rest : List Task)
      → i < n
      → s.workers i ≡ waiting
      → s.queue ≡ execute x ∷ rest
      → t ≡ record s {
        queue = rest;
        workers = put i (running x) s.workers;
        started = s.started ++ x ∷ [];
      }
      → Step n s t
  -- The task is done.
  finish :
      (i x : ℕ)
      → i < n
      → s.workers i ≡ running x
      → t ≡ record s { workers = put i waiting s.workers }
      → Step n s t
  -- A worker's `pop` gives a request to stop.
  quit :
      (i : ℕ) (rest : List Task)
      → i < n
      → s.workers i ≡ waiting
      → s.queue ≡ stop ∷ rest
      → t ≡ record s { queue = rest; workers = put i stopped s.workers }
      → Step n s t
  -- The destructor begins.
  destroy : s.phase ≡ alive → t ≡ record s { phase = pushing 0 } → Step n s t
  -- `push(stop_task)` in round i.
  push_stop :
      (i : ℕ)
      → i < n
      → s.phase ≡ pushing i
      → t ≡ record s { queue = enqueue stop s.queue; phase = joining i }
      → Step n s t
  -- `_threads[i].join()` returns when that worker has stopped.
  join :
      (i : ℕ)
      → s.phase ≡ joining i
      → s.workers i ≡ stopped
      → t ≡ record s { phase = pushing (suc i) }
      → Step n s t
  -- The loop over the threads is over.
  leave : s.phase ≡ pushing n → t ≡ record s { phase = destroyed } → Step n s t

-- `ThreadPoolSingleton`: as many workers as hardware threads less one, in 32-bit unsigned arithmetic.
unfoldable pub pool_size : ℕ → ℕ
pool_size hardware = (hardware + 2 ^ 32 - 1) % 2 ^ 32

pub data Reach (n : ℕ) (s : Pool) : Pool → Type 0 where
  here : Reach n s s
  next : {t u : Pool} → Reach n s t → Step n t u → Reach n s u
