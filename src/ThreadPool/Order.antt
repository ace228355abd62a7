-- ===== src/ThreadPool/Order.antt =====
-- The order in which tasks start, and what a destructor that returns has seen.
use cpp_socket_programming.Prelude.{ℕ, ◌<◌, ◌≡◌, ◌++◌}
use cpp_socket_programming.ThreadPool.Queue.{tasks, IsPrefix}
use cpp_socket_programming.ThreadPool.Invariant.{Inv, Reach-Inv}
use cpp_socket_programming.ThreadPool.{stopped, destroyed, Pool, init, Reach}

-- In every reachable state the tasks that have started, followed by those in the queue, are those
-- that were submitted, in the order of their submission.
pub started-fifo : {n : ℕ} {t : Pool} → Reach n init t → t.started ++ tasks t.queue ≡ t.submitted
started-fifo r = (Reach-Inv r).kept

-- When the destructor of a pool with at least one worker returns, every worker has stopped, and every
-- task that was pushed before the destructor began has started, in the order of the pushes and before
-- any that a task has pushed later. Those that have started and those left in the queue, which no worker
-- takes any more, are all that were ever pushed, in the order of the pushes.
pub destroyed_complete :
    {n : ℕ} {t : Pool}
    → 0 < n
    → Reach n init t
    → t.phase ≡ destroyed
    → IsPrefix t.early t.started
      × (t.started ++ tasks t.queue ≡ t.submitted)
      × ((i : ℕ) → i < n → t.workers i ≡ stopped)
destroyed_complete {n} {t} some_worker r e =
    let v : Inv n t = Reach-Inv r in
    let all : (i : ℕ) → i < n → t.workers i ≡ stopped = λ i h. v.below i (rw e h) in
    (v.drained 0 (all 0 some_worker), v.kept, all)
