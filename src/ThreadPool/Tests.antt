-- ===== src/ThreadPool/Tests.antt =====
-- The theorems about the thread pool at concrete histories.
use cpp_socket_programming.Prelude.{ℕ, ◌<◌, ◌≡◌, refl, [], ◌∷◌, ◌++◌, arith}
use cpp_socket_programming.ThreadPool.Queue.{IsPrefix}
use cpp_socket_programming.ThreadPool.Order.{destroyed_complete}
use cpp_socket_programming.ThreadPool.Stop.{destructor_deadlock}
use cpp_socket_programming.ThreadPool.{
  Pool, init, stopped, joining, Step, submit, spawn, take, finish, quit, destroy, push_stop, join,
  leave, Reach, here, next, pool_size,
}

-- Two tasks are submitted, the first one is started, and the destructor asks worker 0 to stop.
busy : (t : Pool) × Reach 1 init t
busy = (
  _,
  next
      (next
        (next (next (next here (submit 7 refl refl)) (submit 8 refl refl))
          (take 0 7 _ (omega arith) refl refl refl))
        (destroy refl refl))
      (push_stop 0 (omega arith) refl refl),
)

-- Task 7 runs when the destructor asks worker 0 to stop, and pushes task 9 then.
ended : (t : Pool) × Reach 1 init t
ended = (
  _,
  next
      (next
        (next
          (next
            (next
              (next
                (next
                  (next (next here (submit 7 refl refl)) (take 0 7 _ (omega arith) refl refl refl))
                  (destroy refl refl))
                (push_stop 0 (omega arith) refl refl))
              (spawn 0 9 7 (omega arith) refl refl))
            (finish 0 7 (omega arith) refl refl))
          (quit 0 _ (omega arith) refl refl refl))
        (join 0 refl refl refl))
      (leave refl refl),
)

-- Task 9 is never started.
destroyed_complete_example :
    IsPrefix (7 ∷ []) (ended.0).started
    × ((ended.0).started ++ (9 ∷ []) ≡ 7 ∷ 9 ∷ [])
    × ((i : ℕ) → i < 1 → (ended.0).workers i ≡ stopped)
unfolding ended
destroyed_complete_example = destroyed_complete (omega arith) (ended.1) refl

destructor_deadlock_example :
    (t : Pool) × Reach 4 init t × (t.phase ≡ joining 0) × ((u : Pool) → ¬ Step 4 t u)
destructor_deadlock_example = destructor_deadlock 4 (omega arith)

idle : (t : Pool) × Reach (pool_size 1) init t
idle = (_, next here (submit 7 refl refl))
