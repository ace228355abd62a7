-- ===== src/Scheduler/Tests.antt =====
-- The scheduler at three tasks, one of which is never due.
use cpp_socket_programming.Prelude.{◌+◌, ◌≡◌, refl, [], ◌∷◌, List, some, none}
use cpp_socket_programming.Scheduler.Rounds.{first_due, All, occurs, tasks_of, start_lem}
use cpp_socket_programming.Scheduler.{ITask, add_task, sweep, start}

abbrev three : List ITask
three =
    record { name = 1; time = 5 }
    ∷ record { name = 2; time = 3 }
    ∷ record { name = 3; time = 9 }
    ∷ []

start-three : start (3 ∷ 6 ∷ []) (add_task (record { name = 4; time = 0 }) three) ≡ (
  (3, record { name = 2; time = 3 })
      ∷ (3, record { name = 4; time = 0 })
      ∷ (6, record { name = 1; time = 5 })
      ∷ [],
  record { name = 3; time = 9 } ∷ [],
)
unfolding start sweep add_task
start-three = refl

start_lem_example :
    ((x : ITask)
      → occurs x (tasks_of (start (3 ∷ 6 ∷ []) three).0) + occurs x (start (3 ∷ 6 ∷ []) three).1
        ≡ occurs x three)
    × All (λ entry. first_due entry.1.time (3 ∷ 6 ∷ []) ≡ some entry.0) (start (3 ∷ 6 ∷ []) three).0
    × All (λ t. first_due t.time (3 ∷ 6 ∷ []) ≡ none) (start (3 ∷ 6 ∷ []) three).1
start_lem_example = start_lem (3 ∷ 6 ∷ []) three
