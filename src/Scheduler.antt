-- ===== src/Scheduler.antt =====
-- protocol-server/src/utils/scheduler: a list of tasks, each run once its time has come. A time point
-- is a number, and a task is known by its name. The tasks are added before `start`, and a task does
-- not touch the list. One reading of the clock is one round of the loop; the list of readings ends
-- where `stop` has been called.
pub mod Rounds
mod Tests
use cpp_socket_programming.Prelude.{
  ℕ, Bool, true, false, List, [], ◌∷◌, ◌++◌, map, leb, if◌then◌else◌,
}

pub record ITask : Type 0 where
  pub name : ℕ
  pub time : ℕ

-- `addTask`.
unfoldable pub add_task : ITask → List ITask → List ITask
add_task t tasks = tasks ++ t ∷ []

-- The inner loop of `start`: the tasks that are executed, in order, and those that stay.
unfoldable pub sweep : ℕ → List ITask → List ITask × List ITask
sweep now [] = ([], [])
sweep now (t ∷ ts) =
    let (executed, left) = sweep now ts in
    if leb t.time now then (t ∷ executed, left) else (executed, t ∷ left)

-- `start`: what is executed, each task with the reading of its round, and what is left at the end.
unfoldable pub start : List ℕ → List ITask → List (ℕ × ITask) × List ITask
unfolding sweep
start [] tasks = ([], tasks)
start (now ∷ later) tasks =
    let (executed, left) = sweep now tasks in
    let (log, last) = start later left in (map (λ t. (now, t)) executed ++ log, last)
