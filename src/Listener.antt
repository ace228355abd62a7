-- ===== src/Listener.antt =====
-- protocol-server/src/engine/socket/CServerSocket.cpp: the thread that accepts clients, and the tasks
-- that serve them. A round of the loop keeps the data of its client in a variable that the task reads
-- through a reference. The variable is at the same address in each round, so that a task that starts
-- late reads what the latest round has stored.
pub mod Served
mod Tests
use cpp_socket_programming.Prelude.{ℕ, zero, suc, List, [], ◌∷◌, ◌++◌, Option, none, some}

-- The socket in `clientData`, the tasks that wait in the thread pool, the sockets that were accepted,
-- and those that were handed to the routine of the pipeline.
pub record State : Type 0 where
  pub client_data : Option ℕ
  pub waiting : ℕ
  pub accepted : List ℕ
  pub served : List ℕ

abbrev pub init : State
init = record { client_data = none; waiting = 0; accepted = []; served = [] }

-- What `Accept` does: a socket, a null pointer, or an exception.
pub data Accepted : Type 0 where
  socket : ℕ → Accepted
  null threw : Accepted

-- A round of the loop; `none` is a null pointer that is used, or an exception that nothing catches.
unfoldable pub listen_round : Accepted → State → Option State
listen_round (socket x) s =
    some
      (record s { client_data = some x; waiting = suc s.waiting; accepted = s.accepted ++ x ∷ [] })
listen_round null s = none
listen_round threw s = none

abbrev pub serve : Option ℕ → State → State
serve none s = s
serve (some x) s = record s { served = s.served ++ x ∷ [] }

-- A worker takes a task: `ClientThreadProc` copies the data and runs the routine, whose exceptions it
-- catches. A worker that finds no task does nothing.
abbrev pub start_task : ℕ → State → State
start_task zero s = s
start_task (suc n) s = serve s.client_data (record s { waiting = n })

unfoldable pub client_thread_proc : State → State
client_thread_proc s = start_task s.waiting s

pub data Event : Type 0 where
  listens : Accepted → Event
  starts : Event

unfoldable pub step : Event → State → Option State
unfolding listen_round client_thread_proc
step (listens a) s = listen_round a s
step starts s = some (client_thread_proc s)

abbrev pub and_then : Option State → (State → Option State) → Option State
and_then none f = none
and_then (some s) f = f s

-- The thread that listens and the workers, in any order.
unfoldable pub run : List Event → State → Option State
unfolding step
run [] s = some s
run (e ∷ events) s = and_then (step e s) (run events)
