-- ===== src/Listener/Tests.antt =====
-- Clients in time, and one that is lost.
use cpp_socket_programming.Prelude.{◌≡◌, refl, Bool, false, List, [], ◌∷◌, some}
use cpp_socket_programming.Listener.Served.{IsServed, run-IsServed}
use cpp_socket_programming.Listener.{State, init, socket, Event, listens, starts, run}

abbrev in_time : List Event
in_time = listens (socket 5) ∷ starts ∷ listens (socket 6) ∷ starts ∷ listens (socket 7) ∷ []

run-IsServed_example : (busy : Bool) × (s : State) × (run in_time init ≡ some s) × IsServed busy s
run-IsServed_example = run-IsServed false in_time init tt (refl, refl)

-- The second client is accepted before the first task starts, and is served twice.
abbrev after : State
after = record { client_data = some 6; waiting = 0; accepted = 5 ∷ 6 ∷ []; served = 6 ∷ 6 ∷ [] }

run-late : run (listens (socket 5) ∷ listens (socket 6) ∷ starts ∷ starts ∷ []) init ≡ some after
unfolding run
run-late = refl
