-- ===== src/Relay/Tests.antt =====
-- The relays at a client that sends twice and then closes.
use cpp_socket_programming.Relay.Accepting
use cpp_socket_programming.Relay.Accepting.{
  Threads, Shared, IsServedOnce, run_shared, step_shared, listen_round, start_helper,
  run-run_shared,
}
use cpp_socket_programming.Passthrough.{socket}
use cpp_socket_programming.Prelude.{
  ℕ, ◌≡◌, refl, ◌⊎◌, true, false, List, [], ◌∷◌, Option, none, some, arith, get_elem?, contains,
  map, Bool-cases, inl, inr, erase, count-contains, contains-count, count-erase,
}
use cpp_socket_programming.Balancer.{next_index}
use cpp_socket_programming.Pool.Samples.{front, flaky_driver, two, two-IsDistinct}
use cpp_socket_programming.Pool.Nodes.{IsOneMore}
use cpp_socket_programming.Pool.Acquire.{AllRefuse, FirstUsable}
use cpp_socket_programming.Pool.Release.{release_connection-IsDistinct}
use cpp_socket_programming.Pool.{Pool, get_connection, release_connection, lend, check_connect}
use cpp_socket_programming.Relay.Traffic.{Waiting, Thrown, Split, run_proxy_thread-refines}
use cpp_socket_programming.Relay.Same.{echo, with_state, all_polled, thread_handler-copy_rounds}
use cpp_socket_programming.Relay.Loan.{IsTame, run_proxy_client_thread_lem}
use cpp_socket_programming.Relay.Services.{
  ProxySocket, Client, set_handler, set_config_values, start, serve_clients, serve_clients-kth,
}
use cpp_socket_programming.Relay.{
  Ended, relay_to, Round, Effect, to_target, to_client, closes_client, closes_target, copy_rounds,
  run_proxy_thread, relayed, thread_handler, Polled, polled, pool_rounds, run_proxy_client_thread,
}

abbrev rounds : List Round
rounds =
    record { from_client = some (7 ∷ []); from_target = none }
    ∷ record { from_client = none; from_target = none }
    ∷ record { from_client = some (8 ∷ []); from_target = some (9 ∷ []) }
    ∷ record { from_client = some []; from_target = none }
    ∷ record { from_client = none; from_target = none }
    ∷ []

run_proxy_thread-rounds :
    run_proxy_thread true (map polled rounds)
    ≡ some (
      to_target (7 ∷ [])
          ∷ to_target (8 ∷ [])
          ∷ to_client (9 ∷ [])
          ∷ to_target []
          ∷ closes_client
          ∷ closes_target
          ∷ [],
      some (polled (record { from_client = none; from_target = none }) ∷ []),
    )
unfolding run_proxy_thread
run_proxy_thread-rounds = refl

run_proxy_thread-refines_example :
    (run_proxy_thread false (map polled rounds) ≡ some ([], none))
    × (Waiting (map polled rounds) (run_proxy_thread true (map polled rounds))
        ⊎ (Thrown (map polled rounds) (run_proxy_thread true (map polled rounds))
            ⊎ Split
                (map polled rounds)
                (run_proxy_thread true (map polled rounds))
                (closes_client ∷ closes_target ∷ [])))
run_proxy_thread-refines_example = run_proxy_thread-refines (map polled rounds)

thread_handler-copy_rounds_example :
    let i = next_index (some 1) 2 in
    (target : ℕ) × (result : Option (List Effect × List Round)) × (get_elem? (30 ∷ 31 ∷ []) i
      ≡ some target)
    × (thread_handler {S = ℕ} (λ t. true) (some echo) (some 1) (30 ∷ 31 ∷ []) rounds 5
        ≡ (some i, relayed target (with_state 5 result)))
    × (copy_rounds (map polled rounds) ≡ all_polled result)
thread_handler-copy_rounds_example =
    thread_handler-copy_rounds {T = ℕ} {S = ℕ} (λ t. true) (some 1) (30 ∷ 31 ∷ []) rounds 5
      (omega arith) (λ t. refl)

abbrev polls : List Polled
polls =
    polled (record { from_client = some (7 ∷ []); from_target = none })
    ∷ polled (record { from_client = some []; from_target = none })
    ∷ []

pool_rounds-polls :
    pool_rounds polls
    ≡ some (to_target (7 ∷ []) ∷ to_target [] ∷ closes_client ∷ closes_client ∷ [], [])
unfolding pool_rounds
pool_rounds-polls = refl

-- Another thread gives back connection 9.
abbrev meanwhile : Pool → Pool
meanwhile p = release_connection front 9 p

kept_busy : (p : Pool) → contains 8 p.busy ≡ true → contains 8 (meanwhile p).busy ≡ true
unfolding release_connection
kept_busy p h = elim (Bool-cases (contains 9 p.busy)) [
  | inl on ↦ rw on (
      count-contains 8 (erase 9 p.busy) (
        ground
          (arith, contains-count 8 p.busy h, count-erase 8 9 p.busy (contains-count 9 p.busy on))))
  | inr off ↦ rw off h
]

others : IsTame 8 meanwhile
others = record { distinct = λ p v. release_connection-IsDistinct front p v 9; kept = kept_busy }

run_proxy_client_thread_lem_example :
    let held = (get_connection flaky_driver front two 0).0.1 in
    let w' = (get_connection flaky_driver front two 0).1 in
    let result = run_proxy_client_thread flaky_driver front meanwhile polls two 0 in
    ((result ≡ some ([], two, w')) × AllRefuse flaky_driver (7 ∷ 8 ∷ []) 0)
    ⊎ ((c : ℕ) × (q : Pool) × FirstUsable flaky_driver (7 ∷ 8 ∷ []) 0 c
        × (contains c held.busy ≡ true)
        × (result
            ≡ some (to_target (7 ∷ []) ∷ to_target [] ∷ closes_client ∷ closes_client ∷ [], q, w'))
        × IsOneMore c (meanwhile held).idle q.idle
        × IsOneMore c q.busy (meanwhile held).busy)
unfolding get_connection lend check_connect
run_proxy_client_thread_lem_example =
    run_proxy_client_thread_lem flaky_driver front meanwhile polls two 0 two-IsDistinct others
      (to_target (7 ∷ []) ∷ to_target [] ∷ closes_client ∷ closes_client ∷ []) [] pool_rounds-polls

abbrev proxy : ProxySocket ℕ ℕ
proxy = record { handler = none; config = []; servers = none }

abbrev clients : List (Client ℕ)
clients =
    record { rounds = []; context = 1 }
    ∷ record { rounds = rounds; context = 2 }
    ∷ record { rounds = []; context = 3 }
    ∷ []

-- The third client of a proxy with two services is joined to the first service again.
serve_clients-kth_example :
    (last : Option ℕ) × (ends : List (Ended ℕ ℕ)) × (serve_clients
        (λ t. true)
        (start (set_config_values (70 ∷ 80 ∷ []) (set_handler (some echo) proxy)))
        none
        clients
      ≡ some (last, ends))
    × (get_elem? ends 2 ≡ some (relay_to (λ t. true) echo (some 70) [] 3))
unfolding next_index
serve_clients-kth_example =
    serve_clients-kth (λ t. true) echo (70 ∷ 80 ∷ []) proxy none clients 2
      (record { rounds = []; context = 3 }) (omega arith) refl

-- Two clients, whose threads start in the other order.
abbrev crossed : List Accepting.Event
crossed =
    Accepting.accepts (socket 5)
    ∷ Accepting.accepts (socket 6)
    ∷ Accepting.starts 1
    ∷ Accepting.starts 0
    ∷ []

abbrev in_turn : List Accepting.Event
in_turn =
    Accepting.accepts (socket 5)
    ∷ Accepting.starts 0
    ∷ Accepting.accepts (socket 6)
    ∷ Accepting.starts 0
    ∷ []

run-run_shared_example :
    ((t : Threads) × (Accepting.run crossed Accepting.init ≡ some t) × IsServedOnce t)
    × ((u : Shared) × (run_shared in_turn (record { context = none; threads = Accepting.init })
          ≡ some u)
        × (Accepting.run in_turn Accepting.init ≡ some u.threads))
run-run_shared_example = run-run_shared crossed in_turn tt (refl, (refl, tt))

abbrev threads_of : Option Shared → List ℕ
threads_of none = []
threads_of (some s) = s.threads.served

-- Over the pool the second client is served twice, and the first one is not.
served_twice :
    threads_of (run_shared crossed (record { context = none; threads = Accepting.init }))
    ≡ 6 ∷ 6 ∷ []
unfolding run_shared step_shared listen_round start_helper Accepting.accept_round
served_twice = refl
