-- ===== src/Pool/Tests.antt =====
-- The theorems about the pool at concrete inputs, and runs of it.
use cpp_socket_programming.Prelude.{
  ℕ, ◌≤◌, ◌≡◌, ◌⊎◌, refl, true, List, [], ◌∷◌, ◌==◌, if◌then◌else◌, arith, count, contains, erase,
}
use cpp_socket_programming.Pool.Samples.{front, flaky_driver, two, two-IsDistinct}
use cpp_socket_programming.Pool.Nodes.{total, IsOneMore}
use cpp_socket_programming.Pool.Acquire.{AllRefuse, FirstUsable, get_connection-lends_first}
use cpp_socket_programming.Pool.Owners.{System, Action, gets, constructs, assigns, destroys, run}
use cpp_socket_programming.Pool.Ownership.{IsExclusive, total-run, run-IsExclusive}
use cpp_socket_programming.Text.{c_string}
use cpp_socket_programming.ClientSocket.{is_alpha, construct}
use cpp_socket_programming.ClientSocket.Samples.{socket, host, good, refused, socket-IsFresh}
use cpp_socket_programming.Pool.Factory
use cpp_socket_programming.Pool.Factory.{
  created, create, emplace_back, destroy_all, disconnect, IsCreated, create-IsCreated,
}
use cpp_socket_programming.Pool.{Proxy, null_proxy, get_connection, valid, lend, check_connect}

-- The first connection fails its check, the second one is lent.
lends_second :
    (get_connection flaky_driver front two 0).0
    ≡ (record { attached = true; connection = 8 }, record { idle = 7 ∷ []; busy = 8 ∷ 9 ∷ [] })
unfolding get_connection lend check_connect erase contains
lends_second = refl

get_connection-lends_first_example :
    (((get_connection flaky_driver front two 0).0 ≡ (null_proxy, two))
      × AllRefuse flaky_driver (7 ∷ 8 ∷ []) 0)
    ⊎ ((c : ℕ) × FirstUsable flaky_driver (7 ∷ 8 ∷ []) 0 c
        × ((get_connection flaky_driver front two 0).0.0
            ≡ record { attached = true; connection = c })
        × (valid
              (get_connection flaky_driver front two 0).0.0
              (get_connection flaky_driver front two 0).0.1
            ≡ true)
        × IsOneMore c (get_connection flaky_driver front two 0).0.1.idle two.idle
        × IsOneMore c two.busy (get_connection flaky_driver front two 0).0.1.busy)
get_connection-lends_first_example =
    get_connection-lends_first flaky_driver front two 0 two-IsDistinct

-- Variable 0 holds connection 9.
abbrev start : System ℕ
start = record {
  pool = two;
  vars = λ i. if 0 == i then record { attached = true; connection = 9 } else null_proxy;
  world = 0;
}

start-IsExclusive : IsExclusive start
unfolding count
start-IsExclusive = record {
  distinct = two-IsDistinct;
  held = λ i a. ground arith;
  unique = λ i j a b e. ground arith;
}

abbrev history : List Action
history = gets 1 ∷ constructs 2 1 ∷ destroys 0 ∷ assigns 2 1 ∷ []

total-run_example :
    (total 8 (run flaky_driver front history start).pool ≡ total 8 two)
    × (total 8 (run flaky_driver front history start).pool ≤ 1)
total-run_example = total-run flaky_driver front history start two-IsDistinct 8

run-IsExclusive_example : IsExclusive (run flaky_driver front history start)
run-IsExclusive_example =
    run-IsExclusive flaky_driver front history start (omega arith) start-IsExclusive

abbrev nine : Proxy
nine = record { attached = true; connection = 9 }

-- Two connections beside the descriptors 0 to 2, and one that is refused behind the first.
creates :
    (create socket host (good ∷ good ∷ []) (2 ∷ 1 ∷ 0 ∷ [])
      ≡ created (3 ∷ 4 ∷ []) (4 ∷ 3 ∷ 2 ∷ 1 ∷ 0 ∷ []))
    × (create socket host (good ∷ refused ∷ []) (2 ∷ 1 ∷ 0 ∷ []) ≡ Factory.threw (2 ∷ 1 ∷ 0 ∷ []))
unfolding create emplace_back destroy_all disconnect erase c_string is_alpha construct
creates = (refl, refl)

create-IsCreated_example :
    IsCreated (2 ∷ 1 ∷ 0 ∷ []) 2 (create socket host (good ∷ good ∷ []) (2 ∷ 1 ∷ 0 ∷ []))
unfolding c_string is_alpha
create-IsCreated_example =
    create-IsCreated socket host (good ∷ good ∷ []) (2 ∷ 1 ∷ 0 ∷ []) socket-IsFresh (omega arith)
      (refl, (refl, tt))
