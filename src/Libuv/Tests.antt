-- ===== src/Libuv/Tests.antt =====
-- A pair of handles, from its connection to its end.
use cpp_socket_programming.Prelude.{◌≡◌, refl, true, List, [], ◌∷◌, ◌++◌, some}
use cpp_socket_programming.Libuv.Paired.{IsPaired, init-IsPaired, accept_pair-IsPaired}
use cpp_socket_programming.Libuv.Life.{AllResolved, run-IsPaired}
use cpp_socket_programming.Libuv.Moves.{IsAt}
use cpp_socket_programming.Libuv.Forward.{forwarded, run-forwarded}
use cpp_socket_programming.Libuv.{
  State, init, failed, bytes, Answers, accept_pair, Event, connection, read, run,
}

abbrev all_well : Answers
all_well = record {
  connected = true;
  resolved = true;
  accepted = true;
  client_starts = true;
  target_starts = true;
}

abbrev traffic : List Event
traffic =
    read 0 (bytes (1 ∷ 2 ∷ []))
    ∷ read 1 (bytes (9 ∷ []))
    ∷ connection all_well
    ∷ read 2 (bytes (5 ∷ []))
    ∷ read 0 (bytes (3 ∷ []))
    ∷ read 1 failed
    ∷ read 0 (bytes (4 ∷ []))
    ∷ []

forwarded-traffic : forwarded true 0 1 traffic ≡ 1 ∷ 2 ∷ 3 ∷ []
unfolding forwarded
forwarded-traffic = refl

traffic-AllResolved : AllResolved traffic
traffic-AllResolved = (tt, (tt, (refl, (tt, (tt, (tt, (tt, tt)))))))

run-IsPaired_example :
    (s : State) × (run (connection all_well ∷ traffic) init ≡ some s) × IsPaired s
run-IsPaired_example = run-IsPaired (connection all_well ∷ traffic) (refl, traffic-AllResolved)

-- Behind the first connection.
abbrev joined : State
joined = accept_pair 0 1 all_well (record init { pairs = 1 })

joined-IsPaired : IsPaired joined
joined-IsPaired = accept_pair-IsPaired init init-IsPaired all_well

joined-IsAt : IsAt 0 1 true joined
joined-IsAt = record { peer_is = refl; reading_from = refl; reading_back = refl }

run-forwarded_example :
    (s' : State) × (run traffic joined ≡ some s')
    × (s'.written 1 ≡ joined.written 1 ++ forwarded true 0 1 traffic)
run-forwarded_example =
    run-forwarded traffic 0 1 true joined traffic-AllResolved joined-IsPaired joined-IsAt
