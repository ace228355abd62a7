-- ===== src/SyncClient/Tests.antt =====
-- The program at a task that is completed before its second poll.
use cpp_socket_programming.Prelude.{◌≡◌, refl, List, [], ◌∷◌, none, some, arith, replicate}
use cpp_socket_programming.SyncApi.Status.{connects, completes, checks}
use cpp_socket_programming.SyncApi.{Handler, generate_uuid, same}
use cpp_socket_programming.SyncClient.Session.{
  Round, at_server, all_at_server, first_done, EndsWith, main-first_done,
}
use cpp_socket_programming.SyncClient.{main}

abbrev new_handler : Handler
new_handler = record { response_map = λ x. none }

abbrev first : Round
first = record { acts = checks (50 ∷ []) ∷ []; draw = λ k. 1; raw = replicate 260 7 }

abbrev rounds : List Round
rounds =
    record { acts = connects (50 ∷ []) ∷ []; draw = λ k. 2; raw = replicate 516 7 }
    ∷ record {
      acts = completes (generate_uuid (λ k. 1)) ∷ [];
      draw = λ k. 2;
      raw = replicate 516 7;
    }
    ∷ []

second_poll : first_done 1 (generate_uuid (λ k. 1)) rounds ≡ some 2
unfolding generate_uuid same
second_poll = refl

main-first_done_example :
    EndsWith
      (first_done 1 (generate_uuid (λ k. 1)) rounds)
      (main 9 (replicate 260 8) (at_server first) (all_at_server rounds) new_handler)
unfolding generate_uuid
main-first_done_example =
    main-first_done 9 (replicate 260 8) first rounds new_handler (λ k. omega arith)
      (((λ e. cc), tt), refl, (tt, refl, tt))
