-- ===== src/SyncApi/Tests.antt =====
-- The handler at a client whose id is made of ones, with another client in between.
use cpp_socket_programming.Text.{Text}
use cpp_socket_programming.Prelude.{
  ◌≡◌, refl, [], ◌∷◌, ◌++◌, List, some, none, arith, replicate, length,
}
use cpp_socket_programming.SyncApi.Status.{Action, connects, completes, checks, run}
use cpp_socket_programming.SyncApi.Packets.{read_id, read_status, handle_data-handle_data}
use cpp_socket_programming.SyncApi.{
  Handler, Reply, generate_uuid, same, response_received, completed, handle_data,
}

abbrev ones : Text
ones =
    replicate 8 49
    ++ b'-' ∷ replicate 4 49
    ++ b'-' ∷ replicate 4 49
    ++ b'-' ∷ replicate 4 49
    ++ b'-' ∷ replicate 12 49

uuid_of_ones : generate_uuid (λ k. 1) ≡ ones
unfolding generate_uuid
uuid_of_ones = refl

abbrev first : Text
first = 1 ∷ 0 ∷ 0 ∷ 0 ∷ 97 ∷ 0 ∷ []

abbrev second : Text
second = 3 ∷ 0 ∷ 0 ∷ 0 ∷ ones ++ 0 ∷ []

abbrev new_handler : Handler
new_handler = record { response_map = λ x. none }

abbrev meanwhile : List Action
meanwhile = connects (50 ∷ []) ∷ checks ones ∷ completes ones ∷ checks (51 ∷ []) ∷ []

handle_data-handle_data_example :
    (r q : Reply) × (handle_data (λ k. 1) (replicate 260 7) first (length first) new_handler
      ≡ some r)
    × (read_id r.response ≡ ones)
    × (r.pushed ≡ ones ∷ [])
    × (handle_data (λ k. 2) (replicate 516 7) second (length second) (run meanwhile r.after)
        ≡ some q)
    × (read_status q.response ≡ (completed, some response_received))
unfolding generate_uuid same
handle_data-handle_data_example =
    handle_data-handle_data (λ k. 1) (λ k. 2) (replicate 260 7) (replicate 516 7) (97 ∷ 0 ∷ []) []
      meanwhile new_handler (λ k. omega arith) refl ((λ e. cc), tt)
