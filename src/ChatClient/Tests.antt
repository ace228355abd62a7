-- ===== src/ChatClient/Tests.antt =====
-- The theorems about the chat client at concrete inputs.
use cpp_socket_programming.Text.{Text}
use cpp_socket_programming.Chat
use cpp_socket_programming.Chat.{
  Server, Received, would_block, bytes, put, c_string, process_client, flush,
}
use cpp_socket_programming.Prelude.{
  IsPart, ◌≡◌, refl, pos, false, List, [], ◌∷◌, ◌++◌, none, some, arith,
}
use cpp_socket_programming.ChatClient.{
  Step, is_exit, init, sends, shows, send_request, types, passes, run, process_request,
}
use cpp_socket_programming.ChatClient.Sent.{sent, waiting, run-IsPart}
use cpp_socket_programming.ChatClient.Delivered.{ready, run-flush}

abbrev hi : Text
hi = 104 ∷ 105 ∷ []

abbrev you : Text
you = 121 ∷ 111 ∷ 117 ∷ []

abbrev steps : List Step
steps =
    types hi
    ∷ types you
    ∷ passes (ready (7 ∷ []))
    ∷ types (101 ∷ 120 ∷ 105 ∷ 116 ∷ [])
    ∷ types you
    ∷ []

first_line_sent :
    run steps init ≡ (record { queue = none; listening = false }, sends hi (7 ∷ []) ∷ [])
unfolding run
first_line_sent = refl

run-IsPart_example :
    IsPart
      (sent (run steps init).1 ++ waiting (run steps init).0.queue)
      (hi ∷ you ∷ (101 ∷ 120 ∷ 105 ∷ 116 ∷ []) ∷ you ∷ [])
run-IsPart_example = run-IsPart steps init

-- Clients 4 and 5 of the server are linked.
abbrev pair : Server
pair = record {
  slots = pos 4 ∷ pos 5 ∷ pos 0 ∷ pos 0 ∷ pos 0 ∷ [];
  peers = put (pos 4) (some (pos 5)) (put (pos 5) (some (pos 4)) (λ _. none));
  queue = λ _. none;
}

run-flush_example :
    let posted = (process_client (pos 4) (bytes (send_request hi (7 ∷ []))) pair).0 in
    (run (types hi ∷ passes (ready (7 ∷ [])) ∷ []) init ≡ (init, sends hi (7 ∷ []) ∷ []))
    × ((flush (pos 5) posted).1 ≡ Chat.sends (pos 5) hi ∷ [])
    × ((flush (pos 5) posted).0.queue (pos 5) ≡ none)
    × (process_request (some (bytes (send_request hi (9 ∷ [])))) false [] init
        ≡ (init, shows hi ∷ []))
unfolding is_exit
run-flush_example =
    run-flush (pos 4) (pos 5) hi (7 ∷ []) (9 ∷ []) init init pair
      ((λ e. absurd (omega arith), (λ e. absurd (omega arith), tt)), omega arith, refl) refl refl
      refl refl refl
