-- ===== src/Echo/Tests.antt =====
-- The theorems about the echo programs at concrete inputs.
use cpp_socket_programming.Text.{Text, c_string}
use cpp_socket_programming.SyncApi.{same}
use cpp_socket_programming.Prelude.{◌≡◌, refl, [], ◌∷◌, arith, take}
use cpp_socket_programming.Echo.{
  chunk, ended, writes, shows, cleans, overflows, leaves, stops, rxcap, kill, talks, terminate,
  echo_loop, server_loop, client, refused, no_handshake,
}
use cpp_socket_programming.Echo.Request.{request}
use cpp_socket_programming.Echo.Answers.{answer, gone, client-answers}
use cpp_socket_programming.Echo.Session.{server_loop-stops}

-- "hi\n"
abbrev hi : Text
hi = 104 ∷ 105 ∷ 10 ∷ []

abbrev yo : Text
yo = 121 ∷ 111 ∷ 10 ∷ []

server_loop-stops_example :
    server_loop (
      talks (chunk hi ∷ chunk yo ∷ ended ∷ [])
      ∷ talks (ended ∷ [])
      ∷ talks (chunk yo ∷ chunk kill ∷ chunk hi ∷ [])
      ∷ refused
      ∷ [])
    ≡ (
      shows hi
          ∷ writes hi
          ∷ shows yo
          ∷ writes yo
          ∷ cleans
          ∷ cleans
          ∷ shows yo
          ∷ writes yo
          ∷ cleans
          ∷ [],
      stops,
    )
unfolding same
server_loop-stops_example =
    server_loop-stops ((hi ∷ yo ∷ []) ∷ [] ∷ []) (yo ∷ []) (chunk hi ∷ []) (refused ∷ [])
      (
        (
          (λ e. absurd (omega arith), (λ e. absurd (omega arith), (λ e. absurd (omega arith), tt))),
          omega arith,
          refl,
          (
            (
              λ e. absurd (omega arith),
              (λ e. absurd (omega arith), (λ e. absurd (omega arith), tt)),
            ),
            omega arith,
            refl,
            tt,
          ),
        ),
        (tt, tt),
      )
      (
        (λ e. absurd (omega arith), (λ e. absurd (omega arith), (λ e. absurd (omega arith), tt))),
        omega arith,
        refl,
        tt,
      )

client-answers_example :
    (client (answer yo) (hi ∷ (10 ∷ []) ∷ hi ∷ []) (answer hi ∷ [])
      ≡ (writes request ∷ shows yo ∷ writes hi ∷ shows hi ∷ cleans ∷ [], stops))
    × (client (answer yo) (hi ∷ []) (answer hi ∷ [])
        ≡ (writes request ∷ shows yo ∷ writes hi ∷ shows hi ∷ cleans ∷ [], stops))
    × (client (answer yo) (hi ∷ yo ∷ hi ∷ []) (answer hi ∷ gone ∷ [])
        ≡ (writes request ∷ shows yo ∷ writes hi ∷ shows hi ∷ writes yo ∷ cleans ∷ [], leaves))
unfolding c_string
client-answers_example =
    client-answers yo ((hi, hi) ∷ []) (10 ∷ []) yo (hi ∷ []) [] (omega arith)
      (refl, omega arith, tt) refl refl

-- The request fills the buffer of the server.
request_overflows : echo_loop (chunk (take rxcap request) ∷ []) ≡ ([], overflows)
unfolding echo_loop terminate request
request_overflows = refl

handshake_ends : server_loop (no_handshake ∷ talks (chunk hi ∷ []) ∷ []) ≡ (cleans ∷ [], stops)
unfolding server_loop
handshake_ends = refl
