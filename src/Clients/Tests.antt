-- ===== src/Clients/Tests.antt =====
-- The servers at a client that comes and writes, and at a full table.
use cpp_socket_programming.Prelude.{
  ◌≡◌, refl, ℤ, pos, negsuc, true, List, [], ◌∷◌, ◌++◌, none, some, map, arith,
}
use cpp_socket_programming.Text.{Text}
use cpp_socket_programming.Chat.{greeting, is_client}
use cpp_socket_programming.Turns
use cpp_socket_programming.Turns.{is_exit, sends, shows, closes, returns}
use cpp_socket_programming.Turns.Conversation.{line, all_typed}
use cpp_socket_programming.Clients.Program.{main, receive_all, main-receive_all}
use cpp_socket_programming.Clients.Ready.{to_poll, in_poll}
use cpp_socket_programming.Clients.Same.{run_poll-run_select}
use cpp_socket_programming.Clients.{
  end_of_stream, bytes, Events, greets, prints, init_select, init_poll, run_select, run_poll,
}

abbrev comes : Events
comes = record {
  accepted = some (pos 4);
  can_read = λ fd. true;
  received = λ fd. bytes (104 ∷ 105 ∷ []);
}

abbrev writes : Events
writes = record { accepted = none; can_read = λ fd. true; received = λ fd. bytes (104 ∷ 105 ∷ []) }

run_poll-writes :
    run_poll (comes ∷ writes ∷ []) init_poll
    ≡ some (
      pos 4 ∷ negsuc 0 ∷ negsuc 0 ∷ negsuc 0 ∷ negsuc 0 ∷ [],
      greets (pos 4) ∷ prints (pos 4) (104 ∷ 105 ∷ []) ∷ [],
    )
unfolding run_poll
run_poll-writes = refl

run_poll-run_select_example :
    run_poll (comes ∷ writes ∷ []) (map to_poll init_select)
    ≡ in_poll (run_select 3 (comes ∷ writes ∷ []) init_select)
unfolding is_client
run_poll-run_select_example =
    run_poll-run_select 3 (comes ∷ writes ∷ []) init_select
      (λ e. cc, (λ e. cc, (λ e. cc, (λ e. cc, (λ e. cc, tt)))))
      (refl, (refl, (refl, (refl, (refl, tt))))) ((refl, refl, refl), (tt, tt))

-- A client at 20 is never read: the listening socket is 3, and `select` looks at 0 to 8 only. The server
-- with `poll` reads it.
abbrev far : Events
far = record writes { accepted = some (pos 20) }

reads_far :
    (run_select 3 (far ∷ writes ∷ []) init_select
      ≡ some (pos 20 ∷ pos 0 ∷ pos 0 ∷ pos 0 ∷ pos 0 ∷ [], greets (pos 20) ∷ []))
    × (run_poll (far ∷ writes ∷ []) init_poll
        ≡ some (
          pos 20 ∷ negsuc 0 ∷ negsuc 0 ∷ negsuc 0 ∷ negsuc 0 ∷ [],
          greets (pos 20) ∷ prints (pos 20) (104 ∷ 105 ∷ []) ∷ [],
        ))
unfolding run_select run_poll
reads_far = (refl, refl)

abbrev full : List ℤ
full = pos 4 ∷ pos 5 ∷ pos 6 ∷ pos 7 ∷ pos 8 ∷ []

abbrev left : Events
left = record { accepted = some (pos 9); can_read = λ fd. true; received = λ fd. end_of_stream }

-- "hi" and "exit"
abbrev session : List Text
session = (104 ∷ 105 ∷ []) ∷ (101 ∷ 120 ∷ 105 ∷ 116 ∷ []) ∷ []

main-receive_all_example :
    (main (Turns.bytes (greeting ++ (0 ∷ 7 ∷ []))) (all_typed session (9 ∷ [])) (true ∷ true ∷ [])
      ≡ (
        shows greeting
            ∷ sends (line (104 ∷ 105 ∷ []))
            ∷ sends (line (101 ∷ 120 ∷ 105 ∷ 116 ∷ []))
            ∷ closes
            ∷ [],
        returns,
      ))
    × (receive_all (pos 4) (map line session)
        ≡ some (
            prints (pos 4) (line (104 ∷ 105 ∷ []))
            ∷ prints (pos 4) (line (101 ∷ 120 ∷ 105 ∷ 116 ∷ []))
            ∷ []))
unfolding is_exit
main-receive_all_example = main-receive_all (pos 4) session (7 ∷ []) (9 ∷ []) (
  (
    (λ e. absurd (omega arith), (λ e. absurd (omega arith), tt)),
    (λ e. absurd (omega arith), (λ e. absurd (omega arith), tt)),
    omega arith,
  ),
  refl,
  (
    (
      (
        λ e. absurd (omega arith),
        (λ e. absurd (omega arith), (λ e. absurd (omega arith), (λ e. absurd (omega arith), tt))),
      ),
      (
        λ e. absurd (omega arith),
        (λ e. absurd (omega arith), (λ e. absurd (omega arith), (λ e. absurd (omega arith), tt))),
      ),
      omega arith,
    ),
    refl,
  ),
)
