-- ===== src/Chat/Tests.antt =====
-- The theorems about the chat server at concrete inputs, and a run of it.
use cpp_socket_programming.Prelude.{
  ℕ, ◌≡◌, refl, List, ◌++◌, false, ℤ, pos, ==ℤ_iff, true, [], ◌∷◌, none, some, arith, if◌then◌else◌,
  ◌==ℤ◌,
}
use cpp_socket_programming.Chat.Valid.{IsValid}
use cpp_socket_programming.Chat.Poll.{timeouts, AllZero, loop-polls}
use cpp_socket_programming.Chat.Covered.{run-covers}
use cpp_socket_programming.Turns.{exits, returns}
use cpp_socket_programming.Chat.Program.{
  Found, ready, nothing, fails, at_start, run, over, nfds, fill, grow, loop, Start, start, set_up,
  make_nonblocking, serves, main, round, handle, how, selects,
}
use cpp_socket_programming.Chat.{
  Server, sends, shuts_down, end_of_stream, bytes, Events, greeting, put, close_client,
  process_client, pass, is_client, free_slot, post, post_to, recipient,
}

-- Clients 4 and 5 are linked.
abbrev pair : Server
pair = record {
  slots = pos 4 ∷ pos 5 ∷ pos 0 ∷ pos 0 ∷ pos 0 ∷ [];
  peers = put (pos 4) (some (pos 5)) (put (pos 5) (some (pos 4)) (λ _. none));
  queue = λ _. none;
}

pair-IsValid : IsValid pair
unfolding is_client
pair-IsValid = record {
  places = refl;
  open_clients = λ a h. ground (arith, ==ℤ_iff (pos 4) a, ==ℤ_iff (pos 5) a);
  linked = λ a b e. ground (arith, ==ℤ_iff (pos 4) a, ==ℤ_iff (pos 5) a);
  addressed = λ a h. ground arith;
}

-- Client 4 says "hi", client 5 leaves, and client 6 is accepted.
abbrev busy : Events
busy = record {
  accepted = some (pos 6);
  can_read = λ fd. true;
  can_write = λ fd. true;
  received = λ fd. if fd ==ℤ pos 4 then bytes (104 ∷ 105 ∷ 0 ∷ 7 ∷ []) else end_of_stream;
}

pass_busy : (pass busy pair).1 ≡ sends (pos 6) greeting ∷ shuts_down (pos 5) ∷ []
unfolding pass process_client close_client free_slot post post_to recipient
pass_busy = refl

abbrev full : Server
full = record pair { slots = pos 4 ∷ pos 5 ∷ pos 6 ∷ pos 7 ∷ pos 8 ∷ [] }

-- A client is accepted, and the second `select` finds nothing.
abbrev two_rounds : List Found
two_rounds = ready busy 5 ∷ nothing 0 ∷ []

run-covers_example :
    let s = run two_rounds (at_start (pos 3)) in
    IsValid s.server
    × (over (nfds (fill s)) (pos 3) ≡ true)
    × ((a : ℤ) → is_client a s.server.slots ≡ true → over (nfds (fill s)) a ≡ true)
unfolding is_client
run-covers_example = run-covers (pos 3) two_rounds (λ fd e. ground (arith, e), tt)

loop-polls_example :
    let rounds = two_rounds ++ (nothing 0 ∷ []) in
    (later : List ℕ) × (timeouts (loop rounds (at_start (pos 3))).0
      ≡ timeouts (loop two_rounds (at_start (pos 3))).0 ++ later)
    × AllZero later
loop-polls_example =
    loop-polls (ready busy 5 ∷ []) (nothing 0 ∷ []) 0 (at_start (pos 3))
      (omega arith, (refl, (refl, tt)))

-- The start where the flags cannot be set.
abbrev unset : Start
unset = record {
  socket = some (pos 3);
  sets_option = true;
  binds = true;
  listens = true;
  reads_flags = true;
  sets_flags = false;
}

-- The loop asks about a closed socket.
starts_closed :
    (start 2 unset ≡ serves (pos 3) false)
    × (main 2 unset (fails ∷ []) ≡ (selects (pos 4) 1000000 ∷ [], exits))
unfolding start set_up make_nonblocking main loop round fill grow handle how
starts_closed = (refl, refl)

-- `bind` fails: the program returns, and where `listen` fails it exits.
starts_unbound : main 2 (record unset { binds = false }) [] ≡ ([], returns)
unfolding main start set_up
starts_unbound = refl
