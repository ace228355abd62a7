-- ===== src/Socket/Tests.antt =====
-- The theorems about sockets at concrete inputs.
use cpp_socket_programming.Prelude.{◌≡◌, refl, List, [], ◌∷◌, some, length, take, drop}
use cpp_socket_programming.Socket.Drain.{IsQuiet, receive_bytes-drains}
use cpp_socket_programming.Socket.Refs.{IsCounted}
use cpp_socket_programming.Socket.Close.{empty_store, run-IsCounted, empty-IsCounted}
use cpp_socket_programming.Socket.Life.{Store, Action, constructs, copies, destroys, run}
use cpp_socket_programming.Socket.{Bytes, chunk, Kernel, receive_bytes}

-- A kernel whose state is what is pending.
abbrev quiet : Kernel Bytes
quiet = record { recv = λ len p. (chunk (take len p), drop len p); available = λ p. (length p, p) }

quiet-IsQuiet : IsQuiet quiet (λ p. p)
quiet-IsQuiet = record {
  recv_law = λ len p some_len fits full. (refl, refl);
  available_law = λ p. (refl, refl);
}

receive_bytes-drains_example :
    (n' : Bytes) × (receive_bytes quiet 4 (1 ∷ 2 ∷ 3 ∷ []) ≡ some (1 ∷ 2 ∷ 3 ∷ [], n')) × (n' ≡ [])
receive_bytes-drains_example =
    receive_bytes-drains quiet (λ p. p) quiet-IsQuiet (1 ∷ 2 ∷ 3 ∷ []) (λ e. cc)

-- A socket, a copy of it, and the end of both.
abbrev history : List Action
history = constructs 0 5 ∷ copies 1 0 ∷ destroys 0 ∷ destroys 1 ∷ []

-- Two sockets on descriptors 5 and 6.
abbrev apart : Store
apart = run (constructs 0 5 ∷ constructs 1 6 ∷ []) (empty_store 2)

apart-IsCounted : IsCounted apart
apart-IsCounted =
    run-IsCounted (constructs 0 5 ∷ constructs 1 6 ∷ []) (empty_store 2) tt (empty-IsCounted 2)
