-- ===== src/Select/Tests.antt =====
-- What `select` leaves, and a call of it that fails.
use cpp_socket_programming.Prelude.{
  ℕ, ◌≡◌, refl, Bool, true, ◌&&◌, [], ◌∷◌, none, some, arith, ◌==◌, length, take, drop,
}
use cpp_socket_programming.Select.{
  Selects, readable, socket_select, blocking, fd_set, asked, read_round,
}
use cpp_socket_programming.Select.Rounds.{IsSelect, read_round-pending}
use cpp_socket_programming.Socket.{chunk, Kernel}
use cpp_socket_programming.Socket.Drain.{IsQuiet}
use cpp_socket_programming.Relay.{Bytes}

-- The client is at 5, the target at 4.
abbrev ready : ℕ → Bool
ready fd = fd == 5

abbrev select : Selects
select n fds t = some (λ fd. fds fd && ready fd)

select-IsSelect : IsSelect select ready
select-IsSelect = record { leaves = λ n fds left t e fd lt. ground (arith, e) }

-- Where `select` fails, both are read.
both_readable : readable (socket_select (λ n fds t. none) 5 (some 4) blocking) 4 ≡ true
unfolding socket_select fd_set
both_readable = refl

-- A kernel whose state is what is pending.
abbrev quiet : Kernel Bytes
quiet = record { recv = λ len p. (chunk (take len p), drop len p); available = λ p. (length p, p) }

quiet-IsQuiet : IsQuiet quiet (λ p. p)
quiet-IsQuiet = record {
  recv_law = λ len p some_len fits full. (refl, refl);
  available_law = λ p. (refl, refl);
}

-- The client has sent two bytes, the target nothing.
read_round-pending_example :
    (n' : Bytes) × (m' : Bytes) × (read_round select quiet quiet (5, 4) (3, 1) (1 ∷ 2 ∷ []) []
      ≡ some (record { from_client = some (1 ∷ 2 ∷ []); from_target = none }, (n', m')))
    × (n' ≡ [])
    × (m' ≡ [])
read_round-pending_example =
    read_round-pending select ready quiet quiet (λ p. p) (λ p. p) 5 4 (1 ∷ 2 ∷ []) []
      (λ fd. asked 5 (some 4) fd && ready fd) select-IsSelect quiet-IsQuiet quiet-IsQuiet refl refl
      refl
