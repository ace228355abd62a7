-- ===== src/Socket.antt =====
-- protocol-server/src/engine/socket/Socket.cpp. What the kernel answers to the calls of `recv` on a
-- socket is a list of answers; a loop that has used them up is still waiting, which is `none`.
pub mod Line
pub mod Blocking
pub mod Drain
pub mod Life
pub mod Refs
pub mod Close
pub mod Leak
pub mod Calls
mod Tests
use cpp_socket_programming.Prelude.{
  ℕ, zero, suc, ◌+◌, ◌-◌, ◌%◌, ◌^◌, ◌≡◌, ℤ, pos, negsuc, Bool, true, false, List, [], ◌∷◌, ◌++◌,
  Option, none, some, ◌==◌, ltb, if◌then◌else◌, length, take,
}

abbrev pub Bytes : Type 0
Bytes = List ℕ

-- The answer to a `recv` of one byte: 1 with the byte, 0, or -1.
pub data Answer : Type 0 where
  byte : ℕ → Answer
  end_of_stream failed : Answer

-- The bytes that `SendLine` hands to `send`.
unfoldable pub send_line : Bytes → Bytes
send_line s = s ++ 10 ∷ []

-- `ReceiveLine`: the line, and the answers that are left. `ret` is the line so far.
unfoldable pub receive_line : Bytes → List Answer → Option (Bytes × List Answer)
receive_line ret [] = none
receive_line ret (end_of_stream ∷ rest) = some (ret, rest)
receive_line ret (failed ∷ rest) = some ([], rest)
receive_line ret (byte r ∷ rest) =
    let ret' = ret ++ r ∷ [] in if r == 10 then some (ret', rest) else receive_line ret' rest

-- The answer to a `recv` of up to a number of bytes: bytes, 0, -1 with errno EINTR, or another -1.
pub data Chunk : Type 0 where
  chunk : Bytes → Chunk
  closed interrupted broken : Chunk

-- The kernel behind one socket: `recv` of a number of bytes, and what `ioctl(FIONREAD)` says, with 0
-- where it fails.
pub record Kernel (N : Type 0) : Type 0 where
  pub recv : ℕ → N → Chunk × N
  pub available : N → ℕ × N

abbrev pub read_buffer : ℕ
read_buffer = 1024

module _ {N : Type 0} (k : Kernel N) where
  -- The end of a round of `ReceiveBytes`, where `loop` is the next one with the size of its `recv`.
  unfoldable pub after_available :
      Bytes → ℕ × N → (ℕ → Bytes → N → Option (Bytes × N)) → Option (Bytes × N)
  after_available ret (a, n) loop =
      let again = loop (if ltb read_buffer a then read_buffer else a) ret n in
      if a == 0 then some (ret, n) else again

  unfoldable pub after_recv :
      ℕ → Bytes → Chunk × N → (ℕ → Bytes → N → Option (Bytes × N)) → Option (Bytes × N)
  unfolding after_available
  after_recv arg ret (chunk t, n) loop = after_available (ret ++ t) (k.available n) loop
  after_recv arg ret (closed, n) loop = some (ret, n)
  after_recv arg ret (interrupted, n) loop = loop arg ret n
  after_recv arg ret (broken, n) loop = some (ret, n)

  -- The loop of `ReceiveBytes`, with `arg` bytes asked for; `none` is a loop that goes on.
  unfoldable pub receive_loop : ℕ → ℕ → Bytes → N → Option (Bytes × N)
  receive_loop zero arg ret n = none
  receive_loop (suc fuel) arg ret n = after_recv arg ret (k.recv arg n) (receive_loop fuel)

  unfoldable pub receive_bytes : ℕ → N → Option (Bytes × N)
  unfolding receive_loop after_recv
  receive_bytes fuel n = receive_loop fuel read_buffer [] n

-- A `ssize_t` as a `size_t` of 64 bits.
abbrev pub to_size : ℤ → ℕ
to_size (pos n) = n
to_size (negsuc n) = 2 ^ 64 - 1 - n

-- `RecvBlocking`, after the `ioctl`: `recv_remaining` is a `size_t`, and each answer is what `recv`
-- returned. The `int` that is returned is the size itself for a size below 2 ^ 31.
unfoldable pub recv_remaining : ℕ → ℕ → List ℤ → Option (ℕ × List ℤ)
recv_remaining size left [] = none
recv_remaining size left (r ∷ rest) =
    let recv_this = to_size r in
    let left' = (left + 2 ^ 64 - recv_this) % 2 ^ 64 in
    let more = recv_remaining size left' rest in
    if recv_this == 0 then some (0, rest) else if left' == 0 then some (size, rest) else more

unfoldable pub recv_blocking : ℕ → List ℤ → Option (ℕ × List ℤ)
unfolding recv_remaining
recv_blocking size answers = recv_remaining size size answers
