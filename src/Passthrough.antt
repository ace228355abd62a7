-- ===== src/Passthrough.antt =====
-- passthrough-proxy/Socket.cpp, where it is not the Socket class of the protocol server: another
-- `ReceiveBytes`, and the constructors of the server's and the client's socket with `Accept`. What
-- the system calls answer is an argument, and what is opened and closed is a list.
pub mod Read
pub mod Open
use cpp_socket_programming.Prelude.{
  ℕ, zero, suc, ◌+◌, Bool, true, false, List, [], ◌∷◌, ◌++◌, Option, none, some, ◌==◌, ltb,
  if◌then◌else◌,
}
use cpp_socket_programming.Socket.{
  Bytes, Chunk, chunk, closed, interrupted, broken, Kernel, read_buffer,
}

module _ {N : Type 0} (k : Kernel N) where
  -- Behind the `recv` of a round, where `loop` is the next round.
  unfoldable pub after_read :
      Bytes → Chunk × N → (Bytes → N → Option (Bytes × N)) → Option (Bytes × N)
  after_read ret (chunk t, n) loop = loop (ret ++ t) n
  after_read ret (closed, n) loop = some (ret, n)
  after_read ret (interrupted, n) loop = some (ret, n)
  after_read ret (broken, n) loop = some (ret, n)

  -- A round asks FIONREAD first; `none` is a loop that goes on.
  unfoldable pub read_round : Bytes → ℕ × N → (Bytes → N → Option (Bytes × N)) → Option (Bytes × N)
  unfolding after_read
  read_round ret (a, n) loop =
      let more = after_read ret (k.recv (if ltb read_buffer a then read_buffer else a) n) loop in
      if a == 0 then some (ret, n) else more

  unfoldable pub read_loop : ℕ → Bytes → N → Option (Bytes × N)
  unfolding read_round
  read_loop zero ret n = none
  read_loop (suc fuel) ret n = read_round ret (k.available n) (read_loop fuel)

  -- `ReceiveBytes`.
  unfoldable pub receive_bytes : ℕ → N → Option (Bytes × N)
  unfolding read_loop
  receive_bytes fuel n = read_loop fuel [] n

-- What happens to descriptors; `closes_none` is a call of `close` on INVALID_SOCKET.
pub data Call : Type 0 where
  opens closes : ℕ → Call
  closes_none : Call

-- `make_nonblocking`: it closes the descriptor where one of its calls of `fcntl` fails.
unfoldable pub make_nonblocking : Bool → ℕ → List Call
make_nonblocking true fd = []
make_nonblocking false fd = closes fd ∷ []

-- What `accept` answered: a descriptor, EWOULDBLOCK or EAGAIN, or another error.
pub data Accepted : Type 0 where
  descriptor : ℕ → Accepted
  would_block invalid : Accepted

-- What `Accept` does: it returns a Socket or a null pointer, or throws.
pub data Returned : Type 0 where
  socket : ℕ → Returned
  null threw : Returned

-- `SocketServer::Accept`, where the flag says whether `fcntl` succeeds.
unfoldable pub accept : Accepted → Bool → Returned × List Call
unfolding make_nonblocking
accept (descriptor fd) ok = (socket fd, opens fd ∷ make_nonblocking ok fd)
accept would_block ok = (null, [])
accept invalid ok = (threw, [])

-- Behind `Socket()`, which has opened a descriptor, the constructor of the server opens another one.
-- Where it throws, the destructor of the base runs, and closes what `s_` is.
unfoldable pub bind_server : Bool → ℕ → List Call → Returned × List Call
bind_server true fd calls = (socket fd, calls)
bind_server false fd calls = (threw, calls ++ (closes fd ∷ closes fd ∷ []))

unfoldable pub open_server : Option ℕ → Bool → Bool → Returned × List Call
unfolding bind_server make_nonblocking
open_server none ok bound = (threw, closes_none ∷ [])
open_server (some fd) ok bound = bind_server bound fd (opens fd ∷ make_nonblocking ok fd)

abbrev pub after_open : ℕ → Returned × List Call → Returned × List Call
after_open fd (result, calls) = (result, opens fd ∷ calls)

-- `SocketServer::SocketServer`, with what the two calls of `socket`, `fcntl` and `bind` answer; a
-- blocking socket is `ok` without a call of `fcntl`.
unfoldable pub make_server : Option ℕ → Option ℕ → Bool → Bool → Returned × List Call
unfolding open_server
make_server none second ok bound = (threw, [])
make_server (some first) second ok bound = after_open first (open_server second ok bound)

-- `SocketClient::SocketClient`, with what `socket`, `gethostbyname` and `connect` answer.
unfoldable pub make_client : Option ℕ → Bool → Bool → Returned × List Call
make_client none found connected = (threw, [])
make_client (some fd) false connected = (threw, opens fd ∷ closes fd ∷ [])
make_client (some fd) true false = (threw, opens fd ∷ closes fd ∷ [])
make_client (some fd) true true = (socket fd, opens fd ∷ [])
