-- ===== src/Select.antt =====
-- protocol-server/src/engine/socket/SocketSelect.cpp: which of two sockets have something to read, and
-- the round of a proxy that reads those. The call of `select` is an argument.
pub mod Rounds
mod Tests
use cpp_socket_programming.Socket.{Kernel, receive_bytes}
use cpp_socket_programming.Relay.{Bytes, Round}
use cpp_socket_programming.Prelude.{
  ℕ, suc, Bool, true, false, ◌||◌, Option, none, some, ◌==◌, ltb, if◌then◌else◌,
}

-- An `fd_set`.
abbrev pub FdSet : Type 0
FdSet = ℕ → Bool

abbrev pub fd_zero : FdSet
fd_zero fd = false

unfoldable pub fd_set : ℕ → FdSet → FdSet
fd_set s fds fd = if s == fd then true else fds fd

pub data TypeSocket : Type 0 where
  blocking non_blocking : TypeSocket

-- `tval` in microseconds, or a null pointer.
abbrev pub timeout : TypeSocket → Option ℕ
timeout blocking = none
timeout non_blocking = some 1

-- The sockets that are asked about.
unfoldable pub asked : ℕ → Option ℕ → FdSet
unfolding fd_set
asked s1 none = fd_set s1 fd_zero
asked s1 (some s2) = fd_set s2 (fd_set s1 fd_zero)

unfoldable pub max_fd : ℕ → Option ℕ → ℕ
max_fd s1 none = s1
max_fd s1 (some s2) = if ltb s1 s2 then s2 else s1

-- The call of `select` with its first argument, the set and the timeout: -1, or the set that is left.
abbrev pub Selects : Type 0
Selects = ℕ → FdSet → Option ℕ → Option FdSet

abbrev pub left_by : Option FdSet → FdSet → FdSet
left_by none fds = fds
left_by (some left) fds = left

-- The constructor catches its own exception, so that behind a call that fails the set is as it was.
unfoldable pub socket_select : Selects → ℕ → Option ℕ → TypeSocket → FdSet
unfolding asked max_fd
socket_select select s1 s2 type =
    left_by (select (suc (max_fd s1 s2)) (asked s1 s2) (timeout type)) (asked s1 s2)

-- `Readable`.
abbrev pub readable : FdSet → ℕ → Bool
readable fds s = fds s

abbrev pub read : {N : Type 0} → Option (Bytes × N) → Option (Option Bytes × N)
read none = none
read (some (bytes, n)) = some (some bytes, n)

-- What a round reads of a socket, on fuel; `none` is a call of `ReceiveBytes` that goes on.
unfoldable pub read_if : {N : Type 0} → Kernel N → Bool → ℕ → N → Option (Option Bytes × N)
unfolding receive_bytes
read_if k false fuel n = some (none, n)
read_if k true fuel n = read (receive_bytes k fuel n)

abbrev pub both :
    {N M : Type 0}
    → Option (Option Bytes × N)
    → Option (Option Bytes × M)
    → Option (Round × (N × M))
both none target = none
both (some c) none = none
both (some c) (some t) = some (record { from_client = c.0; from_target = t.0 }, (c.1, t.1))

-- The reads of a round of `CProxySocket::ThreadHandler`, over the kernels of both sockets, with the fuel
-- of each.
unfoldable pub read_round :
    {N M : Type 0}
    → Selects
    → Kernel N
    → Kernel M
    → ℕ × ℕ
    → ℕ × ℕ
    → N
    → M
    → Option (Round × (N × M))
unfolding socket_select read_if
read_round select k l (client, target) fuel n m =
    let sel = socket_select select client (some target) non_blocking in
    both (read_if k (readable sel client) fuel.0 n) (read_if l (readable sel target) fuel.1 m)
