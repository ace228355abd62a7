-- ===== src/Chat.antt =====
-- chat-server/Server.cpp: one pass of the loop in `main` over the table of clients. The globals are
-- a record. A `std::map` is a function into Option: only `find`, `insert`, `operator[]` and `erase`
-- are used, so no order shows. What the kernel answers in a pass (which sockets are ready, what
-- `accept` and `recv` return) is an argument, and what the pass sends and shuts down is a list.
-- Program has the rest of `main`.
pub mod Table
pub mod Valid
pub mod Mail
pub mod Effects
pub mod Program
pub mod Poll
pub mod Covered
mod Tests
use cpp_socket_programming.Prelude.{
  ℕ, zero, suc, ◌+◌, ◌≡◌, ℤ, pos, negsuc, ◌==ℤ◌, is_positive, Bool, true, false, ◌&&◌, not, List,
  [], ◌∷◌, ◌++◌, Option, none, some, ◌==◌, if◌then◌else◌, length, get_or, set,
}

abbrev pub Message : Type 0
Message = List ℕ

pub record Server : Type 0 where
  pub slots : List ℤ  -- client_socket_fd_map, where 0 is a free place
  pub peers : ℤ → Option ℤ  -- client_to_client_map
  pub queue : ℤ → Option Message  -- client_messages_queue

-- A send is known by the message it starts with; the code hands over 255 bytes from there.
pub data Effect : Type 0 where
  sends : ℤ → Message → Effect
  shuts_down : ℤ → Effect

-- What `recv` returned: 0, -1 with errno EAGAIN, -1 with another errno, or bytes: then the argument is
-- the memory from the start of the buffer on, which is the received bytes, the NULs up to its 255th
-- byte, and, where it is full, what stands behind it.
pub data Received : Type 0 where
  end_of_stream would_block failed : Received
  bytes : Message → Received

-- The answers of the kernel in one pass of the loop.
pub record Events : Type 0 where
  pub accepted : Option ℤ  -- the listening socket is readable, and `accept` returns this
  pub can_read : ℤ → Bool
  pub can_write : ℤ → Bool
  pub received : ℤ → Received

abbrev pub num_of_clients : ℕ
num_of_clients = 5

-- "Connected Successfully!\n"
abbrev pub greeting : Message
greeting =
    67 ∷ 111 ∷ 110 ∷ 110 ∷ 101 ∷ 99 ∷ 116 ∷ 101 ∷ 100 ∷ 32 ∷ 83 ∷ 117 ∷ 99 ∷ 99 ∷ 101 ∷ 115 ∷ 115
    ∷ 102 ∷ 117 ∷ 108 ∷ 108 ∷ 121 ∷ 33 ∷ 10 ∷ []

abbrev pub init : Server
init = record {
  slots = pos 0 ∷ pos 0 ∷ pos 0 ∷ pos 0 ∷ pos 0 ∷ [];
  peers = λ _. none;
  queue = λ _. none;
}

abbrev pub is_some {ℓ} : {A : Type ℓ} → Option A → Bool
is_some none = false
is_some (some a) = true

abbrev pub put {ℓ} : {V : Type ℓ} → ℤ → Option V → (ℤ → Option V) → ℤ → Option V
put k v m j = if k ==ℤ j then v else m j

-- `std::map::insert` keeps an entry that is there.
unfoldable pub insert {ℓ} : {V : Type ℓ} → ℤ → V → (ℤ → Option V) → ℤ → Option V
insert k v m = if is_some (m k) then m else put k (some v) m

-- The slot is freed at its first occurrence.
unfoldable pub free_slot : ℤ → List ℤ → List ℤ
free_slot fd [] = []
free_slot fd (x ∷ xs) = if x ==ℤ fd then pos 0 ∷ xs else x ∷ free_slot fd xs

-- `closeClientConnection`. On POSIX, `CloseSocket` is `shutdown`, and the descriptor stays open.
unfoldable pub close_client : ℤ → Server → Server × List Effect
unfolding free_slot
close_client fd s = (record s { slots = free_slot fd s.slots }, shuts_down fd ∷ [])

-- `std::string(buffer)`: the bytes of the memory before the first NUL.
unfoldable pub c_string : Message → Message
c_string [] = []
c_string (c ∷ cs) = if c == 0 then [] else c ∷ c_string cs

-- A client without a peer has the recipient -1, and a message to it is dropped.
unfoldable pub recipient : ℤ → Server → ℤ
recipient fd s = elim (s.peers fd) [ none ↦ negsuc 0 | some r ↦ r ]

unfoldable pub post_to : ℤ → Message → Server → Server
unfolding insert
post_to r m s = if is_positive r then record s { queue = insert r m s.queue } else s

unfoldable pub post : ℤ → Message → Server → Server
post fd m s = post_to (recipient fd s) m s

-- `processRequest(int)`. After an error other than EAGAIN the buffer is still clear. The message ends
-- at the first NUL of the memory, which is behind the buffer where that is full.
unfoldable pub process_client : ℤ → Received → Server → Server × List Effect
process_client fd end_of_stream s = close_client fd s
process_client fd would_block s = close_client fd s
process_client fd failed s = (post fd [] s, [])
process_client fd (bytes m) s = (post fd (c_string m) s, [])

-- The first free slot, counted from `i`.
unfoldable pub first_free : ℕ → List ℤ → Option ℕ
first_free i [] = none
first_free i (x ∷ xs) = if x ==ℤ pos 0 then some i else first_free (suc i) xs

-- The descriptor in the first used slot other than `skip`.
unfoldable pub first_other : ℕ → ℕ → List ℤ → Option ℤ
first_other skip i [] = none
first_other skip i (x ∷ xs) =
    if not (x ==ℤ pos 0) && not (i == skip) then some x else first_other skip (suc i) xs

unfoldable pub link : ℤ → Option ℤ → (ℤ → Option ℤ) → ℤ → Option ℤ
unfolding insert
link fd none peers = peers
link fd (some q) peers = insert q fd (insert fd q peers)

unfoldable pub seat : ℤ → Option ℕ → Server → Server × List Effect
unfolding link first_other
seat fd none s = (s, [])
seat fd (some i) s =
    let slots = set s.slots i fd in
    (
      record s { slots = slots; peers = link fd (first_other i 0 slots) s.peers },
      sends fd greeting ∷ [],
    )

-- The first half of `processRequest()`, where `fd` is what `accept` returned.
unfoldable pub accept_client : ℤ → Server → Server × List Effect
unfolding seat first_free
accept_client fd s = seat fd (first_free 0 s.slots) s

unfoldable pub admit : Option ℤ → Server → Server × List Effect
unfolding accept_client
admit none s = (s, [])
admit (some fd) s = accept_client fd s

-- The message is sent and its entry is erased; `operator[]` gives an empty one where there is none.
unfoldable pub flush : ℤ → Server → Server × List Effect
flush fd s = (
  record s { queue = put fd none s.queue },
  sends fd (elim (s.queue fd) [ none ↦ [] | some m ↦ m ]) ∷ [],
)

-- Two steps, one after the other.
abbrev pub then_do : Server × List Effect → (Server → Server × List Effect) → Server × List Effect
then_do (s, before) f = let (t, after) = f s in (t, before ++ after)

-- The body of the second loop of `processRequest()` at slot `i`, with the sets that `select` left.
unfoldable pub serve_slot : (ℤ → Bool) → (ℤ → Bool) → Events → ℕ → Server → Server × List Effect
unfolding process_client flush
serve_slot readfds writefds ev i s =
    let fd = get_or s.slots i (pos 0) in
    if fd ==ℤ pos 0
    then (s, [])
    else then_do (if readfds fd then process_client fd (ev.received fd) s else (s, []))
        (λ t. let fd' = get_or t.slots i (pos 0) in if writefds fd' then flush fd' t else (t, []))

unfoldable pub serve_slots :
    (ℤ → Bool) → (ℤ → Bool) → Events → ℕ → ℕ → Server → Server × List Effect
unfolding serve_slot
serve_slots readfds writefds ev zero i s = (s, [])
serve_slots readfds writefds ev (suc n) i s =
    then_do (serve_slot readfds writefds ev i s) (serve_slots readfds writefds ev n (suc i))

-- Whether a descriptor is a client's.
unfoldable pub is_client : ℤ → List ℤ → Bool
is_client fd [] = false
is_client fd (x ∷ xs) = if not (x ==ℤ pos 0) && (x ==ℤ fd) then true else is_client fd xs

-- The sets before `select` hold the clients, and for writing those with a message; `select` leaves
-- the ready ones.
unfoldable pub read_set : Events → Server → ℤ → Bool
unfolding is_client
read_set ev s fd = is_client fd s.slots && ev.can_read fd

unfoldable pub write_set : Events → Server → ℤ → Bool
unfolding is_client
write_set ev s fd = is_client fd s.slots && is_some (s.queue fd) && ev.can_write fd

-- One pass of the loop, with something ready.
unfoldable pub pass : Events → Server → Server × List Effect
unfolding admit serve_slots read_set write_set
pass ev s =
    then_do (admit ev.accepted s) (serve_slots (read_set ev s) (write_set ev s) ev num_of_clients 0)
