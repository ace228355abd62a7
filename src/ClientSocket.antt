-- ===== src/ClientSocket.antt =====
-- protocol-server/src/engine/socket/CClientSocket.cpp: the constructor, `Connect`, `Reconnect` and
-- `Resolve`, with the destructors of the class and of its base Socket. The table of the process is the
-- list of its open descriptors; the descriptor that `socket` gives is a function of the table, and the
-- answers of the other calls are arguments.
pub mod Held
pub mod Twice
pub mod Samples
mod Tests
use cpp_socket_programming.Text.{Text, c_string}
use cpp_socket_programming.Prelude.{
  ℕ, Bool, true, false, ◌&&◌, ◌||◌, List, [], ◌∷◌, Option, none, some, leb, ltb, if◌then◌else◌,
  length, get_or, erase,
}

-- How a call ends; undefined is an overflow, or a null pointer that is used.
pub data How : Type 0 where
  returns throws undefined : How

-- `s_`, where none is INVALID_SOCKET, and the table.
pub record State : Type 0 where
  pub descriptor : Option ℕ
  pub table : List ℕ

-- Whether a host entry is found, and whether `connect` gives 0.
pub record Answers : Type 0 where
  pub found : Bool
  pub connects : Bool

-- What `Resolve` leaves in `m_HostPointer`.
pub data Entry : Type 0 where
  host_entry null_entry threw : Entry

-- `isalpha`.
unfoldable pub is_alpha : ℕ → Bool
is_alpha c = (leb b'A' c && leb c b'Z') || (leb b'a' c && leb c b'z')

-- `Resolve`: a name that is not found throws, an address that is not found leaves a null pointer.
unfoldable pub resolve : Text → Bool → Entry
unfolding is_alpha
resolve host true = host_entry
resolve host false = if is_alpha (get_or host 0 0) then threw else null_entry

abbrev pub connect_to : Entry → Bool → How
connect_to threw connects = throws
connect_to null_entry connects = undefined
connect_to host_entry connects = if connects then returns else throws

-- `Connect`.
unfoldable pub connect : Text → Answers → How
unfolding resolve
connect host a = connect_to (resolve host a.found) a.connects

-- `close`, which does nothing to a number that is not open.
abbrev pub close : Option ℕ → List ℕ → List ℕ
close none table = table
close (some fd) table = erase fd table

-- The end of the constructor: where it throws, the destructor of the base closes the descriptor.
abbrev pub constructed : ℕ → List ℕ → How → How × State
constructed fd table throws =
    (throws, record { descriptor = none; table = close (some fd) (fd ∷ table) })
constructed fd table returns = (returns, record { descriptor = some fd; table = fd ∷ table })
constructed fd table undefined = (undefined, record { descriptor = some fd; table = fd ∷ table })

module _ (socket : List ℕ → Option ℕ) where
  -- Behind `Socket()`: the name is copied into 255 bytes.
  unfoldable pub construct_with : Text → Answers → List ℕ → Option ℕ → How × State
  unfolding connect c_string
  construct_with name a table none = (throws, record { descriptor = none; table = table })
  construct_with name a table (some fd) =
      let host = c_string name in
      constructed fd table (if ltb (length host) 255 then connect host a else undefined)

  -- `CClientSocket::CClientSocket`.
  unfoldable pub construct : Text → Answers → List ℕ → How × State
  unfolding construct_with
  construct name a table = construct_with name a table (socket table)

  -- `CreateSocket` and `Connect`.
  unfoldable pub create_and_connect : Text → Answers → List ℕ → Option ℕ → How × State
  unfolding connect
  create_and_connect host a table none = (throws, record { descriptor = none; table = table })
  create_and_connect host a table (some fd) =
      (connect host a, record { descriptor = some fd; table = fd ∷ table })

  -- `Reconnect`.
  unfoldable pub reconnect : Text → Answers → State → How × State
  unfolding create_and_connect
  reconnect host a s =
      let table = close s.descriptor s.table in create_and_connect host a table (socket table)

  abbrev pub and_then : How × State → (State → Option State) → Option State
  and_then (undefined, s) f = none
  and_then (returns, s) f = f s
  and_then (throws, s) f = f s

  -- A number of calls of `Reconnect`, whose exceptions the caller catches.
  unfoldable pub run : Text → List Answers → State → Option State
  unfolding reconnect
  run host [] s = some s
  run host (a ∷ answers) s = and_then (reconnect host a s) (run host answers)

-- `~CClientSocket` and `~Socket`, with what other threads do to the table between their calls of
-- `close`. The object has not been copied, so that its counter falls to 0.
unfoldable pub destroy : (List ℕ → List ℕ) → State → State
destroy meanwhile s = record {
  descriptor = none;
  table = close s.descriptor (meanwhile (close s.descriptor s.table));
}
