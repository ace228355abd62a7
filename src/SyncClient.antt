-- ===== src/SyncClient.antt =====
-- protocol-client/src/main.cpp with payload/Payload.h: the program that starts a task on the protocol
-- server and asks for its status until the task is completed. Each exchange with the server is a new
-- connection, and an argument here; the bytes that the program leaves unset are arguments too.
pub mod Session
mod Tests
use cpp_socket_programming.Text.{Text, c_string}
use cpp_socket_programming.SyncApi.{same, completed}
use cpp_socket_programming.Prelude.{
  ℕ, zero, suc, ◌+◌, List, [], ◌∷◌, ◌++◌, Option, none, some, ltb, if◌then◌else◌, length, drop,
  replicate,
}

-- The CONNECT_PACKET with the action "test", and the byte of padding behind it.
unfoldable pub connect_packet : ℕ → Text
connect_packet pad =
    1 ∷ 0 ∷ 0 ∷ 0 ∷ ((116 ∷ 101 ∷ 115 ∷ 116 ∷ []) ++ (replicate 251 0 ++ (pad ∷ [])))

-- The text at an offset of what was received; `none` is a read past its end.
unfoldable pub text_at : ℕ → Text → Option Text
unfolding c_string
text_at n response = if ltb (length response) n then none else some (c_string (drop n response))

-- The CHECK_STATUS_PACKET; `none` is an id that overflows its field.
unfoldable pub check_status_packet : Text → Text → Option Text
check_status_packet id raw =
    if ltb (length id) 255
    then some (3 ∷ 0 ∷ 0 ∷ 0 ∷ (id ++ (0 ∷ drop (length id + 5) raw)))
    else none

-- One exchange: the connection is refused, or the server's response, where `none` is a server that
-- has no answer.
abbrev pub Exchange : Type 0 → Type 0
Exchange S = Text → S → Option (Option Text × S)

-- How the program ends: it still polls, its behaviour is undefined, it exits with 1, or it has read
-- `completed` at this poll, with the server behind it.
pub data Ended (S : Type 0) : Type 0 where
  polling undefined exits : Ended S
  finished : ℕ → S → Ended S

module _ {S : Type 0} where
  -- Behind one response, where `more` is the rest of the loop.
  unfoldable pub after_status : ℕ → Option Text → S → Ended S → Ended S
  after_status n none s more = undefined
  after_status n (some status) s more = if same status completed then finished n s else more

  abbrev pub after_check : ℕ → Option (Option Text × S) → (S → Ended S) → Ended S
  after_check n none more = undefined
  after_check n (some (none, s)) more = exits
  after_check n (some (some response, s)) more = after_status n (text_at 4 response) s (more s)

  -- The loop `while (!responseReceived)`, with the packet that it sends in each round.
  unfoldable pub poll : ℕ → Text → List (Exchange S) → S → Ended S
  unfolding after_status
  poll n packet [] s = polling
  poll n packet (ask ∷ rest) s = after_check n (ask packet s) (poll (suc n) packet rest)

  abbrev pub poll_with : Option Text → List (Exchange S) → S → Ended S
  poll_with none rest s = undefined
  poll_with (some packet) rest s = poll 1 packet rest s

  abbrev pub poll_for : Text → Option Text → List (Exchange S) → S → Ended S
  poll_for raw none rest s = undefined
  poll_for raw (some id) rest s = poll_with (check_status_packet id raw) rest s

  abbrev pub after_connect : Text → Option (Option Text × S) → List (Exchange S) → Ended S
  after_connect raw none rest = undefined
  after_connect raw (some (none, s)) rest = exits
  after_connect raw (some (some response, s)) rest = poll_for raw (text_at 5 response) rest s

  -- `main`.
  unfoldable pub main : ℕ → Text → Exchange S → List (Exchange S) → S → Ended S
  unfolding poll text_at check_status_packet
  main pad raw ask rest s = after_connect raw (ask (connect_packet pad) s) rest
