-- ===== src/ChatClient.antt =====
-- chat-server/Client.cpp: a thread that queues the lines that are typed, and the loop in `main` that
-- shows what the server sends and sends what is queued. The queue is a map with one key, the socket.
-- What the kernel answers in a pass is an argument.
pub mod Sent
pub mod Delivered
mod Tests
use cpp_socket_programming.Text.{Text}
use cpp_socket_programming.Chat.{Received, end_of_stream, would_block, failed, bytes, c_string}
use cpp_socket_programming.Prelude.{
  ℕ, zero, suc, Bool, true, false, ◌&&◌, List, [], ◌∷◌, ◌++◌, Option, none, some, ◌==◌,
  if◌then◌else◌, take,
}

pub record Client : Type 0 where
  pub queue : Option Text  -- client_messages_queue
  pub listening : Bool  -- the thread of `inputListener` runs

abbrev pub init : Client
init = record { queue = none; listening = true }

-- A message that is sent, with what stands in the memory behind it.
pub data Effect : Type 0 where
  sends : Text → Text → Effect
  shows : Text → Effect
  shuts_down : Effect

-- The 255 bytes that `sendRequest` hands over, from the first byte of the message on.
unfoldable pub send_request : Text → Text → Text
send_request message behind = take 255 (message ++ (0 ∷ behind))

-- input == "exit"
unfoldable pub is_exit : Text → Bool
is_exit (a ∷ b ∷ c ∷ d ∷ []) = a == 101 && b == 120 && c == 105 && d == 116
is_exit (a ∷ b ∷ c ∷ d ∷ e ∷ rest) = false
is_exit (a ∷ b ∷ c ∷ []) = false
is_exit (a ∷ b ∷ []) = false
is_exit (a ∷ []) = false
is_exit [] = false

-- `std::map::insert` keeps the message that waits.
abbrev pub insert : Text → Option Text → Option Text
insert input none = some input
insert input (some waiting) = some waiting

-- A round of `inputListener`.
unfoldable pub input_line : Text → Client → Client
unfolding is_exit
input_line input s =
    if s.listening
    then if is_exit input
      then record s { listening = false }
      else record s { queue = insert input s.queue }
    else s

-- The answers of the kernel in a pass, and the memory behind the message.
pub record Events : Type 0 where
  pub readable : Option Received  -- the socket is readable, and `recv` answers this
  pub can_write : Bool
  pub behind : Text

-- The second half of `processRequest`.
unfoldable pub write_message : Bool → Text → Client → Client × List Effect
write_message false behind s = (s, [])
write_message true behind s =
    (record s { queue = none }, sends (elim s.queue [ none ↦ [] | some m ↦ m ]) behind ∷ [])

abbrev pub after : List Effect → Client × List Effect → Client × List Effect
after before (s, effects) = (s, before ++ effects)

-- `processRequest`. Where `recv` gives 0, or -1 with EAGAIN, `closeClientConnection` shuts the socket
-- down and nothing else is done; behind another error the buffer is clear.
unfoldable pub process_request : Option Received → Bool → Text → Client → Client × List Effect
unfolding write_message c_string
process_request none writes behind s = write_message writes behind s
process_request (some end_of_stream) writes behind s = (s, shuts_down ∷ [])
process_request (some would_block) writes behind s = (s, shuts_down ∷ [])
process_request (some failed) writes behind s =
    after (shows [] ∷ []) (write_message writes behind s)
process_request (some (bytes b)) writes behind s =
    after (shows (c_string b) ∷ []) (write_message writes behind s)

abbrev pub is_some : Option Text → Bool
is_some none = false
is_some (some m) = true

-- A pass of the loop in `main`: the socket is in the set for writing if a message waits.
unfoldable pub pass : Events → Client → Client × List Effect
unfolding process_request
pass ev s = process_request ev.readable (is_some s.queue && ev.can_write) ev.behind s

-- A line that is typed, or a pass.
pub data Step : Type 0 where
  types : Text → Step
  passes : Events → Step

unfoldable pub step : Step → Client → Client × List Effect
unfolding input_line pass
step (types input) s = (input_line input s, [])
step (passes ev) s = pass ev s

unfoldable pub run : List Step → Client → Client × List Effect
unfolding step
run [] s = (s, [])
run (x ∷ steps) s = let r = step x s in after r.1 (run steps r.0)
