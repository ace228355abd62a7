-- ===== src/Turns.antt =====
-- single-client-turn-based/Client.cpp and Server.cpp: two programs that send each other what is typed,
-- in turns. What is typed is a text, and what the calls of `send` and `recv` answer in a round is an
-- argument.
pub mod Typed
pub mod Conversation
mod Tests
use cpp_socket_programming.Text.{Text, c_string}
use cpp_socket_programming.Prelude.{
  ℕ, zero, suc, Bool, true, false, ◌&&◌, List, [], ◌∷◌, ◌++◌, ◌==◌, if◌then◌else◌,
}

-- `fgets` of at most this many bytes: what it reads, which ends with a newline if there is one, and
-- what is left. At the end of the input the buffer stays clear.
unfoldable pub fgets : ℕ → Text → Text × Text
fgets zero s = ([], s)
fgets (suc n) [] = ([], [])
fgets (suc n) (c ∷ cs) =
    let more = fgets n cs in if c == 10 then (c ∷ [], cs) else (c ∷ more.0, more.1)

-- `fgets(buffer, 255, stdin)`, and the string in the buffer.
unfoldable pub typed : Text → Text
unfolding fgets c_string
typed s = c_string (fgets 254 s).0

unfoldable pub not_typed : Text → Text
unfolding fgets
not_typed s = (fgets 254 s).1

-- strncmp("exit", buffer, 4) == 0
unfoldable pub is_exit : Text → Bool
is_exit (a ∷ b ∷ c ∷ d ∷ rest) = a == 101 && b == 120 && c == 105 && d == 116
is_exit (a ∷ b ∷ c ∷ []) = false
is_exit (a ∷ b ∷ []) = false
is_exit (a ∷ []) = false
is_exit [] = false

-- The answer of `recv`: less than 0, or bytes, where none stand for a peer that has closed.
pub data Received : Type 0 where
  failed : Received
  bytes : Text → Received

pub record Round : Type 0 where
  pub can_send : Bool
  pub received : Received

pub data Effect : Type 0 where
  sends shows : Text → Effect
  closes : Effect

-- How a program ends: it still waits for its peer, calls `exit(1)`, or returns.
pub data How : Type 0 where
  waits exits returns : How

abbrev pub after : List Effect → List Effect × How → List Effect × How
after before (effects, how) = (before ++ effects, how)

-- Behind the message of the server, where `more` is the next round.
unfoldable pub client_receives : Received → List Effect × How → List Effect × How
unfolding c_string is_exit
client_receives failed more = ([], exits)
client_receives (bytes b) more =
    after (shows (c_string b) ∷ []) (if is_exit (c_string b) then (closes ∷ [], returns) else more)

-- The loop in `main` of the client.
unfoldable pub client_loop : Text → List Round → List Effect × How
unfolding client_receives typed not_typed
client_loop stdin [] = (sends (typed stdin) ∷ [], waits)
client_loop stdin (r ∷ rest) =
    let more = client_loop (not_typed stdin) rest in
    if r.can_send
    then after (sends (typed stdin) ∷ []) (client_receives r.received more)
    else ([], exits)

-- Behind the message of the client: the server sends what is typed, and ends if that is "exit".
unfoldable pub server_sends : Bool → Text → List Effect × How → List Effect × How
unfolding is_exit
server_sends false m more = ([], exits)
server_sends true m more =
    after (sends m ∷ []) (if is_exit m then (closes ∷ closes ∷ [], returns) else more)

abbrev pub server_round : Received → Bool → Text → List Effect × How → List Effect × How
server_round failed can_send m more = ([], exits)
server_round (bytes b) can_send m more =
    after (shows (c_string b) ∷ []) (server_sends can_send m more)

-- The loop in `main` of the server.
unfoldable pub server_loop : Text → List Round → List Effect × How
unfolding server_sends typed not_typed c_string
server_loop stdin [] = ([], waits)
server_loop stdin (r ∷ rest) =
    let more = server_loop (not_typed stdin) rest in
    server_round r.received r.can_send (typed stdin) more
