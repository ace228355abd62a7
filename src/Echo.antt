-- ===== src/Echo.antt =====
-- ssl-client/Client.cpp: a program that echoes what TLS clients send, or is such a client. What the
-- calls of OpenSSL and of the operating system answer is an argument.
pub mod Request
pub mod Session
pub mod Answers
mod Tests
use cpp_socket_programming.Text.{Text, c_string}
use cpp_socket_programming.SyncApi.{same}
use cpp_socket_programming.Prelude.{
  ℕ, Bool, true, false, List, [], ◌∷◌, ◌++◌, ◌==◌, ltb, if◌then◌else◌, length,
}
use cpp_socket_programming.Echo.Request.{request}

-- The answer of `SSL_read`: bytes, or 0 or less.
pub data Read : Type 0 where
  chunk : Text → Read
  ended : Read

-- The calls of `SSL_write`, what is shown, and the clean-up behind a client or at the end.
pub data Effect : Type 0 where
  writes shows : Text → Effect
  cleans : Effect

-- How a loop ends: it still waits, a NUL is written behind the buffer, `exit` is called, the peer has
-- ended, or the loop is told to stop.
pub data How : Type 0 where
  waits overflows exits leaves stops : How

abbrev pub rxcap : ℕ
rxcap = 128

abbrev pub after : List Effect → List Effect × How → List Effect × How
after before (effects, how) = (before ++ effects, how)

-- `rxbuf[rxlen] = 0`, where the string in the buffer is used behind it.
unfoldable pub terminate : Text → (Text → List Effect × How) → List Effect × How
unfolding c_string
terminate b f = let used = f (c_string b) in if ltb (length b) rxcap then used else ([], overflows)

-- "kill\n"
abbrev pub kill : Text
kill = 107 ∷ 105 ∷ 108 ∷ 108 ∷ 10 ∷ []

-- Behind the NUL, where `more` is the next round: the result of `SSL_write` ends nothing.
unfoldable pub echo : Text → List Effect × How → Text → List Effect × How
echo b more s = if same s kill then ([], stops) else after (shows s ∷ writes b ∷ []) more

-- The echo loop of the server.
unfoldable pub echo_loop : List Read → List Effect × How
unfolding terminate echo
echo_loop [] = ([], waits)
echo_loop (ended ∷ rest) = ([], leaves)
echo_loop (chunk b ∷ rest) = terminate b (echo b (echo_loop rest))

-- What the server meets: `accept` fails, the handshake fails, or a client with its reads.
pub data Client : Type 0 where
  refused no_handshake : Client
  talks : List Read → Client

-- Behind a client, where `more` is the loop over those that follow.
unfoldable pub next_client : How → List Effect × How → List Effect × How
next_client leaves more = after (cleans ∷ []) more
next_client stops more = (cleans ∷ [], stops)
next_client waits more = ([], waits)
next_client overflows more = ([], overflows)
next_client exits more = ([], exits)

-- The loop over the clients, with the end of `main`.
unfoldable pub server_loop : List Client → List Effect × How
unfolding echo_loop next_client
server_loop [] = ([], waits)
server_loop (refused ∷ rest) = ([], exits)
server_loop (no_handshake ∷ rest) = (cleans ∷ [], stops)
server_loop (talks reads ∷ rest) =
    let r = echo_loop reads in after r.0 (next_client r.1 (server_loop rest))

-- `SSL_write` and the `SSL_read` behind it.
pub record Round : Type 0 where
  pub can_write : Bool
  pub read : Read

abbrev pub show_then : List Effect × How → Text → List Effect × How
show_then more s = after (shows s ∷ []) more

abbrev pub receive : Read → List Effect × How → List Effect × How → List Effect × How
receive ended closed more = closed
receive (chunk b) closed more = terminate b (show_then more)

-- Text is written, and the answer is shown: `closed` is what follows where the server has ended.
unfoldable pub exchange : Text → Round → List Effect × How → List Effect × How → List Effect × How
unfolding terminate
exchange t r closed more =
    let answered = after (writes t ∷ []) (receive r.read closed more) in
    if r.can_write then answered else closed

abbrev pub is_blank : Text → Bool
is_blank [] = false
is_blank (c ∷ cs) = c == 10

-- The loop of the client over the lines of the input, with the end of `main`.
unfoldable pub client_loop : List Text → List Round → List Effect × How
unfolding exchange
client_loop [] rounds = (cleans ∷ [], stops)
client_loop (l ∷ lines) [] = if is_blank l then (cleans ∷ [], stops) else (writes l ∷ [], waits)
client_loop (l ∷ lines) (r ∷ rounds) =
    let more = client_loop lines rounds in
    if is_blank l then (cleans ∷ [], stops) else exchange l r (cleans ∷ [], leaves) more

-- `sendRequest`, whose round is the first, with the loop behind it: it returns where the server has
-- ended, and the loop runs all the same.
unfoldable pub client : Round → List Text → List Round → List Effect × How
unfolding exchange client_loop request
client first lines rounds = let more = client_loop lines rounds in exchange request first more more
