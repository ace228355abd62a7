-- ===== src/Echo/Session.antt =====
-- ssl-client/Client.cpp: the server's loop over its clients, up to the one that stops it.
use cpp_socket_programming.Text.{Text, c_string}
use cpp_socket_programming.Text.Lines.{Without, c_string-whole}
use cpp_socket_programming.SyncApi.{same}
use cpp_socket_programming.Prelude.{
  ◌<◌, ◌≡◌, refl, ◌∙◌, false, List, [], ◌∷◌, ◌++◌, append_assoc, append-nil, arith, length, map,
}
use cpp_socket_programming.Echo.{
  Read, chunk, ended, Effect, writes, shows, cleans, stops, rxcap, after, kill, terminate, echo,
  echo_loop, Client, talks, next_client, server_loop,
}

-- Reads without NUL that leave a place behind them and are not the command to stop.
abbrev pub AllLines : List Text → Type 0
AllLines [] = Unit {0}
AllLines (l ∷ ls) = Without 0 l × (length l < rxcap) × (same l kill ≡ false) × AllLines ls

abbrev pub AllConversations : List (List Text) → Type 0
AllConversations [] = Unit {0}
AllConversations (ls ∷ lss) = AllLines ls × AllConversations lss

-- Every read is shown, and then written.
abbrev pub shown : List Text → List Effect
shown [] = []
shown (l ∷ ls) = shows l ∷ writes l ∷ shown ls

-- A client that ends the connection behind its reads, whatever a read would give then.
abbrev pub conversation : List Text → List Read → Client
conversation ls behind = talks (map chunk ls ++ (ended ∷ behind))

abbrev pub conversations : List (List Text) → List Client → List Client
conversations [] more = more
conversations (ls ∷ lss) more = conversation ls [] ∷ conversations lss more

-- What the server does with those clients, with the clean-up behind each.
abbrev pub all_shown : List (List Text) → List Effect → List Effect
all_shown [] more = more
all_shown (ls ∷ lss) more = shown ls ++ (cleans ∷ all_shown lss more)

echo_loop-lines :
    (ls : List Text) (more : List Read)
    → AllLines ls
    → echo_loop (map chunk ls ++ more) ≡ after (shown ls) (echo_loop more)
unfolding echo_loop terminate echo
echo_loop-lines [] more h = refl
echo_loop-lines (l ∷ ls) more h =
    rw (c_string-whole l h.0, h.2, echo_loop-lines ls more h.3) (ground (arith, h.1))

echo_loop-kill : (reads : List Read) → echo_loop (chunk kill ∷ reads) ≡ ([], stops)
unfolding echo_loop terminate echo same c_string
echo_loop-kill reads = refl

server_loop-kill :
    (ls : List Text) (reads : List Read) (clients : List Client)
    → AllLines ls
    → server_loop (talks (map chunk ls ++ (chunk kill ∷ reads)) ∷ clients)
      ≡ (shown ls ++ (cleans ∷ []), stops)
unfolding server_loop next_client
server_loop-kill ls reads clients h =
    rw (echo_loop-lines ls (chunk kill ∷ reads) h, echo_loop-kill reads, append-nil (shown ls)) refl

server_loop-ended :
    (ls : List Text) (reads : List Read) (clients : List Client)
    → AllLines ls
    → server_loop (conversation ls reads ∷ clients)
      ≡ after (shown ls ++ (cleans ∷ [])) (server_loop clients)
unfolding server_loop next_client echo_loop
server_loop-ended ls reads clients h =
    rw
      (
        echo_loop-lines ls (ended ∷ reads) h,
        append-nil (shown ls),
        append_assoc (shown ls) (cleans ∷ []) (server_loop clients).0,
      )
      refl

-- The server takes any number of clients in turn, whose reads have at most 127 bytes, no NUL, and are
-- not "kill" with its newline, and which end their connections; and then a client that sends that
-- command behind such reads. It shows and echoes every read of each of them, in order, cleans up once
-- behind each client, and stops behind the command: nothing that this client sends after it is read,
-- and no further client is taken.
pub server_loop-stops :
    (lss : List (List Text)) (ls : List Text) (reads : List Read) (clients : List Client)
    → AllConversations lss
    → AllLines ls
    → server_loop (conversations lss (talks (map chunk ls ++ (chunk kill ∷ reads)) ∷ clients))
      ≡ (all_shown lss (shown ls ++ (cleans ∷ [])), stops)
server_loop-stops [] ls reads clients hs h = server_loop-kill ls reads clients h
server_loop-stops (l ∷ lss) ls reads clients hs h =
    let rest = conversations lss (talks (map chunk ls ++ (chunk kill ∷ reads)) ∷ clients) in
    server_loop-ended l [] rest hs.0
    ∙ rw
        (
          server_loop-stops lss ls reads clients hs.1 h,
          append_assoc (shown l) (cleans ∷ []) (all_shown lss (shown ls ++ (cleans ∷ []))),
        )
        refl
