-- ===== src/Clients/Program.antt =====
-- multiple-client-single-thread/Client.cpp: a program that shows the greeting of the server and sends
-- what is typed until that begins with "exit". What `send` and the first `recv` answer is an argument.
use cpp_socket_programming.Text.{Text}
use cpp_socket_programming.Text.Lines.{Without, Without-append}
use cpp_socket_programming.Chat.{greeting}
use cpp_socket_programming.Prelude.{
  ◌≡◌, refl, ap, ◌∙◌, ℤ, Bool, true, false, List, [], ◌∷◌, ◌++◌, Option, some, arith, if◌then◌else◌,
  length, map, replicate,
}
use cpp_socket_programming.Turns.{
  typed, not_typed, is_exit, Received, failed, bytes, Effect, sends, shows, closes, How, waits,
  exits, returns, after,
}
use cpp_socket_programming.Turns.Conversation.{IsLine, line, all_typed, typed-line, not_typed-line}
use cpp_socket_programming.Chat
use cpp_socket_programming.Clients
use cpp_socket_programming.Clients.{prints, then_do, process_request}

-- The loop in `main`, over what `send` answers in each round.
unfoldable pub send_loop : Text → List Bool → List Effect × How
unfolding typed not_typed is_exit
send_loop stdin [] = ([], waits)
send_loop stdin (false ∷ rest) = ([], exits)
send_loop stdin (true ∷ rest) =
    let more = send_loop (not_typed stdin) rest in
    after (sends (typed stdin) ∷ [])
      (if is_exit (typed stdin) then (closes ∷ [], returns) else more)

-- `main` behind `connect`, with the message of the server.
unfoldable pub main : Received → Text → List Bool → List Effect × How
unfolding send_loop
main failed stdin answers = ([], exits)
main (bytes b) stdin answers = after (shows (Chat.c_string b) ∷ []) (send_loop stdin answers)

-- The server's reads of one client, where each message arrives whole.
unfoldable pub receive_all : ℤ → List Text → Option (List Clients.Effect)
unfolding process_request
receive_all fd [] = some []
receive_all fd (m ∷ messages) =
    then_do (process_request fd (Clients.bytes m)) (receive_all fd messages)

-- Lines, of which the last and no other begins with "exit".
abbrev pub IsSession : List Text → Type 0
IsSession [] = ⊥
IsSession (l ∷ []) = IsLine l × (is_exit (line l) ≡ true)
IsSession (l ∷ k ∷ ls) = IsLine l × (is_exit (line l) ≡ false) × IsSession (k ∷ ls)

abbrev stop_or : Bool → List Effect × How → List Effect × How
stop_or b more = if b then (closes ∷ [], returns) else more

send_loop-line :
    (l rest : Text) (answers : List Bool)
    → IsLine l
    → send_loop (l ++ (10 ∷ rest)) (true ∷ answers)
      ≡ after (sends (line l) ∷ []) (stop_or (is_exit (line l)) (send_loop rest answers))
unfolding send_loop
send_loop-line l rest answers h = rw (typed-line l rest h, not_typed-line l rest h) refl

send_loop-session :
    (ls : List Text) (rest : Text)
    → IsSession ls
    → send_loop (all_typed ls rest) (replicate (length ls) true)
      ≡ (map (λ l. sends (line l)) ls ++ (closes ∷ []), returns)
send_loop-session [] rest h = absurd h
send_loop-session (l ∷ []) rest h = send_loop-line l rest [] h.0 ∙ rw h.1 refl
send_loop-session (l ∷ k ∷ ls) rest h =
    send_loop-line l (all_typed (k ∷ ls) rest) (replicate (length (k ∷ ls)) true) h.0
    ∙ rw h.1 (ap (after (sends (line l) ∷ [])) (send_loop-session (k ∷ ls) rest h.2))

c_string-whole : (s : Text) → Without 0 s → Chat.c_string s ≡ s
unfolding Chat.c_string
c_string-whole [] h = refl
c_string-whole (c ∷ cs) h = ground (arith, c_string-whole cs)

c_string-line : (l : Text) → IsLine l → Chat.c_string (line l) ≡ line l
c_string-line l h = c_string-whole (line l) (Without-append 0 l (10 ∷ []) h.1 (omega arith))

receive_all-line :
    (fd : ℤ) (l : Text) (messages : List Text)
    → IsLine l
    → receive_all fd (line l ∷ messages)
      ≡ then_do (some (prints fd (line l) ∷ [])) (receive_all fd messages)
unfolding receive_all process_request
receive_all-line fd l messages h =
    ap (λ (t : Text). then_do (some (prints fd t ∷ [])) (receive_all fd messages))
      (c_string-line l h)

receive_all-session :
    (fd : ℤ) (ls : List Text)
    → IsSession ls
    → receive_all fd (map line ls) ≡ some (map (λ l. prints fd (line l)) ls)
unfolding receive_all
receive_all-session fd [] h = absurd h
receive_all-session fd (l ∷ []) h = receive_all-line fd l [] h.0
receive_all-session fd (l ∷ k ∷ ls) h =
    receive_all-line fd l (map line (k ∷ ls)) h.0
    ∙ ap (then_do (some (prints fd (line l) ∷ []))) (receive_all-session fd (k ∷ ls) h.2)

-- A session of lines of at most 253 bytes, of which the last and no other begins with "exit", behind a greeting
-- with a NUL, where every send succeeds: the client shows the greeting, sends each line once and in
-- order, and returns with its socket closed behind that last line, whatever is typed after that. The server,
-- where each message arrives whole, prints exactly these lines for that client.
pub main-receive_all :
    (fd : ℤ) (ls : List Text) (behind rest : Text)
    → IsSession ls
    → (main (bytes (greeting ++ (0 ∷ behind))) (all_typed ls rest) (replicate (length ls) true)
        ≡ (shows greeting ∷ map (λ l. sends (line l)) ls ++ (closes ∷ []), returns))
      × (receive_all fd (map line ls) ≡ some (map (λ l. prints fd (line l)) ls))
unfolding main Chat.c_string
main-receive_all fd ls behind rest h =
    (rw (send_loop-session ls rest h) refl, receive_all-session fd ls h)
