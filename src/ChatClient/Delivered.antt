-- ===== src/ChatClient/Delivered.antt =====
-- A message from one client through the chat server to another.
use cpp_socket_programming.Text.{Text}
use cpp_socket_programming.Text.Lines.{Without}
use cpp_socket_programming.Chat.Mail.{process_client-mail}
use cpp_socket_programming.Chat
use cpp_socket_programming.Chat.{Server, bytes, c_string, put, process_client, flush}
use cpp_socket_programming.Prelude.{
  ℕ, zero, suc, ◌<◌, ◌≡◌, refl, ◌∙◌, ℤ, is_positive, ==ℤ_self, true, false, [], ◌∷◌, ◌++◌, none,
  some, arith, length, take,
}
use cpp_socket_programming.ChatClient.{
  Client, Events, sends, shows, send_request, is_exit, input_line, write_message, process_request,
  pass, types, passes, step, run,
}

c_string-take :
    (n : ℕ) (m behind : Text)
    → Without 0 m
    → length m < n
    → c_string (take n (m ++ (0 ∷ behind))) ≡ m
unfolding c_string
c_string-take zero m behind h lt = absurd (omega arith)
c_string-take (suc n) [] behind h lt = refl
c_string-take (suc n) (c ∷ m) behind h lt =
    ground (arith, c_string-take n m behind h.1 (omega arith))

-- A text that the buffer holds with its NUL.
abbrev pub IsMessage : Text → Type 0
IsMessage m = Without 0 m × (length m < 255) × (is_exit m ≡ false)

c_string-send_request : (m behind : Text) → IsMessage m → c_string (send_request m behind) ≡ m
unfolding send_request
c_string-send_request m behind h = c_string-take 255 m behind h.0 h.1

-- A pass in which the kernel takes a message and has none.
abbrev pub ready : Text → Events
ready behind = record { readable = none; can_write = true; behind = behind }

typed_and_sent :
    (m behind : Text) (c : Client)
    → is_exit m ≡ false
    → c.listening ≡ true
    → c.queue ≡ none
    → run (types m ∷ passes (ready behind) ∷ []) c
      ≡ (record c { queue = none }, sends m behind ∷ [])
unfolding run step input_line pass process_request write_message
typed_and_sent m behind c h on e = rw (on, h, e) refl

posted :
    (fd r : ℤ) (m sent : Text) (s : Server)
    → s.peers fd ≡ some r
    → is_positive r ≡ true
    → s.queue r ≡ none
    → c_string sent ≡ m
    → (process_client fd (bytes sent) s).0.queue r ≡ some m
posted fd r m sent s linked real free e =
    let mail = process_client-mail fd r sent s linked real in mail.2 ∙ rw (free, e) refl

-- A message of at most 254 bytes without NUL, other than "exit", typed at a client that listens and
-- has nothing queued, whose peer at the chat server has nothing queued there: the client sends it; the
-- server, on the 255 bytes that the client hands over, sends that message to the peer and keeps nothing
-- for it; and the peer's program shows exactly the message of the 255 bytes that the server hands over.
-- This holds whatever stands in either sender's memory behind the message, where each 255 bytes arrive
-- in one `recv`.
pub run-flush :
    (fd r : ℤ) (m behind behind' : Text) (from to : Client) (s : Server)
    → IsMessage m
    → from.listening ≡ true
    → from.queue ≡ none
    → s.peers fd ≡ some r
    → is_positive r ≡ true
    → s.queue r ≡ none
    → let posted = (process_client fd (bytes (send_request m behind)) s).0 in
      (run (types m ∷ passes (ready behind) ∷ []) from
        ≡ (record from { queue = none }, sends m behind ∷ []))
      × ((flush r posted).1 ≡ Chat.sends r m ∷ [])
      × ((flush r posted).0.queue r ≡ none)
      × (process_request (some (bytes (send_request m behind'))) false [] to ≡ (to, shows m ∷ []))
unfolding flush process_request write_message
run-flush fd r m behind behind' from to s h on free linked real empty = (
  typed_and_sent m behind from h.2 on free,
  rw (posted fd r m (send_request m behind) s linked real empty (c_string-send_request m behind h))
      refl,
  rw (==ℤ_self r) refl,
  rw (c_string-send_request m behind' h) refl,
)
