-- ===== src/Logger/Network.antt =====
-- util/TcpClient.h under content-writer/NetworkContentWriter.h: the constructor and
-- `sendTcpMessage`; the destructor is never called. The table gives the peer at the other end of each open descriptor, and other threads
-- open and close descriptors of their own between the messages. What `send` returns is an argument.
use cpp_socket_programming.Text.{Text}
use cpp_socket_programming.ClientSocket.{
  How, returns, throws, undefined, Answers, Entry, host_entry, null_entry, threw, connect_to,
  resolve,
}
use cpp_socket_programming.Prelude.{
  ℕ, ◌≡◌, ◌≢◌, refl, ap, ◌∙◌, sym, Bool, true, List, [], ◌∷◌, ◌++◌, append-nil, append_assoc,
  Option, none, some, ◌==◌, ==_self, arith, if◌then◌else◌, take,
}

-- 0 is the peer of `_clientSocket`; the peers of other threads are other numbers.
pub record State : Type 0 where
  pub client_socket : ℕ
  pub table : ℕ → Option ℕ
  pub wire : List (ℕ × Text)  -- what has been sent, with the peer that gets it

abbrev pub put : ℕ → Option ℕ → (ℕ → Option ℕ) → ℕ → Option ℕ
put fd v table x = if x == fd then v else table x

-- The constructor, where `socket` gives the number.
abbrev pub connected : ℕ → State → How → How × State
connected fd s returns = (returns, record s { client_socket = fd; table = put fd (some 0) s.table })
connected fd s throws = (throws, record s { client_socket = fd; table = put fd none s.table })
connected fd s undefined =
    (undefined, record s { client_socket = fd; table = put fd (some 0) s.table })

abbrev pub construct_with : Option ℕ → Bool → State → Entry → How × State
construct_with socket connects s threw = (throws, s)
construct_with none connects s host_entry = (throws, s)
construct_with none connects s null_entry = (throws, s)
construct_with (some fd) connects s host_entry = connected fd s (connect_to host_entry connects)
construct_with (some fd) connects s null_entry = connected fd s (connect_to null_entry connects)

unfoldable pub construct : Option ℕ → Text → Answers → State → How × State
unfolding resolve
construct socket host a s = construct_with socket a.connects s (resolve host a.found)

-- -1, or the number of bytes.
pub data Sent : Type 0 where
  failed : Sent
  bytes : ℕ → Sent

abbrev pub close : State → State
close s = record s { table = put s.client_socket none s.table }

-- To a number that is not open, `send` gives -1.
abbrev pub send_to : Option ℕ → Text → Sent → State → State
send_to none content answer s = close s
send_to (some peer) content failed s = close s
send_to (some peer) content (bytes n) s = record s {
  wire = s.wire ++ ((peer, take n content) ∷ []);
}

-- `sendTcpMessage`, which always returns true.
unfoldable pub send_tcp_message : Text → Sent → State → Bool × State
send_tcp_message content answer s = (true, send_to (s.table s.client_socket) content answer s)

pub data Event : Type 0 where
  sends : Text → Sent → Event
  opens : ℕ → ℕ → Event  -- a descriptor with its peer
  closes : ℕ → Event

unfoldable pub step : Event → State → State
unfolding send_tcp_message
step (sends content answer) s = (send_tcp_message content answer s).1
step (opens fd peer) s = record s { table = put fd (some peer) s.table }
step (closes fd) s = record s { table = put fd none s.table }

unfoldable pub run : List Event → State → State
unfolding step
run [] s = s
run (e ∷ events) s = run events (step e s)

-- The other threads leave the number alone.
abbrev pub IsApart : ℕ → List Event → Type 0
IsApart fd [] = Unit
IsApart fd (sends content answer ∷ events) = IsApart fd events
IsApart fd (opens other peer ∷ events) = (fd ≢ other) × IsApart fd events
IsApart fd (closes other ∷ events) = (fd ≢ other) × IsApart fd events

-- The messages up to the first that fails, as far as `send` took them.
abbrev pub until_failed : List Event → List (ℕ × Text)
until_failed [] = []
until_failed (sends content failed ∷ events) = []
until_failed (sends content (bytes n) ∷ events) = (0, take n content) ∷ until_failed events
until_failed (opens other peer ∷ events) = until_failed events
until_failed (closes other ∷ events) = until_failed events

put_other :
    (fd other : ℕ) (v : Option ℕ) (table : ℕ → Option ℕ)
    → fd ≢ other
    → put other v table fd ≡ table fd
put_other fd other v table h = ground (arith, h)

put_self : (fd : ℕ) (v : Option ℕ) (table : ℕ → Option ℕ) → put fd v table fd ≡ v
put_self fd v table = ground arith

run-closed :
    (events : List Event) (s : State)
    → IsApart s.client_socket events
    → s.table s.client_socket ≡ none
    → (run events s).wire ≡ s.wire
unfolding run step send_tcp_message
run-closed [] s apart shut = refl
run-closed (sends content answer ∷ events) s apart shut =
    ap (λ t. (run events t).wire) (ap (λ (p : Option ℕ). send_to p content answer s) shut)
    ∙ (run-closed events (close s) apart (put_self s.client_socket none s.table))
run-closed (opens other peer ∷ events) s apart shut =
    run-closed events (step (opens other peer) s) apart.1
      (put_other s.client_socket other (some peer) s.table apart.0 ∙ shut)
run-closed (closes other ∷ events) s apart shut =
    run-closed events (step (closes other) s) apart.1
      (put_other s.client_socket other none s.table apart.0 ∙ shut)

-- From a client that is connected, where the other threads open and close other descriptors only:
-- whatever the logger hands over and whatever `send` answers, what has been sent is what was sent before,
-- and then the messages in their order, each as far as `send` took it and to the log host, up to the
-- first that fails and none behind it.
pub run-wire :
    (events : List Event) (s : State)
    → IsApart s.client_socket events
    → s.table s.client_socket ≡ some 0
    → (run events s).wire ≡ s.wire ++ until_failed events
unfolding run step send_tcp_message
run-wire [] s apart live = sym (append-nil s.wire)
run-wire (sends content failed ∷ events) s apart live =
    ap (λ t. (run events t).wire) (ap (λ (p : Option ℕ). send_to p content failed s) live)
    ∙ (run-closed events (close s) apart (put_self s.client_socket none s.table)
        ∙ sym (append-nil s.wire))
run-wire (sends content (bytes n) ∷ events) s apart live =
    let sent = (0, take n content) ∷ [] in
    ap (λ t. (run events t).wire) (ap (λ (p : Option ℕ). send_to p content (bytes n) s) live)
    ∙ (run-wire events (record s { wire = s.wire ++ sent }) apart live
        ∙ append_assoc s.wire sent (until_failed events))
run-wire (opens other peer ∷ events) s apart live =
    run-wire events (step (opens other peer) s) apart.1
      (put_other s.client_socket other (some peer) s.table apart.0 ∙ live)
run-wire (closes other ∷ events) s apart live =
    run-wire events (step (closes other) s) apart.1
      (put_other s.client_socket other none s.table apart.0 ∙ live)

-- After a message that fails, another thread gets the number for a peer of its own: the next message
-- goes to that peer.
pub run-reused :
    (peer n : ℕ) (m next : Text) (s : State)
    → s.table s.client_socket ≡ some 0
    → let events = sends m failed ∷ opens s.client_socket peer ∷ sends next (bytes n) ∷ [] in
      (run events s).wire ≡ s.wire ++ ((peer, take n next) ∷ [])
unfolding run step send_tcp_message
run-reused peer n m next s live = rw (live, ==_self s.client_socket) refl
