-- ===== src/Clients.antt =====
-- multiple-client-single-thread/Server_select.cpp and Server_poll.cpp: two servers that accept five
-- clients and print what they send, one with `select` and one with `poll`. What the kernel answers in
-- a pass of the loop is an argument; `none` is the call of `exit` in `error`, so that the lines behind
-- that call are never reached. On `accept`, a free place is 0 in the one and -1 in the other.
pub mod Ready
pub mod Same
pub mod Full
pub mod Program
mod Tests
use cpp_socket_programming.Prelude.{
  ℕ, zero, suc, ◌+◌, ltb, ◌≡◌, ℤ, pos, negsuc, ◌==ℤ◌, is_positive, Bool, true, false, ◌&&◌, ◌||◌,
  not, List, [], ◌∷◌, ◌++◌, Option, none, some, if◌then◌else◌, map,
}
use cpp_socket_programming.Chat.{Message, c_string, is_client}

-- What `recv` returned: 0, less than 0, or bytes: then the argument is the memory from the start of
-- the buffer on, behind its end too where its 255 bytes are full.
pub data Received : Type 0 where
  end_of_stream failed : Received
  bytes : Message → Received

-- The greeting, and the text that is printed for a client.
pub data Effect : Type 0 where
  greets : ℤ → Effect
  prints : ℤ → Message → Effect

-- The answers of the kernel in one pass.
pub record Events : Type 0 where
  pub accepted : Option ℤ  -- the listening socket is readable, and `accept` returns this
  pub can_read : ℤ → Bool
  pub received : ℤ → Received

abbrev pub then_do : Option (List Effect) → Option (List Effect) → Option (List Effect)
then_do none later = none
then_do (some before) none = none
then_do (some before) (some after) = some (before ++ after)

-- `processRequest(int)`: the buffer is clear where nothing came.
unfoldable pub process_request : ℤ → Received → Option (List Effect)
unfolding c_string
process_request fd end_of_stream = some (prints fd [] ∷ [])
process_request fd failed = none
process_request fd (bytes m) = some (prints fd (c_string m) ∷ [])

abbrev pub keep_slot : ℤ → List ℤ × List Effect → List ℤ × List Effect
keep_slot x (slots, effects) = (x ∷ slots, effects)

-- The first half of `processRequest()` of the server with `select`.
unfoldable pub accept_select : Option ℤ → List ℤ → List ℤ × List Effect
accept_select none slots = (slots, [])
accept_select (some fd) [] = ([], [])
accept_select (some fd) (x ∷ slots) =
    if x ==ℤ pos 0
    then (fd ∷ slots, greets fd ∷ [])
    else keep_slot x (accept_select (some fd) slots)

-- Its second half, with the set that `select` left.
unfoldable pub serve_select : (ℤ → Bool) → (ℤ → Received) → List ℤ → Option (List Effect)
unfolding process_request
serve_select readfds received [] = some []
serve_select readfds received (x ∷ slots) =
    then_do (if not (x ==ℤ pos 0) && readfds x then process_request x (received x) else some [])
      (serve_select readfds received slots)

abbrev pub with_slots : List ℤ × List Effect → Option (List Effect) → Option (List ℤ × List Effect)
with_slots (slots, before) none = none
with_slots (slots, before) (some after) = some (slots, before ++ after)

-- The first argument of `select` is the listening socket plus `num_of_clients` plus 1, and only smaller
-- descriptors are looked at.
abbrev pub num_of_clients : ℕ
num_of_clients = 5

abbrev pub within : ℕ → ℤ → Bool
within sock (pos fd) = ltb fd (sock + num_of_clients + 1)
within sock (negsuc fd) = true

-- `FD_ISSET` behind `select`: a client of before the pass that `select` looks at and that is ready.
unfoldable pub read_set : ℕ → Events → List ℤ → ℤ → Bool
unfolding is_client
read_set sock ev slots fd = (is_client fd slots && within sock fd) && ev.can_read fd

-- One pass of the loop in `main`, with the listening socket.
unfoldable pub pass_select : ℕ → Events → List ℤ → Option (List ℤ × List Effect)
unfolding accept_select serve_select read_set
pass_select sock ev slots =
    let seated = accept_select ev.accepted slots in
    with_slots seated (serve_select (read_set sock ev slots) ev.received seated.0)

-- The same for `poll`: `revents` of a place as the call of `poll` left it.
unfoldable pub revents : Events → List ℤ → List Bool
revents ev [] = []
revents ev (x ∷ fds) = (not (x ==ℤ negsuc 0) && ev.can_read x) ∷ revents ev fds

unfoldable pub accept_poll : Option ℤ → List ℤ → List ℤ × List Effect
accept_poll none fds = (fds, [])
accept_poll (some fd) [] = ([], [])
accept_poll (some fd) (x ∷ fds) =
    if x ==ℤ negsuc 0 then (fd ∷ fds, greets fd ∷ []) else keep_slot x (accept_poll (some fd) fds)

-- The test of the loop over the places. `processRequest()` of that file is never called.
unfoldable pub serve_poll : List Bool → (ℤ → Received) → List ℤ → Option (List Effect)
unfolding process_request
serve_poll ready received [] = some []
serve_poll [] received (x ∷ fds) = some []
serve_poll (r ∷ ready) received (x ∷ fds) =
    then_do (if not (x ==ℤ negsuc 0) && r then process_request x (received x) else some [])
      (serve_poll ready received fds)

unfoldable pub pass_poll : Events → List ℤ → Option (List ℤ × List Effect)
unfolding accept_poll serve_poll revents
pass_poll ev fds =
    let seated = accept_poll ev.accepted fds in
    with_slots seated (serve_poll (revents ev fds) ev.received seated.0)

abbrev pub init_select : List ℤ
init_select = pos 0 ∷ pos 0 ∷ pos 0 ∷ pos 0 ∷ pos 0 ∷ []

abbrev pub init_poll : List ℤ
init_poll = negsuc 0 ∷ negsuc 0 ∷ negsuc 0 ∷ negsuc 0 ∷ negsuc 0 ∷ []

abbrev pub and_then :
    Option (List ℤ × List Effect)
    → (List ℤ → Option (List ℤ × List Effect))
    → Option (List ℤ × List Effect)
and_then none f = none
and_then (some (slots, before)) f = elim (f slots) [
  | none ↦ none
  | some (slots', after) ↦ some (slots', before ++ after)
]

-- Passes in a row.
unfoldable pub run_select : ℕ → List Events → List ℤ → Option (List ℤ × List Effect)
unfolding pass_select
run_select sock [] slots = some (slots, [])
run_select sock (ev ∷ evs) slots = and_then (pass_select sock ev slots) (run_select sock evs)

unfoldable pub run_poll : List Events → List ℤ → Option (List ℤ × List Effect)
unfolding pass_poll
run_poll [] fds = some (fds, [])
run_poll (ev ∷ evs) fds = and_then (pass_poll ev fds) (run_poll evs)
