-- ===== src/Libuv.antt =====
-- libuv-based/Server.cpp: a proxy as callbacks of libuv. A handle is a number: the pair that is
-- allocated as the n-th has the client 2 * n and the target 2 * n + 1. What libuv and the operating
-- system answer is an argument; `none` is a program that ends by an exception or a null pointer.
pub mod Paired
pub mod Life
pub mod Moves
pub mod Forward
mod Tests
use cpp_socket_programming.Prelude.{
  ℕ, zero, suc, ◌+◌, ◌-◌, ◌*◌, Bool, true, false, List, [], ◌∷◌, ◌++◌, Option, none, some, ◌==◌,
  if◌then◌else◌,
}

abbrev pub Bytes : Type 0
Bytes = List ℕ

-- The handles: `data`, whether they are read, the calls of `uv_close` on them, and the bytes handed to
-- `uv_write`; then the buffers that are not freed.
pub record State : Type 0 where
  pub pairs : ℕ
  pub peer : ℕ → Option ℕ
  pub reading : ℕ → Bool
  pub closings : ℕ → ℕ
  pub written : ℕ → Bytes
  pub unfreed : ℕ

abbrev pub init : State
init = record {
  pairs = 0;
  peer = λ h. none;
  reading = λ h. false;
  closings = λ h. 0;
  written = λ h. [];
  unfreed = 0;
}

abbrev pub put {ℓ} : {V : Type ℓ} → ℕ → V → (ℕ → V) → ℕ → V
put k v m i = if i == k then v else m i

-- `uv_close`.
abbrev pub close_handle : ℕ → State → State
close_handle h s = record s {
  reading = put h false s.reading;
  closings = put h (suc (s.closings h)) s.closings;
}

-- `on_alloc`, and `free` of its buffer.
abbrev pub on_alloc : State → State
on_alloc s = record s { unfreed = suc s.unfreed }

abbrev pub free_buffer : State → State
free_buffer s = record s { unfreed = s.unfreed - 1 }

-- `nread` is below 0, or it is the number of these bytes.
pub data Read : Type 0 where
  failed : Read
  bytes : Bytes → Read

abbrev pub close_pair : ℕ → Option ℕ → State → Option State
close_pair h none s = none
close_pair h (some p) s = some (free_buffer (close_handle p (close_handle h s)))

abbrev pub write_to : Option ℕ → Bytes → State → Option State
write_to none b s = none
write_to (some p) b s =
    some (free_buffer (record s { written = put p (s.written p ++ b) s.written }))

-- `on_read`.
unfoldable pub on_read : ℕ → Read → State → Option State
on_read h failed s = close_pair h (s.peer h) s
on_read h (bytes []) s = some s
on_read h (bytes (b ∷ rest)) s = write_to (s.peer h) (b ∷ rest) s

-- What is answered to `on_new_connection`: the status, and whether the host is found, the client is
-- accepted, and each of the two handles starts to be read.
pub record Answers : Type 0 where
  pub connected : Bool
  pub resolved : Bool
  pub accepted : Bool
  pub client_starts : Bool
  pub target_starts : Bool

abbrev pub link : ℕ → ℕ → Answers → State → State
link c t a s = record s {
  peer = put t (some c) (put c (some t) s.peer);
  reading = put t a.target_starts (put c a.client_starts s.reading);
}

-- Behind the resolution of the host, where `s` has the pair.
abbrev pub accept_pair : ℕ → ℕ → Answers → State → State
accept_pair c t a s = if a.accepted then link c t a s else close_handle t (close_handle c s)

-- `on_new_connection`: the exception that is thrown for an unknown host is a string, which the
-- handler of std::exception does not catch.
unfoldable pub on_new_connection : Answers → State → Option State
on_new_connection a s =
    let n = s.pairs in
    if a.connected
    then if a.resolved
      then some (accept_pair (2 * n) (2 * n + 1) a (record s { pairs = suc n }))
      else none
    else some s

-- The callbacks, in the order in which libuv makes them. It makes none for a handle that is not read
-- or has been closed, which is what `reading` says, so such an event does nothing.
pub data Event : Type 0 where
  connection : Answers → Event
  read : ℕ → Read → Event

unfoldable pub step : Event → State → Option State
unfolding on_new_connection on_read
step (connection a) s = on_new_connection a s
step (read h r) s = if s.reading h then on_read h r (on_alloc s) else some s

abbrev pub and_then : Option State → (State → Option State) → Option State
and_then none f = none
and_then (some s) f = f s

unfoldable pub run : List Event → State → Option State
unfolding step
run [] s = some s
run (e ∷ events) s = and_then (step e s) (run events)
