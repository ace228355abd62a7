-- ===== src/ProtocolServer.antt =====
-- The start of the protocol server, protocol-server/src/main.cpp, with CProtocolSocket.h and .cpp of
-- engine/interface, the constructor, `Open` and `StartListeningThread` of engine/socket/CServerSocket,
-- and the handlers of handler/; and what the routine of a server then does with a client. What the
-- calls of the operating system answer is an argument.
pub mod Start
pub mod Routines
mod Tests
use cpp_socket_programming.Text.{Text, c_string}
use cpp_socket_programming.SyncApi
use cpp_socket_programming.SyncApi.{Reply, default_response, handle_data}
use cpp_socket_programming.Pipeline
use cpp_socket_programming.Pipeline.{Poll, pipeline}
use cpp_socket_programming.Prelude.{
  ℕ, suc, ℤ, pos, negsuc, Bool, true, false, List, [], ◌∷◌, ◌++◌, Option, none, some, ltb,
  if◌then◌else◌, length, map, take,
}

-- What happens to descriptors; `closes_none` is a call of `close` on INVALID_SOCKET.
pub data Call : Type 0 where
  opens closes : ℕ → Call
  closes_none : Call

-- The answers for one server: of `socket` in `Socket()` and in CServerSocket, of `setsockopt`, `bind`
-- and `listen`.
pub record Answers : Type 0 where
  pub first : Option ℕ
  pub second : Option ℕ
  pub reuses : Bool
  pub binds : Bool
  pub listens : Bool

pub data HandlerKind : Type 0 where
  sync_api scheduler plain : HandlerKind

-- `thread_routine_override`.
pub data Routine : Type 0 where
  thread_handler protocol_pipeline : Routine

-- CProtocolSocket.
pub record ProtocolSocket : Type 0 where
  pub port : ℕ
  pub descriptor : ℕ
  pub handler : Option HandlerKind
  pub routine : Routine

-- A step of the start: what it returns, or an exception, with the calls before.
pub data Outcome (A : Type 0) : Type 0 where
  returns : A → List Call → Outcome A
  throws : List Call → Outcome A

abbrev pub after : {A : Type 0} → List Call → Outcome A → Outcome A
after before (returns a calls) = returns a (before ++ calls)
after before (throws calls) = throws (before ++ calls)

-- The constructor behind `Socket()`: where it throws, the destructor of the base closes what `s_` is.
unfoldable pub open_socket : ℕ → Option ℕ → Bool → Outcome ProtocolSocket
open_socket port none reuses = throws (closes_none ∷ [])
open_socket port (some fd) false = throws (opens fd ∷ closes fd ∷ [])
open_socket port (some fd) true =
    returns (record { port = port; descriptor = fd; handler = none; routine = thread_handler })
      (opens fd ∷ [])

-- `CProtocolSocket::CProtocolSocket`.
unfoldable pub construct : ℕ → Option ℕ → Option ℕ → Bool → Outcome ProtocolSocket
unfolding open_socket
construct port none second reuses = throws []
construct port (some fd) second reuses = after (opens fd ∷ []) (open_socket port second reuses)

unfoldable pub set_handler : Option HandlerKind → ProtocolSocket → ProtocolSocket
set_handler ph s = record s { handler = ph }

unfoldable pub set_pipeline : ProtocolSocket → ProtocolSocket
set_pipeline s = record s { routine = protocol_pipeline }

-- `Start`, which is `Open` and `StartListeningThread`: the server that listens.
unfoldable pub start : Bool → Bool → ProtocolSocket → Outcome ProtocolSocket
start false listens s = throws (closes s.descriptor ∷ [])
start true false s = throws []
start true true s = returns s []

abbrev pub and_then : {A B : Type 0} → Outcome A → (A → Outcome B) → Outcome B
and_then (throws calls) f = throws calls
and_then (returns a calls) f = after calls (f a)

-- `setupDefaultPipeline` and `setupSchedulerPipeline`.
unfoldable pub setup : ℕ → HandlerKind → Answers → Outcome ProtocolSocket
unfolding construct set_handler set_pipeline start
setup port kind a =
    and_then (construct port a.first a.second a.reuses)
      (λ s. start a.binds a.listens (set_handler (some kind) (set_pipeline s)))

abbrev pub both : ProtocolSocket → Outcome ProtocolSocket → Outcome (List ProtocolSocket)
both s (throws calls) = throws calls
both s (returns t calls) = returns (s ∷ t ∷ []) calls

-- `main` up to `pause`: the servers that run, or the exception that ends the program.
unfoldable pub main : Answers → Answers → Outcome (List ProtocolSocket)
unfolding setup
main a b = and_then (setup 8080 sync_api a) (λ s. both s (setup 8081 scheduler b))

-- What the handlers share: the map of SyncApi, and what is pushed to the thread pool, where a task
-- without an id is the one of the scheduler. `none` is undefined behaviour.
pub record World : Type 0 where
  pub tasks_of : SyncApi.Handler
  pub pushed : List (Option Text)

abbrev pub some_of : List Text → List (Option Text)
some_of [] = []
some_of (id ∷ ids) = some id ∷ some_of ids

abbrev pub settle : World → Option Reply → Text × Option World
settle w none = ([], none)
settle w (some r) =
    (r.response, some (record { tasks_of = r.after; pushed = w.pushed ++ some_of r.pushed }))

-- A client as the rounds of the pipeline find it, and as the reads of `ThreadHandler` do.
pub record Client : Type 0 where
  pub polls : List Poll
  pub reads : List Text

module _ (draw : ℕ → ℕ) (raw : Text) where
  -- `HandleData` of the three handlers, with a buffer and its length.
  unfoldable pub handle_in : HandlerKind → Text → ℕ → World → Text × Option World
  handle_in sync_api buffer n w = settle w (handle_data draw raw buffer n w.tasks_of)
  handle_in scheduler buffer n w =
      (default_response, some (record w { pushed = w.pushed ++ none ∷ [] }))
  handle_in plain buffer n w = (default_response, some w)

  unfoldable pub handle : HandlerKind → Text → ℕ → Option World → Text × Option World
  unfolding handle_in
  handle kind buffer n none = ([], none)
  handle kind buffer n (some w) = handle_in kind buffer n w

  -- The loop of `CProtocolSocket::ThreadHandler` over what `ReadSocketBuffer` reads, up to 32000 bytes
  -- each, where no bytes stand for the end of the client and for an error: the socket stays open. The
  -- handler gets the C string in the buffer; a full buffer has no NUL of its own.
  unfoldable pub handler_loop :
      HandlerKind → List Text → Option World → Option (List Text × Option World)
  unfolding handle c_string
  handler_loop kind [] w = none
  handler_loop kind ([] ∷ reads) w = some ([], w)
  handler_loop kind ((b ∷ bytes) ∷ reads) w =
      let r = handle kind (c_string (b ∷ bytes)) (length (b ∷ bytes)) w in
      let more = handler_loop kind reads r.1 in
      let full = some ([], none) in
      if ltb (length (b ∷ bytes)) 32000
      then elim more [ none ↦ none | some (sent, w') ↦ some (r.0 ∷ sent, w') ]
      else full

  -- `ThreadHandler`, which returns at once without a handler.
  unfoldable pub thread_handle :
      Option HandlerKind → List Text → Option World → Option (List Text × Option World)
  unfolding handler_loop
  thread_handle none reads w = some ([], w)
  thread_handle (some kind) reads w = handler_loop kind reads w

  -- The handler as the pipeline calls it.
  abbrev pub whole : HandlerKind → Text → Option World → Text × Option World
  whole kind request w = handle kind request (length request) w

  unfoldable pub handler_of :
      Option HandlerKind → Option (Text → Option World → Text × Option World)
  unfolding handle
  handler_of none = none
  handler_of (some kind) = some (whole kind)

  -- A routine that waits is `none`.
  abbrev pub sends_all :
      Option (List Text × Option World) → Option (List Pipeline.Effect × Option World)
  sends_all none = none
  sends_all (some (sent, w)) = some (map Pipeline.sends sent, w)

  abbrev pub without_rest :
      Option ((List Pipeline.Effect × Option World) × List Poll)
      → Option (List Pipeline.Effect × Option World)
  without_rest none = none
  without_rest (some (r, rest)) = some r

  abbrev pub run_routine :
      Routine
      → Option HandlerKind
      → Client
      → Option World
      → Option (List Pipeline.Effect × Option World)
  run_routine thread_handler handler c w = sends_all (thread_handle handler c.reads w)
  run_routine protocol_pipeline handler c w = without_rest (pipeline (handler_of handler) c.polls w)

  -- What the routine of a server does with a client.
  unfoldable pub serve :
      ProtocolSocket → Client → Option World → Option (List Pipeline.Effect × Option World)
  unfolding handler_of pipeline thread_handle
  serve s c w = run_routine s.routine s.handler c w
