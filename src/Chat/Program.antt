-- ===== src/Chat/Program.antt =====
-- chat-server/Server.cpp: the start of `main` and its loop around `select`. What the calls of the start
-- return, and what each `select` finds and leaves in the timeout, in microseconds, are arguments.
use cpp_socket_programming.Chat.{Server, Effect, Events, init, pass}
use cpp_socket_programming.Turns.{How, waits, exits, returns}
use cpp_socket_programming.Prelude.{
  ℕ, zero, suc, ℤ, pos, negsuc, ◌==ℤ◌, Bool, true, false, ◌&&◌, not, List, [], ◌∷◌, ◌++◌, Option,
  none, some, if◌then◌else◌, ltb, map,
}

-- What the calls of the start return.
pub record Start : Type 0 where
  pub socket : Option ℤ
  pub sets_option : Bool
  pub binds : Bool
  pub listens : Bool
  pub reads_flags : Bool
  pub sets_flags : Bool

-- How the start ends; the flag tells whether the listening socket is still open.
pub data Started : Type 0 where
  ends : How → Started
  serves : ℤ → Bool → Started

-- `make_nonblocking`, which closes the socket where a call of `fcntl` fails. `main` does not look at
-- what it returns.
unfoldable pub make_nonblocking : Start → Bool
make_nonblocking a = a.reads_flags && a.sets_flags

unfoldable pub set_up : ℤ → Start → Started
unfolding make_nonblocking
set_up fd a =
    if not a.sets_option
    then ends exits
    else if not a.binds
    then ends returns
    else if not a.listens
    then ends exits
    else serves fd (make_nonblocking a)

unfoldable pub start : ℕ → Start → Started
unfolding set_up
start argc a =
    if ltb argc 2 then ends exits else elim a.socket [ none ↦ ends returns | some fd ↦ set_up fd a ]

-- The clients, `max_file_descriptor` and `tv`.
pub record Loop : Type 0 where
  pub server : Server
  pub max : ℤ
  pub tv : ℕ

abbrev pub at_start : ℤ → Loop
at_start fd = record { server = init; max = fd; tv = 1000000 }

-- What a `select` finds, with the time that it leaves in `tv`.
pub data Found : Type 0 where
  fails : Found
  nothing : ℕ → Found
  ready : Events → ℕ → Found

pub data Call : Type 0 where
  selects : ℤ → ℕ → Call
  does : Effect → Call

-- a > b
abbrev pub over : ℤ → ℤ → Bool
over (pos a) (pos b) = ltb b a
over (pos a) (negsuc b) = true
over (negsuc a) (pos b) = false
over (negsuc a) (negsuc b) = ltb a b

abbrev pub next : ℤ → ℤ
next (pos n) = pos (suc n)
next (negsuc zero) = pos 0
next (negsuc (suc n)) = negsuc n

unfoldable pub grow : List ℤ → ℤ → ℤ
grow [] m = m
grow (x ∷ xs) m = grow xs (if not (x ==ℤ pos 0) && over x m then x else m)

-- The sets are filled for the next `select`.
unfoldable pub fill : Loop → Loop
unfolding grow
fill s = record s { max = grow s.server.slots s.max }

abbrev pub nfds : Loop → ℤ
nfds s = next s.max

unfoldable pub handle : Found → Loop → Loop × List Effect
handle fails s = (s, [])
handle (nothing left) s = (record s { tv = left }, [])
handle (ready ev left) s =
    let (t, effects) = pass ev s.server in (record s { server = t; tv = left }, effects)

unfoldable pub round : Found → Loop → Loop × List Effect
unfolding fill handle
round f s = handle f (fill s)

abbrev pub then_loop : List Call → List Call × How → List Call × How
then_loop before (calls, how) = (before ++ calls, how)

unfoldable pub how : Found → List Call × How → List Call × How
how fails rest = ([], exits)
how (nothing left) rest = rest
how (ready ev left) rest = rest

-- The loop, over what `select` finds in each round.
unfoldable pub loop : List Found → Loop → List Call × How
unfolding fill round how
loop [] s = ([], waits)
loop (f ∷ rounds) s =
    let (t, effects) = round f s in
    let rest = loop rounds t in
    then_loop (selects (nfds (fill s)) s.tv ∷ map does effects) (how f rest)

abbrev pub from : Started → List Found → List Call × How
from (ends end) rounds = ([], end)
from (serves fd still_open) rounds = loop rounds (at_start fd)

unfoldable pub main : ℕ → Start → List Found → List Call × How
unfolding start loop
main argc a rounds = from (start argc a) rounds

-- The states of the loop.
unfoldable pub run : List Found → Loop → Loop
unfolding round
run [] s = s
run (f ∷ rounds) s = run rounds (round f s).0
