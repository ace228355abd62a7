-- ===== src/Passthrough/Open.antt =====
-- What the constructors of the two kinds of socket open and close.
use cpp_socket_programming.Prelude.{
  ℕ, suc, ◌+◌, ◌≡◌, ◌≢◌, Bool, true, false, List, [], ◌∷◌, some, arith, ◌==◌, if◌then◌else◌,
}
use cpp_socket_programming.Passthrough.{
  Call, opens, closes, closes_none, Returned, socket, null, threw, make_nonblocking, bind_server,
  open_server, make_server, make_client,
}

-- How often a descriptor is opened, and closed.
unfoldable pub openings : ℕ → List Call → ℕ
openings fd [] = 0
openings fd (opens x ∷ calls) = let n = openings fd calls in if x == fd then suc n else n
openings fd (closes x ∷ calls) = openings fd calls
openings fd (closes_none ∷ calls) = openings fd calls

unfoldable pub closings : ℕ → List Call → ℕ
closings fd [] = 0
closings fd (opens x ∷ calls) = closings fd calls
closings fd (closes x ∷ calls) = let n = closings fd calls in if x == fd then suc n else n
closings fd (closes_none ∷ calls) = closings fd calls

-- The sockets that the caller has got.
abbrev pub got : Returned → ℕ
got (socket fd) = 1
got null = 0
got threw = 0

-- The socket of a client is closed where the constructor throws, and only there.
make_client-closings :
    (fd : ℕ) (found connected : Bool)
    → let made = make_client (some fd) found connected in
      openings fd made.1 ≡ closings fd made.1 + got made.0
unfolding make_client openings closings
make_client-closings fd false connected = ground arith
make_client-closings fd true false = ground arith
make_client-closings fd true true = ground arith

-- A server's constructor opens two descriptors where both calls of `socket` succeed. The first one
-- is never closed, whatever happens then, and the other one, if `bind` fails, is closed twice though
-- it has been opened once, and a third time if `fcntl` fails too; a constructor of a client, on the
-- same calls, closes what it opened exactly where it throws.
pub make_server-make_client :
    (first second : ℕ) (ok : Bool)
    → first ≢ second
    → let calls : Bool → List Call = λ bound. (make_server (some first) (some second) ok bound).1 in
      ((bound : Bool) → (openings first (calls bound) ≡ 1) × (closings first (calls bound) ≡ 0))
      × (openings second (calls false) ≡ 1)
      × (closings second (calls false) ≡ (if ok then 2 else 3))
      × ((found connected : Bool)
          → let made = make_client (some first) found connected in
            openings first made.1 ≡ closings first made.1 + got made.0)
unfolding make_server open_server bind_server make_nonblocking openings closings
make_server-make_client first second true h = (
  elim [ true ↦ (ground arith, ground arith) | false ↦ (ground arith, ground arith) ],
  ground arith,
  ground arith,
  make_client-closings first,
)
make_server-make_client first second false h = (
  elim [ true ↦ (ground arith, ground arith) | false ↦ (ground arith, ground arith) ],
  ground arith,
  ground arith,
  make_client-closings first,
)
