-- ===== src/ClientSocket/Samples.antt =====
-- A process whose sockets get the number above all that are open, with a host and some answers.
use cpp_socket_programming.Text.{Text}
use cpp_socket_programming.Prelude.{
  ℕ, suc, ◌≤◌, ◌≡◌, refl, true, false, List, [], ◌∷◌, Option, some, arith, if◌then◌else◌, ltb,
  contains,
}
use cpp_socket_programming.ClientSocket.{Answers}
use cpp_socket_programming.ClientSocket.Held.{IsFresh}

-- The number above all that are open.
abbrev pub above : List ℕ → ℕ
above [] = 0
above (x ∷ table) = let n = above table in if ltb x n then n else suc x

abbrev pub socket : List ℕ → Option ℕ
socket table = some (above table)

-- "host"
abbrev pub host : Text
host = 104 ∷ 111 ∷ 115 ∷ 116 ∷ []

abbrev pub good : Answers
good = record { found = true; connects = true }

abbrev pub refused : Answers
refused = record { found = true; connects = false }

abbrev pub unknown : Answers
unknown = record { found = false; connects = false }

contains-above : (table : List ℕ) (fd : ℕ) → above table ≤ fd → contains fd table ≡ false
unfolding contains
contains-above [] fd h = refl
contains-above (x ∷ table) fd h = ground (arith, contains-above table fd)

pub socket-IsFresh : IsFresh socket
socket-IsFresh = record { fresh = λ table fd e. contains-above table fd (ground (arith, e)) }
