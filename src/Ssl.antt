-- ===== src/Ssl.antt =====
-- ssl-proxy/Proxy.cpp: the two loops that carry data between a client and a target. What the calls of
-- OpenSSL answer is an argument; a loop that has used up its answers is still waiting, which is `none`.
pub mod Heads
use cpp_socket_programming.Prelude.{
  ℕ, zero, suc, Bool, true, false, List, [], ◌∷◌, ◌++◌, Option, none, some, if◌then◌else◌, take,
}

abbrev pub Bytes : Type 0
Bytes = List ℕ

-- The answer of `SSL_read`: bytes, or 0 or less.
pub data Read : Type 0 where
  chunk : Bytes → Read
  ended : Read

pub data Side : Type 0 where
  client target : Side

pub data Effect : Type 0 where
  writes : Side → Bytes → Effect
  shuts closes : Side → Effect

-- `bytes = SSL_read(...) > 0`: the comparison comes first, so that this is 1 or 0.
unfoldable pub bytes : Read → ℕ
bytes (chunk []) = 0
bytes (chunk (b ∷ rest)) = 1
bytes ended = 0

abbrev pub buffer : Read → Bytes
buffer (chunk b) = b
buffer ended = []

-- How a loop ends: `exit` in `handle_error`, or with the answers that it has not used.
pub data Ended : Type 0 where
  exits : List Effect → Ended
  ends : List Effect → List Read → Ended

abbrev pub behind : Effect → Option Ended → Option Ended
behind e none = none
behind e (some (exits after)) = some (exits (e ∷ after))
behind e (some (ends after rest)) = some (ends (e ∷ after) rest)

-- One of the two loops: it writes to a side what it reads; the flag tells whether `SSL_write` works.
unfoldable pub copy : Side → (Bytes → Bool) → List Read → Option Ended
unfolding bytes
copy to can_write [] = none
copy to can_write (r ∷ rest) =
    let more = copy to can_write rest in
    let sent = take (bytes r) (buffer r) in
    elim (bytes r) [
      | zero ↦ some (ends [] rest)
      | suc n ↦ if can_write sent then behind (writes to sent) more else some (exits [])
    ]

abbrev pub cleanup : List Effect
cleanup = shuts client ∷ shuts target ∷ closes target ∷ closes client ∷ []

abbrev pub then_clean : Option Ended → Option (List Effect)
then_clean none = none
then_clean (some (exits after)) = some after
then_clean (some (ends after rest)) = some (after ++ cleanup)

abbrev pub then_back : Option Ended → Option Ended → Option (List Effect)
then_back none back = none
then_back (some (exits before)) back = some before
then_back (some (ends before rest)) back = elim (then_clean back) [
  | none ↦ none
  | some after ↦ some (before ++ after)
]

-- What `main` does with a client, behind the handshakes.
unfoldable pub serve : (Side → Bytes → Bool) → List Read → List Read → Option (List Effect)
unfolding copy
serve can_write from_client from_target =
    then_back (copy target (can_write target) from_client)
      (copy client (can_write client) from_target)
