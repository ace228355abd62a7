-- ===== src/Ssl/Heads.antt =====
-- What arrives through the proxy.
use cpp_socket_programming.Prelude.{
  ℕ, ◌≡◌, refl, ap, Bool, true, List, [], ◌∷◌, ◌++◌, none, some, map,
}
use cpp_socket_programming.Ssl.{
  Bytes, Read, chunk, ended, Side, client, target, Effect, writes, bytes, ends, behind, copy,
  cleanup, serve,
}

-- Chunks as `SSL_read` gives them: the first byte, and the others.
abbrev pub filled : ℕ × Bytes → Read
filled (b, rest) = chunk (b ∷ rest)

abbrev pub head_to : Side → ℕ × Bytes → Effect
head_to to (b, rest) = writes to (b ∷ [])

copy-filled :
    (to : Side) (chunks : List (ℕ × Bytes)) (rest : List Read)
    → copy to (λ sent. true) (map filled chunks ++ (ended ∷ rest))
      ≡ some (ends (map (head_to to) chunks) rest)
unfolding copy bytes
copy-filled to [] rest = refl
copy-filled to ((b, more) ∷ chunks) rest =
    ap (behind (writes to (b ∷ []))) (copy-filled to chunks rest)

copy-waits :
    (to : Side) (chunks : List (ℕ × Bytes)) → copy to (λ sent. true) (map filled chunks) ≡ none
unfolding copy bytes
copy-waits to [] = refl
copy-waits to ((b, more) ∷ chunks) = ap (behind (writes to (b ∷ []))) (copy-waits to chunks)

-- Where each write succeeds: of each chunk that the proxy reads, up to the end of a side, the other
-- side gets the first byte only; all that the client gets comes behind all that the target gets, and
-- then both sides are shut and closed; as long as the client has not ended, nothing comes back,
-- whatever the target sends.
serve_lem :
    (up down : List (ℕ × Bytes)) (rest from_target : List Read)
    → let works : Side → Bytes → Bool = λ to sent. true in
      (serve works (map filled up ++ (ended ∷ [])) (map filled down ++ (ended ∷ rest))
        ≡ some (map (head_to target) up ++ (map (head_to client) down ++ cleanup)))
      × (serve works (map filled up) from_target ≡ none)
unfolding serve
serve_lem up down rest from_target =
    (rw (copy-filled target up [], copy-filled client down rest), rw (copy-waits target up))
