-- ===== src/ClientSocket/Tests.antt =====
-- The theorems about the client socket at a process with three descriptors.
use cpp_socket_programming.Text.{c_string}
use cpp_socket_programming.Prelude.{ℕ, ◌≡◌, refl, ◌⊎◌, [], ◌∷◌, some, arith, count, erase}
use cpp_socket_programming.ClientSocket.{
  returns, throws, undefined, State, is_alpha, construct, run, destroy,
}
use cpp_socket_programming.ClientSocket.Samples.{
  socket, host, good, refused, unknown, socket-IsFresh,
}
use cpp_socket_programming.ClientSocket.Held.{IsHeld, construct-IsHeld}

construct-IsHeld_example :
    let made = construct socket host good (2 ∷ 1 ∷ 0 ∷ []) in
    ((made.0 ≡ throws) × ((x : ℕ) → count x made.1.table ≡ count x (2 ∷ 1 ∷ 0 ∷ [])))
    ⊎ ((s : State) × (made.0 ≡ returns)
        × (run socket host (refused ∷ unknown ∷ good ∷ []) made.1 ≡ some s)
        × IsHeld (2 ∷ 1 ∷ 0 ∷ []) s
        × ((x : ℕ) → count x (destroy (λ t. t) s).table ≡ count x (2 ∷ 1 ∷ 0 ∷ [])))
unfolding c_string is_alpha
construct-IsHeld_example =
    construct-IsHeld socket socket-IsFresh host (2 ∷ 1 ∷ 0 ∷ []) good
      (refused ∷ unknown ∷ good ∷ []) (omega arith) refl (refl, (refl, (refl, tt)))

-- An address without an entry: the null pointer is used.
address_without_entry : (construct socket (49 ∷ 46 ∷ []) unknown []).0 ≡ undefined
unfolding construct c_string is_alpha
address_without_entry = refl

reconnected :
    run socket host
      (refused ∷ unknown ∷ good ∷ [])
      (record { descriptor = some 3; table = 3 ∷ 2 ∷ [] })
    ≡ some (record { descriptor = some 3; table = 3 ∷ 2 ∷ [] })
unfolding run is_alpha erase
reconnected = refl
