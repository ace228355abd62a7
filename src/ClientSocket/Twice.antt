-- ===== src/ClientSocket/Twice.antt =====
-- The second of the two closes in the destructors.
use cpp_socket_programming.Prelude.{ℕ, ◌≡◌, sym, subst, ◌∙◌, List, ◌∷◌, Option, some, count}
use cpp_socket_programming.ClientSocket.{State, close, destroy}
use cpp_socket_programming.ClientSocket.Held.{IsHeld, close-count, opened-count}

-- Another thread opens the number between the two closes of a destructor: then its descriptor is
-- closed, and the table is that of before, where it was not open.
pub destroy-closes_other :
    (others : List ℕ) (s : State) (fd : ℕ)
    → IsHeld others s
    → s.descriptor ≡ some fd
    → (count fd (destroy (λ t. fd ∷ t) s).table ≡ 0)
      × ((x : ℕ) → count x (destroy (λ t. fd ∷ t) s).table ≡ count x others)
unfolding destroy
destroy-closes_other others s fd v e =
    let left = close s.descriptor s.table in
    let once = close-count others s.table s.descriptor v.all in
    let twice : (x : ℕ) → count x (close s.descriptor (fd ∷ left)) ≡ count x others = λ x.
      subst (λ (d : Option ℕ). count x (close d (fd ∷ left)) ≡ count x others) (sym e)
        (close-count others (fd ∷ left) (some fd) (λ y. opened-count others left fd y (once y))
          x) in
    (twice fd ∙ v.alone fd e, twice)
