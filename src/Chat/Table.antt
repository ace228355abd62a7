-- ===== src/Chat/Table.antt =====
-- The table of clients: which descriptors stand in it after a slot is taken or freed.
use cpp_socket_programming.Prelude.{
  ℕ, zero, suc, ◌+◌, ◌<◌, ◌≡◌, refl, ap, ◌⊎◌, inr, ℤ, ==ℤ_iff, true, List, [], ◌∷◌, some, arith,
  length, set,
}
use cpp_socket_programming.Chat.{free_slot, first_other, is_client}

pub length-set : {A : Type 0} (xs : List A) (i : ℕ) (v : A) → length (set xs i v) ≡ length xs
length-set [] i v = refl
length-set (x ∷ xs) zero v = refl
length-set (x ∷ xs) (suc i) v = ap suc (length-set xs i v)

pub length-free_slot : (fd : ℤ) (xs : List ℤ) → length (free_slot fd xs) ≡ length xs
unfolding free_slot
length-free_slot fd [] = refl
length-free_slot fd (x ∷ xs) = ground (arith, length-free_slot fd xs)

pub is_client-free_slot :
    (a fd : ℤ) (xs : List ℤ) → is_client a (free_slot fd xs) ≡ true → is_client a xs ≡ true
unfolding is_client free_slot
is_client-free_slot a fd [] h = h
is_client-free_slot a fd (x ∷ xs) h = ground (arith, is_client-free_slot a fd xs)

pub is_client-set :
    (a fd : ℤ) (i : ℕ) (xs : List ℤ)
    → is_client a (set xs i fd) ≡ true
    → (a ≡ fd) ⊎ (is_client a xs ≡ true)
unfolding is_client
is_client-set a fd i [] h = inr h
is_client-set a fd zero (x ∷ xs) h = ground (arith, ==ℤ_iff fd a)
is_client-set a fd (suc i) (x ∷ xs) h = ground (arith, is_client-set a fd i xs)

first_other-past :
    (skip i : ℕ) (q : ℤ) (xs : List ℤ)
    → skip < i
    → first_other skip i xs ≡ some q
    → is_client q xs ≡ true
unfolding first_other is_client
first_other-past skip i q [] lt h = cc
first_other-past skip i q (x ∷ xs) lt h =
    ground (arith, ==ℤ_iff x q, first_other-past skip (suc i) q xs)

-- The peer that is found for a new client is one of the others.
pub first_other-is_client :
    (skip i k : ℕ) (fd q : ℤ) (xs : List ℤ)
    → i + k ≡ skip
    → first_other skip i (set xs k fd) ≡ some q
    → is_client q xs ≡ true
unfolding first_other is_client
first_other-is_client skip i k fd q [] e h = cc
first_other-is_client skip i zero fd q (x ∷ xs) e h =
    ground (arith, first_other-past skip (suc i) q xs)
first_other-is_client skip i (suc k) fd q (x ∷ xs) e h =
    ground (arith, ==ℤ_iff x q, first_other-is_client skip (suc i) k fd q xs)
