-- ===== src/Prelude/Counts.antt =====
-- How often a number stands in a list: the view of a set of handles that forgets its order.
use Prim.Native.Nat.{ℕ, ◌+◌, ◌<◌}
use mathlib.Core.Path.{◌≡◌, refl}
use mathlib.Core.Bool.{Bool, true, false}
use mathlib.Core.List.{List, [], ◌∷◌, ◌++◌}
use native.Mathlib.Omega.{arith}
use cpp_socket_programming.Prelude.Tests.{◌==◌, if◌then◌else◌}
use cpp_socket_programming.Prelude.Lists.{length}

unfoldable pub count : ℕ → List ℕ → ℕ
count a [] = 0
count a (x ∷ xs) = (if x == a then 1 else 0) + count a xs

unfoldable pub contains : ℕ → List ℕ → Bool
contains a [] = false
contains a (x ∷ xs) = if x == a then true else contains a xs

-- The list without the first occurrence of `a`.
unfoldable pub erase : ℕ → List ℕ → List ℕ
erase a [] = []
erase a (x ∷ xs) = if x == a then xs else x ∷ erase a xs

pub contains-count : (a : ℕ) (xs : List ℕ) → contains a xs ≡ true → 0 < count a xs
unfolding contains count
contains-count a [] h = absurd (ground arith)
contains-count a (x ∷ xs) h = ground (arith, contains-count a xs)

pub not-contains-count : (a : ℕ) (xs : List ℕ) → contains a xs ≡ false → count a xs ≡ 0
unfolding contains count
not-contains-count a [] h = refl
not-contains-count a (x ∷ xs) h = ground (arith, not-contains-count a xs)

pub count-contains : (a : ℕ) (xs : List ℕ) → 0 < count a xs → contains a xs ≡ true
unfolding contains count
count-contains a [] h = absurd (omega arith)
count-contains a (x ∷ xs) h = ground (arith, count-contains a xs)

pub count-erase :
    (a c : ℕ) (xs : List ℕ)
    → 0 < count c xs
    → count a (erase c xs) + (if c == a then 1 else 0) ≡ count a xs
unfolding count erase
count-erase a c [] h = absurd (omega arith)
count-erase a c (x ∷ xs) h = ground (arith, count-erase a c xs)

pub count-append : (a : ℕ) (xs ys : List ℕ) → count a (xs ++ ys) ≡ count a xs + count a ys
unfolding count
count-append a [] ys = omega arith
count-append a (x ∷ xs) ys = omega (arith, count-append a xs ys)

pub length-erase : (c : ℕ) (xs : List ℕ) → 0 < count c xs → length (erase c xs) + 1 ≡ length xs
unfolding count erase
length-erase c [] h = absurd (omega arith)
length-erase c (x ∷ xs) h = ground (arith, length-erase c xs)
