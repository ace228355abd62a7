-- ===== src/Balancer/Turns.antt =====
-- One call of the weighted round robin, and the share of requests that a weight stands for.
use Prim.Native.Nat.{zero}
use cpp_socket_programming.Prelude.{
  ℤ, pos, negsuc, ℕ, suc, ◌+◌, ◌<◌, ◌≡◌, refl, ap, ◌∙◌, List, [], ◌∷◌, ◌++◌, Option, some, arith,
  length, get_elem?, replicate,
}
use cpp_socket_programming.Balancer.{
  WeightedItem, Turn, spend, next_index, select_weighted, requests,
}

-- The requests in a row that a server of a weight gets: a weight of 0 counts as 1.
abbrev pub share : ℤ → ℕ
share (pos zero) = 1
share (pos (suc n)) = suc n
share (negsuc n) = 0

abbrev pub IsNonneg : List WeightedItem → Type 0
IsNonneg [] = Unit {0}
IsNonneg (s ∷ rest) = (0 < share s.weight) × IsNonneg rest

abbrev pub shares : List WeightedItem → ℕ
shares [] = 0
shares (s ∷ rest) = share s.weight + shares rest

-- One round: every server as often as its share, in the order of the vector.
abbrev pub one_round : List WeightedItem → List (Option WeightedItem)
one_round [] = []
one_round (s ∷ rest) = replicate (share s.weight) (some s) ++ one_round rest

abbrev pub IsSpent : Turn → Type 0
IsSpent t = spend t.left ≡ pos 0

pub get_elem?-middle :
    {T : Type 0} (before : List T) (x : T) (after : List T)
    → get_elem? (before ++ x ∷ after) (length before) ≡ some x
get_elem?-middle [] x after = refl
get_elem?-middle (y ∷ before) x after = get_elem?-middle before x after

pub requests-append :
    {S A : Type 0} (f : S → S × A) (m n : ℕ) (s : S)
    → requests f (m + n) s ≡ (
      (requests f n (requests f m s).0).0,
      (requests f m s).1 ++ (requests f n (requests f m s).0).1,
    )
unfolding requests
requests-append f zero n s = ap (λ t. requests f t s) {x = 0 + n} {y = n} (omega arith)
requests-append {S} {A} f (suc m) n s =
    ap (λ t. requests f t s) {x = suc m + n} {y = suc (m + n)} (omega arith)
    ∙ ap (λ (r : S × List A). (r.0, (f s).1 ∷ r.1)) (requests-append f m n (f s).0)

-- A call at a turn that is spent goes on to the next server.
pub select-next :
    (servers : List WeightedItem) (t : Turn) (i : ℕ) (s : WeightedItem)
    → next_index t.current (length servers) ≡ i
    → get_elem? servers i ≡ some s
    → IsSpent t
    → select_weighted t servers ≡ (record { current = some i; left = s.weight }, some s)
unfolding select_weighted
select-next [] t i s next e spent = cc
select-next (x ∷ rest) t i s next e spent = rw (spent, next, e)

-- A call at a turn with more than one request left stays.
pub select-stay :
    (servers : List WeightedItem) (i m : ℕ) (s : WeightedItem)
    → get_elem? servers i ≡ some s
    → select_weighted (record { current = some i; left = pos (suc (suc m)) }) servers
      ≡ (record { current = some i; left = pos (suc m) }, some s)
unfolding select_weighted
select-stay [] i m s e = cc
select-stay (x ∷ rest) i m s e = ground arith

-- A call at a turn with a negative rest stays, and leaves the turn as it is.
pub select-negative :
    (servers : List WeightedItem) (i m : ℕ) (s : WeightedItem)
    → get_elem? servers i ≡ some s
    → select_weighted (record { current = some i; left = negsuc m }) servers
      ≡ (record { current = some i; left = negsuc m }, some s)
unfolding select_weighted
select-negative [] i m s e = cc
select-negative (x ∷ rest) i m s e = ground arith
